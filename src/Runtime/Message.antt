-- ===== src/Runtime/Message.antt =====
-- The messages of `src/rpc/message.rs` that the payments use.
use citadel_runtime.Common.{ℕ, Bool, true, false, Option, none, some}
use citadel_runtime.Foreign.Bitcoin.{AssetId, bitcoin_id, Psbt}

pub data RgbReceiver : Type 0 where
  blind_utxo : ℕ → RgbReceiver
  -- the descriptor and the giveaway
  descriptor : ℕ → ℕ → RgbReceiver
  psbt : Psbt → RgbReceiver

pub data TransferInfo : Type 0 where
  bitcoin : ℕ → TransferInfo
  rgb : AssetId → RgbReceiver → TransferInfo

-- `TransferInfo::contract_id`
unfoldable pub contract_id : TransferInfo → AssetId
contract_id (bitcoin d) = bitcoin_id
contract_id (rgb id receiver) = id

-- `TransferInfo::bitcoin_descriptor`
unfoldable pub bitcoin_descriptor : TransferInfo → Option ℕ
bitcoin_descriptor (bitcoin d) = some d
bitcoin_descriptor (rgb id receiver) = none

-- `TransferInfo::rgb_descriptor`
unfoldable pub rgb_descriptor : TransferInfo → Option ℕ
rgb_descriptor (bitcoin d) = none
rgb_descriptor (rgb id (descriptor d giveaway)) = some d
rgb_descriptor (rgb id (blind_utxo h)) = none
rgb_descriptor (rgb id (psbt p)) = none

-- `TransferInfo::is_rgb`
unfoldable pub is_rgb : TransferInfo → Bool
is_rgb (bitcoin d) = false
is_rgb (rgb id receiver) = true

pub record PreparedTransfer : Type 0 where
  pub psbt : Psbt
  pub consignment : Option ℕ
