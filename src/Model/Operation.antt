-- ===== src/Model/Operation.antt =====
-- `src/model/operation.rs`
pub mod Text
use citadel_runtime.Common.{ℕ, Bool, Option}
use citadel_runtime.Common.Set.{HashSet}
use citadel_runtime.Foreign.Bitcoin.{Txid, AssetId, Invoice, Psbt}

pub data PaymentDirecton : Type 0 where
  incoming : Option ℕ → HashSet ℕ → PaymentDirecton
  -- published, asset_change, bitcoin_change, change_outputs, giveaway, paid_bitcoin_fee,
  -- output_derivation_indexes, invoice
  outcoming : Bool → ℕ → ℕ → HashSet ℕ → Option ℕ → ℕ → HashSet ℕ → Invoice → PaymentDirecton

pub record Operation : Type 0 where
  pub direction : PaymentDirecton
  pub created_at : ℕ
  pub height : ℕ
  pub asset_id : Option AssetId
  pub balance_before : ℕ
  pub bitcoin_volume : ℕ
  pub asset_volume : ℕ
  pub bitcoin_value : ℕ
  pub asset_value : ℕ
  pub tx_fee : ℕ
  pub txid : Txid
  pub psbt : Psbt
  pub disclosure : Option ℕ
  pub notes : Option ℕ
