-- ===== src/Client/Outside.antt =====
-- What `src/client/client.rs` calls of other crates: the session with the server, the invoices,
-- the addresses and the genesis of an asset.
use Prim.Native.String.{String}
use citadel_runtime.Common.{ℕ, Bool, Option}
use citadel_runtime.Common.Result.{Result, Exec}
use citadel_runtime.Foreign.Bitcoin.{AssetId, Address, Invoice, OutpointReveal, Transaction, Txid}
use citadel_runtime.Runtime.Error.{Error}
use citadel_runtime.Rpc.Request.{Request}
use citadel_runtime.Rpc.Reply.{Reply}

-- `invoice::Beneficiary`, the cases that the program matches on
pub data Beneficiary : Type 0 where
  address : Address → Beneficiary
  blind_utxo : ℕ → Beneficiary
  descriptor : ℕ → Beneficiary
  other : ℕ → Beneficiary

-- `invoice::AssetClass`, likewise
pub data AssetClass : Type 0 where
  native : AssetClass
  rgb : AssetId → AssetClass
  invalid_native_chain : AssetClass
  unsupported : AssetClass

-- `W` is the state of all that lies behind the socket, and `M` the type of the raw messages.
pub record Backend (W M : Type 0) : Type 0 where
  -- `session_rpc`
  pub send_raw_message : M → Exec W Error (Unit {0})
  pub recv_raw_message : Exec W Error M
  pub serialize : Request → M
  pub unmarshall : M → Result Error Reply
  -- `Invoice::new`, its setters, and what it is asked for
  pub new_invoice : Beneficiary → ℕ → Option AssetId → Invoice
  pub set_merchant : ℕ → Invoice → Invoice
  pub set_purpose : ℕ → Invoice → Invoice
  pub rgb_asset : Invoice → Option AssetId
  pub beneficiary : Invoice → Beneficiary
  pub classify_asset : Invoice → ℕ → AssetClass
  pub atomic_value : Invoice → Option ℕ
  -- `AssetId::from`, and the commitment of a blinded outpoint
  pub asset_from : AssetId → AssetId
  pub conceal : OutpointReveal → ℕ
  -- whether the network of an address is that of bitcoin, its chain, and the asset of a chain
  pub is_mainnet : Address → Bool
  pub chain_of : Address → ℕ
  pub native_asset : ℕ → AssetId
  -- `Compact::try_from` of the script of an address
  pub compact : Address → Option ℕ
  pub txid_of : Transaction → Txid
  -- `Genesis::from_str`
  pub genesis_from_str : String → Option ℕ
