-- ===== src/Rpc/Request.antt =====
-- `src/rpc/request.rs`, and the parameters of the requests in `src/rpc/message.rs`.
use citadel_runtime.Common.{ℕ, Bool, Option}
use citadel_runtime.Common.Map.{BTreeMap}
use citadel_runtime.Foreign.Bitcoin.{Address, Invoice, OutpointReveal, Psbt}
use citadel_runtime.Model.Contract.{ContractId}
use citadel_runtime.Runtime.Message.{TransferInfo}
use citadel_runtime.Rpc.Info.{SignerAccountInfo, IdentityInfo}

pub record SingleSigInfo : Type 0 where
  pub name : ℕ
  pub pubkey_chain : ℕ
  pub category : ℕ

pub record SyncContractRequest : Type 0 where
  pub contract_id : ContractId
  pub lookup_depth : ℕ

pub record RenameContractRequest : Type 0 where
  pub contract_id : ContractId
  pub name : ℕ

pub record NextAddressRequest : Type 0 where
  pub contract_id : ContractId
  pub index : Option ℕ
  pub legacy : Bool
  pub mark_used : Bool

pub record ContractAddressTuple : Type 0 where
  pub contract_id : ContractId
  pub address : Address

pub record AddInvoiceRequest : Type 0 where
  pub invoice : Invoice
  pub source_info : BTreeMap ContractId (Option OutpointReveal)

pub record ComposeTransferRequest : Type 0 where
  pub pay_from : ContractId
  pub bitcoin_fee : ℕ
  pub asset_value : ℕ
  pub transfer_info : TransferInfo
  pub invoice : Invoice

-- `Request`; a consignment and a genesis are the numbers that stand for them
pub data Request : Type 0 where
  list_contracts : Request
  contract_operations : ContractId → Request
  sync_contract : SyncContractRequest → Request
  contract_unspent : ContractId → Request
  create_single_sig : SingleSigInfo → Request
  rename_contract : RenameContractRequest → Request
  delete_contract : ContractId → Request
  used_addresses : ContractId → Request
  next_address : NextAddressRequest → Request
  unuse_address : ContractAddressTuple → Request
  blind_utxo : ContractId → Request
  list_invoices : ContractId → Request
  add_invoice : AddInvoiceRequest → Request
  compose_transfer : ComposeTransferRequest → Request
  finalize_transfer : Psbt → Request
  accept_transfer : ℕ → Request
  list_identities : Request
  add_signer : SignerAccountInfo → Request
  add_identity : IdentityInfo → Request
  list_assets : Request
  import_asset : ℕ → Request
