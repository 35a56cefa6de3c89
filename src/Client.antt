-- ===== src/Client.antt =====
-- `src/client/client.rs`: the methods of the client, each of which asks the server.
pub mod Outside
pub mod Session
pub mod Invoices
pub mod Payments
use Prim.Native.String.{String}
use citadel_runtime.Common.{
  ℕ, Bool, true, false, Option, none, some, List, [], ◌∷◌, map_option, unwrap_or, if◌then◌else◌,
}
use citadel_runtime.Common.Result.{
  Result, ok, err, panic, Exec, ◌>>=◌, ◌>>◌, pure, lift, ok_or, and_then, map_ok,
}
use citadel_runtime.Foreign.Bitcoin.{AssetId, Address, Invoice, OutpointReveal, Psbt, Txid}
use citadel_runtime.Model.Policy.{AddressDerivation}
use citadel_runtime.Model.Contract.{ContractId}
use citadel_runtime.Runtime.Config.{ZmqSocketAddr}
use citadel_runtime.Runtime.Error
use citadel_runtime.Runtime.Error.{Error}
use citadel_runtime.Runtime.Message.{TransferInfo, PreparedTransfer, RgbReceiver}
use citadel_runtime.Rpc.Request.{Request}
use citadel_runtime.Rpc.Reply.{Reply}
use citadel_runtime.Client.Outside.{Beneficiary, AssetClass, Backend}

pub data InvoiceType : Type 0 where
  address_utxo descriptor psbt : InvoiceType

pub record Config : Type 0 where
  pub rpc_endpoint : ZmqSocketAddr
  pub verbose : ℕ

-- `Err(failure)?` and `Err(Error::UnexpectedApi)?`, for a reply that is not the one asked for
unfoldable pub refused : {A : Type 0} → Reply → Result Error A
refused (Reply.failure f) = err (Error.server_failure f)
refused reply = err Error.unexpected_api

unfoldable pub seal_of : Reply → Result Error OutpointReveal
unfolding refused
seal_of (Reply.blind_utxo seal) = ok seal
seal_of reply = refused reply

unfoldable pub address_of : Reply → Result Error Address
unfolding refused
address_of (Reply.address_derivation ad) = ok ad.address
address_of reply = refused reply

unfoldable pub payment_of : Reply → Result Error PreparedTransfer
unfolding refused
payment_of (Reply.prepared_payment p) = ok p
payment_of reply = refused reply

unfoldable pub success_of : Reply → Result Error (Unit {0})
unfolding refused
success_of Reply.success = ok tt
success_of reply = refused reply

unfoldable pub status_of : Reply → Result Error ℕ
unfolding refused
status_of (Reply.validation status) = ok status
status_of reply = refused reply

-- `Error::ServerFailure(Failure { code: 0, info })`
abbrev pub client_failure : String → Error
client_failure info = Error.server_failure (record { code = 0; info = info })

no_amount : Error
no_amount =
    client_failure
      "Amount must be specified for invoices if they do not provide default amount value"

module _ {W M : Type 0} (b : Backend W M) where
  -- `Client::request`
  unfoldable pub request : Request → Exec W Error Reply
  request q = do
    b.send_raw_message (b.serialize q)
    raw ← b.recv_raw_message
    lift (b.unmarshall raw)

  unfoldable pub contract_list : Exec W Error Reply
  contract_list = request Request.list_contracts

  unfoldable pub single_sig_create : ℕ → ℕ → ℕ → Exec W Error Reply
  single_sig_create name pubkey_chain category = request (
      Request.create_single_sig
        (record { name = name; pubkey_chain = pubkey_chain; category = category }))

  unfoldable pub contract_operations : ContractId → Exec W Error Reply
  contract_operations id = request (Request.contract_operations id)

  unfoldable pub contract_rename : ContractId → ℕ → Exec W Error Reply
  contract_rename id name =
      request (Request.rename_contract (record { contract_id = id; name = name }))

  unfoldable pub contract_delete : ContractId → Exec W Error Reply
  contract_delete id = request (Request.delete_contract id)

  unfoldable pub contract_balance : ContractId → Bool → ℕ → Exec W Error Reply
  contract_balance id true lookup_depth =
      request (Request.sync_contract (record { contract_id = id; lookup_depth = lookup_depth }))
  contract_balance id false lookup_depth = request (Request.contract_unspent id)

  unfoldable pub address_list : ContractId → Bool → ℕ → Exec W Error Reply
  address_list id true lookup_depth = do
    request (Request.sync_contract (record { contract_id = id; lookup_depth = lookup_depth }))
    request (Request.used_addresses id)
  address_list id false lookup_depth = request (Request.used_addresses id)

  unfoldable pub address_create : ContractId → Option ℕ → Bool → Bool → Exec W Error Reply
  address_create id index mark_used legacy = request (
      Request.next_address
        (record { contract_id = id; index = index; legacy = legacy; mark_used = mark_used }))

  -- the first `match` of `invoice_create`: the beneficiary, what is revealed, and the asset
  beneficiary_for :
      InvoiceType
      → ContractId
      → Option AssetId
      → Bool
      → Bool
      → Exec W Error (Beneficiary × Option OutpointReveal × Option AssetId)
  unfolding request seal_of address_of
  beneficiary_for InvoiceType.address_utxo id (some asset_id) mark_used legacy = do
    reply ← request (Request.blind_utxo id)
    seal ← lift (seal_of reply)
    pure (Beneficiary.blind_utxo (b.conceal seal), some seal, some asset_id)
  beneficiary_for InvoiceType.address_utxo id none mark_used legacy = do
    reply ← request (
        Request.next_address
          (record { contract_id = id; index = none; legacy = legacy; mark_used = mark_used }))
    address ← lift (address_of reply)
    pure (
      Beneficiary.address address,
      none,
      if b.is_mainnet address then none else some (b.native_asset (b.chain_of address)),
    )
  beneficiary_for InvoiceType.descriptor id asset_id mark_used legacy = lift panic
  beneficiary_for InvoiceType.psbt id asset_id mark_used legacy = lift panic

  -- `if let Some(a) = o { inv.set(a) }`
  abbrev pub set_if : (ℕ → Invoice → Invoice) → Option ℕ → Invoice → Invoice
  set_if set none inv = inv
  set_if set (some a) inv = set a inv

  -- `Invoice::new` and the setters
  made_invoice : ℕ → Option ℕ → Option ℕ → Beneficiary → Option AssetId → Invoice
  made_invoice amount merchant purpose beneficiary asset =
      set_if b.set_purpose purpose
        (set_if b.set_merchant merchant (b.new_invoice beneficiary amount asset))

  -- the end of `invoice_create`: the reply to `AddInvoice` is dropped
  register : ContractId → Option OutpointReveal → Invoice → Exec W Error Invoice
  unfolding request
  register id reveal inv = do
    request (Request.add_invoice (record { invoice = inv; source_info = (id, reveal) ∷ [] }))
    pure inv

  unfoldable pub invoice_create :
      InvoiceType
      → ContractId
      → Option AssetId
      → ℕ
      → Option ℕ
      → Option ℕ
      → Bool
      → Bool
      → Exec W Error Invoice
  unfolding beneficiary_for made_invoice register
  invoice_create category id asset_id amount merchant purpose mark_used legacy = do
    found ← beneficiary_for category id (map_option b.asset_from asset_id) mark_used legacy
    let (beneficiary, reveal, asset) = found
    register id reveal (made_invoice amount merchant purpose beneficiary asset)

  unfoldable pub invoice_list : ContractId → Exec W Error Reply
  invoice_list id = request (Request.list_invoices id)

  -- the receiver of an asset
  rgb_receiver : Beneficiary → Result Error RgbReceiver
  rgb_receiver (Beneficiary.address a) =
      err (client_failure "Malformed invoice: RGB assets can't be paid to an address")
  rgb_receiver (Beneficiary.blind_utxo hash) = ok (RgbReceiver.blind_utxo hash)
  rgb_receiver (Beneficiary.descriptor d) = panic
  rgb_receiver (Beneficiary.other n) = panic

  -- the descriptor and the chain of a payment in bitcoins
  bitcoin_receiver : Beneficiary → Result Error (ℕ × ℕ)
  bitcoin_receiver (Beneficiary.address a) = elim (b.compact a) [
    | none ↦ panic
    | some d ↦ ok (d, b.chain_of a)
  ]
  bitcoin_receiver (Beneficiary.blind_utxo hash) =
      err (client_failure "Malformed invoice: bitcoins can't be paid to an existing UTXO")
  bitcoin_receiver (Beneficiary.descriptor d) = panic
  bitcoin_receiver (Beneficiary.other n) = panic

  -- by the class of the asset
  native_transfer : ℕ → AssetClass → Result Error TransferInfo
  native_transfer d AssetClass.native = ok (TransferInfo.bitcoin d)
  native_transfer d (AssetClass.rgb asset_id) = panic
  native_transfer d AssetClass.invalid_native_chain =
      err (client_failure "Current network does not match invoice network")
  native_transfer d AssetClass.unsupported = err (client_failure "Unsupported asset type")

  -- the `transfer_info` of `invoice_pay`
  unfoldable pub transfer_info : Invoice → Result Error TransferInfo
  unfolding rgb_receiver bitcoin_receiver native_transfer
  transfer_info inv = elim (b.rgb_asset inv) [
    | some asset_id ↦ map_ok (TransferInfo.rgb asset_id) (rgb_receiver (b.beneficiary inv))
    | none ↦
        and_then (bitcoin_receiver (b.beneficiary inv))
          (λ e. native_transfer e.0 (b.classify_asset inv e.1))
  ]

  -- `.atomic_value().or(amount)`
  unfoldable pub amount_of : Invoice → Option ℕ → Option ℕ
  amount_of inv amount = elim (b.atomic_value inv) [ none ↦ amount | some v ↦ some v ]

  -- `invoice_pay`; the giveaway is not used
  unfoldable pub invoice_pay :
      ContractId → Invoice → Option ℕ → ℕ → Option ℕ → Exec W Error PreparedTransfer
  unfolding transfer_info amount_of no_amount request payment_of
  invoice_pay id inv amount fee giveaway = do
    info ← lift (transfer_info inv)
    value ← lift (ok_or (amount_of inv amount) no_amount)
    reply ← request (
        Request.compose_transfer (record {
          pay_from = id;
          bitcoin_fee = fee;
          asset_value = value;
          transfer_info = info;
          invoice = inv;
        }))
    lift (payment_of reply)

  unfoldable pub finalize_publish_psbt : Psbt → Exec W Error Txid
  unfolding request success_of
  finalize_publish_psbt p = do
    reply ← request (Request.finalize_transfer p)
    lift (success_of reply)
    pure (b.txid_of p.unsigned_tx)

  unfoldable pub invoice_accept : ℕ → Exec W Error ℕ
  unfolding request status_of
  invoice_accept consignment = do
    reply ← request (Request.accept_transfer consignment)
    lift (status_of reply)

  unfoldable pub asset_list : Exec W Error Reply
  asset_list = request Request.list_assets

  unfoldable pub asset_import : String → Exec W Error Reply
  asset_import genesis_bech = do
    genesis ← lift (ok_or (b.genesis_from_str genesis_bech) Error.embedded_node_init_error)
    request (Request.import_asset genesis)
