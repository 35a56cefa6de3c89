-- ===== src/Server.antt =====
-- `rpc_process` of `src/runtime/rpc_server.rs`: what the server does for each request.
pub mod Outside
pub mod Queries
pub mod Address
pub mod Found
pub mod Accept
pub mod Steps
pub mod CacheSteps
pub mod Contracts
pub mod Restart
pub mod Disk
pub mod Replies
pub mod Service
use Prim.Native.String.{String}
use citadel_runtime.Common.{
  ℕ, Bool, true, false, Option, none, some, List, [], ◌∷◌, ◌++◌, map, map_option, unwrap_or, filter,
  if◌then◌else◌,
}
use citadel_runtime.Common.Key.{nat_key}
use citadel_runtime.Common.Map.{BTreeMap, get}
use citadel_runtime.Common.Set.{contains}
use citadel_runtime.Common.Result.{
  Result, ok, err, panic, Exec, ◌>>=◌, ◌>>◌, pure, lift, ok_or, map_ok, map_err, and_then, continue,
}
use citadel_runtime.Foreign.Bitcoin.{Invoice, OutPoint, OutpointReveal, Psbt, Transaction}
use citadel_runtime.Foreign.Wallet.{single_sig}
use citadel_runtime.Model.Utxo.{Utxo}
use citadel_runtime.Model.Policy.{Policy, AddressDerivation}
use citadel_runtime.Model.Contract.{
  Contract, ContractId, ContractMeta, to_meta, contract_with, history, contract_address,
}
use citadel_runtime.Cache
use citadel_runtime.Storage
use citadel_runtime.Runtime.Error
use citadel_runtime.Runtime.Error.{Error}
use citadel_runtime.Runtime.State.{
  Runtime, SealEndpoint, on_storage, on_cache, from_storage, from_cache,
}
use citadel_runtime.Transfer.Prepare.{transfer}
use citadel_runtime.Sync.{chain_sync}
use citadel_runtime.Rpc.Request.{
  SingleSigInfo, SyncContractRequest, NextAddressRequest, AddInvoiceRequest, Request,
}
use citadel_runtime.Rpc.Reply.{Reply, malformed, failed}
use citadel_runtime.Server.Outside.{Backend}

-- `.last()` of a list
unfoldable pub last {ℓ} : {A : Type ℓ} → List A → Option A
last [] = none
last (a ∷ []) = some a
last (a ∷ b ∷ l) = last (b ∷ l)

no_address : Error
no_address =
    Error.server_failure
      (record { code = 0; info = "Unable to derive address for the provided network/chain" })

no_utxo : Error
no_utxo = Error.server_failure (record { code = 0; info = "No UTXO available" })

-- the `filter_map` over the endpoints of a consignment
unfoldable pub blinded : List SealEndpoint → List ℕ
blinded [] = []
blinded (SealEndpoint.tx_outpoint hash ∷ es) = hash ∷ blinded es
blinded (SealEndpoint.witness_vout vout blinding ∷ es) = blinded es

-- the `filter_map` over the blinding factors
unfoldable pub revealed : List ℕ → BTreeMap ℕ OutpointReveal → List OutpointReveal
revealed hashes [] = []
revealed hashes ((hash, reveal) ∷ m) =
    let rest = revealed hashes m in if contains hash hashes then reveal ∷ rest else rest

-- the `flat_map` over the contracts
unfoldable pub revealed_all : List ℕ → List Contract → List OutpointReveal
unfolding revealed
revealed_all hashes [] = []
revealed_all hashes (c ∷ cs) = revealed hashes c.contents.blinding_factors ++ revealed_all hashes cs

-- `outpoint_reveal.map(|r| vec![r]).unwrap_or_default()`
abbrev pub reveals_of : Option OutpointReveal → List OutpointReveal
reveals_of none = []
reveals_of (some r) = r ∷ []

module _ {M : Type 0} (b : Backend M) where
  -- `NextAddress`, from the derived address on: it is marked as used, if that is asked for; an
  -- error of the cache is dropped, and the request has no address
  pub mark_address :
      ContractId → Bool → Option AddressDerivation → Exec Runtime Error (Option AddressDerivation)
  unfolding last
  mark_address id mark_used none r = (ok none, r)
  mark_address id false (some d) r = (ok (some d), r)
  mark_address id true (some d) r = elim (last d.derivation) [
    | none ↦ (panic, r)
    | some index ↦
        let (marked, cache) =
          Cache.use_address_derivation b.services.cache_codec id d.address index r.cache in
        let r' = record r { cache = cache } in
        elim marked [ ok new ↦ (ok (some d), r') | err e ↦ (ok none, r') | panic ↦ (panic, r') ]
  ]

  unfoldable pub next_address : NextAddressRequest → Exec Runtime Error Reply
  unfolding mark_address no_address contract_address
  next_address q = do
    contract ← from_storage (Storage.contract_ref q.contract_id)
    next ← from_cache (Cache.next_unused_derivation b.services.hd q.contract_id)
    derived ← lift (contract_address b.services.api contract (unwrap_or q.index next) q.legacy)
    address ← mark_address q.contract_id q.mark_used derived
    found ← lift (ok_or address no_address)
    pure (Reply.address_derivation found)

  -- `BlindUtxo`, from the outpoints on: the first of them is blinded
  blind_first : List OutPoint → Exec Runtime Error Reply
  unfolding no_utxo
  blind_first [] r = (err no_utxo, r)
  blind_first (o ∷ os) r =
      let (reveal, rng) = b.reveal_of o r.rng in
      (ok (Reply.blind_utxo reveal), record r { rng = rng })

  unfoldable pub blind_utxo : ContractId → Exec Runtime Error Reply
  unfolding blind_first
  blind_utxo id = do outpoints ← from_cache (Cache.utxo id); blind_first outpoints

  -- the loop of `AddInvoice`, which ends at the first error
  unfoldable pub add_invoices :
      Invoice → BTreeMap ContractId (Option OutpointReveal) → Exec Runtime Error (Unit {0})
  add_invoices invoice [] = pure tt
  add_invoices invoice ((id, reveal) ∷ m) = do
    on_storage
        (Storage.add_invoice b.services.storage_codec b.conceal id invoice (reveals_of reveal))
    add_invoices invoice m

  -- `FinalizeTransfer`, from the extracted transaction on
  publish : Result String Transaction → Exec Runtime Error Reply
  publish (err e) r = (ok (Reply.failure (record { code = 0; info = e })), r)
  publish panic r = (panic, r)
  publish (ok tx) r = elim b.services.connect [
    | err e ↦ (err e, r)
    | panic ↦ (panic, r)
    | ok u ↦ (if b.broadcast tx then ok Reply.success else err Error.electrum, r)
  ]

  unfoldable pub finalize_transfer : Psbt → Exec Runtime Error Reply
  unfolding publish
  finalize_transfer p = publish (and_then (b.finalize p) b.extract)

  -- `AcceptTransfer`, from the status on
  accept_valid : ℕ → ℕ → Bool → Exec Runtime Error Reply
  accept_valid consignment status false = pure (Reply.validation status)
  accept_valid consignment status true = do
    cs ← from_storage Storage.contracts
    lift (b.accept consignment (revealed_all (blinded (b.endpoints consignment)) cs))
    pure (Reply.validation status)

  unfoldable pub accept_transfer : ℕ → Exec Runtime Error Reply
  unfolding accept_valid
  accept_transfer consignment = do
    status ← lift (b.validate consignment)
    accept_valid consignment status (b.is_valid status)

  -- the contract of `CreateSingleSig`
  abbrev pub single_sig_contract : SingleSigInfo → Contract
  single_sig_contract q =
      contract_with b.commit b.services.now (Policy.current (single_sig q.category q.pubkey_chain))
        q.name b.chain

  -- `self.storage.f(..).map(|_| Reply::Success)`
  abbrev done : Exec Runtime Error (Unit {0}) → Exec Runtime Error Reply
  done m = do m; pure Reply.success

  -- The arms of the `match`, but for `SyncContract`, whose loop takes fuel.
  unfoldable pub handle : Request → Exec Runtime Error Reply
  unfolding next_address blind_utxo add_invoices finalize_transfer accept_transfer
  handle Request.list_contracts = do
    cs ← from_storage Storage.contracts
    pure (Reply.contracts (map to_meta cs))
  handle (Request.contract_operations id) = do
    c ← from_storage (Storage.contract_ref id)
    pure (Reply.operations (history c))
  handle (Request.sync_contract q) = lift panic
  handle (Request.contract_unspent id) = do
    m ← from_cache (Cache.unspent id)
    pure (Reply.contract_unspent m)
  handle (Request.create_single_sig q) = do
    c ← on_storage (Storage.add_contract b.services.storage_codec (single_sig_contract q))
    pure (Reply.contract (to_meta c))
  handle (Request.rename_contract q) =
      done (on_storage (Storage.rename_contract b.services.storage_codec q.contract_id q.name))
  handle (Request.delete_contract id) =
      done (on_storage (Storage.delete_contract b.services.storage_codec id))
  handle (Request.used_addresses id) = do
    m ← from_cache (Cache.used_address_derivations id)
    pure (Reply.addresses m)
  handle (Request.next_address q) = next_address q
  handle (Request.unuse_address q) = do
    _ ← on_cache (Cache.forget_address b.services.cache_codec q.contract_id q.address)
    pure Reply.success
  handle (Request.blind_utxo id) = blind_utxo id
  handle (Request.list_invoices id) = do
    c ← from_storage (Storage.contract_ref id)
    pure (Reply.invoices c.contents.sent_invoices)
  handle (Request.add_invoice q) = done (add_invoices q.invoice q.source_info)
  handle (Request.compose_transfer q) = do
    p ← transfer b.services q.pay_from q.asset_value q.bitcoin_fee q.transfer_info q.invoice
    pure (Reply.prepared_payment p)
  handle (Request.finalize_transfer p) = finalize_transfer p
  handle (Request.accept_transfer consignment) = accept_transfer consignment
  handle Request.list_identities = lift panic
  handle (Request.add_signer i) = lift panic
  handle (Request.add_identity i) = lift panic
  handle Request.list_assets = do
    bytes ← lift b.list_assets
    found ← lift (map_err Error.strict_encoding (b.decode_assets bytes))
    pure (Reply.assets found)
  handle (Request.import_asset genesis) = do a ← lift (b.import_asset genesis); pure (Reply.asset a)

  -- the `match`: `none` means that the fuel of `chain_sync` ran out
  pub answer : ℕ → Request → Runtime → Option (Result Error Reply × Runtime)
  unfolding handle
  answer fuel (Request.sync_contract q) r =
      map_option (λ a. (map_ok Reply.contract_unspent a.0, a.1))
        (chain_sync b.services fuel q.contract_id q.lookup_depth r)
  answer fuel q r = some (handle q r)

  -- `Runtime::rpc_process`
  unfoldable pub rpc_process : ℕ → M → Runtime → Option (Result Reply Reply × Runtime)
  unfolding answer
  rpc_process fuel raw r = elim (b.unmarshall raw) [
    | err e ↦ some (err (malformed e), r)
    | panic ↦ some (panic, r)
    | ok q ↦ map_option (λ a. (map_err (failed b.to_string) a.0, a.1)) (answer fuel q r)
  ]
