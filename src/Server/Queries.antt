-- ===== src/Server/Queries.antt =====
-- Requests that only ask.
use Prim.Native.String.{String}
use citadel_runtime.Common.{
  ℕ, ◌≡◌, ◌∙◌, refl, Bool, true, false, Option, none, some, List, [], ◌∷◌, arith, inl, inr,
}
use citadel_runtime.Common.Result.{Result, ok, err, panic, Exec, ◌>>=◌, lift, Result-cases}
use citadel_runtime.Foreign.Bitcoin.{OutPoint, Transaction}
use citadel_runtime.Model.Policy.{AddressDerivation}
use citadel_runtime.Model.Contract.{ContractId}
use citadel_runtime.Cache
use citadel_runtime.Runtime.Error.{Error}
use citadel_runtime.Runtime.State.{Runtime, from_cache}
use citadel_runtime.Rpc.Request.{Request, NextAddressRequest}
use citadel_runtime.Rpc.Reply.{Reply}
use citadel_runtime.Server.{
  handle, mark_address, next_address, blind_first, publish, accept_valid, accept_transfer,
  finalize_transfer, answer, rpc_process, blind_utxo,
}
use citadel_runtime.Server.Outside.{Backend}

-- the requests that change neither the contracts nor the cache
abbrev pub IsQuery : Request → Type 0
IsQuery Request.list_contracts = Unit
IsQuery (Request.contract_operations id) = Unit
IsQuery (Request.contract_unspent id) = Unit
IsQuery (Request.used_addresses id) = Unit
IsQuery (Request.next_address q) = q.mark_used ≡ false
IsQuery (Request.blind_utxo id) = Unit
IsQuery (Request.list_invoices id) = Unit
IsQuery (Request.finalize_transfer p) = Unit
IsQuery (Request.accept_transfer c) = Unit
IsQuery Request.list_identities = Unit
IsQuery (Request.add_signer i) = Unit
IsQuery (Request.add_identity i) = Unit
IsQuery Request.list_assets = Unit
IsQuery (Request.import_asset g) = Unit
IsQuery (Request.sync_contract q) = ⊥
IsQuery (Request.create_single_sig q) = ⊥
IsQuery (Request.rename_contract q) = ⊥
IsQuery (Request.delete_contract id) = ⊥
IsQuery (Request.unuse_address q) = ⊥
IsQuery (Request.add_invoice q) = ⊥
IsQuery (Request.compose_transfer q) = ⊥

-- the requests that take no fuel
abbrev pub IsHandled : Request → Type 0
IsHandled (Request.sync_contract q) = ⊥
IsHandled q = Unit

-- neither the contracts nor the cache differ, in memory and on disk
abbrev pub Same : Runtime → Runtime → Type 0
Same r r' = (r'.storage ≡ r.storage) × (r'.cache ≡ r.cache)

abbrev Asks : {A : Type 0} → Exec Runtime Error A → Type 0
Asks m = (r : Runtime) → Same r (m r).1

bind-Asks :
    {A B : Type 0} (m : Exec Runtime Error A) (f : A → Exec Runtime Error B)
    → Asks m
    → ((a : A) → Asks (f a))
    → Asks (m >>= f)
bind-Asks m f asks next r = elim (Result-cases (m r).0) [
  | inl (a, e) ↦ rw e ((next a (m r).1).0 ∙ (asks r).0, (next a (m r).1).1 ∙ (asks r).1)
  | inr (inl (x, e)) ↦ rw e (asks r)
  | inr (inr e) ↦ rw e (asks r)
]

module _ {M : Type 0} (b : Backend M) where
  pub mark_address-storage :
      (id : ContractId) (used : Bool) (d : Option AddressDerivation) (r : Runtime)
      → (mark_address b id used d r).1.storage ≡ r.storage
  unfolding mark_address
  mark_address-storage id used none r = refl
  mark_address-storage id false (some d) r = refl
  mark_address-storage id true (some d) r = ground arith

  blind_first-Asks : (os : List OutPoint) → Asks (blind_first b os)
  unfolding blind_first
  blind_first-Asks [] r = (refl, refl)
  blind_first-Asks (o ∷ os) r = (refl, refl)

  publish-Asks : (tx : Result String Transaction) → Asks (publish b tx)
  unfolding publish
  publish-Asks (ok tx) r = ground arith
  publish-Asks (err e) r = (refl, refl)
  publish-Asks panic r = (refl, refl)

  accept_valid-Asks :
      (consignment status : ℕ) (valid : Bool) → Asks (accept_valid b consignment status valid)
  unfolding accept_valid
  accept_valid-Asks consignment status false r = (refl, refl)
  accept_valid-Asks consignment status true r = ground arith

  accept_transfer-Asks : (consignment : ℕ) → Asks (accept_transfer b consignment)
  unfolding accept_transfer
  accept_transfer-Asks consignment =
      bind-Asks (lift (b.validate consignment)) _ (λ r. (refl, refl))
        (λ status. accept_valid-Asks consignment status (b.is_valid status))

  next_address-Asks : (q : NextAddressRequest) → q.mark_used ≡ false → Asks (next_address b q)
  unfolding next_address mark_address
  next_address-Asks q h r = ground arith

  pub handle-Asks : (q : Request) → IsQuery q → Asks (handle b q)
  unfolding handle
  handle-Asks (Request.next_address q) h r = next_address-Asks q h r
  handle-Asks (Request.blind_utxo id) h r =
      unfold blind_utxo in
      bind-Asks (from_cache (Cache.utxo id)) _ (λ r. (refl, refl)) blind_first-Asks r
  handle-Asks (Request.finalize_transfer p) h r = unfold finalize_transfer in publish-Asks _ r
  handle-Asks (Request.accept_transfer c) h r = accept_transfer-Asks c r
  handle-Asks (Request.sync_contract q) h r = absurd h
  handle-Asks (Request.create_single_sig q) h r = absurd h
  handle-Asks (Request.rename_contract q) h r = absurd h
  handle-Asks (Request.delete_contract id) h r = absurd h
  handle-Asks (Request.unuse_address q) h r = absurd h
  handle-Asks (Request.add_invoice q) h r = absurd h
  handle-Asks (Request.compose_transfer q) h r = absurd h
  handle-Asks q h r = ground arith

  pub answer-handle :
      (fuel : ℕ) (q : Request) (r : Runtime) → IsHandled q → answer b fuel q r ≡ some (handle b q r)
  unfolding answer
  answer-handle fuel (Request.sync_contract q) r h = absurd h
  answer-handle fuel q r h = refl

  query-IsHandled : (q : Request) → IsQuery q → IsHandled q
  query-IsHandled (Request.sync_contract q) h = h
  query-IsHandled q h = tt

  -- A request that only asks, and a message that is no request, leave the contracts and the cache
  -- as they were, in memory and on disk, whatever the servers answer.
  pub rpc_process-Asks :
      (fuel : ℕ) (raw : M) (r r' : Runtime) (a : Result Reply Reply)
      → ((q : Request) → b.unmarshall raw ≡ ok q → IsQuery q)
      → rpc_process b fuel raw r ≡ some (a, r')
      → Same r r'
  unfolding rpc_process
  rpc_process-Asks fuel raw r r' a asks h = elim (Result-cases (b.unmarshall raw)) [
    | inl (q, e) ↦
        ground
          (arith, answer-handle fuel q r (query-IsHandled q (asks q e)), handle-Asks q (asks q e) r)
    | inr (inl (x, e)) ↦ ground arith
    | inr (inr e) ↦ ground arith
  ]
