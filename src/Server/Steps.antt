-- ===== src/Server/Steps.antt =====
-- What every request keeps of the storage, if the methods of the storage keep it.
use citadel_runtime.Common.{ℕ, ◌≡◌, refl, sym, Option, some, [], ◌∷◌, arith, inl, inr, Option-cases}
use citadel_runtime.Common.Result.{
  Result, ok, err, panic, Exec, ◌>>=◌, pure, continue, map_err, Result-cases,
}
use mathlib.Core.Path.{subst}
use citadel_runtime.Common.Map.{BTreeMap}
use citadel_runtime.Foreign.Bitcoin.{Invoice, OutpointReveal}
use citadel_runtime.Model.Contract.{ContractId, contract_with, contract_address}
use citadel_runtime.Storage
use citadel_runtime.Storage.{Storage, Call, run, add, rename, delete, invoice, p2c_tweak, operation}
use citadel_runtime.Storage.Invariant.{IsDistinct, IsProper}
use citadel_runtime.Runtime.Error.{Error, storage_driver}
use citadel_runtime.Runtime.State.{Runtime, on_storage}
use citadel_runtime.Transfer.Prepare.{transfer}
use citadel_runtime.Transfer.Prepare.Closed.{
  After, Preserves, always-After, map_err-After, bind-Preserves, frame-Preserves,
  transfer-Preserves,
}
use citadel_runtime.Sync.{chain_sync}
use citadel_runtime.Sync.Frame.{chain_sync-storage}
use citadel_runtime.Rpc.Request.{Request, NextAddressRequest, SingleSigInfo, ComposeTransferRequest}
use citadel_runtime.Rpc.Reply.{Reply, failed}
use citadel_runtime.Server.{
  handle, add_invoices, reveals_of, next_address, single_sig_contract, answer, rpc_process,
}
use citadel_runtime.Server.Queries.{IsQuery, handle-Asks, mark_address-storage}
use citadel_runtime.Server.Outside.{Backend}

-- `P` is kept by what returns `Ok`, and `F` holds after what does not.
module _ {M : Type 0} (b : Backend M) (P F : Storage → Type 0) (weaken : (s : Storage) → P s → F s)
    (calls : (call : Call) (s : Storage)
      → IsProper call
      → P s
      → After P F
          (run b.services.storage_codec b.conceal call s).0
          (run b.services.storage_codec b.conceal call s).1) where
  abbrev Keeps : {A : Type 0} → Exec Runtime Error A → Type 0
  Keeps = Preserves P F

  then-Keeps :
      {A B : Type 0} (m : Exec Runtime Error A) (f : A → Exec Runtime Error B)
      → Keeps m
      → ((a : A) → Keeps (f a))
      → Keeps (m >>= f)
  then-Keeps = bind-Preserves P F weaken

  frame-Keeps :
      {A : Type 0} (m : Exec Runtime Error A)
      → ((r : Runtime) → (m r).1.storage ≡ r.storage)
      → Keeps m
  frame-Keeps = frame-Preserves P F weaken

  -- a method of the storage, as a call
  call-Keeps :
      (call : Call)
      → IsProper call
      → Keeps (on_storage (run b.services.storage_codec b.conceal call))
  call-Keeps call p r w = map_err-After P F weaken storage_driver _ _ (calls call r.storage p w)

  add_invoices-Keeps :
      (i : Invoice) (m : BTreeMap ContractId (Option OutpointReveal)) → Keeps (add_invoices b i m)
  unfolding add_invoices
  add_invoices-Keeps i [] r w = w
  add_invoices-Keeps i ((id, reveal) ∷ m) r w =
      then-Keeps
        (on_storage
          (Storage.add_invoice b.services.storage_codec b.conceal id i (reveals_of reveal)))
        (λ u. add_invoices b i m) (unfold run in call-Keeps (invoice id i (reveals_of reveal)) tt)
        (λ u. add_invoices-Keeps i m) r w

  query-Keeps : (q : Request) → IsQuery q → Keeps (handle b q)
  query-Keeps q h = frame-Keeps (handle b q) (λ r. (handle-Asks b q h r).0)

  next_address-Keeps : (q : NextAddressRequest) → Keeps (next_address b q)
  unfolding next_address contract_address
  next_address-Keeps q =
      frame-Keeps (next_address b q)
        (λ r. ground (arith, mark_address-storage b q.contract_id q.mark_used))

  -- the result of a call is forgotten
  forget-After :
      {E A : Type 0} (x : Result E A) (s : Storage)
      → After P F (continue {E = E} x s (λ a. pure tt)).0 (continue {E = E} x s (λ a. pure tt)).1
      → After P F x s
  forget-After (ok a) s w = w
  forget-After (err e) s w = w
  forget-After panic s w = w

  add-Keeps :
      (q : SingleSigInfo)
      → Keeps (on_storage (Storage.add_contract b.services.storage_codec (single_sig_contract b q)))
  unfolding IsDistinct contract_with run
  add-Keeps q r w =
      map_err-After P F weaken storage_driver _ _
        (forget-After _ _ (calls (add (single_sig_contract b q)) r.storage tt w))

  transfer-Keeps :
      (q : ComposeTransferRequest)
      → Keeps (transfer b.services q.pay_from q.asset_value q.bitcoin_fee q.transfer_info q.invoice)
  transfer-Keeps q =
      transfer-Preserves b.services P F weaken
        (λ id t s w. unfold run in calls (p2c_tweak id t) s tt w)
        (λ id o s w. unfold run in calls (operation id o) s tt w) q.pay_from q.asset_value
        q.bitcoin_fee q.transfer_info q.invoice

  -- a request that ends by a reply that needs no more steps
  reply-Keeps :
      {A : Type 0} (m : Exec Runtime Error A) (f : A → Reply)
      → Keeps m
      → Keeps (m >>= λ a. pure (f a))
  reply-Keeps m f keeps = then-Keeps m (λ a. pure (f a)) keeps (λ a r w. w)

  handle-Keeps : (q : Request) → Keeps (handle b q)
  unfolding handle run
  handle-Keeps (Request.create_single_sig q) = reply-Keeps _ _ (add-Keeps q)
  handle-Keeps (Request.rename_contract q) =
      reply-Keeps _ _ (call-Keeps (rename q.contract_id q.name) tt)
  handle-Keeps (Request.delete_contract id) = reply-Keeps _ _ (call-Keeps (delete id) tt)
  handle-Keeps (Request.next_address q) = next_address-Keeps q
  handle-Keeps (Request.unuse_address q) =
      frame-Keeps (handle b (Request.unuse_address q)) (λ r. ground arith)
  handle-Keeps (Request.add_invoice q) =
      reply-Keeps _ _ (add_invoices-Keeps q.invoice q.source_info)
  handle-Keeps (Request.compose_transfer q) = reply-Keeps _ _ (transfer-Keeps q)
  handle-Keeps (Request.sync_contract q) =
      frame-Keeps (handle b (Request.sync_contract q)) (λ r. refl)
  handle-Keeps q = query-Keeps q tt

  answer-After :
      (fuel : ℕ) (q : Request) (r : Runtime) (a : Result Error Reply) (r' : Runtime)
      → answer b fuel q r ≡ some (a, r')
      → P r.storage
      → After P F a r'.storage
  unfolding answer
  answer-After fuel (Request.sync_contract q) r a r' h w =
      elim (Option-cases (chain_sync b.services fuel q.contract_id q.lookup_depth r)) [
        | inl e ↦ absurd (ground arith)
        | inr ((x, s), e) ↦
            let same = chain_sync-storage b.services fuel q.contract_id q.lookup_depth r x s e in
            let there : r'.storage ≡ r.storage = ground arith in
            always-After P F weaken a r'.storage (subst P (sym there) w)
      ]
  answer-After fuel q r a r' h w =
      let value : (handle b q r).0 ≡ a = ground arith in
      let state : (handle b q r).1 ≡ r' = ground arith in
      subst (λ (s : Runtime). After P F a s.storage) state
        (subst (λ (x : Result Error Reply). After P F x (handle b q r).1.storage) value
          (handle-Keeps q r w))

  -- the same of a message
  pub rpc_process-After :
      (fuel : ℕ) (raw : M) (r : Runtime) (a : Result Reply Reply) (r' : Runtime)
      → rpc_process b fuel raw r ≡ some (a, r')
      → P r.storage
      → After P F a r'.storage
  unfolding rpc_process
  rpc_process-After fuel raw r a r' h w = elim (Result-cases (b.unmarshall raw)) [
    | inl (q, e) ↦ elim (Option-cases (answer b fuel q r)) [
      | inl n ↦ absurd (ground arith)
      | inr ((x, s), n) ↦
          let value : map_err (failed b.to_string) x ≡ a = ground arith in
          let state : s ≡ r' = ground arith in
          subst (λ (s : Runtime). After P F a s.storage) state
            (subst (λ (y : Result Reply Reply). After P F y s.storage) value
              (map_err-After P F weaken (failed b.to_string) x s.storage
                (answer-After fuel q r x s n w)))
    ]
    | inr (inl (x, e)) ↦
        let same : r ≡ r' = ground arith in
        always-After P F weaken a r'.storage (subst (λ (s : Runtime). P s.storage) same w)
    | inr (inr e) ↦
        let same : r ≡ r' = ground arith in
        always-After P F weaken a r'.storage (subst (λ (s : Runtime). P s.storage) same w)
  ]
