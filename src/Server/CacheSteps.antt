-- ===== src/Server/CacheSteps.antt =====
-- What every request keeps of the cache, if the methods of the cache keep it.
use citadel_runtime.Common.{
  ℕ, ◌≡◌, sym, Bool, true, false, Option, some, none, List, [], ◌∷◌, arith, inl, inr, Option-cases,
  unwrap_or,
}
use citadel_runtime.Common.Result.{
  Result, ok, err, panic, Exec, ◌>>=◌, pure, lift, ok_or, continue, map_err, map_ok, Result-cases,
}
use mathlib.Core.Path.{subst}
use citadel_runtime.Common.Map.{BTreeMap}
use citadel_runtime.Common.Set.{BTreeSet}
use citadel_runtime.Model.Utxo.{Utxo}
use citadel_runtime.Foreign.Bitcoin.{AssetId, OutPoint, Txid, Invoice, OutpointReveal}
use citadel_runtime.Model.Policy.{AddressDerivation}
use citadel_runtime.Model.Contract.{ContractId, contract_address}
use citadel_runtime.Storage
use citadel_runtime.Cache
use citadel_runtime.Cache.{Cache}
use citadel_runtime.Cache.Durable.{
  Change, use_derivation, forget_derivation, refresh, run_change, forgetting,
}
use citadel_runtime.Runtime.Error.{Error, cache_driver}
use citadel_runtime.Runtime.State.{Runtime, on_storage, on_cache, from_storage, from_cache}
use citadel_runtime.Transfer.Change.Cached.{CacheKeeps, bind-CacheKeeps, frame-CacheKeeps}
use citadel_runtime.Transfer.Prepare.Closed.{After, always-After, map_err-After}
use citadel_runtime.Transfer.Prepare.Cached.{transfer-CacheKeeps}
use citadel_runtime.Sync.{chain_sync}
use citadel_runtime.Sync.Cached.{chain_sync-After, map_ok-After}
use citadel_runtime.Rpc.Request.{Request, NextAddressRequest}
use citadel_runtime.Rpc.Reply.{Reply, failed}
use citadel_runtime.Server.{
  handle, add_invoices, reveals_of, next_address, mark_address, no_address, last, answer,
  rpc_process,
}
use citadel_runtime.Server.Queries.{IsQuery, handle-Asks}
use citadel_runtime.Server.Outside.{Backend}

-- `P` is kept by what returns `Ok`, and `F` holds after what does not.
module _ {M : Type 0} (b : Backend M) (P F : Cache → Type 0) (weaken : (s : Cache) → P s → F s)
    (changes : (change : Change) (s : Cache)
      → P s
      → After P F
          (run_change b.services.cache_codec change s).0
          (run_change b.services.cache_codec change s).1) where
  abbrev Keeps : {A : Type 0} → Exec Runtime Error A → Type 0
  Keeps = CacheKeeps P F

  then-Keeps :
      {A B : Type 0} (m : Exec Runtime Error A) (f : A → Exec Runtime Error B)
      → Keeps m
      → ((a : A) → Keeps (f a))
      → Keeps (m >>= f)
  then-Keeps = bind-CacheKeeps P F weaken

  told-After :
      {R : Type 0} (x : Result Cache.Error R × Cache)
      → After P F (forgetting b.services.cache_codec x).0 (forgetting b.services.cache_codec x).1
      → After P F x.0 x.1
  told-After (ok a, s) w = w
  told-After (err e, s) w = w
  told-After (panic, s) w = w

  use-After :
      (id a i : ℕ) (s : Cache)
      → P s
      → After P F
          (Cache.use_address_derivation b.services.cache_codec id a i s).0
          (Cache.use_address_derivation b.services.cache_codec id a i s).1
  unfolding run_change
  use-After id a i s w = told-After _ (changes (use_derivation id a i) s w)

  forget-After :
      (id a : ℕ) (s : Cache)
      → P s
      → After P F
          (Cache.forget_address b.services.cache_codec id a s).0
          (Cache.forget_address b.services.cache_codec id a s).1
  unfolding run_change
  forget-After id a s w = told-After _ (changes (forget_derivation id a) s w)

  refresh-After :
      (id : ContractId) (m : BTreeMap (ℕ × ℕ) Txid) (h : Option ℕ) (u : BTreeSet OutPoint)
      (a : BTreeMap AssetId (List Utxo)) (s : Cache)
      → P s
      → After P F
          (Cache.update b.services.cache_codec id m h u a s).0
          (Cache.update b.services.cache_codec id m h u a s).1
  unfolding run_change
  refresh-After id m h u a s w = changes (refresh id m h u a) s w

  -- the reply of `NextAddress` to the address it has
  told : Option AddressDerivation → Exec Runtime Error Reply
  told address = do found ← lift (ok_or address no_address); pure (Reply.address_derivation found)

  told-Keeps :
      (m : Exec Runtime Error (Option AddressDerivation)) (r : Runtime)
      (y : Result Error (Option AddressDerivation) × Runtime)
      → m r ≡ y
      → After P F (continue y.0 y.1 told).0 (continue y.0 y.1 told).1.cache
      → After P F ((m >>= told) r).0 ((m >>= told) r).1.cache
  told-Keeps m r y e w =
      subst
        (λ (y : Result Error (Option AddressDerivation) × Runtime).
          After P F (continue y.0 y.1 told).0 (continue y.0 y.1 told).1.cache)
        (sym e) w

  -- an address whose mark was not saved is an error
  marked-Keeps :
      (id : ContractId) (used : Bool) (o : Option AddressDerivation)
      → Keeps (mark_address b id used o >>= told)
  unfolding mark_address told
  marked-Keeps id used none r w = weaken r.cache w
  marked-Keeps id false (some d) r w = w
  marked-Keeps id true (some d) r w = elim (Option-cases (last d.derivation)) [
    | inl e ↦
        told-Keeps (mark_address b id true (some d)) r (panic, r) (ground arith) (weaken r.cache w)
    | inr (i, e) ↦
        let saved = Cache.use_address_derivation b.services.cache_codec id d.address i r.cache in
        let after = use-After id d.address i r.cache w in
        let r' = record r { cache = saved.1 } in
        elim (Result-cases saved.0) [
          | inl (x, m) ↦
              told-Keeps (mark_address b id true (some d)) r (ok (some d), r') (ground arith)
                (rw m at after)
          | inr (inl (x, m)) ↦
              told-Keeps (mark_address b id true (some d)) r (ok none, r') (ground arith)
                (rw m at after)
          | inr (inr m) ↦
              told-Keeps (mark_address b id true (some d)) r (panic, r') (ground arith)
                (rw m at after)
        ]
  ]

  next_address-Keeps : (q : NextAddressRequest) → Keeps (next_address b q)
  unfolding next_address told
  next_address-Keeps q =
      then-Keeps (from_storage (Storage.contract_ref q.contract_id)) _
        (λ r w. always-After P F weaken _ _ w)
        (λ contract.
          then-Keeps (from_cache (Cache.next_unused_derivation b.services.hd q.contract_id)) _
            (λ r w. always-After P F weaken _ _ w)
            (λ next.
              then-Keeps
                (lift (contract_address b.services.api contract (unwrap_or q.index next) q.legacy))
                _ (λ r w. always-After P F weaken _ _ w)
                (λ derived. marked-Keeps q.contract_id q.mark_used derived)))

  add_invoices-Keeps :
      (i : Invoice) (m : BTreeMap ContractId (Option OutpointReveal)) → Keeps (add_invoices b i m)
  unfolding add_invoices
  add_invoices-Keeps i [] r w = w
  add_invoices-Keeps i ((id, reveal) ∷ m) r w =
      then-Keeps
        (on_storage
          (Storage.add_invoice b.services.storage_codec b.conceal id i (reveals_of reveal)))
        (λ u. add_invoices b i m) (λ r w. always-After P F weaken _ _ w)
        (λ u. add_invoices-Keeps i m) r w

  query-Keeps : (q : Request) → IsQuery q → Keeps (handle b q)
  query-Keeps q h = frame-CacheKeeps P F weaken (handle b q) (λ r. (handle-Asks b q h r).1)

  -- a request that ends by a reply that needs no more steps
  reply-Keeps :
      {A : Type 0} (m : Exec Runtime Error A) (f : A → Reply)
      → Keeps m
      → Keeps (m >>= λ a. pure (f a))
  reply-Keeps m f keeps = then-Keeps m (λ a. pure (f a)) keeps (λ a r w. w)

  handle-Keeps : (q : Request) → Keeps (handle b q)
  unfolding handle
  handle-Keeps (Request.create_single_sig q) =
      reply-Keeps _ _ (λ r w. always-After P F weaken _ _ w)
  handle-Keeps (Request.rename_contract q) = reply-Keeps _ _ (λ r w. always-After P F weaken _ _ w)
  handle-Keeps (Request.delete_contract id) = reply-Keeps _ _ (λ r w. always-After P F weaken _ _ w)
  handle-Keeps (Request.next_address q) = next_address-Keeps q
  handle-Keeps (Request.unuse_address q) =
      reply-Keeps (on_cache (Cache.forget_address b.services.cache_codec q.contract_id q.address)) _
        (λ r w.
          map_err-After P F weaken cache_driver _ _
            (forget-After q.contract_id q.address r.cache w))
  handle-Keeps (Request.add_invoice q) =
      reply-Keeps _ _ (add_invoices-Keeps q.invoice q.source_info)
  handle-Keeps (Request.compose_transfer q) = reply-Keeps _ _ (
      transfer-CacheKeeps b.services P F weaken use-After q.pay_from q.asset_value q.bitcoin_fee
        q.transfer_info q.invoice)
  handle-Keeps (Request.sync_contract q) = λ r w. weaken r.cache w
  handle-Keeps q = query-Keeps q tt

  moved :
      (x : Result Error Reply × Runtime) (a : Result Error Reply) (r : Runtime)
      → x ≡ (a, r)
      → After P F x.0 x.1.cache
      → After P F a r.cache
  moved x a r e w = subst (λ (y : Result Error Reply × Runtime). After P F y.0 y.1.cache) e w

  answer-After :
      (fuel : ℕ) (q : Request) (r : Runtime) (a : Result Error Reply) (r' : Runtime)
      → answer b fuel q r ≡ some (a, r')
      → P r.cache
      → After P F a r'.cache
  unfolding answer
  answer-After fuel (Request.sync_contract q) r a r' h w =
      elim (Option-cases (chain_sync b.services fuel q.contract_id q.lookup_depth r)) [
        | inl e ↦ absurd (ground arith)
        | inr ((x, s), e) ↦
            moved (map_ok Reply.contract_unspent x, s) a r' (ground arith)
              (map_ok-After P F Reply.contract_unspent x s.cache (
                chain_sync-After b.services P F weaken refresh-After fuel q.contract_id
                  q.lookup_depth r x s e w))
      ]
  answer-After fuel q r a r' h w = moved (handle b q r) a r' (ground arith) (handle-Keeps q r w)

  -- the same of a message
  pub rpc_process-Cache :
      (fuel : ℕ) (raw : M) (r : Runtime) (a : Result Reply Reply) (r' : Runtime)
      → rpc_process b fuel raw r ≡ some (a, r')
      → P r.cache
      → After P F a r'.cache
  unfolding rpc_process
  rpc_process-Cache fuel raw r a r' h w = elim (Result-cases (b.unmarshall raw)) [
    | inl (q, e) ↦ elim (Option-cases (answer b fuel q r)) [
      | inl n ↦ absurd (ground arith)
      | inr ((x, s), n) ↦
          let value : map_err (failed b.to_string) x ≡ a = ground arith in
          let state : s ≡ r' = ground arith in
          subst (λ (s : Runtime). After P F a s.cache) state
            (subst (λ (y : Result Reply Reply). After P F y s.cache) value
              (map_err-After P F weaken (failed b.to_string) x s.cache
                (answer-After fuel q r x s n w)))
    ]
    | inr (inl (x, e)) ↦
        let same : r ≡ r' = ground arith in
        always-After P F weaken a r'.cache (subst (λ (s : Runtime). P s.cache) same w)
    | inr (inr e) ↦
        let same : r ≡ r' = ground arith in
        always-After P F weaken a r'.cache (subst (λ (s : Runtime). P s.cache) same w)
  ]
