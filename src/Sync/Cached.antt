-- ===== src/Sync/Cached.antt =====
-- Synchronization changes the cache by one call of `update`.
use citadel_runtime.Common.{ℕ, ◌≡◌, List, Option, some, arith, inl, inr, Option-cases, unwrap_or}
use citadel_runtime.Common.Result.{Result, ok, err, panic, Result-cases, map_ok}
use citadel_runtime.Common.Map.{BTreeMap}
use citadel_runtime.Common.Set.{BTreeSet}
use mathlib.Core.Path.{subst}
use citadel_runtime.Foreign.Bitcoin.{AssetId, OutPoint, Txid}
use citadel_runtime.Model.Utxo.{Utxo}
use citadel_runtime.Model.Contract.{Contract, ContractId}
use citadel_runtime.Cache
use citadel_runtime.Cache.{Cache}
use citadel_runtime.Storage
use citadel_runtime.Runtime.Error.{Error, cache_driver}
use citadel_runtime.Runtime.State.{Runtime, Services}
use citadel_runtime.Sync.{chain_sync, scan_contract, finish, store_assets}
use citadel_runtime.Sync.Scan.{Progress, nothing, known_scripts}
use citadel_runtime.Sync.Rounds.{sync_loop}
use citadel_runtime.Sync.Assign.{assign_assets}
use citadel_runtime.Transfer.Prepare.Closed.{After, map_err-After, always-After}

pub map_ok-After :
    {S E A B : Type 0} (P F : S → Type 0) (f : A → B) (x : Result E A) (s : S)
    → After P F x s
    → After P F (map_ok f x) s
map_ok-After P F f (ok a) s w = w
map_ok-After P F f (err e) s w = w
map_ok-After P F f panic s w = w

module _ (sv : Services) (P F : Cache → Type 0) (weaken : (s : Cache) → P s → F s)
    (refresh : (id : ContractId) (m : BTreeMap (ℕ × ℕ) Txid) (h : Option ℕ) (u : BTreeSet OutPoint)
        (a : BTreeMap AssetId (List Utxo)) (s : Cache)
      → P s
      → After P F
          (Cache.update sv.cache_codec id m h u a s).0
          (Cache.update sv.cache_codec id m h u a s).1) where
  abbrev Out : Type 0
  Out = Result Error (BTreeMap AssetId (List Utxo))

  store_assets-After :
      (id : ContractId) (p : Progress) (a : Out) (r : Runtime)
      → P r.cache
      → After P F (store_assets sv id p a r).0 (store_assets sv id p a r).1.cache
  unfolding store_assets
  store_assets-After id p (ok a) r w = map_ok-After P F _ _ _ (
      map_err-After P F weaken cache_driver _ _
        (refresh id p.mine_info (some r.known_height) p.outpoints a r.cache w))
  store_assets-After id p (err e) r w = weaken r.cache w
  store_assets-After id p panic r w = weaken r.cache w

  finish-After :
      (id : ContractId) (p : Result Error Progress) (r : Runtime)
      → P r.cache
      → After P F (finish sv id p r).0 (finish sv id p r).1.cache
  unfolding finish
  finish-After id (ok p) r w = store_assets-After id p (assign_assets sv p.unspent p.outpoints) _ w
  finish-After id (err e) r w = weaken r.cache w
  finish-After id panic r w = weaken r.cache w

  moved :
      (x : Out × Runtime) (a : Out) (r : Runtime)
      → x ≡ (a, r)
      → After P F x.0 x.1.cache
      → After P F a r.cache
  moved x a r e w = subst (λ (y : Out × Runtime). After P F y.0 y.1.cache) e w

  scan_contract-After :
      (fuel : ℕ) (id : ContractId) (depth : ℕ) (c : Result Storage.Error Contract) (r : Runtime)
      (a : Out) (r' : Runtime)
      → scan_contract sv fuel id depth c r ≡ some (a, r')
      → P r.cache
      → After P F a r'.cache
  unfolding scan_contract
  scan_contract-After fuel id depth (err e) r a r' h w =
      let same : r ≡ r' = ground arith in
      always-After P F weaken a r'.cache (subst (λ (s : Runtime). P s.cache) same w)
  scan_contract-After fuel id depth panic r a r' h w =
      let same : r ≡ r' = ground arith in
      always-After P F weaken a r'.cache (subst (λ (s : Runtime). P s.cache) same w)
  scan_contract-After fuel id depth (ok c) r a r' h w =
      elim (Option-cases (
        sync_loop sv c (unwrap_or (Cache.last_used_derivation id r.cache) 0) depth fuel
          (known_scripts c.contents.p2c_tweaks) 0 nothing)) [
            | inl e ↦ absurd (ground arith)
            | inr (p, e) ↦ moved (finish sv id p r) a r' (ground arith) (finish-After id p r w)
          ]

  pub chain_sync-After :
      (fuel : ℕ) (id : ContractId) (depth : ℕ) (r : Runtime) (a : Out) (r' : Runtime)
      → chain_sync sv fuel id depth r ≡ some (a, r')
      → P r.cache
      → After P F a r'.cache
  unfolding chain_sync
  chain_sync-After fuel id depth r a r' h w = elim (Result-cases sv.connect) [
    | inl (u, e) ↦
        scan_contract-After fuel id depth (Storage.contract_ref id r.storage) r a r' (ground arith)
          w
    | inr (inl (x, e)) ↦
        let same : r ≡ r' = ground arith in
        always-After P F weaken a r'.cache (subst (λ (s : Runtime). P s.cache) same w)
    | inr (inr e) ↦
        let same : r ≡ r' = ground arith in
        always-After P F weaken a r'.cache (subst (λ (s : Runtime). P s.cache) same w)
  ]
