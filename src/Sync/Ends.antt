-- ===== src/Sync/Ends.antt =====
-- When `chain_sync` as a whole ends.
use citadel_runtime.Common.{ℕ, ◌≢◌, ◌<◌, none, arith, inl, inr, Option-cases, unwrap_or}
use citadel_runtime.Common.Result.{Result, ok, err, panic, Result-cases}
use citadel_runtime.Model.Contract.{Contract, ContractId}
use citadel_runtime.Cache
use citadel_runtime.Storage
use citadel_runtime.Runtime.State.{Runtime, Services}
use citadel_runtime.Sync.{chain_sync, scan_contract}
use citadel_runtime.Sync.Scan.{nothing, known_scripts}
use citadel_runtime.Sync.Rounds.{sync_loop}
use citadel_runtime.Sync.Rounds.Stops.{sync_loop_ends}

module _ (sv : Services) where
  scan_contract_ends :
      (fuel : ℕ) (id : ContractId) (depth : ℕ) (c : Result Storage.Error Contract) (r : Runtime)
      → 0 < depth
      → sv.hd.largest < fuel
      → scan_contract sv fuel id depth c r ≢ none
  unfolding scan_contract
  scan_contract_ends fuel id depth (err e) r d f = ground arith
  scan_contract_ends fuel id depth panic r d f = ground arith
  scan_contract_ends fuel id depth (ok c) r d f =
      let last_used = unwrap_or (Cache.last_used_derivation id r.cache) 0 in
      let scripts = known_scripts c.contents.p2c_tweaks in
      let ends =
        sync_loop_ends sv c last_used depth fuel scripts 0 nothing d (omega arith) (omega arith) in
      elim (Option-cases (sync_loop sv c last_used depth fuel scripts 0 nothing)) [
        | inl e ↦ absurd (ends e)
        | inr (p, e) ↦ ground arith
      ]

  -- With a positive lookup depth `chain_sync` ends, whatever the servers answer: more fuel than
  -- the largest index is enough.
  pub chain_sync_ends :
      (fuel : ℕ) (id : ContractId) (depth : ℕ) (r : Runtime)
      → 0 < depth
      → sv.hd.largest < fuel
      → chain_sync sv fuel id depth r ≢ none
  unfolding chain_sync
  chain_sync_ends fuel id depth r d f = elim (Result-cases sv.connect) [
    | inl (u, e) ↦
        ground (arith, scan_contract_ends fuel id depth (Storage.contract_ref id r.storage) r d f)
    | inr (inl (x, e)) ↦ ground arith
    | inr (inr e) ↦ ground arith
  ]
