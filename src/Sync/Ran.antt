-- ===== src/Sync/Ran.antt =====
-- A run of `chain_sync` that succeeds, taken apart.
use citadel_runtime.Common.{ℕ, ◌≡◌, ◌∙◌, ap, some, List, unwrap_or, arith, inl, inr, Option-cases}
use citadel_runtime.Common.Key.{nat_key}
use citadel_runtime.Common.Map.{BTreeMap}
use citadel_runtime.Common.Result.{ok, Result-cases}
use citadel_runtime.Foreign.Bitcoin.{AssetId, outpoint_key}
use citadel_runtime.Model.Utxo.{Utxo}
use citadel_runtime.Model.Contract.{Contract, ContractId}
use citadel_runtime.Cache
use citadel_runtime.Cache.{ContractCache, contract_cache}
use citadel_runtime.Storage
use citadel_runtime.Runtime.State.{Runtime, Services}
use citadel_runtime.Sync.{chain_sync, scan_contract, finish, store_assets, last_height}
use citadel_runtime.Sync.Scan.{Progress, nothing, known_scripts}
use citadel_runtime.Sync.Rounds.{sync_loop}
use citadel_runtime.Sync.Assign.{assign_assets}

-- the parts of a run that succeeds
pub record Ran (sv : Services) (fuel : ℕ) (id : ContractId) (depth : ℕ) (c : Contract) (r : Runtime)
    (assets : BTreeMap AssetId (List Utxo)) (r' : Runtime) : Type 0 where
  pub progress : Progress
  pub looped :
      sync_loop sv c
        (unwrap_or (Cache.last_used_derivation id r.cache) 0)
        depth
        fuel
        (known_scripts c.contents.p2c_tweaks)
        0
        nothing
      ≡ some (ok progress)
  pub assigned : assign_assets sv progress.unspent progress.outpoints ≡ ok assets
  pub height : ℕ
  pub updated :
      r'.cache
      ≡ (Cache.update sv.cache_codec id progress.mine_info
          (some height)
          progress.outpoints
          assets
          r.cache).1

module _ (sv : Services) (fuel : ℕ) (id : ContractId) (depth : ℕ) (r : Runtime)
    (assets : BTreeMap AssetId (List Utxo)) (r' : Runtime) where
  store_assets-Ran :
      (p : Progress) (m : BTreeMap AssetId (List Utxo)) (s : Runtime)
      → store_assets sv id p (ok m) s ≡ (ok assets, r')
      → (m ≡ assets)
        × (r'.cache
            ≡ (Cache.update sv.cache_codec id p.mine_info
                (some s.known_height)
                p.outpoints
                m
                s.cache).1)
  unfolding store_assets
  store_assets-Ran p m s h =
      elim (Result-cases
        (Cache.update sv.cache_codec id p.mine_info (some s.known_height) p.outpoints m
          s.cache).0) [
            | inl (x, e) ↦ (ground arith, ground arith)
            | inr (inl (x, e)) ↦ absurd (ground arith)
            | inr (inr e) ↦ absurd (ground arith)
          ]

  finish-Ran :
      (c : Contract) (p : Progress)
      → sync_loop sv c
          (unwrap_or (Cache.last_used_derivation id r.cache) 0)
          depth
          fuel
          (known_scripts c.contents.p2c_tweaks)
          0
          nothing
        ≡ some (ok p)
      → finish sv id (ok p) r ≡ (ok assets, r')
      → Ran sv fuel id depth c r assets r'
  unfolding finish
  finish-Ran c p l h =
      let height = last_height sv.header_heights r.known_height in
      elim (Result-cases (assign_assets sv p.unspent p.outpoints)) [
        | inl (m, e) ↦
            let (same_assets, cached) =
              store_assets-Ran p m (record r { known_height = height }) (rw e at h) in
            record {
              progress = p;
              looped = l;
              assigned = e ∙ ap ok same_assets;
              height = height;
              updated = rw same_assets at cached;
            }
        | inr (inl (x, e)) ↦ absurd (unfold store_assets in ground arith)
        | inr (inr e) ↦ absurd (unfold store_assets in ground arith)
      ]

  pub chain_sync-Ran :
      (c : Contract)
      → Storage.contract_ref id r.storage ≡ ok c
      → chain_sync sv fuel id depth r ≡ some (ok assets, r')
      → Ran sv fuel id depth c r assets r'
  unfolding chain_sync scan_contract
  chain_sync-Ran c k h = elim (Result-cases sv.connect) [
    | inl (u, e) ↦
        elim (Option-cases (
          sync_loop sv c (unwrap_or (Cache.last_used_derivation id r.cache) 0) depth fuel
            (known_scripts c.contents.p2c_tweaks) 0 nothing)) [
              | inl n ↦ absurd (ground arith)
              | inr (p, n) ↦ elim (Result-cases p) [
                | inl (q, z) ↦ finish-Ran c q (rw z at n) (ground arith)
                | inr (inl (x, z)) ↦ absurd (unfold finish in ground arith)
                | inr (inr z) ↦ absurd (unfold finish in ground arith)
              ]
            ]
    | inr (inl (x, e)) ↦ absurd (ground arith)
    | inr (inr e) ↦ absurd (ground arith)
  ]
