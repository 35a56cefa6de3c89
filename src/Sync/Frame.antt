-- ===== src/Sync/Frame.antt =====
-- Synchronization leaves the contracts alone.
use citadel_runtime.Common.{ℕ, ◌≡◌, refl, List, some, arith, inl, inr, Option-cases, unwrap_or}
use citadel_runtime.Common.Result.{Result, ok, err, panic, Result-cases}
use citadel_runtime.Common.Map.{BTreeMap}
use citadel_runtime.Foreign.Bitcoin.{AssetId}
use citadel_runtime.Model.Utxo.{Utxo}
use citadel_runtime.Model.Contract.{Contract, ContractId}
use citadel_runtime.Cache
use citadel_runtime.Storage
use citadel_runtime.Runtime.Error.{Error}
use citadel_runtime.Runtime.State.{Runtime, Services}
use citadel_runtime.Sync.{chain_sync, scan_contract, finish, store_assets}
use citadel_runtime.Sync.Scan.{Progress, nothing, known_scripts}
use citadel_runtime.Sync.Rounds.{sync_loop}
use citadel_runtime.Sync.Assign.{assign_assets}

module _ (sv : Services) where
  store_assets-storage :
      (id : ContractId) (p : Progress) (a : Result Error (BTreeMap AssetId (List Utxo)))
      (r : Runtime)
      → (store_assets sv id p a r).1.storage ≡ r.storage
  unfolding store_assets
  store_assets-storage id p (ok a) r = refl
  store_assets-storage id p (err e) r = refl
  store_assets-storage id p panic r = refl

  finish-storage :
      (id : ContractId) (p : Result Error Progress) (r : Runtime)
      → (finish sv id p r).1.storage ≡ r.storage
  unfolding finish
  finish-storage id (ok p) r = store_assets-storage id p (assign_assets sv p.unspent p.outpoints) _
  finish-storage id (err e) r = refl
  finish-storage id panic r = refl

  scan_contract-storage :
      (fuel : ℕ) (id : ContractId) (depth : ℕ) (c : Result Storage.Error Contract) (r : Runtime)
      (a : Result Error (BTreeMap AssetId (List Utxo))) (r' : Runtime)
      → scan_contract sv fuel id depth c r ≡ some (a, r')
      → r'.storage ≡ r.storage
  unfolding scan_contract
  scan_contract-storage fuel id depth (err e) r a r' h = ground arith
  scan_contract-storage fuel id depth panic r a r' h = ground arith
  scan_contract-storage fuel id depth (ok c) r a r' h =
      elim (Option-cases (
        sync_loop sv c (unwrap_or (Cache.last_used_derivation id r.cache) 0) depth fuel
          (known_scripts c.contents.p2c_tweaks) 0 nothing)) [
            | inl e ↦ absurd (ground arith)
            | inr (p, e) ↦ ground (arith, finish-storage id p r)
          ]

  pub chain_sync-storage :
      (fuel : ℕ) (id : ContractId) (depth : ℕ) (r : Runtime)
      (a : Result Error (BTreeMap AssetId (List Utxo))) (r' : Runtime)
      → chain_sync sv fuel id depth r ≡ some (a, r')
      → r'.storage ≡ r.storage
  unfolding chain_sync
  chain_sync-storage fuel id depth r a r' h = elim (Result-cases sv.connect) [
    | inl (u, e) ↦
        ground
          (arith, scan_contract-storage fuel id depth (Storage.contract_ref id r.storage) r a r')
    | inr (inl (x, e)) ↦ ground arith
    | inr (inr e) ↦ ground arith
  ]
