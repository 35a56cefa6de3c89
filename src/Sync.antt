-- ===== src/Sync.antt =====
-- `Runtime::chain_sync` of `src/runtime/processor/chain_sync.rs`.
pub mod Scan
pub mod Rounds
pub mod Assign
pub mod Ends
pub mod Ran
pub mod Complete
pub mod Tweaked
pub mod Frame
pub mod Cached
use citadel_runtime.Common.{
  ℕ, zero, suc, ◌%◌, Bool, true, false, Option, none, some, map_option, unwrap_or, List, [], ◌∷◌,
  ltb, ◌==◌, if◌then◌else◌, u32_mod,
}
use citadel_runtime.Common.Map.{BTreeMap}
use citadel_runtime.Common.Result.{Result, ok, err, panic, Exec, map_ok}
use citadel_runtime.Foreign.Bitcoin.{AssetId}
use citadel_runtime.Model.Utxo.{Utxo}
use citadel_runtime.Model.Contract.{Contract, ContractId}
use citadel_runtime.Cache
use citadel_runtime.Storage
use citadel_runtime.Runtime.Error.{Error, storage_driver}
use citadel_runtime.Runtime.State.{Runtime, Services, on_cache}
use citadel_runtime.Sync.Scan.{Progress, nothing, known_scripts}
use citadel_runtime.Sync.Rounds.{sync_loop}
use citadel_runtime.Sync.Assign.{assign_assets}

-- the height of the last header that was popped
last_height : List ℕ → ℕ → ℕ
last_height [] known = known
last_height (h ∷ hs) known = last_height hs (h % u32_mod)

module _ (sv : Services) where
  -- `cache.update` and the result
  store_assets :
      ContractId
      → Progress
      → Result Error (BTreeMap AssetId (List Utxo))
      → Exec Runtime Error (BTreeMap AssetId (List Utxo))
  store_assets contract_id p (err e) r = (err e, r)
  store_assets contract_id p panic r = (panic, r)
  store_assets contract_id p (ok assets) r =
      let (a, r') =
        on_cache
          (Cache.update sv.cache_codec contract_id p.mine_info (some r.known_height) p.outpoints
            assets)
          r in
      (map_ok (λ _. assets) a, r')

  -- what follows the loop: the height, the assets, and the update of the cache
  finish : ContractId → Result Error Progress → Exec Runtime Error (BTreeMap AssetId (List Utxo))
  unfolding last_height store_assets
  finish contract_id (err e) r = (err e, r)
  finish contract_id panic r = (panic, r)
  finish contract_id (ok p) r =
      store_assets contract_id p (assign_assets sv p.unspent p.outpoints)
        (record r { known_height = last_height sv.header_heights r.known_height })

  -- the loop for a contract that was found
  scan_contract :
      ℕ
      → ContractId
      → ℕ
      → Result Storage.Error Contract
      → Runtime
      → Option (Result Error (BTreeMap AssetId (List Utxo)) × Runtime)
  unfolding finish
  scan_contract fuel contract_id depth (err e) r = some (err (storage_driver e), r)
  scan_contract fuel contract_id depth panic r = some (panic, r)
  scan_contract fuel contract_id depth (ok c) r =
      map_option (λ p. finish contract_id p r)
        (sync_loop sv c (unwrap_or (Cache.last_used_derivation contract_id r.cache) 0) depth fuel
          (known_scripts c.contents.p2c_tweaks) 0 nothing)

  -- `Runtime::chain_sync`: `none` means that the fuel of the loop ran out
  unfoldable pub chain_sync :
      ℕ → ContractId → ℕ → Runtime → Option (Result Error (BTreeMap AssetId (List Utxo)) × Runtime)
  unfolding scan_contract
  chain_sync fuel contract_id lookup_depth r = elim sv.connect [
    | err e ↦ some (err e, r)
    | panic ↦ some (panic, r)
    | ok u ↦
        scan_contract fuel contract_id lookup_depth (Storage.contract_ref contract_id r.storage) r
  ]
