-- ===== src/Cache/Durable.antt =====
-- The file of the cache after the methods of `src/cache/file/driver.rs` that change it.
use citadel_runtime.Common.{ℕ, ◌≡◌, Option, some, List, [], arith}
use citadel_runtime.Common.Result.{Result, ok, err, panic}
use citadel_runtime.Common.Map.{BTreeMap}
use citadel_runtime.Common.Set.{BTreeSet}
use citadel_runtime.Foreign.Bitcoin.{Txid, AssetId, OutPoint, Address}
use citadel_runtime.Model.Utxo.{Utxo}
use citadel_runtime.Model.Contract.{ContractId}
use citadel_runtime.Persist.{Codec, with}
use citadel_runtime.Persist.Synced.{IsSynced, store-IsSynced}
use citadel_runtime.Persist.Reload.{RoundTrips, with_synced}
use citadel_runtime.Cache.{
  Error, Cache, CacheData, ContractCache, cache_or_default, set_cache, with_contract, use_address,
  forget, updated, use_address_derivation, forget_address, update,
}

-- The methods that change the cache, as one type of requests.
pub data Change : Type 0 where
  use_derivation : ContractId → Address → ℕ → Change
  forget_derivation : ContractId → Address → Change
  refresh :
      ContractId
      → BTreeMap (ℕ × ℕ) Txid
      → Option ℕ
      → BTreeSet OutPoint
      → BTreeMap AssetId (List Utxo)
      → Change

module _ (codec : Codec CacheData Error) where
  abbrev pub forgetting : {R : Type 0} → Result Error R × Cache → Result Error (Unit {0}) × Cache
  forgetting (ok r, d) = (ok tt, d)
  forgetting (err e, d) = (err e, d)
  forgetting (panic, d) = (panic, d)

  unfoldable pub run_change : Change → Cache → Result Error (Unit {0}) × Cache
  run_change (use_derivation id a i) d = forgetting (use_address_derivation codec id a i d)
  run_change (forget_derivation id a) d = forgetting (forget_address codec id a d)
  run_change (refresh id mine_info height utxo' unspent') d =
      update codec id mine_info height utxo' unspent' d

  abbrev pub Saved : Result Error (Unit {0}) × Cache → Cache → Type 0
  Saved r d = r.0 ≡ ok tt → IsSynced codec r.1 × (r.1.config ≡ d.config)

  with_contract-Saved :
      {R : Type 0} (id : ContractId) (f : ContractCache → Result Error R × ContractCache)
      (d : Cache)
      → Saved (forgetting (with_contract codec id f d)) d
  unfolding with_contract
  with_contract-Saved id f d h =
      ground (arith, store-IsSynced codec (set_cache id (f (cache_or_default id d)).1 d))

  pub run_change-Saved : (change : Change) (d : Cache) → Saved (run_change change d) d
  unfolding run_change use_address_derivation forget_address
  run_change-Saved (use_derivation id a i) d h = with_contract-Saved id (use_address a i) d h
  run_change-Saved (forget_derivation id a) d h = with_contract-Saved id (forget a) d h
  run_change-Saved (refresh id mine_info height utxo' unspent') d h =
      unfold update in
      ground (
        arith,
        store-IsSynced codec
            (record d { content = updated id mine_info height utxo' unspent' d.content }),
      )

  -- Durability: after marking or forgetting an address, or an update, that returned `Ok`, a cache
  -- that is started on the file has all that the memory had, provided that the deserializers read
  -- back what the serializers write, and that no system call of the start fails.
  pub change-restart :
      (laws : RoundTrips codec) (change : Change) (d : Cache) (empty : CacheData)
      → (run_change change d).0 ≡ ok tt
      → (d' : Cache) × (with codec d.config (some (run_change change d).1.fd.bytes) [] empty
          ≡ ok d')
        × (d'.content ≡ (run_change change d).1.content)
  change-restart laws change d empty h =
      let (synced, same_config) = run_change-Saved change d h in
      let (d', opens, e) = with_synced codec laws (run_change change d).1 empty synced in
      (d', rw same_config at opens, e)
