-- ===== src/Cache/Update.antt =====
-- What `update` leaves in the cache.
use citadel_runtime.Common.{
  ℕ, ◌≡◌, refl, Option, some, List, [], ◌∷◌, map_option, unwrap_or, filter, ltb, if◌then◌else◌,
  arith,
}
use citadel_runtime.Common.Key.{nat_key, pair_key, same}
use citadel_runtime.Common.Map.{BTreeMap, get, get-insert}
use citadel_runtime.Common.Set.{BTreeSet, HashSet, distinct}
use citadel_runtime.Foreign.Bitcoin.{Txid, AssetId, OutPoint}
use citadel_runtime.Model.Utxo.{Utxo, utxo_key}
use citadel_runtime.Model.Contract.{ContractId}
use citadel_runtime.Persist.{Codec}
use citadel_runtime.Persist.Synced.{content-store}
use citadel_runtime.Cache.{
  Error, Cache, CacheData, ContractCache, contract_cache, cache_or_default, nonzero, updated,
  update,
}

-- the outputs of a list that are worth something
abbrev pub spendable : List Utxo → HashSet Utxo
spendable us = distinct (filter (λ u. ltb 0 (Utxo.value u)) us)

get-nonzero :
    (a : AssetId) (m : BTreeMap AssetId (List Utxo))
    → get a (nonzero m) ≡ map_option spendable (get a m)
unfolding get nonzero
get-nonzero a [] = refl
get-nonzero a ((b, us) ∷ m) = ground (arith, get-nonzero a m)

module _ (codec : Codec CacheData Error) where
  -- After `update`, whether the file could be written or not: the contract has the given outpoints
  -- and, of each asset, the outputs that are worth something, and the given height if there is
  -- one; its addresses are as before; and what is known of every other contract is as before.
  pub contract_cache-update :
      (id j : ContractId) (mine_info : BTreeMap (ℕ × ℕ) Txid) (height : Option ℕ)
      (utxo' : BTreeSet OutPoint) (unspent' : BTreeMap AssetId (List Utxo)) (d : Cache)
      → (c : ContractCache) × (contract_cache j
            (update codec id mine_info height utxo' unspent' d).1
          ≡ (if same id j then some c else contract_cache j d))
        × (c.utxo ≡ utxo')
        × ((a : AssetId) → get a c.unspent ≡ map_option spendable (get a unspent'))
        × (c.used_address_derivations ≡ (cache_or_default id d).used_address_derivations)
        × (c.updated_height ≡ unwrap_or height (cache_or_default id d).updated_height)
  unfolding update
  contract_cache-update id j mine_info height utxo' unspent' d =
      let c : ContractCache = record (cache_or_default id d) {
        updated_height = unwrap_or height (cache_or_default id d).updated_height;
        utxo = utxo';
        unspent = nonzero unspent';
      } in
      (
        c,
        ground (
          arith,
          content-store codec
              (record d { content = updated id mine_info height utxo' unspent' d.content }),
          get-insert id j c d.content.descriptors,
        ),
        refl,
        λ a. get-nonzero a unspent',
        refl,
        refl,
      )
