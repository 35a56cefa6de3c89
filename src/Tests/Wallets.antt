-- ===== src/Tests/Wallets.antt =====
-- The cache, run on a contract with two bitcoin outputs, one of which carries an asset, and two
-- addresses.
use citadel_runtime.Common.{ℕ, ◌≡◌, refl, false, none, some, [], ◌∷◌, arith, map_option}
use citadel_runtime.Common.Key.{nat_key, same}
use citadel_runtime.Common.Map.{get, insert}
use citadel_runtime.Common.Set.{HashSet, contains}
use citadel_runtime.Common.Result.{ok}
use citadel_runtime.Model.Utxo.{Utxo, utxo_key, utxo_words}
use citadel_runtime.Cache.{
  Cache, ContractCache, contract_cache, empty_cache, forget_address, unspent_bitcoin_only,
  next_unused_derivation, address_derivation, use_address_derivation, update,
}
use citadel_runtime.Cache.Gathered.{assets_at, worth_all}
use citadel_runtime.Cache.Assets.{unspent_bitcoin_only_iff}
use citadel_runtime.Cache.Derivation.{next_unused_wraps}
use citadel_runtime.Cache.Marking.{use-address_derivation, forget-address_derivation}
use citadel_runtime.Cache.Update.{spendable, contract_cache-update}
use citadel_runtime.Cache.Durable.{Change, use_derivation, run_change, change-restart}
use citadel_runtime.Persist.{store, with}
use citadel_runtime.Tests.{indexes, coin, cache_of, yaml_file}
use citadel_runtime.Tests.Codecs.{cache_codec, cache_bytes, cache_trips}

abbrev known : ContractCache
known = record {
  updated_height = 8;
  used_address_derivations = (50, 2) ∷ (60, 4) ∷ [];
  utxo = [];
  unspent = (0, coin 1 10 ∷ coin 2 30 ∷ []) ∷ (7, coin 2 100 ∷ []) ∷ [];
}

abbrev caches : Cache
caches = cache_of ((3, known) ∷ [])

unspent_bitcoin_only_iff_example :
    (us : HashSet Utxo) × (unspent_bitcoin_only 3 caches ≡ ok us)
    × (contains (coin 2 30) us ≡ false)
unfolding contains same utxo_words assets_at worth_all get
unspent_bitcoin_only_iff_example = unspent_bitcoin_only_iff 3 caches known (coin 2 30) refl

abbrev exhausted : Cache
exhausted = cache_of ((3, record known { used_address_derivations = (50, 0) ∷ (60, 10) ∷ [] }) ∷ [])

next_unused_wraps_example : next_unused_derivation indexes 3 exhausted ≡ ok 0
unfolding get same address_derivation
next_unused_wraps_example =
    next_unused_wraps indexes 3 exhausted 60 (omega arith, (omega arith, tt)) refl

use-address_derivation_example :
    address_derivation 3 70 (use_address_derivation cache_codec 3 70 6 caches).1 ≡ some 6
unfolding get same address_derivation
use-address_derivation_example = use-address_derivation cache_codec 3 3 70 70 6 caches

contract_cache-update_example :
    (c : ContractCache) × (contract_cache 3
        (update cache_codec 3 [] (some 9) [] ((0, coin 1 0 ∷ coin 2 30 ∷ []) ∷ []) caches).1
      ≡ some c)
    × (c.utxo ≡ [])
    × ((a : ℕ)
        → get a c.unspent ≡ map_option spendable (get a ((0, coin 1 0 ∷ coin 2 30 ∷ []) ∷ [])))
    × (c.used_address_derivations ≡ (50, 2) ∷ (60, 4) ∷ [])
    × (c.updated_height ≡ 9)
unfolding get same
contract_cache-update_example =
    contract_cache-update cache_codec 3 3 [] (some 9) [] ((0, coin 1 0 ∷ coin 2 30 ∷ []) ∷ [])
      caches

forget-address_derivation_example :
    address_derivation 3 50 (forget_address cache_codec 3 50 caches).1 ≡ none
unfolding get same
forget-address_derivation_example = forget-address_derivation cache_codec 3 3 50 50 caches

abbrev small : Cache
small = cache_of ((3, record known { unspent = [] }) ∷ [])

abbrev marking : Change
marking = use_derivation 3 70 6

kept : (run_change cache_codec marking small).0 ≡ ok tt
unfolding run_change use_address_derivation get same store cache_bytes insert
kept = refl

change-restart_example :
    (d' : Cache) × (with cache_codec yaml_file
        (some (run_change cache_codec marking small).1.fd.bytes)
        []
        empty_cache
      ≡ ok d')
    × (d'.content ≡ (run_change cache_codec marking small).1.content)
change-restart_example = change-restart cache_codec cache_trips marking small empty_cache kept
