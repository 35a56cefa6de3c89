-- ===== src/Cache/Marking.antt =====
-- What marking and forgetting an address does to the cache.
use citadel_runtime.Common.{
  ℕ, ◌≡◌, Bool, true, false, ◌&&◌, ◌⊎◌, none, some, map_option, unwrap_or, if◌then◌else◌, ◌==◌,
  arith,
}
use citadel_runtime.Common.Key.{nat_key, same, same_iff}
use citadel_runtime.Common.Map.{get, get-insert, get-remove}
use citadel_runtime.Common.Result.{Result, ok}
use citadel_runtime.Foreign.Bitcoin.{Address}
use citadel_runtime.Model.Contract.{ContractId}
use citadel_runtime.Persist.{Codec}
use citadel_runtime.Persist.Synced.{content-store}
use citadel_runtime.Cache.{
  Error, Cache, CacheData, ContractCache, contract_cache, cache_or_default, address_derivation,
  set_cache, use_address, forget, with_contract, use_address_derivation, forget_address,
}
use citadel_runtime.Cache.Derivation.{address_derivation-used}

-- what `use_address` leaves for each address
use_address-get :
    (a b : Address) (i : ℕ) (c : ContractCache)
    → get b (use_address a i c).1.used_address_derivations ≡ (
        if same a b && unwrap_or (map_option (λ p. p == i) (get a c.used_address_derivations)) true
        then some i
        else get b c.used_address_derivations)
unfolding use_address
use_address-get a b i c = ground (arith, get-insert a b i c.used_address_derivations, same_iff a b)

module _ (codec : Codec CacheData Error) where
  lookup-with_contract :
      {R : Type 0} (id : ContractId) (f : ContractCache → Result Error R × ContractCache)
      (d : Cache) (j : ContractId)
      → contract_cache j (with_contract codec id f d).1
        ≡ (if same id j then some (f (cache_or_default id d)).1 else contract_cache j d)
  unfolding with_contract
  lookup-with_contract id f d j = ground (
    arith,
    content-store codec (set_cache id (f (cache_or_default id d)).1 d),
    get-insert id j (f (cache_or_default id d)).1 d.content.descriptors,
  )

  with_contract-used :
      {R : Type 0} (id j : ContractId) (f : ContractCache → Result Error R × ContractCache)
      (d : Cache) (b : Address)
      → address_derivation j b (with_contract codec id f d).1 ≡ (
          if same id j
          then get b (f (cache_or_default id d)).1.used_address_derivations
          else address_derivation j b d)
  unfolding address_derivation
  with_contract-used id j f d b = ground (arith, lookup-with_contract id f d j)

  -- Marking an address as used: what every address of every contract maps to afterwards, whether
  -- the file could be written or not. If the address has another index, nothing changes;
  -- otherwise it has the given index, and all else is as before.
  pub use-address_derivation :
      (id j : ContractId) (a b : Address) (i : ℕ) (d : Cache)
      → address_derivation j b (use_address_derivation codec id a i d).1 ≡ (
          if same id j
            && same a b
            && unwrap_or (map_option (λ p. p == i) (address_derivation id a d)) true
          then some i
          else address_derivation j b d)
  unfolding use_address_derivation
  use-address_derivation id j a b i d = ground (
    arith,
    same_iff id j,
    with_contract-used id j (use_address a i) d b,
    use_address-get a b i (cache_or_default id d),
    address_derivation-used id a d,
    address_derivation-used id b d,
  )

  -- When an address is marked with success, it had no other index, and the result says whether it
  -- is new.
  pub use_address_ok :
      (id : ContractId) (a : Address) (i : ℕ) (d : Cache) (r : Bool)
      → (use_address_derivation codec id a i d).0 ≡ ok r
      → ((r ≡ true) × (address_derivation id a d ≡ none))
        ⊎ ((r ≡ false) × (address_derivation id a d ≡ some i))
  unfolding use_address_derivation
  use_address_ok id a i d r h = ground (arith, address_derivation-used id a d)

  -- Forgetting an address: it has no index afterwards, and all else is as before, whether the
  -- file could be written or not.
  pub forget-address_derivation :
      (id j : ContractId) (a b : Address) (d : Cache)
      → address_derivation j b (forget_address codec id a d).1
        ≡ (if same id j && same a b then none else address_derivation j b d)
  unfolding forget_address
  forget-address_derivation id j a b d = ground (
    arith,
    same_iff id j,
    with_contract-used id j (forget a) d b,
    get-remove a b (cache_or_default id d).used_address_derivations,
    address_derivation-used id b d,
  )
