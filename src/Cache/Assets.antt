-- ===== src/Cache/Assets.antt =====
-- Which outputs carry assets: `allocations` and `unspent_bitcoin_only`.
use citadel_runtime.Common.{
  ℕ, ◌%◌, ◌≡◌, refl, ◌∙◌, ap, Bool, true, false, ◌&&◌, ◌⊎◌, Option, none, some, List, [], ◌∷◌, map,
  map_option, unwrap_or, filter, ◌==◌, arith, inl, inr, Option-cases, Bool-cases, sum64, u64_mod,
  sum64-eq-sum,
}
use citadel_runtime.Common.Key.{nat_key, same, same_iff, less-same}
use citadel_runtime.Common.Map.{BTreeMap, get, remove, Above, IsSorted}
use citadel_runtime.Common.Set.{
  HashSet, contains, collect, distinct, contains-collect, contains-distinct, contains-filter,
}
use citadel_runtime.Common.Result.{ok}
use citadel_runtime.Foreign.Bitcoin.{AssetId, bitcoin_id, OutPoint, outpoint_key}
use citadel_runtime.Model.Utxo.{Utxo, Allocations, outpoint, utxo_key}
use citadel_runtime.Model.Contract.{ContractId}
use citadel_runtime.Cache.{
  Cache, ContractCache, contract_cache, allocations_of, without_assets, unspent_bitcoin_only,
}
use citadel_runtime.Cache.Gathered.{others, assets_at, Gathered-all, get-touched, sum-others}

-- an outpoint passes the filter of `unspent_bitcoin_only` if its entry is worth no asset
abbrev passes : Option (BTreeMap AssetId ℕ) → Bool
passes none = false
passes (some assets) = sum64 (map (λ e. e.1) (remove bitcoin_id assets)) == 0

not_in-Above :
    (o p : OutPoint) (m : Allocations)
    → same p o ≡ true
    → Above p m
    → contains o (without_assets m) ≡ false
unfolding without_assets contains
not_in-Above o p [] e s = refl
not_in-Above o p ((q, assets) ∷ m) e s =
    ground (arith, not_in-Above o p m, less-same p q, same_iff p o, same_iff q o, same_iff p q)

contains-without_assets :
    (o : OutPoint) (m : Allocations) → IsSorted m → contains o (without_assets m) ≡ passes (get o m)
unfolding without_assets contains get
contains-without_assets o [] s = refl
contains-without_assets o ((p, assets) ∷ m) s =
    ground (arith, contains-without_assets o m, not_in-Above o p m)

abbrev pub bitcoins : ContractCache → List Utxo
bitcoins c = unwrap_or (get bitcoin_id c.unspent) []

abbrev keeps : ContractCache → Utxo → Bool
keeps c u = contains (outpoint u) (collect (without_assets (allocations_of c.unspent [])))

passes-others :
    (assets : BTreeMap AssetId ℕ) → passes (some assets) ≡ (others assets % u64_mod == 0)
passes-others assets =
    rw (sum64-eq-sum (map (λ e. e.1) (remove bitcoin_id assets)), sum-others assets)

keeps-worth :
    (c : ContractCache) (u : Utxo)
    → contains u (bitcoins c) ≡ true
    → keeps c u ≡ (assets_at c.unspent (outpoint u) % u64_mod == 0)
unfolding contains
keeps-worth c u h = elim (Option-cases (get bitcoin_id c.unspent)) [
  | inl e ↦ absurd (ground arith)
  | inr (us, e) ↦
      let o = outpoint u in
      let all = allocations_of c.unspent [] in
      let g = Gathered-all c.unspent in
      let here : contains u us ≡ true = ground arith in
      let t = get-touched bitcoin_id u us c.unspent e here in
      elim (Option-cases (get o all)) [
        | inl n ↦ absurd (ground (arith, g.entry o))
        | inr (assets, a) ↦ ground (
          arith,
          contains-collect o (without_assets all),
          contains-without_assets o all g.outer,
          passes-others assets,
          g.total o,
        )
      ]
]

contains-bitcoin_only :
    (c : ContractCache) (u : Utxo)
    → contains u (distinct (filter (keeps c) (bitcoins c)))
      ≡ (contains u (bitcoins c) && (assets_at c.unspent (outpoint u) % u64_mod == 0))
contains-bitcoin_only c u =
    contains-distinct u (filter (keeps c) (bitcoins c))
    ∙ contains-filter (keeps c) u (bitcoins c)
    ∙ both (Bool-cases (contains u (bitcoins c)))
  where
    both :
        (contains u (bitcoins c) ≡ true) ⊎ (contains u (bitcoins c) ≡ false)
        → (contains u (bitcoins c) && keeps c u)
          ≡ (contains u (bitcoins c) && (assets_at c.unspent (outpoint u) % u64_mod == 0))
    both (inl e) = rw (keeps-worth c u e)
    both (inr n) = rw n

filter_or_nil :
    (p : Utxo → Bool) (o : Option (HashSet Utxo))
    → unwrap_or (map_option (λ us. distinct (filter p us)) o) []
      ≡ distinct (filter p (unwrap_or o []))
unfolding distinct filter
filter_or_nil p none = refl
filter_or_nil p (some us) = refl

-- For a contract that the cache knows, `unspent_bitcoin_only` returns exactly those of its bitcoin
-- outputs at whose outpoints the recorded outputs of all other assets add up to 0, in `u64`.
pub unspent_bitcoin_only_iff :
    (id : ContractId) (d : Cache) (c : ContractCache) (u : Utxo)
    → contract_cache id d ≡ some c
    → (us : HashSet Utxo) × (unspent_bitcoin_only id d ≡ ok us)
      × (contains u us
          ≡ (contains u (bitcoins c) && (assets_at c.unspent (outpoint u) % u64_mod == 0)))
unfolding unspent_bitcoin_only
unspent_bitcoin_only_iff id d c u h = (
  distinct (filter (keeps c) (bitcoins c)),
  rw h (ap ok (filter_or_nil (keeps c) (get bitcoin_id c.unspent))),
  contains-bitcoin_only c u,
)
