-- ===== src/Cache/Gathered.antt =====
-- What `allocations` of the cache has gathered for each outpoint.
use citadel_runtime.Common.{
  ℕ, ◌+◌, ◌%◌, ◌≡◌, refl, ◌∙◌, Bool, true, false, ◌||◌, Option, none, some, List, [], ◌∷◌, map,
  unwrap_or, if◌then◌else◌, arith, inl, inr, Bool-cases, add64, sum, u64_mod,
}
use citadel_runtime.Common.Key.{nat_key, same, less, same_iff}
use citadel_runtime.Common.Map.{
  BTreeMap, get, insert, remove, get-insert, IsSorted, insert-IsSorted, get-Above, Above-trans,
}
use citadel_runtime.Common.Set.{contains}
use citadel_runtime.Foreign.Bitcoin.{AssetId, bitcoin_id, OutPoint, outpoint_key}
use citadel_runtime.Model.Utxo.{Utxo, Allocations, outpoint, utxo_key}
use citadel_runtime.Cache.{allocate, allocate_all, allocations_of}

-- the value of all assets but bitcoin
unfoldable pub others : BTreeMap AssetId ℕ → ℕ
others [] = 0
others ((a, v) ∷ m) = if same bitcoin_id a then others m else v + others m

pub sum-others : (m : BTreeMap AssetId ℕ) → sum (map (λ e. e.1) (remove bitcoin_id m)) ≡ others m
unfolding others remove sum
sum-others [] = refl
sum-others ((a, v) ∷ m) = ground (arith, sum-others m, same_iff bitcoin_id a, same_iff a bitcoin_id)

-- one more amount of an asset
others-insert :
    (a : AssetId) (t v : ℕ) (m : BTreeMap AssetId ℕ)
    → IsSorted m
    → unwrap_or (get a m) 0 ≡ t
    → others (insert a (add64 t v) m) % u64_mod
      ≡ (others m + (if same bitcoin_id a then 0 else v)) % u64_mod
unfolding others insert get
others-insert a t v [] s h = ground arith
others-insert a t v ((j, w) ∷ m) s h = elim (Bool-cases (same j a)) [
  | inl e ↦ ground (arith, same_iff j a, same_iff bitcoin_id j)
  | inr n ↦ elim (Bool-cases (less a j)) [
    | inl l ↦ ground (arith, get-Above a m (Above-trans a j m l s.0))
    | inr g ↦ ground (arith, others-insert a t v m s.1)
  ]
]

-- What the outputs at `o` in the lists of a map are worth, bitcoin left out.
abbrev pub worth : Utxo → OutPoint → ℕ
worth u o = if same (outpoint u) o then u.value else 0

unfoldable pub worth_all : List Utxo → OutPoint → ℕ
worth_all [] o = 0
worth_all (u ∷ us) o = worth u o + worth_all us o

unfoldable pub assets_at : BTreeMap AssetId (List Utxo) → OutPoint → ℕ
assets_at [] o = 0
assets_at ((a, us) ∷ m) o = (if same bitcoin_id a then 0 else worth_all us o) + assets_at m o

-- some output at `o` is in the map
touches : List Utxo → OutPoint → Bool
touches [] o = false
touches (u ∷ us) o = if same (outpoint u) o then true else touches us o

pub touched : BTreeMap AssetId (List Utxo) → OutPoint → Bool
touched [] o = false
touched ((a, us) ∷ m) o = touches us o || touched m o

abbrev pub is_some : {A : Type 0} → Option A → Bool
is_some none = false
is_some (some a) = true

-- What the fold has gathered: `seen o` of assets on `o`, and an entry where `hit o`.
pub record Gathered (m : Allocations) (seen : OutPoint → ℕ) (hit : OutPoint → Bool) : Type 0 where
  pub outer : IsSorted m
  pub inner : (o : OutPoint) → IsSorted (unwrap_or (get o m) [])
  pub total : (o : OutPoint) → others (unwrap_or (get o m) []) % u64_mod ≡ seen o % u64_mod
  pub entry : (o : OutPoint) → is_some (get o m) ≡ hit o

Gathered-allocate :
    (a : AssetId) (u : Utxo) (m : Allocations) (seen : OutPoint → ℕ) (hit : OutPoint → Bool)
    → Gathered m seen hit
    → Gathered
        (allocate a u m)
        (λ o. seen o + (if same bitcoin_id a then 0 else worth u o))
        (λ o. same (outpoint u) o || hit o)
unfolding allocate
Gathered-allocate a u m seen hit g = record {
  outer = insert-IsSorted (outpoint u) new m g.outer;
  inner = λ o. elim (Bool-cases (same (outpoint u) o)) [
    | inl e ↦
        rw (get-insert (outpoint u) o new m, e) (insert-IsSorted a _ old (g.inner (outpoint u)))
    | inr n ↦ rw (get-insert (outpoint u) o new m, n) (g.inner o)
  ];
  total = λ o. ground (
    arith,
    get-insert (outpoint u) o new m,
    others-insert a (unwrap_or (get a old) 0) u.value old (g.inner (outpoint u)) refl,
    g.total (outpoint u),
    g.total o,
    same_iff (outpoint u) o,
  );
  entry = λ o. ground (arith, get-insert (outpoint u) o new m, g.entry o);
}
  where
    old : BTreeMap AssetId ℕ
    old = unwrap_or (get (outpoint u) m) []

    new : BTreeMap AssetId ℕ
    new = insert a (add64 (unwrap_or (get a old) 0) u.value) old

abbrev asset_worth : AssetId → List Utxo → OutPoint → ℕ
asset_worth a us o = if same bitcoin_id a then 0 else worth_all us o

-- `Gathered` depends on `seen` only point by point.
Gathered-eq :
    (m : Allocations) (seen seen' : OutPoint → ℕ) (hit hit' : OutPoint → Bool)
    → ((o : OutPoint) → seen o ≡ seen' o)
    → ((o : OutPoint) → hit o ≡ hit' o)
    → Gathered m seen hit
    → Gathered m seen' hit'
Gathered-eq m seen seen' hit hit' p q g = record {
  outer = g.outer;
  inner = g.inner;
  total = λ o. ground (arith, g.total o, p o);
  entry = λ o. g.entry o ∙ q o;
}

Gathered-allocate_all :
    (a : AssetId) (us : List Utxo) (m : Allocations) (seen : OutPoint → ℕ) (hit : OutPoint → Bool)
    → Gathered m seen hit
    → Gathered (allocate_all a us m) (λ o. seen o + asset_worth a us o) (λ o. touches us o || hit o)
unfolding allocate_all worth_all touches
Gathered-allocate_all a [] m seen hit g =
    Gathered-eq m seen (λ o. seen o + asset_worth a [] o) hit hit (λ o. ground arith) (λ o. refl) g
Gathered-allocate_all a (u ∷ us) m seen hit g =
    Gathered-eq _ _ (λ o. seen o + asset_worth a (u ∷ us) o) _ (λ o. touches (u ∷ us) o || hit o)
      (λ o. ground arith) (λ o. ground arith)
      (Gathered-allocate_all a us (allocate a u m)
        (λ o. seen o + (if same bitcoin_id a then 0 else worth u o))
        (λ o. same (outpoint u) o || hit o) (Gathered-allocate a u m seen hit g))

Gathered-allocations_of :
    (l : BTreeMap AssetId (List Utxo)) (m : Allocations) (seen : OutPoint → ℕ)
    (hit : OutPoint → Bool)
    → Gathered m seen hit
    → Gathered (allocations_of l m) (λ o. seen o + assets_at l o) (λ o. touched l o || hit o)
unfolding allocations_of assets_at touched
Gathered-allocations_of [] m seen hit g =
    Gathered-eq m seen (λ o. seen o + 0) hit hit (λ o. ground arith) (λ o. refl) g
Gathered-allocations_of ((a, us) ∷ l) m seen hit g =
    Gathered-eq _ _ (λ o. seen o + assets_at ((a, us) ∷ l) o) _
      (λ o. touched ((a, us) ∷ l) o || hit o) (λ o. ground arith) (λ o. ground arith)
      (Gathered-allocations_of l (allocate_all a us m) (λ o. seen o + asset_worth a us o)
        (λ o. touches us o || hit o) (Gathered-allocate_all a us m seen hit g))

pub Gathered-all :
    (l : BTreeMap AssetId (List Utxo)) → Gathered (allocations_of l []) (assets_at l) (touched l)
unfolding get others
Gathered-all l =
    Gathered-eq _ _ (assets_at l) _ (touched l) (λ o. ground arith) (λ o. ground arith)
      (Gathered-allocations_of l [] (λ o. 0) (λ o. false)
        (record { outer = tt; inner = λ o. tt; total = λ o. refl; entry = λ o. refl }))

contains-touches :
    (u : Utxo) (us : List Utxo) → contains u us ≡ true → touches us (outpoint u) ≡ true
unfolding contains touches
contains-touches u [] h = cc
contains-touches u (v ∷ us) h =
    ground (arith, contains-touches u us, same_iff v u, same_iff (outpoint v) (outpoint u))

pub get-touched :
    (a : AssetId) (u : Utxo) (us : List Utxo) (l : BTreeMap AssetId (List Utxo))
    → get a l ≡ some us
    → contains u us ≡ true
    → touched l (outpoint u) ≡ true
unfolding get touched
get-touched a u us [] h c = cc
get-touched a u us ((b, vs) ∷ l) h c = ground (arith, get-touched a u us l, contains-touches u us)
