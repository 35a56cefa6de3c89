-- ===== src/Common/Map.antt =====
-- `BTreeMap<K, V>` as the list of its entries in the order of the keys, and the sets `BTreeSet`
-- and `HashSet` as lists. The laws hold of every list of entries; `IsSorted` is what a tree map is.
use mathlib.Core.Path.{◌≡◌, refl}
use mathlib.Core.Logic.{inl, inr}
use mathlib.Core.Bool.{true, false}
use mathlib.Core.Option.{Option, none, some}
use mathlib.Core.List.{List, [], ◌∷◌}
use native.Mathlib.Omega.{arith}
use citadel_runtime.Common.Tests.{if◌then◌else◌, Bool-cases}
use citadel_runtime.Common.Lists.{All, Elem, All-Elem}
use citadel_runtime.Common.Key.{Key, same, less, same_iff, less_trans, less_total, less-same}

abbrev pub BTreeMap : Type 0 → Type 0 → Type 0
BTreeMap K V = List (K × V)

module _ {K V : Type 0} ⦃k : Key K⦄ where
  -- `m.get(&key)`
  unfoldable pub get : K → BTreeMap K V → Option V
  get j [] = none
  get j ((i, v) ∷ m) = if same i j then some v else get j m

  -- `m.insert(key, value)`: a value for a key that is there is replaced
  unfoldable pub insert : K → V → BTreeMap K V → BTreeMap K V
  insert i v [] = (i, v) ∷ []
  insert i v ((j, w) ∷ m) =
      if same j i
      then (i, v) ∷ m
      else if less i j
      then (i, v) ∷ (j, w) ∷ m
      else (j, w) ∷ insert i v m

  -- `m.remove(&key)`
  unfoldable pub remove : K → BTreeMap K V → BTreeMap K V
  remove i [] = []
  remove i ((j, w) ∷ m) = let rest = remove i m in if same j i then rest else (j, w) ∷ rest

  -- `m.extend(n)`
  unfoldable pub extend : BTreeMap K V → BTreeMap K V → BTreeMap K V
  extend m [] = m
  extend m ((j, v) ∷ n) = extend (insert j v m) n

  pub get-insert :
      (i j : K) (v : V) (m : BTreeMap K V)
      → get j (insert i v m) ≡ (if same i j then some v else get j m)
  unfolding get insert
  get-insert i j v [] = refl
  get-insert i j v ((h, w) ∷ m) =
      ground (arith, get-insert i j v m, same_iff h i, same_iff h j, same_iff i j)

  pub get-remove :
      (i j : K) (m : BTreeMap K V) → get j (remove i m) ≡ (if same i j then none else get j m)
  unfolding get remove
  get-remove i j [] = ground arith
  get-remove i j ((h, w) ∷ m) =
      ground (arith, get-remove i j m, same_iff h i, same_iff h j, same_iff i j)

  pub Elem-get : (j : K) (v : V) (m : BTreeMap K V) → get j m ≡ some v → Elem (j, v) m
  unfolding get
  Elem-get j v [] h = absurd (ground arith)
  Elem-get j v ((i, w) ∷ m) h = elim (Bool-cases (same i j)) [
    | inl e ↦ inl (ground (arith, same_iff i j))
    | inr n ↦ inr (Elem-get j v m (ground arith))
  ]

  -- what holds of all entries and of the new one
  pub All-insert :
      (P : K × V → Type 0) (i : K) (v : V) (m : BTreeMap K V)
      → All P m
      → P (i, v)
      → All P (insert i v m)
  unfolding insert
  All-insert P i v [] h n = (n, tt)
  All-insert P i v ((j, w) ∷ m) h n = elim (Bool-cases (same j i)) [
    | inl e ↦ rw e (n, h.1)
    | inr d ↦ elim (Bool-cases (less i j)) [
      | inl l ↦ rw (d, l) (n, h)
      | inr g ↦ rw (d, g) (h.0, All-insert P i v m h.1 n)
    ]
  ]

  pub All-get :
      (P : K × V → Type 0) (j : K) (v : V) (m : BTreeMap K V)
      → All P m
      → get j m ≡ some v
      → P (j, v)
  All-get P j v m h g = All-Elem P (j, v) m h (Elem-get j v m g)

  abbrev pub Above : K → BTreeMap K V → Type 0
  Above i = All (λ e. less i e.0 ≡ true)

  -- the entries are in the strict order of their keys, so no key is there twice
  abbrev pub IsSorted : BTreeMap K V → Type 0
  IsSorted [] = Unit
  IsSorted ((i, v) ∷ m) = Above i m × IsSorted m

  Above-insert :
      (h i : K) (v : V) (m : BTreeMap K V) → less h i ≡ true → Above h m → Above h (insert i v m)
  unfolding insert
  Above-insert h i v [] p a = (p, tt)
  Above-insert h i v ((j, w) ∷ m) p a = ground (arith, Above-insert h i v m)

  pub Above-trans : (h i : K) (m : BTreeMap K V) → less h i ≡ true → Above i m → Above h m
  Above-trans h i [] p a = tt
  Above-trans h i ((j, w) ∷ m) p a = (less_trans h i j p a.0, Above-trans h i m p a.1)

  pub insert-IsSorted : (i : K) (v : V) (m : BTreeMap K V) → IsSorted m → IsSorted (insert i v m)
  unfolding insert
  insert-IsSorted i v [] s = (tt, tt)
  insert-IsSorted i v ((j, w) ∷ m) s = elim (Bool-cases (same j i)) [
    | inl e ↦ rw e (rw ((same_iff j i).0 e) at s)
    | inr n ↦ elim (Bool-cases (less i j)) [
      | inl l ↦ rw (n, l) ((l, Above-trans i j m l s.0), s)
      | inr g ↦
          rw (n, g)
            (Above-insert j i v m (less_total i j (not_same n) g) s.0, insert-IsSorted i v m s.1)
    ]
  ]
    where
      not_same : same j i ≡ false → same i j ≡ false
      not_same n = ground (arith, same_iff i j, same_iff j i)

  pub get-Above : (h : K) (m : BTreeMap K V) → Above h m → get h m ≡ none
  unfolding get
  get-Above h [] a = refl
  get-Above h ((j, w) ∷ m) a =
      ground (arith, get-Above h m, less-same h j, same_iff h j, same_iff j h)
