-- ===== src/Common/Set.antt =====
-- `BTreeSet<T>` as the list of its elements in their order, and `HashSet<T>` as a list without
-- repetitions, in the order in which the set iterates.
use mathlib.Core.Path.{◌≡◌, refl}
use mathlib.Core.Bool.{Bool, true, false, ◌||◌, ◌&&◌}
use mathlib.Core.List.{List, [], ◌∷◌, ◌++◌}
use native.Mathlib.Omega.{arith}
use citadel_runtime.Common.Tests.{if◌then◌else◌}
use citadel_runtime.Common.Lists.{filter}
use citadel_runtime.Common.Key.{Key, same, less, same_iff}

abbrev pub BTreeSet : Type 0 → Type 0
BTreeSet A = List A

abbrev pub HashSet : Type 0 → Type 0
HashSet A = List A

module _ {A : Type 0} ⦃k : Key A⦄ where
  -- `s.contains(&a)`
  unfoldable pub contains : A → List A → Bool
  contains a [] = false
  contains a (x ∷ xs) = if same x a then true else contains a xs

  -- `s.insert(a)` of a `BTreeSet`
  unfoldable pub add : A → BTreeSet A → BTreeSet A
  add a [] = a ∷ []
  add a (x ∷ xs) = if same x a then x ∷ xs else if less a x then a ∷ x ∷ xs else x ∷ add a xs

  -- `.collect::<BTreeSet<_>>()`
  unfoldable pub collect : List A → BTreeSet A
  collect [] = []
  collect (x ∷ xs) = add x (collect xs)

  -- `.collect::<HashSet<_>>()`: each element once
  unfoldable pub distinct : List A → HashSet A
  unfolding contains
  distinct [] = []
  distinct (x ∷ xs) = let rest = distinct xs in if contains x rest then rest else x ∷ rest

  pub contains-add :
      (a b : A) (s : BTreeSet A) → contains b (add a s) ≡ (if same a b then true else contains b s)
  unfolding contains add
  contains-add a b [] = refl
  contains-add a b (x ∷ xs) =
      ground (arith, contains-add a b xs, same_iff x a, same_iff x b, same_iff a b)

  pub contains-collect : (a : A) (xs : List A) → contains a (collect xs) ≡ contains a xs
  unfolding contains collect
  contains-collect a [] = refl
  contains-collect a (x ∷ xs) = ground (arith, contains-collect a xs, contains-add x a (collect xs))

  pub contains-distinct : (a : A) (xs : List A) → contains a (distinct xs) ≡ contains a xs
  unfolding contains distinct
  contains-distinct a [] = refl
  contains-distinct a (x ∷ xs) =
      ground (arith, contains-distinct a xs, contains-distinct x xs, same_iff x a)

  pub contains-filter :
      (p : A → Bool) (a : A) (xs : List A) → contains a (filter p xs) ≡ (contains a xs && p a)
  unfolding contains filter
  contains-filter p a [] = refl
  contains-filter p a (x ∷ xs) = ground (arith, contains-filter p a xs, same_iff x a)

  pub contains-append :
      (a : A) (xs ys : List A) → contains a (xs ++ ys) ≡ (contains a xs || contains a ys)
  unfolding contains
  contains-append a [] ys = refl
  contains-append a (x ∷ xs) ys = ground (arith, contains-append a xs ys)
