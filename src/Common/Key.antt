-- ===== src/Common/Key.antt =====
-- The types that the program compares and orders (`derive(Eq, Ord)`). A derived order is the
-- lexicographic order of the fields, so a type is given by the list of numbers that it stands for.
use mathlib.Core.Path.{◌≡◌, refl, ap}
use mathlib.Core.Logic.{◌↔◌}
use mathlib.Core.Bool.{Bool, true, false}
use mathlib.Core.List.{List, [], ◌∷◌}
use Prim.Native.Nat.{ℕ}
use native.Mathlib.Omega.{arith}
use citadel_runtime.Common.Tests.{ltb, ◌==◌, if◌then◌else◌}

pub record Key (A : Type 0) : Type 0 where
  pub words : A → List ℕ
  pub words_injective : (a b : A) → words a ≡ words b → a ≡ b

same_words : List ℕ → List ℕ → Bool
same_words [] [] = true
same_words (x ∷ xs) (y ∷ ys) = if x == y then same_words xs ys else false
same_words _ _ = false

less_words : List ℕ → List ℕ → Bool
less_words [] [] = false
less_words [] (y ∷ ys) = true
less_words (x ∷ xs) [] = false
less_words (x ∷ xs) (y ∷ ys) = if x == y then less_words xs ys else ltb x y

same_words_iff : (xs ys : List ℕ) → (same_words xs ys ≡ true) ↔ (xs ≡ ys)
unfolding same_words
same_words_iff [] [] = ground arith
same_words_iff [] (y ∷ ys) = ground arith
same_words_iff (x ∷ xs) [] = ground arith
same_words_iff (x ∷ xs) (y ∷ ys) = ground (arith, same_words_iff xs ys)

less_words_trans :
    (xs ys zs : List ℕ)
    → less_words xs ys ≡ true
    → less_words ys zs ≡ true
    → less_words xs zs ≡ true
unfolding less_words
less_words_trans [] [] zs h k = cc
less_words_trans [] (y ∷ ys) [] h k = cc
less_words_trans [] (y ∷ ys) (z ∷ zs) h k = refl
less_words_trans (x ∷ xs) [] zs h k = cc
less_words_trans (x ∷ xs) (y ∷ ys) [] h k = cc
less_words_trans (x ∷ xs) (y ∷ ys) (z ∷ zs) h k = ground (arith, less_words_trans xs ys zs)

less_words_total :
    (xs ys : List ℕ) → same_words xs ys ≡ false → less_words xs ys ≡ false → less_words ys xs ≡ true
unfolding same_words less_words
less_words_total [] [] h k = cc
less_words_total [] (y ∷ ys) h k = cc
less_words_total (x ∷ xs) [] h k = refl
less_words_total (x ∷ xs) (y ∷ ys) h k = ground (arith, less_words_total xs ys)

less_words-same : (xs ys : List ℕ) → less_words xs ys ≡ true → same_words xs ys ≡ false
unfolding same_words less_words
less_words-same [] [] h = cc
less_words-same [] (y ∷ ys) h = refl
less_words-same (x ∷ xs) [] h = refl
less_words-same (x ∷ xs) (y ∷ ys) h = ground (arith, less_words-same xs ys)

module _ {A : Type 0} ⦃k : Key A⦄ where
  -- `==`
  unfoldable pub same : A → A → Bool
  unfolding same_words
  same a b = same_words (k.words a) (k.words b)

  -- `<`
  unfoldable pub less : A → A → Bool
  unfolding less_words
  less a b = less_words (k.words a) (k.words b)

  pub same_iff : (a b : A) → (same a b ≡ true) ↔ (a ≡ b)
  unfolding same
  same_iff a b = (
    λ h. k.words_injective a b ((same_words_iff (k.words a) (k.words b)).0 h),
    λ e. (same_words_iff (k.words a) (k.words b)).1 (ap k.words e),
  )

  pub same_self : (a : A) → same a a ≡ true
  same_self a = (same_iff a a).1 refl

  pub less_trans : (a b c : A) → less a b ≡ true → less b c ≡ true → less a c ≡ true
  unfolding less
  less_trans a b c = less_words_trans (k.words a) (k.words b) (k.words c)

  pub less_total : (a b : A) → same a b ≡ false → less a b ≡ false → less b a ≡ true
  unfolding less same
  less_total a b = less_words_total (k.words a) (k.words b)

  pub less-same : (a b : A) → less a b ≡ true → same a b ≡ false
  unfolding less same
  less-same a b = less_words-same (k.words a) (k.words b)

pub nat_injective : (a b : ℕ) → ◌≡◌ {A = List ℕ} (a ∷ []) (b ∷ []) → a ≡ b
nat_injective a b h = ground arith

pub pair_injective : (a b : ℕ × ℕ) → ◌≡◌ {A = List ℕ} (a.0 ∷ a.1 ∷ []) (b.0 ∷ b.1 ∷ []) → a ≡ b
pair_injective a b h = ground arith

instance abbrev pub nat_key : Key ℕ
nat_key = record { words = λ n. n ∷ []; words_injective = nat_injective }

instance abbrev pub pair_key : Key (ℕ × ℕ)
pair_key = record { words = λ p. p.0 ∷ p.1 ∷ []; words_injective = pair_injective }
