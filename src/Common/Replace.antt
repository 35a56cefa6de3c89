-- ===== src/Common/Replace.antt =====
-- `str::replace`, on texts as the lists of their bytes.
use Prim.Native.Nat.{ℕ, zero, suc, ◌≤◌}
use mathlib.Core.Path.{◌≡◌, refl, sym, ap, ◌∙◌}
use mathlib.Core.Logic.{inl, inr}
use mathlib.Core.Bool.{Bool, true, false, ◌||◌}
use mathlib.Core.List.{List, [], ◌∷◌, ◌++◌, append_assoc}
use native.Mathlib.Omega.{arith}
use citadel_runtime.Common.Tests.{◌==◌, if◌then◌else◌, Bool-cases}
use citadel_runtime.Common.Lists.{All, length}

unfoldable pub starts_with : List ℕ → List ℕ → Bool
starts_with [] s = true
starts_with (c ∷ p) [] = false
starts_with (c ∷ p) (d ∷ s) = if c == d then starts_with p s else false

-- the text from a place on; `skip` bytes of it belong to a match that was replaced
replace_from : List ℕ → List ℕ → ℕ → List ℕ → List ℕ
replace_from pat by skip [] = []
replace_from pat by (suc skip) (c ∷ s) = replace_from pat by skip s
replace_from [] by zero (c ∷ s) = c ∷ replace_from [] by zero s
replace_from (a ∷ pat) by zero (c ∷ s) =
    let found = replace_from (a ∷ pat) by (length pat) s in
    let next = replace_from (a ∷ pat) by zero s in
    if starts_with (a ∷ pat) (c ∷ s) then by ++ found else c ∷ next

-- `s.replace(pat, by)`: the matches from left to right, none of which overlap; `pat` is not empty
unfoldable pub replace : List ℕ → List ℕ → List ℕ → List ℕ
unfolding replace_from
replace pat by s = replace_from pat by zero s

-- `s.contains(pat)`
unfoldable pub contains_text : List ℕ → List ℕ → Bool
contains_text pat [] = starts_with pat []
contains_text pat (c ∷ s) = starts_with pat (c ∷ s) || contains_text pat s

pub replace-absent : (pat by s : List ℕ) → contains_text pat s ≡ false → replace pat by s ≡ s
unfolding replace contains_text replace_from starts_with
replace-absent pat by [] h = refl
replace-absent [] by (c ∷ s) h = absurd (ground arith)
replace-absent (a ∷ pat) by (c ∷ s) h = ground (arith, replace-absent (a ∷ pat) by s)

-- a text without the byte that a pattern begins with
contains-plain :
    (a : ℕ) (pat s : List ℕ) → All (λ c. (a == c) ≡ false) s → contains_text (a ∷ pat) s ≡ false
unfolding contains_text starts_with
contains-plain a pat [] h = refl
contains-plain a pat (c ∷ s) h = ground (arith, h.0, contains-plain a pat s h.1)

pub replace-plain :
    (a : ℕ) (pat by s : List ℕ) → All (λ c. (a == c) ≡ false) s → replace (a ∷ pat) by s ≡ s
replace-plain a pat by s h = replace-absent (a ∷ pat) by s (contains-plain a pat s h)

-- a byte with which no match begins
pub replace-next :
    (a c : ℕ) (pat by s : List ℕ)
    → (a == c) ≡ false
    → replace (a ∷ pat) by (c ∷ s) ≡ c ∷ replace (a ∷ pat) by s
unfolding replace replace_from starts_with
replace-next a c pat by s h = rw h

skip_all :
    (pat by x s : List ℕ) → replace_from pat by (length x) (x ++ s) ≡ replace_from pat by zero s
unfolding replace_from
skip_all pat by [] s = refl
skip_all pat by (c ∷ x) s = skip_all pat by x s

starts_with-append : (pat s : List ℕ) → starts_with pat (pat ++ s) ≡ true
unfolding starts_with
starts_with-append [] s = refl
starts_with-append (c ∷ p) s = ground (arith, starts_with-append p s)

-- a match at the start
pub replace-first :
    (a : ℕ) (pat by s : List ℕ)
    → replace (a ∷ pat) by ((a ∷ pat) ++ s) ≡ by ++ replace (a ∷ pat) by s
unfolding replace replace_from
replace-first a pat by s = rw (starts_with-append (a ∷ pat) s) (rw (skip_all (a ∷ pat) by pat s))

-- the pattern ends with the byte `q`
abbrev pub EndsWith : ℕ → List ℕ → Type 0
EndsWith q [] = ⊥
EndsWith q (c ∷ []) = (q == c) ≡ true
EndsWith q (c ∷ d ∷ p) = EndsWith q (d ∷ p)

starts_with-without :
    (q : ℕ) (pat s : List ℕ)
    → EndsWith q pat
    → All (λ c. (q == c) ≡ false) s
    → starts_with pat s ≡ false
unfolding starts_with
starts_with-without q [] s e h = absurd e
starts_with-without q (c ∷ p) [] e h = refl
starts_with-without q (c ∷ []) (d ∷ s) e h = ground (arith, h.0)
starts_with-without q (c ∷ c' ∷ p) (d ∷ s) e h =
    ground (arith, starts_with-without q (c' ∷ p) s e h.1)

starts_with-before :
    (q : ℕ) (pat x s : List ℕ)
    → EndsWith q pat
    → All (λ c. (q == c) ≡ false) s
    → starts_with pat (x ++ s) ≡ starts_with pat x
unfolding starts_with
starts_with-before q [] x s e h = absurd e
starts_with-before q (c ∷ p) [] s e h = starts_with-without q (c ∷ p) s e h
starts_with-before q (c ∷ []) (d ∷ x) s e h = refl
starts_with-before q (c ∷ c' ∷ p) (d ∷ x) s e h =
    ground (arith, starts_with-before q (c' ∷ p) x s e h)

starts_with-length : (pat s : List ℕ) → starts_with pat s ≡ true → length pat ≤ length s
unfolding starts_with
starts_with-length [] s h = omega arith
starts_with-length (c ∷ p) [] h = absurd (ground arith)
starts_with-length (c ∷ p) (d ∷ s) h = ground (arith, starts_with-length p s)

-- what follows a text has no part in its matches, if it lacks the byte that the pattern ends with
replace_from-append :
    (q a : ℕ) (pat by x s : List ℕ) (k : ℕ)
    → EndsWith q (a ∷ pat)
    → All (λ c. (q == c) ≡ false) s
    → k ≤ length x
    → replace_from (a ∷ pat) by k (x ++ s)
      ≡ replace_from (a ∷ pat) by k x ++ replace_from (a ∷ pat) by zero s
unfolding replace_from
replace_from-append q a pat by [] s zero e h k = refl
replace_from-append q a pat by [] s (suc n) e h k = absurd (omega arith)
replace_from-append q a pat by (c ∷ x) s (suc n) e h k =
    replace_from-append q a pat by x s n e h (omega arith)
replace_from-append q a pat by (c ∷ x) s zero e h k =
    elim (Bool-cases (starts_with (a ∷ pat) (c ∷ x))) [
      | inl m ↦
          let both : starts_with (a ∷ pat) (c ∷ (x ++ s)) ≡ true =
            starts_with-before q (a ∷ pat) (c ∷ x) s e h ∙ m in
          let fits : length pat ≤ length x =
            omega (arith, starts_with-length (a ∷ pat) (c ∷ x) m) in
          rw both rw m (
            ap (λ r. by ++ r) (replace_from-append q a pat by x s (length pat) e h fits)
            ∙ sym (
                append_assoc by (replace_from (a ∷ pat) by (length pat) x)
                  (replace_from (a ∷ pat) by zero s)))
      | inr n ↦
          let both : starts_with (a ∷ pat) (c ∷ (x ++ s)) ≡ false =
            starts_with-before q (a ∷ pat) (c ∷ x) s e h ∙ n in
          rw both rw n (ap (λ r. c ∷ r) (replace_from-append q a pat by x s zero e h (omega arith)))
    ]

pub replace-append :
    (q a : ℕ) (pat by x s : List ℕ)
    → EndsWith q (a ∷ pat)
    → All (λ c. (q == c) ≡ false) s
    → replace (a ∷ pat) by (x ++ s) ≡ replace (a ∷ pat) by x ++ replace (a ∷ pat) by s
unfolding replace
replace-append q a pat by x s e h = replace_from-append q a pat by x s zero e h (omega arith)
