-- ===== src/Common/Decimal.antt =====
-- Decimal numerals as Rust writes and reads those of the unsigned integers, and texts that are
-- split at separators. A text is the list of its bytes.
use Prim.Native.Nat.{ℕ, zero, suc, ◌+◌, ◌-◌, ◌*◌, ◌/◌, ◌%◌, ◌≤◌, ◌<◌}
use mathlib.Core.Path.{◌≡◌, refl, ap, ◌∙◌}
use mathlib.Core.Logic.{◌≢◌, inl, inr}
use mathlib.Core.Bool.{Bool, true, false, ◌&&◌}
use mathlib.Core.Option.{Option, none, some}
use mathlib.Core.List.{List, [], ◌∷◌, ◌++◌, append-nil, append_assoc}
use native.Mathlib.Omega.{arith}
use citadel_runtime.Common.Tests.{ltb→lt, ltb-false→le, ltb, leb, ◌==◌, if◌then◌else◌, Bool-cases}
use citadel_runtime.Common.Lists.{All}

-- '0' and '+'
abbrev pub code_zero : ℕ
code_zero = 48

abbrev code_plus : ℕ
code_plus = 43

show_fuel : ℕ → ℕ → List ℕ
show_fuel zero n = []
show_fuel (suc f) n =
    let rest = show_fuel f (n / 10) in
    if ltb n 10 then (code_zero + n) ∷ [] else rest ++ (code_zero + n % 10) ∷ []

-- `to_string()` of an unsigned integer: a number has at most as many digits as its successor says
unfoldable pub show : ℕ → List ℕ
unfolding show_fuel
show n = show_fuel (suc n) n

-- the loop of `from_str_radix`: `checked_mul` and `checked_add` fail at `2 ^ w`, which is `modulus`
read_digits : ℕ → ℕ → List ℕ → Option ℕ
read_digits modulus n [] = some n
read_digits modulus n (c ∷ cs) =
    let m = n * 10 + (c - code_zero) in
    let rest = read_digits modulus m cs in
    if leb code_zero c && leb c (code_zero + 9) && ltb m modulus then rest else none

-- the digits, of which there must be one
read_some : ℕ → List ℕ → Option ℕ
unfolding read_digits
read_some modulus [] = none
read_some modulus (c ∷ cs) = read_digits modulus 0 (c ∷ cs)

-- `parse()` of an unsigned integer; a sign `+` may come first
unfoldable pub read : ℕ → List ℕ → Option ℕ
unfolding read_some
read modulus [] = none
read modulus (c ∷ cs) = if c == code_plus then read_some modulus cs else read_some modulus (c ∷ cs)

abbrev pub IsDigit : ℕ → Type 0
IsDigit c = (48 ≤ c) × (c ≤ 57)

All-append : {A : Type 0} (P : A → Type 0) (xs ys : List A) → All P xs → All P ys → All P (xs ++ ys)
All-append P [] ys h k = k
All-append P (x ∷ xs) ys h k = (h.0, All-append P xs ys h.1 k)

show_fuel-IsDigit : (f n : ℕ) → All IsDigit (show_fuel f n)
unfolding show_fuel
show_fuel-IsDigit zero n = tt
show_fuel-IsDigit (suc f) n = elim (Bool-cases (ltb n 10)) [
  | inl e ↦ let lt : n < 10 = ltb→lt n 10 e in rw e (omega arith, tt)
  | inr e ↦
      rw e (
        All-append IsDigit (show_fuel f (n / 10)) _ (show_fuel-IsDigit f (n / 10))
          (omega arith, tt))
]

pub show-IsDigit : (n : ℕ) → All IsDigit (show n)
unfolding show
show-IsDigit n = show_fuel-IsDigit (suc n) n

-- one more digit
read_digits-digit :
    (modulus n d : ℕ) (rest : List ℕ)
    → d < 10
    → n * 10 + d < modulus
    → read_digits modulus n ((code_zero + d) ∷ rest) ≡ read_digits modulus (n * 10 + d) rest
unfolding read_digits
read_digits-digit modulus n d rest h k = ground arith

read_digits-show_fuel :
    (modulus f n : ℕ) (rest : List ℕ)
    → n < f
    → n < modulus
    → read_digits modulus 0 (show_fuel f n ++ rest) ≡ read_digits modulus n rest
unfolding show_fuel
read_digits-show_fuel modulus zero n rest h k = absurd (omega arith)
read_digits-show_fuel modulus (suc f) n rest h k = elim (Bool-cases (ltb n 10)) [
  | inl e ↦
      let lt : n < 10 = ltb→lt n 10 e in
      let none_before : 0 * 10 + n ≡ n = omega arith in
      rw e (
        read_digits-digit modulus 0 n rest lt (omega arith)
        ∙ ap (λ m. read_digits modulus m rest) none_before)
  | inr e ↦
      let le : 10 ≤ n = ltb-false→le n 10 e in
      let whole : (n / 10) * 10 + n % 10 ≡ n = omega arith in
      rw e rw (append_assoc (show_fuel f (n / 10))) (
        read_digits-show_fuel modulus f (n / 10) ((code_zero + n % 10) ∷ rest) (omega arith)
          (omega arith)
        ∙ (read_digits-digit modulus (n / 10) (n % 10) rest (omega arith) (omega arith)
            ∙ ap (λ m. read_digits modulus m rest) whole))
]

show-nonempty : (n : ℕ) → show n ≢ []
unfolding show show_fuel
show-nonempty n h = elim (Bool-cases (ltb n 10)) [
  | inl e ↦ absurd (ground arith)
  | inr e ↦ append_one-nonempty (show_fuel n (n / 10)) (code_zero + n % 10) (ground arith)
]
  where
    append_one-nonempty : (xs : List ℕ) (c : ℕ) → xs ++ c ∷ [] ≢ []
    append_one-nonempty [] c h = cc
    append_one-nonempty (x ∷ xs) c h = cc

read-IsDigit :
    (modulus n : ℕ) (s : List ℕ)
    → s ≢ []
    → All IsDigit s
    → read_digits modulus 0 s ≡ some n
    → read modulus s ≡ some n
unfolding read read_some
read-IsDigit modulus n [] w d e = absurd (w refl)
read-IsDigit modulus n (c ∷ cs) w d e = ground (arith, d.0)

-- a number that is written is read again
pub read-show : (modulus n : ℕ) → n < modulus → read modulus (show n) ≡ some n
unfolding show read_digits
read-show modulus n h =
    read-IsDigit modulus n (show n) (show-nonempty n) (show-IsDigit n)
      (rw (← append-nil (show n)) (read_digits-show_fuel modulus (suc n) n [] (omega arith) h))

module _ (is_separator : ℕ → Bool) where
  -- the first byte of the first piece
  cons_first : ℕ → List (List ℕ) → List (List ℕ)
  cons_first c [] = (c ∷ []) ∷ []
  cons_first c (p ∷ ps) = (c ∷ p) ∷ ps

  -- `s.split(separators)`: there is always one piece more than there are separators
  unfoldable pub split : List ℕ → List (List ℕ)
  unfolding cons_first
  split [] = [] ∷ []
  split (c ∷ cs) = let rest = split cs in if is_separator c then [] ∷ rest else cons_first c rest

  pub split-piece : (p : List ℕ) → All (λ c. is_separator c ≡ false) p → split p ≡ p ∷ []
  unfolding split
  split-piece [] h = refl
  split-piece (c ∷ cs) h = ground (arith, h.0, split-piece cs h.1)

  pub split-next :
      (p : List ℕ) (c : ℕ) (rest : List ℕ)
      → All (λ c. is_separator c ≡ false) p
      → is_separator c ≡ true
      → split (p ++ c ∷ rest) ≡ p ∷ split rest
  unfolding split
  split-next [] c rest h e = ground arith
  split-next (x ∷ xs) c rest h e = ground (arith, h.0, split-next xs c rest h.1 e)
