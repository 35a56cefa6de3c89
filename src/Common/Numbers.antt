-- ===== src/Common/Numbers.antt =====
-- Machine words: unsigned integers keep their wrap-around, as a release build of the program does.
use Prim.Native.Nat.{ℕ, ◌+◌, ◌%◌, ◌^◌, ◌<◌}
use mathlib.Core.Path.{◌≡◌}
use mathlib.Core.List.{List, [], ◌∷◌}
use native.Mathlib.Omega.{arith}

abbrev pub u16_mod : ℕ
u16_mod = 2 ^ 16

abbrev pub u32_mod : ℕ
u32_mod = 2 ^ 32

abbrev pub u64_mod : ℕ
u64_mod = 2 ^ 64

-- `a + b` on `u64`
abbrev pub add64 : ℕ → ℕ → ℕ
add64 a b = (a + b) % u64_mod

-- `.iter().sum()` on `u64`, from a running total
unfoldable pub sum64_from : ℕ → List ℕ → ℕ
sum64_from t [] = t
sum64_from t (x ∷ xs) = sum64_from (add64 t x) xs

abbrev pub sum64 : List ℕ → ℕ
sum64 = sum64_from 0

-- the sum of unbounded numbers
unfoldable pub sum : List ℕ → ℕ
sum [] = 0
sum (x ∷ xs) = x + sum xs

sum64_from-eq : (t : ℕ) (xs : List ℕ) → t < u64_mod → sum64_from t xs ≡ (t + sum xs) % u64_mod
unfolding sum64_from sum
sum64_from-eq t [] h = omega arith
sum64_from-eq t (x ∷ xs) h = omega (arith, sum64_from-eq (add64 t x) xs (omega arith))

pub sum64-eq-sum : (xs : List ℕ) → sum64 xs ≡ sum xs % u64_mod
sum64-eq-sum xs = omega (arith, sum64_from-eq 0 xs (omega arith))
