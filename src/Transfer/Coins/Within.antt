-- ===== src/Transfer/Coins/Within.antt =====
-- Selected coins as a part of the coins that the cache has, each as often at most.
use citadel_runtime.Common.{
  ℕ, ◌+◌, ◌≤◌, ◌<◌, ◌≡◌, refl, Bool, false, Option, some, List, [], ◌∷◌, map, filter, sum,
  sum64-eq-sum, u64_mod, if◌then◌else◌, add64, arith, inl, inr, Bool-cases,
}
use mathlib.Core.List.{reverse, reverse_aux}
use citadel_runtime.Common.Key.{nat_key, same, same_iff, same_self}
use citadel_runtime.Common.Set.{contains, collect, contains-collect, distinct}
use citadel_runtime.Foreign.Bitcoin.{OutPoint, outpoint_key}
use citadel_runtime.Model.Utxo.{Utxo, outpoint, utxo_key}
use citadel_runtime.Transfer.Change.{bitcoin_inputs}
use citadel_runtime.Transfer.Coins.{choose, or_option, order_coins, sort_coins, insert_coin}
use citadel_runtime.Sync.Scan.Once.{Once}

-- the sum of a number of each coin
abbrev pub total : (Utxo → ℕ) → List Utxo → ℕ
total f us = sum (map f us)

-- one list is a part of the other
abbrev pub Within : List Utxo → List Utxo → Type 0
Within us vs = (f : Utxo → ℕ) → total f us ≤ total f vs

pub Within-trans : (us vs ws : List Utxo) → Within us vs → Within vs ws → Within us ws
Within-trans us vs ws h k f = omega (arith, h f, k f)

module _ (f : Utxo → ℕ) where
  total-insert : (u : Utxo) (us : List Utxo) → total f (insert_coin u us) ≡ f u + total f us
  unfolding insert_coin sum
  total-insert u [] = refl
  total-insert u (v ∷ vs) = ground (arith, total-insert u vs)

  total-sort : (us : List Utxo) → total f (sort_coins us) ≡ total f us
  unfolding sort_coins sum
  total-sort [] = refl
  total-sort (u ∷ us) = omega (arith, total-insert u (sort_coins us), total-sort us)

  total-reverse_aux : (us vs : List Utxo) → total f (reverse_aux us vs) ≡ total f us + total f vs
  unfolding sum reverse_aux
  total-reverse_aux [] vs = omega arith
  total-reverse_aux (u ∷ us) vs = omega (arith, total-reverse_aux us (u ∷ vs))

  pub total-order : (us : List Utxo) → total f (order_coins us) ≡ total f us
  unfolding order_coins sum reverse
  total-order us = ground (arith, total-reverse_aux (sort_coins us) [], total-sort us)

  total-choose :
      (v fee amount : ℕ) (change : Option OutPoint) (us : List Utxo)
      → total f (choose v fee amount change us).selected ≤ total f us
  unfolding choose sum
  total-choose v fee amount change [] = omega arith
  total-choose v fee amount change (u ∷ us) = ground (
    arith,
    total-choose v fee amount (or_option change (some (outpoint u))) us,
    total-choose v fee amount change us,
    total-choose v fee (add64 amount u.value) change us,
  )

  total-filter : (p : Utxo → Bool) (us : List Utxo) → total f (filter p us) ≤ total f us
  unfolding filter sum
  total-filter p [] = omega arith
  total-filter p (u ∷ us) = ground (arith, total-filter p us)

  total-distinct : (us : List Utxo) → total f (distinct us) ≤ total f us
  unfolding distinct sum
  total-distinct [] = omega arith
  total-distinct (u ∷ us) = ground (arith, total-distinct us)

pub distinct-filter-Within : (p : Utxo → Bool) (us : List Utxo) → Within (distinct (filter p us)) us
distinct-filter-Within p us f = omega (arith, total-distinct f (filter p us), total-filter f p us)

pub choose-order-Within :
    (v fee amount : ℕ) (change : Option OutPoint) (us : List Utxo)
    → Within (choose v fee amount change (order_coins us)).selected us
choose-order-Within v fee amount change us f =
    omega (arith, total-choose f v fee amount change (order_coins us), total-order f us)

-- 1 for a coin at the outpoint, and its value there; 1 for the coin itself
abbrev at_outpoint : OutPoint → Utxo → ℕ
at_outpoint o u = if same (outpoint u) o then 1 else 0

abbrev value_at : OutPoint → Utxo → ℕ
value_at o u = if same (outpoint u) o then u.value else 0

abbrev is_coin : Utxo → Utxo → ℕ
is_coin w u = if same u w then 1 else 0

abbrev value_among : List OutPoint → Utxo → ℕ
value_among os u = if contains (outpoint u) os then u.value else 0

absent :
    (o : OutPoint) (us : List Utxo)
    → contains o (map outpoint us) ≡ false
    → (total (at_outpoint o) us ≡ 0) × (total (value_at o) us ≡ 0)
unfolding contains sum
absent o [] h = (refl, refl)
absent o (u ∷ us) h = ground (arith, absent o us)

coin-le-at :
    (w : Utxo) (us : List Utxo) → total (is_coin w) us ≤ total (at_outpoint (outpoint w)) us
unfolding sum
coin-le-at w [] = omega arith
coin-le-at w (u ∷ us) =
    ground (arith, coin-le-at w us, same_iff u w, same_iff (outpoint u) (outpoint w))

-- a coin that is there has all of the value at its outpoint, which is there once
value_at-le :
    (w : Utxo) (us : List Utxo)
    → Once (map outpoint us)
    → 1 ≤ total (is_coin w) us
    → total (value_at (outpoint w)) us ≤ w.value
unfolding sum
value_at-le w [] o h = absurd (omega arith)
value_at-le w (u ∷ us) o h = elim (Bool-cases (same (outpoint u) (outpoint w))) [
  | inl e ↦
      let at_w : outpoint u ≡ outpoint w = (same_iff (outpoint u) (outpoint w)).0 e in
      let (none_at, none_worth) = absent (outpoint w) us (rw at_w at (o.0)) in
      ground (arith, coin-le-at w us, same_iff u w)
  | inr d ↦ ground (arith, value_at-le w us o.1, same_iff u w, same_iff (outpoint u) (outpoint w))
]

value_among-cons :
    (w : Utxo) (os : List OutPoint) (us : List Utxo)
    → total (value_among (outpoint w ∷ os)) us
      ≤ total (value_at (outpoint w)) us + total (value_among os) us
unfolding sum contains
value_among-cons w os [] = omega arith
value_among-cons w os (u ∷ us) = ground (
  arith,
  value_among-cons w os us,
  same_iff (outpoint w) (outpoint u),
  same_iff (outpoint u) (outpoint w),
)

value_among-nil : (us : List Utxo) → total (value_among []) us ≡ 0
unfolding sum contains
value_among-nil [] = refl
value_among-nil (u ∷ us) = omega (arith, value_among-nil us)

there : (u : Utxo) (us vs : List Utxo) → Within (u ∷ us) vs → 1 ≤ total (is_coin u) vs
unfolding sum
there u us vs h = ground (arith, h (is_coin u), same_self u)

value_among-le :
    (us vs : List Utxo)
    → Once (map outpoint vs)
    → Within us vs
    → total (value_among (map outpoint us)) vs ≤ total Utxo.value us
unfolding sum
value_among-le [] vs o h = omega (arith, value_among-nil vs)
value_among-le (u ∷ us) vs o h =
    let tail : Within us vs = λ f. unfold sum in omega (arith, h f) in
    omega (
      arith,
      value_among-cons u (map outpoint us) vs,
      value_at-le u vs o (there u us vs h),
      value_among-le us vs o tail,
    )

value_among-grows :
    (o : OutPoint) (os : List OutPoint) (us : List Utxo)
    → total (value_among os) us ≤ total (value_among (o ∷ os)) us
unfolding sum contains
value_among-grows o os [] = omega arith
value_among-grows o os (u ∷ us) = ground (arith, value_among-grows o os us)

le-value_among : (us : List Utxo) → total Utxo.value us ≤ total (value_among (map outpoint us)) us
unfolding sum contains
le-value_among [] = omega arith
le-value_among (u ∷ us) = ground (
  arith,
  le-value_among us,
  value_among-grows (outpoint u) (map outpoint us) us,
  same_self (outpoint u),
)

sum-filter :
    (os : List OutPoint) (us : List Utxo)
    → sum (map Utxo.value (filter (λ u. contains (outpoint u) (collect os)) us))
      ≡ total (value_among os) us
unfolding sum filter
sum-filter os [] = refl
sum-filter os (u ∷ us) = ground (arith, sum-filter os us, contains-collect (outpoint u) os)

-- what the selected coins are worth is what is recorded at their outpoints
pub bitcoin_inputs-total :
    (us vs : List Utxo)
    → Within us vs
    → Once (map outpoint vs)
    → total Utxo.value vs < u64_mod
    → bitcoin_inputs us vs ≡ total Utxo.value us
unfolding bitcoin_inputs
bitcoin_inputs-total us vs h o small =
    let os = map outpoint us in
    omega (
      arith,
      sum64-eq-sum (map Utxo.value (filter (λ u. contains (outpoint u) (collect os)) vs)),
      sum-filter os vs,
      value_among-le us vs o h,
      le-value_among us,
      h (value_among os),
      h Utxo.value,
    )
