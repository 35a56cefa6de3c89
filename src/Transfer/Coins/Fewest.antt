-- ===== src/Transfer/Coins/Fewest.antt =====
-- The choice of coins of `src/runtime/processor/transfer.rs` is compared with any other choice.
use citadel_runtime.Common.{
  refl, false, ℕ, ◌+◌, ◌-◌, ◌≤◌, ◌<◌, ◌≡◌, inl, inr, Option, none, some, List, [], ◌∷◌, length, sum,
  ltb, leb, ◌==◌, arith, Bool-cases, add64, u64_mod,
}
use citadel_runtime.Common.Result.{ok}
use citadel_runtime.Foreign.Bitcoin.{OutPoint}
use citadel_runtime.Model.Utxo.{Utxo, outpoint}
use citadel_runtime.Runtime.Message.{TransferInfo}
use citadel_runtime.Transfer.Coins.{
  Selection, choose, or_option, order_coins, select_coins, asset_fee_of,
}
use citadel_runtime.Transfer.Coins.Within.{total, Within, total-order}
use citadel_runtime.Transfer.Coins.Covering.{worth, worth-order, choose_enough}
use citadel_runtime.Transfer.Coins.Largest.{AtMost, IsDescending, order-IsDescending}

-- what a coin is worth beyond `m`
abbrev beyond : ℕ → Utxo → ℕ
beyond m u = u.value - m

abbrev flat : ℕ → Utxo → ℕ
flat m u = m

AtMost-beyond : (m : ℕ) (us : List Utxo) → AtMost m us → total (beyond m) us ≡ 0
unfolding sum
AtMost-beyond m [] a = refl
AtMost-beyond m (u ∷ us) a = omega (arith, a.0, AtMost-beyond m us a.1)

worth-le : (m : ℕ) (us : List Utxo) → worth us ≤ total (flat m) us + total (beyond m) us
unfolding sum
worth-le m [] = omega arith
worth-le m (u ∷ us) = omega (arith, worth-le m us)

module _ (v fee : ℕ) (fits : v + fee < u64_mod) where
  -- `m` is worth no more than the coins, and as many times `m` as there are coins in `other`,
  -- with what the coins are worth beyond `m`, does not reach the target
  abbrev Short : ℕ → List Utxo → List Utxo → Type 0
  Short amount us other =
      (m : ℕ) × ((b : ℕ) → AtMost b us → m ≤ b)
      × (amount + (total (flat m) other + total (beyond m) us) < v + fee)

  choose-Short :
      (amount : ℕ) (change : Option OutPoint) (us other : List Utxo)
      → IsDescending us
      → amount + worth us < u64_mod
      → length other < length (choose v fee amount change us).selected
      → Short amount us other
  unfolding choose sum
  choose-Short amount change [] other d w h = absurd (omega arith)
  choose-Short amount change (u ∷ us) other d w h = elim (Bool-cases (leb (add64 v fee) amount)) [
    | inl e ↦
        absurd (
          ground (arith, choose_enough v fee fits amount (or_option change (some (outpoint u))) us))
    | inr more ↦ elim (Bool-cases (u.value == 0)) [
      | inl z ↦
          let (m, low, short) =
            choose-Short amount change us other d.1 (omega arith) (ground arith) in
          (m, λ b a. low b a.1, ground arith)
      | inr nz ↦ taken (choose-Short (add64 amount u.value) change us) other h more nz
    ]
  ]
    where
      taken :
          ((rest : List Utxo)
            → IsDescending us
            → add64 amount u.value + worth us < u64_mod
            → length rest < length (choose v fee (add64 amount u.value) change us).selected
            → Short (add64 amount u.value) us rest)
          → (other : List Utxo)
          → length other < length (choose v fee amount change (u ∷ us)).selected
          → leb (add64 v fee) amount ≡ false
          → (u.value == 0) ≡ false
          → Short amount (u ∷ us) other
      taken ih [] h more nz = (u.value, λ b a. a.0, ground (arith, AtMost-beyond u.value us d.0))
      taken ih (o ∷ other) h more nz =
          let (m, low, short) = ih other d.1 (ground arith) (ground arith) in
          let at_u : m ≤ u.value = low u.value d.0 in (m, λ b a. low b a.1, ground arith)

-- No coins could be saved, as long as neither what is asked for nor what the coins are worth
-- exceeds `u64`: coins from the loaded ones, each taken once, that are worth at least the payment
-- with its fee are at least as many as the selected ones.
pub select_coins_fewest :
    (info : TransferInfo) (v bitcoin_fee : ℕ) (loaded : List Utxo) (s : Selection)
    (other : List Utxo)
    → v + asset_fee_of info bitcoin_fee < u64_mod
    → worth loaded < u64_mod
    → select_coins info v bitcoin_fee loaded ≡ ok s
    → Within other loaded
    → v + asset_fee_of info bitcoin_fee ≤ worth other
    → length s.choice.selected ≤ length other
unfolding select_coins
select_coins_fewest info v bitcoin_fee loaded s other fits small h within enough =
    let fee = asset_fee_of info bitcoin_fee in
    let coins = order_coins loaded in
    let same_choice : choose v fee 0 none coins ≡ s.choice = ground arith in
    elim (Bool-cases (ltb (length other) (length s.choice.selected))) [
      | inl fewer ↦
          let (m, low, short) =
            choose-Short v fee fits 0 none coins other (order-IsDescending loaded)
              (omega (arith, worth-order loaded)) (rw same_choice (ground arith)) in
          absurd (omega (arith, worth-le m other, within (beyond m), total-order (beyond m) loaded))
      | inr e ↦ ground arith
    ]
