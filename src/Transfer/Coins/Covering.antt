-- ===== src/Transfer/Coins/Covering.antt =====
-- What the selected coins of `src/runtime/processor/transfer.rs` are worth, and the payment.
use citadel_runtime.Common.{
  ℕ, ◌+◌, ◌≤◌, ◌<◌, ◌≡◌, refl, ◌⊎◌, Option, none, some, List, [], ◌∷◌, ◌++◌, map, ltb, arith, inl,
  inr, Bool-cases, add64, sum, sum64, sum64-eq-sum, u64_mod,
}
use mathlib.Core.Path.{subst}
use citadel_runtime.Common.Result.{ok, err}
use citadel_runtime.Foreign.Bitcoin.{OutPoint}
use citadel_runtime.Model.Utxo.{Utxo, outpoint}
use citadel_runtime.Runtime.Message.{TransferInfo, bitcoin, is_rgb}
use citadel_runtime.Transfer.Coins.Within.{total-order}
use citadel_runtime.Transfer.Coins.{
  Selection, choose, or_option, order_coins, select_coins, insufficient, asset_fee_of,
}

-- what coins are worth together
abbrev pub worth : List Utxo → ℕ
worth us = sum (map (λ (u : Utxo). u.value) us)

pub worth-order : (us : List Utxo) → worth (order_coins us) ≡ worth us
worth-order us = total-order Utxo.value us

module _ (v fee : ℕ) (fits : v + fee < u64_mod) where
  -- from an amount on, the choice adds the selected coins to it, and ends at the target or with
  -- every coin
  pub choose_amount :
      (amount : ℕ) (change : Option OutPoint) (us : List Utxo)
      → amount + worth us < u64_mod
      → ((choose v fee amount change us).amount
          ≡ amount + worth (choose v fee amount change us).selected)
        × ((choose v fee amount change us).amount < v + fee
            → (choose v fee amount change us).amount ≡ amount + worth us)
        × ((choose v fee amount change us).amount ≤ amount + worth us)
  unfolding choose sum
  choose_amount amount change [] h = ground arith
  choose_amount amount change (u ∷ us) h = ground (
    arith,
    choose_amount amount (or_option change (some (outpoint u))) us,
    choose_amount amount change us,
    choose_amount (add64 amount u.value) change us,
  )

  -- once there is enough, no coin is added
  pub choose_enough :
      (amount : ℕ) (change : Option OutPoint) (us : List Utxo)
      → v + fee ≤ amount
      → ((choose v fee amount change us).selected ≡ [])
        × ((choose v fee amount change us).amount ≡ amount)
  unfolding choose
  choose_enough amount change [] h = (refl, refl)
  choose_enough amount change (u ∷ us) h =
      ground (arith, choose_enough amount (or_option change (some (outpoint u))) us)

  -- every coin is added before there is enough
  choose_needed :
      (amount : ℕ) (change : Option OutPoint) (us xs ys : List Utxo) (y : Utxo)
      → amount + worth us < u64_mod
      → (choose v fee amount change us).selected ≡ xs ++ y ∷ ys
      → amount + worth xs < v + fee
  unfolding choose sum
  choose_needed amount change [] [] ys y h e = absurd (ground arith)
  choose_needed amount change [] (x ∷ xs) ys y h e = absurd (ground arith)
  choose_needed amount change (u ∷ us) [] ys y h e = ground (
    arith,
    choose_enough amount (or_option change (some (outpoint u))) us,
    choose_needed amount change us [] ys y,
  )
  choose_needed amount change (u ∷ us) (x ∷ xs) ys y h e = ground (
    arith,
    choose_enough amount (or_option change (some (outpoint u))) us,
    choose_needed amount change us (x ∷ xs) ys y,
    choose_needed (add64 amount u.value) change us xs ys y,
  )

choose_wrapped :
    (v fee : ℕ)
    → v + fee ≡ u64_mod
    → (change : Option OutPoint) (us : List Utxo)
    → ((choose v fee 0 change us).selected ≡ []) × ((choose v fee 0 change us).amount ≡ 0)
unfolding choose
choose_wrapped v fee h change [] = (refl, refl)
choose_wrapped v fee h change (u ∷ us) =
    ground (arith, choose_wrapped v fee h (or_option change (some (outpoint u))) us)

module _ (info : TransferInfo) (v bitcoin_fee : ℕ) (loaded : List Utxo) where
  abbrev target : ℕ
  target = v + asset_fee_of info bitcoin_fee

  -- The choice of the coins is exact, as long as neither what is asked for nor what the coins are
  -- worth exceeds `u64`: either the coins are worth too little, and the error is `Insufficient
  -- funds`; or they are worth enough, and coins are selected that are worth at least the payment
  -- with its fee, with the true amount and balance noted.
  pub select_coins_covers :
      target < u64_mod
      → worth loaded < u64_mod
      → ((worth loaded < target)
          × (select_coins info v bitcoin_fee loaded ≡ err (insufficient info)))
        ⊎ ((target ≤ worth loaded)
            × ((s : Selection) × (select_coins info v bitcoin_fee loaded ≡ ok s)
                × (s.choice.amount ≡ worth s.choice.selected)
                × (target ≤ worth s.choice.selected)
                × (s.balance_before ≡ worth loaded)))
  unfolding select_coins
  select_coins_covers fits total =
      let fee = asset_fee_of info bitcoin_fee in
      let coins = order_coins loaded in
      let all = worth-order loaded in
      let small : 0 + worth coins < u64_mod = omega arith in
      let (exact, short, most) = choose_amount v fee fits 0 none coins small in
      let choice = choose v fee 0 none coins in
      elim (Bool-cases (ltb (worth loaded) target)) [
        | inl less ↦ inl (ground arith, ground arith)
        | inr enough ↦
            let le : target ≤ worth loaded = ground arith in
            inr (
              le,
              (
                record {
                  choice = choice;
                  balance_before = sum64 (map (λ (u : Utxo). u.value) coins);
                },
                ground arith,
                omega (arith, exact),
                grind (arith, exact, short),
                omega (arith, sum64-eq-sum (map (λ (u : Utxo). u.value) coins)),
              ),
            )
      ]

  -- the selected coins cover the payment
  pub select_coins-enough :
      (s : Selection)
      → target < u64_mod
      → worth loaded < u64_mod
      → select_coins info v bitcoin_fee loaded ≡ ok s
      → target ≤ worth s.choice.selected
  select_coins-enough s fits total h = elim (select_coins_covers fits total) [
    | inl (less, e) ↦ absurd (ground arith)
    | inr (le, (s', e, amount, covered, _)) ↦
        let same_selection : s' ≡ s = ground arith in
        subst (λ (s : Selection). target ≤ worth s.choice.selected) same_selection covered
  ]

  -- No coin is selected in vain, as long as neither what is asked for nor what the coins are worth
  -- exceeds `u64`: the coins selected before any selected coin do not cover the payment and its fee.
  pub select_coins_needed :
      (s : Selection) (xs ys : List Utxo) (u : Utxo)
      → target < u64_mod
      → worth loaded < u64_mod
      → select_coins info v bitcoin_fee loaded ≡ ok s
      → s.choice.selected ≡ xs ++ u ∷ ys
      → worth xs < target
  unfolding select_coins
  select_coins_needed s xs ys u fits total h e =
      let fee = asset_fee_of info bitcoin_fee in
      let coins = order_coins loaded in
      let all = worth-order loaded in
      let small : 0 + worth coins < u64_mod = omega arith in
      let made : (choose v fee 0 none coins).selected ≡ xs ++ u ∷ ys = ground arith in
      omega (arith, choose_needed v fee fits 0 none coins xs ys u small made)

-- Where the payment and its fee add up to 2 ^ 64, the sum wraps around to 0: no coin is selected,
-- and there is no `Insufficient funds`, whatever coins there are.
pub select_coins_overflow :
    (descriptor v bitcoin_fee : ℕ) (loaded : List Utxo)
    → v + bitcoin_fee ≡ u64_mod
    → (s : Selection) × (select_coins (bitcoin descriptor) v bitcoin_fee loaded ≡ ok s)
      × (s.choice.selected ≡ [])
      × (s.choice.amount ≡ 0)
unfolding select_coins is_rgb
select_coins_overflow descriptor v bitcoin_fee loaded h =
    let coins = order_coins loaded in
    let (empty, same_amount) = choose_wrapped v bitcoin_fee h none coins in
    (
      record {
        choice = choose v bitcoin_fee 0 none coins;
        balance_before = sum64 (map (λ (u : Utxo). u.value) coins);
      },
      ground arith,
      empty,
      same_amount,
    )
