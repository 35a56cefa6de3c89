-- ===== src/Transfer/Coins/Largest.antt =====
-- The order in which `src/runtime/processor/transfer.rs` selects coins.
use citadel_runtime.Common.{
  ℕ, ◌≤◌, ◌≡◌, refl, ◌∙◌, true, ◌||◌, ◌⊎◌, inl, inr, Option, none, some, List, [], ◌∷◌, All,
  if◌then◌else◌, leb, ◌==◌, arith, Bool-cases, add64,
}
use mathlib.Core.Path.{subst}
use mathlib.Core.List.{reverse, reverse_aux}
use citadel_runtime.Common.Key.{same, same_iff}
use citadel_runtime.Common.Set.{contains}
use citadel_runtime.Common.Result.{ok}
use citadel_runtime.Foreign.Bitcoin.{OutPoint}
use citadel_runtime.Model.Utxo.{Utxo, outpoint, utxo_key}
use citadel_runtime.Runtime.Message.{TransferInfo}
use citadel_runtime.Transfer.Coins.{
  Choice, Selection, choose, or_option, order_coins, sort_coins, insert_coin, select_coins,
  asset_fee_of,
}

abbrev pub AtLeast : ℕ → List Utxo → Type 0
AtLeast n = All (λ u. n ≤ Utxo.value u)

abbrev pub AtMost : ℕ → List Utxo → Type 0
AtMost n = All (λ u. Utxo.value u ≤ n)

abbrev IsAscending : List Utxo → Type 0
IsAscending [] = Unit
IsAscending (u ∷ us) = AtLeast u.value us × IsAscending us

abbrev pub IsDescending : List Utxo → Type 0
IsDescending [] = Unit
IsDescending (u ∷ us) = AtMost u.value us × IsDescending us

AtLeast-trans : (m n : ℕ) (us : List Utxo) → m ≤ n → AtLeast n us → AtLeast m us
AtLeast-trans m n [] h a = tt
AtLeast-trans m n (u ∷ us) h a = (omega arith, AtLeast-trans m n us h a.1)

AtLeast-insert :
    (n : ℕ) (u : Utxo) (us : List Utxo) → n ≤ u.value → AtLeast n us → AtLeast n (insert_coin u us)
unfolding insert_coin
AtLeast-insert n u [] h a = (h, tt)
AtLeast-insert n u (v ∷ vs) h a = elim (Bool-cases (leb u.value v.value)) [
  | inl e ↦ rw e (h, a)
  | inr e ↦ rw e (a.0, AtLeast-insert n u vs h a.1)
]

insert-IsAscending : (u : Utxo) (us : List Utxo) → IsAscending us → IsAscending (insert_coin u us)
unfolding insert_coin
insert-IsAscending u [] s = (tt, tt)
insert-IsAscending u (v ∷ vs) s = elim (Bool-cases (leb u.value v.value)) [
  | inl e ↦
      let le : u.value ≤ v.value = ground arith in
      rw e ((le, AtLeast-trans u.value v.value vs le s.0), s)
  | inr e ↦ rw e (AtLeast-insert v.value u vs (ground arith) s.0, insert-IsAscending u vs s.1)
]

sort-IsAscending : (us : List Utxo) → IsAscending (sort_coins us)
unfolding sort_coins
sort-IsAscending [] = tt
sort-IsAscending (u ∷ us) = insert-IsAscending u (sort_coins us) (sort-IsAscending us)

-- every coin of the first list is worth at least every one of the second
abbrev Above : List Utxo → List Utxo → Type 0
Above us vs = All (λ u. AtMost (Utxo.value u) vs) us

Above-cons : (u : Utxo) (us vs : List Utxo) → AtLeast u.value us → Above us vs → Above us (u ∷ vs)
Above-cons u [] vs h a = tt
Above-cons u (w ∷ us) vs h a = ((h.0, a.0), Above-cons u us vs h.1 a.1)

reverse-IsDescending :
    (us vs : List Utxo)
    → IsAscending us
    → IsDescending vs
    → Above us vs
    → IsDescending (reverse_aux us vs)
unfolding reverse_aux
reverse-IsDescending [] vs s d a = d
reverse-IsDescending (u ∷ us) vs s d a =
    reverse-IsDescending us (u ∷ vs) s.1 (a.0, d) (Above-cons u us vs s.0 a.1)

Above-nil : (us : List Utxo) → Above us []
Above-nil [] = tt
Above-nil (u ∷ us) = (tt, Above-nil us)

pub order-IsDescending : (us : List Utxo) → IsDescending (order_coins us)
unfolding order_coins reverse
order-IsDescending us =
    reverse-IsDescending (sort_coins us) [] (sort-IsAscending us) tt (Above-nil (sort_coins us))

contains-insert :
    (u w : Utxo) (us : List Utxo)
    → contains w (insert_coin u us) ≡ (if same u w then true else contains w us)
unfolding insert_coin contains
contains-insert u w [] = refl
contains-insert u w (v ∷ vs) = ground (arith, contains-insert u w vs)

contains-sort : (w : Utxo) (us : List Utxo) → contains w (sort_coins us) ≡ contains w us
unfolding sort_coins contains
contains-sort w [] = refl
contains-sort w (u ∷ us) = ground (arith, contains-insert u w (sort_coins us), contains-sort w us)

contains-reverse_aux :
    (w : Utxo) (us vs : List Utxo)
    → contains w (reverse_aux us vs) ≡ (contains w us || contains w vs)
unfolding reverse_aux contains
contains-reverse_aux w [] vs = refl
contains-reverse_aux w (u ∷ us) vs = ground (arith, contains-reverse_aux w us (u ∷ vs))

contains-order : (w : Utxo) (us : List Utxo) → contains w (order_coins us) ≡ contains w us
unfolding order_coins reverse contains
contains-order w us = ground (arith, contains-reverse_aux w (sort_coins us) [], contains-sort w us)

AtMost-contains :
    (n : ℕ) (w : Utxo) (us : List Utxo) → AtMost n us → contains w us ≡ true → w.value ≤ n
unfolding contains
AtMost-contains n w [] a h = cc
AtMost-contains n w (u ∷ us) a h = elim (Bool-cases (same u w)) [
  | inl e ↦ rw (← (same_iff u w).0 e) a.0
  | inr e ↦ AtMost-contains n w us a.1 (rw e at h)
]

AtLeast-zero : (n : ℕ) (us : List Utxo) → n ≡ 0 → AtLeast n us
AtLeast-zero n [] h = tt
AtLeast-zero n (u ∷ us) h = (omega arith, AtLeast-zero n us h)

Passed : Utxo → List Utxo → Type 0
Passed w selected = (contains w selected ≡ true) ⊎ AtLeast w.value selected

Passed-cons :
    (n : ℕ) (u w : Utxo) (selected us : List Utxo)
    → AtMost u.value us
    → contains w us ≡ true
    → Passed w selected
    → Passed w (u ∷ selected)
unfolding Passed contains
Passed-cons n u w selected us d h (inl e) = inl (ground arith)
Passed-cons n u w selected us d h (inr a) = inr (AtMost-contains u.value w us d h, a)

module _ (v fee : ℕ) where
  choose_stop :
      (amount : ℕ) (change : Option OutPoint) (us : List Utxo)
      → leb (add64 v fee) amount ≡ true
      → (choose v fee amount change us).selected ≡ []
  unfolding choose
  choose_stop amount change [] h = refl
  choose_stop amount change (u ∷ us) h =
      rw h (choose_stop amount (or_option change (some (outpoint u))) us h)

  choose-Passed :
      (amount : ℕ) (change : Option OutPoint) (us : List Utxo) (w : Utxo)
      → IsDescending us
      → contains w us ≡ true
      → Passed w (choose v fee amount change us).selected
  unfolding choose contains
  choose-Passed amount change [] w d h = cc
  choose-Passed amount change (u ∷ us) w d h = elim (Bool-cases (leb (add64 v fee) amount)) [
    | inl e ↦
        rw (e, choose_stop amount (or_option change (some (outpoint u))) us e)
          (unfold Passed in inr tt)
    | inr more ↦ elim (Bool-cases (u.value == 0)) [
      | inl z ↦ elim (Bool-cases (same u w)) [
        | inl here ↦
            rw (more, z)
              (unfold Passed in
                inr (AtLeast-zero w.value _ (rw (← (same_iff u w).0 here) (ground arith))))
        | inr there ↦ rw (more, z) (choose-Passed amount change us w d.1 (rw there at h))
      ]
      | inr nz ↦ elim (Bool-cases (same u w)) [
        | inl here ↦ rw (more, nz) (unfold Passed in inl (rw here))
        | inr there ↦
            rw (more, nz)
              (Passed-cons 0 u w (choose v fee (add64 amount u.value) change us).selected us d.0
                (rw there at h)
                (choose-Passed (add64 amount u.value) change us w d.1 (rw there at h)))
      ]
    ]
  ]

-- The largest coins go first: a coin that is not selected is worth at most as much as every coin
-- that is.
pub select_coins_largest :
    (info : TransferInfo) (v bitcoin_fee : ℕ) (loaded : List Utxo) (s : Selection) (w : Utxo)
    → select_coins info v bitcoin_fee loaded ≡ ok s
    → contains w loaded ≡ true
    → (contains w s.choice.selected ≡ true) ⊎ AtLeast w.value s.choice.selected
unfolding select_coins Passed
select_coins_largest info v bitcoin_fee loaded s w h c =
    let p =
      choose-Passed v (asset_fee_of info bitcoin_fee) 0 none (order_coins loaded) w
        (order-IsDescending loaded) (contains-order w loaded ∙ c) in
    let e : choose v (asset_fee_of info bitcoin_fee) 0 none (order_coins loaded) ≡ s.choice =
      ground arith in
    subst (λ (ch : Choice). Passed w ch.selected) e p
