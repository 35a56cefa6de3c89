-- ===== src/Tests/Coins.antt =====
-- The choice of coins and the change, run on two coins.
use citadel_runtime.Common.{
  ℕ, ◌+◌, ◌≤◌, ◌<◌, ◌≡◌, refl, true, ◌⊎◌, none, some, List, [], ◌∷◌, ◌++◌, arith, length, sum,
  sum64_from,
}
use citadel_runtime.Common.Key.{nat_key, same}
use citadel_runtime.Common.Map.{get, insert}
use citadel_runtime.Model.Policy.{derive_address}
use citadel_runtime.Persist.{store}
use citadel_runtime.Common.Set.{contains}
use citadel_runtime.Common.Result.{ok, err}
use citadel_runtime.Foreign.Bitcoin.{TxOut, Address}
use citadel_runtime.Model.Utxo.{Utxo, outpoint, utxo_key, utxo_words}
use citadel_runtime.Cache
use citadel_runtime.Runtime.Message.{bitcoin, is_rgb}
use citadel_runtime.Runtime.State.{Runtime, SealEndpoint}
use citadel_runtime.Transfer.Coins.{Selection, choose, select_coins, insufficient, order_coins}
use citadel_runtime.Transfer.Coins.Covering.{worth, select_coins_covers, select_coins_overflow}
use citadel_runtime.Transfer.Coins.Fewest.{select_coins_fewest}
use citadel_runtime.Transfer.Coins.Largest.{AtLeast, select_coins_largest}
use citadel_runtime.Transfer.Change.{pay, Payment, BitcoinChange, bitcoin_change}
use citadel_runtime.Transfer.Change.Conservation.{paid, payment_conserves}
use citadel_runtime.Transfer.Change.Fresh.{PaysAt, bitcoin_change_fresh}
use citadel_runtime.Tests.{services, small_inc, coin, contract, runtime_of}
use citadel_runtime.Tests.Codecs.{cache_bytes}

abbrev coins : List Utxo
coins = coin 1 10 ∷ coin 2 30 ∷ []

select_coins_covers_example :
    ((worth coins < 20 + 5)
      × (select_coins (bitcoin 0) 20 5 coins ≡ err (insufficient (bitcoin 0))))
    ⊎ ((20 + 5 ≤ worth coins)
        × ((s : Selection) × (select_coins (bitcoin 0) 20 5 coins ≡ ok s)
            × (s.choice.amount ≡ worth s.choice.selected)
            × (20 + 5 ≤ worth s.choice.selected)
            × (s.balance_before ≡ worth coins)))
unfolding is_rgb
select_coins_covers_example =
    select_coins_covers (bitcoin 0) 20 5 coins (omega arith) (unfold sum in omega arith)

abbrev selection : Selection
selection = record {
  choice = record {
    selected = coin 2 30 ∷ [];
    amount = 30;
    change_outpoint = some (outpoint (coin 1 10));
  };
  balance_before = 40;
}

selected : select_coins (bitcoin 0) 20 5 coins ≡ ok selection
unfolding select_coins choose order_coins is_rgb sum64_from
selected = refl

select_coins_fewest_example : 1 ≤ 2
unfolding is_rgb
select_coins_fewest_example =
    select_coins_fewest (bitcoin 0) 20 5 coins selection coins (omega arith)
      (unfold sum in omega arith) selected (λ f. omega arith) (unfold sum in omega arith)

select_coins_largest_example :
    (contains (coin 1 10) selection.choice.selected ≡ true) ⊎ AtLeast 10 selection.choice.selected
unfolding same utxo_words
select_coins_largest_example =
    select_coins_largest (bitcoin 0) 20 5 coins selection (coin 1 10) selected
      (unfold contains in refl)

select_coins_overflow_example :
    (s : Selection) × (select_coins (bitcoin 0) 18446744073709551615 1 coins ≡ ok s)
    × (s.choice.selected ≡ [])
    × (s.choice.amount ≡ 0)
select_coins_overflow_example = select_coins_overflow 0 18446744073709551615 1 coins (omega arith)

abbrev payment : Payment
payment = record {
  tx_outputs = (record { value = 20; script_pubkey = 5 }, none) ∷ [];
  bitcoin_value = 20;
  bitcoin_giveaway = none;
  rgb_endpoint = SealEndpoint.tx_outpoint 0;
}

abbrev before : Runtime
before = runtime_of [] ((3, record Cache.no_cache { used_address_derivations = (50, 2) ∷ [] }) ∷ [])

abbrev change_of_5 : BitcoinChange
change_of_5 = record {
  outputs =
      (record { value = 20; script_pubkey = 5 }, none)
      ∷ (record { value = 5; script_pubkey = 3104 }, some 3)
      ∷ [];
  change = 5;
  change_vout = some 1;
  derivation_indexes = 3 ∷ [];
}

changed : (bitcoin_change services 3 (contract 3) payment 5 30 before).0 ≡ ok change_of_5
unfolding bitcoin_change Cache.next_unused_derivation derive_address Cache.use_address_derivation
    get same store cache_bytes insert small_inc
changed = refl

payment_conserves_example :
    ((20 + 5 ≤ 30) × (paid change_of_5.outputs + 5 ≡ 30))
    ⊎ ((30 < 20 + 5) × (change_of_5.outputs ≡ payment.tx_outputs) × (change_of_5.change ≡ 0))
payment_conserves_example =
    payment_conserves services 3 (contract 3) (bitcoin 5) 20 5 30 before before payment change_of_5
      (unfold pay in refl) (omega arith) (omega arith) changed

bitcoin_change_fresh_example :
    (out : TxOut) × (n : ℕ) × (change_of_5.outputs ≡ payment.tx_outputs ++ (out, some n) ∷ [])
    × (change_of_5.change_vout ≡ some (length payment.tx_outputs))
    × (change_of_5.derivation_indexes ≡ n ∷ [])
    × PaysAt services 3
        (contract 3)
        5
        n
        out
        (bitcoin_change services 3 (contract 3) payment 5 30 before).1
    × ((a : Address) (i : ℕ) → Cache.address_derivation 3 a before.cache ≡ some i → i < n)
unfolding same
bitcoin_change_fresh_example =
    bitcoin_change_fresh services 3 (contract 3) payment 5 30 before change_of_5
      (unfold get in (omega arith, tt)) refl changed
