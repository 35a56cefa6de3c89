-- ===== src/Transfer/Coins.antt =====
-- The choice of the coins, the first stage of `transfer`.
pub mod Covering
pub mod Within
pub mod Largest
pub mod Fewest
use citadel_runtime.Common.{
  ℕ, zero, ◌+◌, ◌-◌, ◌%◌, Bool, true, false, Option, none, some, List, [], ◌∷◌, map, filter,
  unwrap_or, ltb, leb, ◌==◌, if◌then◌else◌, add64, sum64, u64_mod,
}
use mathlib.Core.List.{reverse}
use citadel_runtime.Common.Key.{nat_key}
use citadel_runtime.Common.Map.{get}
use citadel_runtime.Common.Result.{Result, ok, err, panic, and_then, map_ok}
use citadel_runtime.Foreign.Bitcoin.{OutPoint, Script, TxIn}
use citadel_runtime.Model.Utxo.{Utxo, outpoint}
use citadel_runtime.Model.Contract.{ContractId}
use citadel_runtime.Cache
use citadel_runtime.Runtime.Error.{Error, server_failure}
use citadel_runtime.Runtime.Message.{TransferInfo, contract_id, is_rgb}

-- The coins that may be spent, in the order in which the set iterates.
unfoldable pub load_coins : ContractId → TransferInfo → Cache.Cache → Result Cache.Error (List Utxo)
unfolding contract_id is_rgb
load_coins pay_from info cache =
    if is_rgb info
    then map_ok (λ m. unwrap_or (get (contract_id info) m) []) (Cache.unspent pay_from cache)
    else Cache.unspent_bitcoin_only pay_from cache

insert_coin : Utxo → List Utxo → List Utxo
insert_coin u [] = u ∷ []
insert_coin u (v ∷ vs) = if leb u.value v.value then u ∷ v ∷ vs else v ∷ insert_coin u vs

-- `coins.sort_by(|a, b| a.value.cmp(&b.value))`, a stable sort
sort_coins : List Utxo → List Utxo
unfolding insert_coin
sort_coins [] = []
sort_coins (u ∷ us) = insert_coin u (sort_coins us)

-- `sort_by` and `reverse`
unfoldable pub order_coins : List Utxo → List Utxo
unfolding sort_coins
order_coins us = reverse (sort_coins us)

-- `a.or(b)`
abbrev pub or_option {ℓ} : {A : Type ℓ} → Option A → Option A → Option A
or_option none b = b
or_option (some a) b = some a

-- What the closure of `filter_map` has kept and noted.
pub record Choice : Type 0 where
  pub selected : List Utxo
  pub amount : ℕ
  pub change_outpoint : Option OutPoint

-- The `filter_map` over the coins, from the amount and the outpoint noted so far.
unfoldable pub choose : ℕ → ℕ → ℕ → Option OutPoint → List Utxo → Choice
choose asset_value asset_fee amount change [] = record {
  selected = [];
  amount = amount;
  change_outpoint = change;
}
choose asset_value asset_fee amount change (u ∷ us) =
    let enough = choose asset_value asset_fee amount (or_option change (some (outpoint u))) us in
    let skipped = choose asset_value asset_fee amount change us in
    let taken = choose asset_value asset_fee (add64 amount u.value) change us in
    if leb (add64 asset_value asset_fee) amount
    then enough
    else if u.value == 0
    then skipped
    else record taken { selected = u ∷ taken.selected }

pub record Selection : Type 0 where
  pub choice : Choice
  pub balance_before : ℕ

-- `TxIn` of a coin
abbrev pub tx_input : Utxo → TxIn
tx_input u = record { previous_output = outpoint u; script_sig = 0; sequence = 0; witness = [] }

abbrev pub asset_fee_of : TransferInfo → ℕ → ℕ
asset_fee_of info bitcoin_fee = if is_rgb info then 0 else bitcoin_fee

pub insufficient : TransferInfo → Error
insufficient info = server_failure (record {
  code = 0;
  info =
      if is_rgb info
      then "Insufficient funds"
      else "Insufficient funds on bitcoin outputs which do not have RGB assets on them";
})

-- From the coins to the selected ones, or `Insufficient funds`.
unfoldable pub select_coins : TransferInfo → ℕ → ℕ → List Utxo → Result Error Selection
unfolding is_rgb insufficient
select_coins info asset_value bitcoin_fee loaded =
    let coins = order_coins loaded in
    let asset_fee = asset_fee_of info bitcoin_fee in
    let choice = choose asset_value asset_fee 0 none coins in
    if ltb choice.amount (add64 asset_value asset_fee)
    then err (insufficient info)
    else ok (record { choice = choice; balance_before = sum64 (map (λ (u : Utxo). u.value) coins) })
