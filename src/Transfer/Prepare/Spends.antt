-- ===== src/Transfer/Prepare/Spends.antt =====
-- What a composed bitcoin payment of `src/runtime/processor/transfer.rs` spends and pays.
use citadel_runtime.Common.{
  ℕ, ◌+◌, ◌≤◌, ◌<◌, ◌≡◌, refl, ◌∙◌, none, some, List, [], ◌∷◌, map, length, length-map, sum,
  u64_mod, arith, inl, inr,
}
use citadel_runtime.Common.Key.{nat_key}
use citadel_runtime.Common.Map.{BTreeMap, get}
use citadel_runtime.Common.Result.{ok}
use citadel_runtime.Foreign.Bitcoin.{AssetId, bitcoin_id, Invoice, TxOut, outpoint_key}
use citadel_runtime.Model.Utxo.{Utxo, outpoint}
use citadel_runtime.Model.Contract.{ContractId}
use citadel_runtime.Cache
use citadel_runtime.Cache.Spendable.{unspent_bitcoin_only-filter}
use citadel_runtime.Runtime.Message.{TransferInfo, bitcoin, PreparedTransfer}
use citadel_runtime.Runtime.State.{Runtime, Services}
use citadel_runtime.Sync.Scan.Once.{Once}
use citadel_runtime.Transfer.Coins.{Selection, load_coins, select_coins, tx_input, asset_fee_of}
use citadel_runtime.Transfer.Coins.Within.{
  Within, Within-trans, choose-order-Within, distinct-filter-Within, bitcoin_inputs-total,
}
use citadel_runtime.Transfer.Coins.Covering.{worth, select_coins-enough}
use citadel_runtime.Transfer.Change.{Output, Payment, pay, bitcoin_inputs, bitcoin_input_amount}
use citadel_runtime.Transfer.Change.Conservation.{paid, payment_conserves, bitcoin_change-outputs}
use citadel_runtime.Transfer.Prepare.{Draft, draft, commit, transfer}
use citadel_runtime.Transfer.Prepare.Stages.{Stages, after_ok, draft-Stages}

select_coins-Within :
    (info : TransferInfo) (v fee : ℕ) (loaded : List Utxo) (s : Selection)
    → select_coins info v fee loaded ≡ ok s
    → Within s.choice.selected loaded
unfolding select_coins
select_coins-Within info v fee loaded s h f =
    let within = choose-order-Within v (asset_fee_of info fee) 0 none loaded f in ground arith

module _ (sv : Services) where
  commit-psbt :
      (to : ℕ) (d : Draft) (r : Runtime) (p : PreparedTransfer)
      → (commit sv (bitcoin to) d r).0 ≡ ok p
      → (p.psbt ≡ d.draft_psbt) × (p.consignment ≡ none)
  unfolding commit
  commit-psbt to d r p h = (ground arith, ground arith)

  pay-outputs :
      (to v : ℕ) (r : Runtime) (p : Payment)
      → (pay sv (bitcoin to) v r).0 ≡ ok p
      → (p.tx_outputs ≡ (record { value = v; script_pubkey = sv.api.compact_script to }, none) ∷ [])
        × (p.bitcoin_value ≡ v)
  unfolding pay
  pay-outputs to v r p h = (ground arith, ground arith)

  input_amount :
      (id : ContractId) (selected all : List Utxo) (s : Runtime) (n : ℕ)
      (m : BTreeMap AssetId (List Utxo))
      → (bitcoin_input_amount id selected s).0 ≡ ok n
      → Cache.unspent id s.cache ≡ ok m
      → get bitcoin_id m ≡ some all
      → n ≡ bitcoin_inputs selected all
  unfolding bitcoin_input_amount
  input_amount id selected all s n m h e g = ground arith

paid-outputs : (outs : List Output) → sum (map TxOut.value (map (λ e. e.0) outs)) ≡ paid outs
unfolding sum
paid-outputs [] = refl
paid-outputs (o ∷ outs) = omega (arith, paid-outputs outs)

module _ (sv : Services) where
  -- what the transaction of a payment spends and pays
  abbrev pub Spends : ContractId → ℕ → ℕ → ℕ → Cache.Cache → PreparedTransfer → Type 0
  Spends id v fee to cache p =
      (loaded : List Utxo) × (coins : List Utxo) × (change : List TxOut)
      × (Cache.unspent_bitcoin_only id cache ≡ ok loaded)
      × Within coins loaded
      × (p.psbt.unsigned_tx.input ≡ map tx_input coins)
      × (p.psbt.unsigned_tx.output
          ≡ record { value = v; script_pubkey = sv.api.compact_script to } ∷ change)
      × (length change ≤ 1)
      × (sum (map TxOut.value p.psbt.unsigned_tx.output) + fee ≡ worth coins)

  module _ (id : ContractId) (v fee to : ℕ) (r : Runtime) (p : PreparedTransfer)
      (m : BTreeMap AssetId (List Utxo)) (all : List Utxo) (known : Cache.unspent id r.cache ≡ ok m)
      (bitcoins : get bitcoin_id m ≡ some all) (once : Once (map outpoint all))
      (total_fits : worth all < u64_mod) (fits : v + fee < u64_mod) where
    Stages-spend : Stages sv id v fee to r p → Spends id v fee to r.cache p
    unfolding load_coins
    Stages-spend st =
        let (kept, filtered) =
          unspent_bitcoin_only-filter id r.cache st.coins all m st.loaded known bitcoins in
        let selected = st.selection.choice.selected in
        let of_loaded = select_coins-Within (bitcoin to) v fee st.coins st.selection st.selects in
        let loaded_of_all : Within st.coins all = rw filtered (distinct-filter-Within kept all) in
        let of_all : Within selected all =
          Within-trans selected st.coins all of_loaded loaded_of_all in
        let (outs, at_v) = pay-outputs sv to v r st.payment st.pays in
        let (rest, outputs, few) =
          bitcoin_change-outputs sv id st.contract st.payment fee st.input st.at_change st.change
            st.settles in
        let summed : st.input ≡ worth selected =
          input_amount sv id selected all st.at_input st.input m st.sums (rw st.same_cache known)
            bitcoins
          ∙ bitcoin_inputs-total selected all of_all once total_fits in
        let enough =
          select_coins-enough (bitcoin to) v fee st.coins st.selection fits
            (omega (arith, loaded_of_all Utxo.value)) st.selects in
        let conserved =
          payment_conserves sv id st.contract (bitcoin to) v fee st.input r st.at_change st.payment
            st.change st.pays (omega arith) (omega (arith, of_all Utxo.value)) st.settles in
        (
          st.coins,
          selected,
          map (λ e. e.0) rest,
          st.loaded,
          of_loaded,
          rw st.made refl,
          rw st.made (rw outputs (rw outs refl)),
          rw (length-map (λ (e : Output). e.0) rest) few,
          rw st.made (elim conserved [
            | inl (le, exact) ↦ omega (arith, paid-outputs st.change.outputs)
            | inr (lt, _, _) ↦ absurd (omega arith)
          ]),
        )

  -- What a bitcoin payment spends and pays, if the cache has the bitcoin outputs of the contract
  -- at distinct outpoints, and neither their values together nor the payment with its fee exceed
  -- `u64`: a payment that is composed spends coins from those that `unspent_bitcoin_only` returns,
  -- each once; its first output pays the value to the script of the descriptor, and at most one
  -- more follows; and what the coins are worth is what the outputs pay and the fee asked for.
  pub transfer-Spends :
      (id : ContractId) (v fee to : ℕ) (i : Invoice) (r : Runtime) (p : PreparedTransfer)
      (m : BTreeMap AssetId (List Utxo)) (all : List Utxo)
      → (transfer sv id v fee (bitcoin to) i r).0 ≡ ok p
      → Cache.unspent id r.cache ≡ ok m
      → get bitcoin_id m ≡ some all
      → Once (map outpoint all)
      → worth all < u64_mod
      → v + fee < u64_mod
      → Spends id v fee to r.cache p
  unfolding transfer
  transfer-Spends id v fee to i r p m all h known bitcoins once total_fits fits =
      after_ok (draft sv id v fee (bitcoin to) i) (commit sv (bitcoin to)) r p h
        (λ d drafted committed.
          let (same_psbt, _) =
            commit-psbt sv to d (draft sv id v fee (bitcoin to) i r).1 p committed in
          Stages-spend id v fee to r p m all known bitcoins once total_fits fits
            (draft-Stages sv id v fee to i r d p drafted same_psbt))
