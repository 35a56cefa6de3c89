-- ===== src/Transfer/Change/Conservation.antt =====
-- What goes in comes out: the outputs, the change and the fee.
use citadel_runtime.Common.{
  ℕ, ◌+◌, ◌≤◌, ◌<◌, ◌≡◌, ◌⊎◌, some, List, [], ◌∷◌, ◌++◌, append-nil, map, ltb, arith, inl, inr,
  Bool-cases, add64, sum, u64_mod, length,
}
use citadel_runtime.Common.Result.{ok, pure, continue-eq-ok}
use citadel_runtime.Model.Contract.{Contract, ContractId}
use citadel_runtime.Runtime.Message.{TransferInfo, bitcoin, rgb, blind_utxo, descriptor, psbt}
use citadel_runtime.Runtime.State.{Runtime, Services}
use citadel_runtime.Transfer.Change.{
  Output, Payment, BitcoinChange, bitcoin_change, change_output, pay, sub64, index_of,
}

-- what the outputs pay together
abbrev pub paid : List Output → ℕ
paid outs = sum (map (λ (o : Output). o.0.value) outs)

paid-append : (outs : List Output) (o : Output) → paid (outs ++ o ∷ []) ≡ paid outs + o.0.value
unfolding sum
paid-append [] o = omega arith
paid-append (x ∷ outs) o = omega (arith, paid-append outs o)

change_output-value :
    (sv : Services) (id : ContractId) (c : Contract) (change : ℕ) (r : Runtime) (o : Output)
    → (change_output sv id c change r).0 ≡ ok o
    → o.0.value ≡ change
unfolding change_output
change_output-value sv id c change r o h = ground arith

-- When the change is settled, the outputs of the payment pay its value, and no sum exceeds `u64`,
-- there are two cases. Either the coins carry at least the payment and the fee, and the outputs
-- and the fee add up to exactly what goes in; or they carry less, and the outputs are those of
-- the payment, without change.
bitcoin_change_conserves :
    (sv : Services) (id : ContractId) (c : Contract) (p : Payment) (fee input : ℕ) (r : Runtime)
    (b : BitcoinChange)
    → paid p.tx_outputs ≡ p.bitcoin_value
    → p.bitcoin_value + fee < u64_mod
    → input < u64_mod
    → (bitcoin_change sv id c p fee input r).0 ≡ ok b
    → ((p.bitcoin_value + fee ≤ input) × (paid b.outputs + fee ≡ input))
      ⊎ ((input < p.bitcoin_value + fee) × (b.outputs ≡ p.tx_outputs) × (b.change ≡ 0))
unfolding bitcoin_change
bitcoin_change_conserves sv id c p fee input r b e fits small h =
    elim (Bool-cases (ltb (add64 p.bitcoin_value fee) input)) [
      | inl more ↦
          let change = sub64 (sub64 input p.bitcoin_value) fee in
          let (o, made, rest) =
            continue-eq-ok (change_output sv id c change r)
              (λ out. pure (record {
                outputs = p.tx_outputs ++ out ∷ [];
                change = change;
                change_vout = some (length p.tx_outputs);
                derivation_indexes = index_of out;
              }))
              {b = b} (ground arith) in
          let value = change_output-value sv id c change r o made in
          let outs : b.outputs ≡ p.tx_outputs ++ o ∷ [] = ground arith in
          let lt : p.bitcoin_value + fee < input = ground arith in
          inl (omega arith, rw outs (omega (arith, paid-append p.tx_outputs o, value)))
      | inr less ↦ ground arith
    ]

-- the change is one more output at most
pub bitcoin_change-outputs :
    (sv : Services) (id : ContractId) (c : Contract) (p : Payment) (fee input : ℕ) (r : Runtime)
    (b : BitcoinChange)
    → (bitcoin_change sv id c p fee input r).0 ≡ ok b
    → (rest : List Output) × (b.outputs ≡ p.tx_outputs ++ rest) × (length rest ≤ 1)
unfolding bitcoin_change
bitcoin_change-outputs sv id c p fee input r b h =
    elim (Bool-cases (ltb (add64 p.bitcoin_value fee) input)) [
      | inl more ↦
          let change = sub64 (sub64 input p.bitcoin_value) fee in
          let (o, made, rest) =
            continue-eq-ok (change_output sv id c change r)
              (λ out. pure (record {
                outputs = p.tx_outputs ++ out ∷ [];
                change = change;
                change_vout = some (length p.tx_outputs);
                derivation_indexes = index_of out;
              }))
              {b = b} (ground arith) in
          (o ∷ [], ground arith, omega arith)
      | inr less ↦ ([], ground (arith, append-nil p.tx_outputs), omega arith)
    ]

pay-paid :
    (sv : Services) (info : TransferInfo) (v : ℕ) (r : Runtime) (p : Payment)
    → (pay sv info v r).0 ≡ ok p
    → paid p.tx_outputs ≡ p.bitcoin_value
unfolding pay sum
pay-paid sv (bitcoin d) v r p h = ground arith
pay-paid sv (rgb i (blind_utxo x)) v r p h = ground arith
pay-paid sv (rgb i (descriptor d g)) v r p h = ground arith
pay-paid sv (rgb i (psbt x)) v r p h = ground arith

-- When the payment and its change are settled, and no sum exceeds `u64`, there are two cases.
-- Either the coins carry at least the bitcoins that are paid and the fee, and the outputs and the
-- fee add up to exactly what goes in; or they carry less, and the outputs are those of the
-- payment, without change.
pub payment_conserves :
    (sv : Services) (id : ContractId) (c : Contract) (info : TransferInfo) (v fee input : ℕ)
    (r r' : Runtime) (p : Payment) (b : BitcoinChange)
    → (pay sv info v r).0 ≡ ok p
    → p.bitcoin_value + fee < u64_mod
    → input < u64_mod
    → (bitcoin_change sv id c p fee input r').0 ≡ ok b
    → ((p.bitcoin_value + fee ≤ input) × (paid b.outputs + fee ≡ input))
      ⊎ ((input < p.bitcoin_value + fee) × (b.outputs ≡ p.tx_outputs) × (b.change ≡ 0))
payment_conserves sv id c info v fee input r r' p b h fits small settled =
    bitcoin_change_conserves sv id c p fee input r' b (pay-paid sv info v r p h) fits small settled
