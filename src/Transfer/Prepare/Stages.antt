-- ===== src/Transfer/Prepare/Stages.antt =====
-- A bitcoin payment that was composed, taken apart into its stages.
use citadel_runtime.Common.{ℕ, ◌≡◌, refl, ap, List, arith, inl, inr}
use citadel_runtime.Common.Key.{nat_key}
use citadel_runtime.Common.Result.{
  Result, ok, err, panic, Result-cases, continue-eq-ok, Exec, ◌>>=◌, lift, map_err,
}
use citadel_runtime.Foreign.Bitcoin.{Invoice, Psbt, outpoint_key}
use citadel_runtime.Model.Utxo.{Utxo}
use citadel_runtime.Model.Policy.{Policy}
use citadel_runtime.Model.Contract.{Contract, ContractId}
use citadel_runtime.Cache
use citadel_runtime.Storage
use citadel_runtime.Runtime.Error.{Error, cache_driver}
use citadel_runtime.Runtime.Message.{bitcoin, PreparedTransfer}
use citadel_runtime.Runtime.State.{Runtime, Services, from_storage, from_cache}
use citadel_runtime.Transfer.Coins.{Selection, load_coins, select_coins}
use citadel_runtime.Transfer.Change.{
  Output, Payment, BitcoinChange, pay, bitcoin_input_amount, bitcoin_change, rgb_change,
}
use citadel_runtime.Transfer.Prepare.{
  Draft, draft, make_psbt, unsigned, psbt_input, psbt_output, traverse,
}

make_psbt-unsigned :
    (sv : Services) (policy : Policy) (selected : List Utxo) (outputs : List Output) (psbt : Psbt)
    → make_psbt sv policy selected outputs ≡ ok psbt
    → psbt.unsigned_tx ≡ unsigned selected outputs
unfolding make_psbt
make_psbt-unsigned sv policy selected outputs psbt h =
    elim (Result-cases (traverse (psbt_input sv policy) selected)) [
      | inl (inputs, e) ↦ elim (Result-cases (traverse (psbt_output sv policy) outputs)) [
        | inl (outs, q) ↦ ground arith
        | inr (inl (x, q)) ↦ absurd (ground arith)
        | inr (inr q) ↦ absurd (ground arith)
      ]
      | inr (inl (x, e)) ↦ absurd (ground arith)
      | inr (inr e) ↦ absurd (ground arith)
    ]

-- a step that succeeds, with its result
pub after_ok :
    {A B C : Type 0} (m : Exec Runtime Error A) (f : A → Exec Runtime Error B) (r : Runtime) (b : B)
    → ((m >>= f) r).0 ≡ ok b
    → ((a : A) → (m r).0 ≡ ok a → (f a (m r).1).0 ≡ ok b → C)
    → C
after_ok m f r b h next = let (a, e, rest) = continue-eq-ok (m r) f {b = b} h in next a e rest

cache_result :
    {A : Type 0} (x : Result Cache.Error A) (a : A) → map_err cache_driver x ≡ ok a → x ≡ ok a
cache_result (ok b) a h = ground arith
cache_result (err e) a h = absurd (ground arith)
cache_result panic a h = absurd (ground arith)

-- the stages of a bitcoin payment that was composed
pub record Stages (sv : Services) (id : ContractId) (v fee to : ℕ) (r : Runtime)
    (p : PreparedTransfer) : Type 0 where
  pub contract : Contract
  pub coins : List Utxo
  pub loaded : load_coins id (bitcoin to) r.cache ≡ ok coins
  pub selection : Selection
  pub selects : select_coins (bitcoin to) v fee coins ≡ ok selection
  pub payment : Payment
  pub pays : (pay sv (bitcoin to) v r).0 ≡ ok payment
  pub input : ℕ
  pub at_input : Runtime
  pub same_cache : at_input.cache ≡ r.cache
  pub sums : (bitcoin_input_amount id selection.choice.selected at_input).0 ≡ ok input
  pub change : BitcoinChange
  pub at_change : Runtime
  pub settles : (bitcoin_change sv id contract payment fee input at_change).0 ≡ ok change
  pub made : p.psbt.unsigned_tx ≡ unsigned selection.choice.selected change.outputs

module _ (sv : Services) where
  pay-state : (to v : ℕ) (r : Runtime) → (pay sv (bitcoin to) v r).1 ≡ r
  unfolding pay
  pay-state to v r = refl

  pub draft-Stages :
      (id : ContractId) (v fee to : ℕ) (i : Invoice) (r : Runtime) (d : Draft)
      (p : PreparedTransfer)
      → (draft sv id v fee (bitcoin to) i r).0 ≡ ok d
      → p.psbt ≡ d.draft_psbt
      → Stages sv id v fee to r p
  unfolding draft
  draft-Stages id v fee to i r d p h same_psbt =
      after_ok (from_storage (Storage.contract_ref id)) _ r d h (λ contract e1 h1.
        after_ok (from_cache (load_coins id (bitcoin to))) _ r d h1 (λ coins e2 h2.
          after_ok (lift (select_coins (bitcoin to) v fee coins)) _ r d h2 (λ selection e3 h3.
            after_ok (pay sv (bitcoin to) v) _ r d h3 (λ payment e4 h4.
              let selected = selection.choice.selected in
              let r4 = (pay sv (bitcoin to) v r).1 in
              after_ok (bitcoin_input_amount id selected) _ r4 d h4 (λ input e5 h5.
                let r5 = (bitcoin_input_amount id selected r4).1 in
                after_ok (bitcoin_change sv id contract payment fee input) _ r5 d h5
                  (λ change e6 h6.
                    let r6 = (bitcoin_change sv id contract payment fee input r5).1 in
                    after_ok (rgb_change sv (bitcoin to) v selection.choice change.change_vout) _ r6
                      d h6
                      (λ assets e7 h7.
                        let r7 =
                          (rgb_change sv (bitcoin to) v selection.choice change.change_vout r6).1 in
                        after_ok (lift sv.connect) _ r7 d h7 (λ u e8 h8.
                          after_ok (lift (make_psbt sv contract.policy selected change.outputs)) _
                            r7 d h8
                            (λ psbt e9 h9.
                              let same_draft : psbt ≡ d.draft_psbt = ground arith in
                              record {
                                contract = contract;
                                coins = coins;
                                loaded = cache_result (load_coins id (bitcoin to) r.cache) coins e2;
                                selection = selection;
                                selects = e3;
                                payment = payment;
                                pays = e4;
                                input = input;
                                at_input = r4;
                                same_cache = ap Runtime.cache (pay-state to v r);
                                sums = e5;
                                change = change;
                                at_change = r5;
                                settles = e6;
                                made = rw same_psbt rw (← same_draft) (
                                    make_psbt-unsigned sv contract.policy selected change.outputs
                                      psbt e9);
                              })))))))))
