-- ===== src/Transfer/Prepare/History.antt =====
-- What a payment leaves in the history of the contract that pays.
use citadel_runtime.Common.{
  ℕ, suc, ◌≡◌, refl, ◌∙◌, sym, Option, none, some, List, [], ◌∷◌, ◌++◌, arith, inl, inr,
  Option-cases, get_elem?, map,
}
use citadel_runtime.Common.Key.{nat_key, same_self}
use citadel_runtime.Common.Result.{ok, Exec, ◌>>=◌, Result-cases, continue-eq-ok}
use citadel_runtime.Foreign.Bitcoin.{AssetId, Invoice, Psbt, PsbtOutput, TxOut}
use citadel_runtime.Model.Utxo.{outpoint}
use citadel_runtime.Model.Operation.{Operation}
use citadel_runtime.Model.Contract.{Contract, ContractId}
use citadel_runtime.Storage
use citadel_runtime.Storage.View.{run-effect, run_missing}
use citadel_runtime.Storage.Invariant.{history-operation}
use citadel_runtime.Persist.{Codec}
use citadel_runtime.Model.Contract
use citadel_runtime.Model.Contract.{Citadel, TweakedOutput}
use citadel_runtime.Storage.{Storage, p2c_tweak, operation}
use citadel_runtime.Runtime.Error.{Error}
use citadel_runtime.Runtime.Message.{TransferInfo, RgbReceiver, bitcoin, rgb, PreparedTransfer}
use citadel_runtime.Runtime.State.{Runtime, Services}
use citadel_runtime.Transfer.Change.{Output}
use citadel_runtime.Transfer.Prepare.Drafts.{draft-Leads}
use citadel_runtime.Transfer.Prepare.{
  Draft, draft, commit, transfer, save_tweak, check_output, save_tweaks, rgb_operation,
  bitcoin_operation,
}

-- a step that leaves the histories as they are
abbrev Keeps : {A : Type 0} → Exec Runtime Error A → Type 0
Keeps m =
    (r : Runtime) (j : ContractId) → Storage.history j (m r).1.storage ≡ Storage.history j r.storage

bind-Keeps :
    {A B : Type 0} (m : Exec Runtime Error A) (f : A → Exec Runtime Error B)
    → Keeps m
    → ((a : A) → Keeps (f a))
    → Keeps (m >>= f)
bind-Keeps m f keeps next r j = elim (Result-cases (m r).0) [
  | inl (a, e) ↦ rw e (next a (m r).1 j ∙ keeps r j)
  | inr (inl (x, e)) ↦ rw e (keeps r j)
  | inr (inr e) ↦ rw e (keeps r j)
]

module _ (codec : Codec Citadel Storage.Error) where
  history-add_p2c_tweak :
      (id j : ContractId) (t : TweakedOutput) (d : Storage)
      → Storage.history j (Storage.add_p2c_tweak codec id t d).1 ≡ Storage.history j d
  unfolding Storage.history Storage.run Storage.contract_ref Contract.history Contract.add_p2c_tweak
  history-add_p2c_tweak id j t d = elim (Option-cases (Storage.lookup j d)) [
    | inl e ↦ ground (arith, run-effect codec (λ r. 0) (p2c_tweak id t) d j)
    | inr (c, e) ↦ ground (arith, run-effect codec (λ r. 0) (p2c_tweak id t) d j)
  ]

  history-register_operation :
      (id : ContractId) (o : Operation) (d : Storage)
      → (Storage.register_operation codec id o d).0 ≡ ok tt
      → (os : List Operation) × (Storage.history id d ≡ ok os)
        × (Storage.history id (Storage.register_operation codec id o d).1 ≡ ok (os ++ o ∷ []))
  unfolding Storage.history Storage.run Storage.contract_ref Contract.history
  history-register_operation id o d h = elim (Option-cases (Storage.lookup id d)) [
    | inl e ↦ absurd (ground (arith, run_missing codec (λ r. 0) (operation id o) d id refl e))
    | inr (c, e) ↦ (
      c.contents.operations,
      ground arith,
      ground (arith, history-operation codec (λ r. 0) id id o d, same_self id),
    )
  ]

module _ (sv : Services) where
  save_tweak-Keeps :
      (id : ContractId) (w : Psbt) (n : ℕ) (out : Option TxOut) (found : Option (ℕ × ℕ × ℕ))
      → Keeps (save_tweak sv id w n out found)
  unfolding save_tweak
  save_tweak-Keeps id w n out none r j = refl
  save_tweak-Keeps id w n none (some (k, t, i)) r j = refl
  save_tweak-Keeps id w n (some out) (some (k, t, i)) r j =
      history-add_p2c_tweak sv.storage_codec id j _ r.storage

  check_output-Keeps :
      (id : ContractId) (w : Psbt) (n : ℕ) (out : PsbtOutput) (o : Option Output)
      → Keeps (check_output sv id w n out o)
  unfolding check_output
  check_output-Keeps id w n out none r j = refl
  check_output-Keeps id w n out (some (tx_out, index)) r j =
      save_tweak-Keeps id w n (get_elem? w.unsigned_tx.output n) _ r j

  save_tweaks-Keeps :
      (id : ContractId) (outs : List Output) (w : Psbt) (n : ℕ) (rest : List PsbtOutput)
      → Keeps (save_tweaks sv id outs w n rest)
  unfolding save_tweaks
  save_tweaks-Keeps id outs w n [] r j = refl
  save_tweaks-Keeps id outs w n (out ∷ rest) r j =
      bind-Keeps (check_output sv id w n out (get_elem? outs n))
        (λ u. save_tweaks sv id outs w (suc n) rest)
        (check_output-Keeps id w n out (get_elem? outs n))
        (λ u. save_tweaks-Keeps id outs w (suc n) rest) r j

  -- the history of the contract in `after` is the one in `before`, and one record that describes
  -- the payment `p`
  abbrev pub IsRecorded : ContractId → ℕ → ℕ → PreparedTransfer → Storage → Storage → Type 0
  IsRecorded id v fee p before after =
      (o : Operation) × (os : List Operation) × (Storage.history id before ≡ ok os)
      × (Storage.history id after ≡ ok (os ++ o ∷ []))
      × (o.psbt ≡ p.psbt)
      × (o.txid ≡ sv.txid_of p.psbt.unsigned_tx)
      × (o.asset_value ≡ v)
      × (o.tx_fee ≡ fee)

  commit_bitcoin :
      (to : ℕ) (d : Draft) (r : Runtime) (p : PreparedTransfer)
      → (commit sv (bitcoin to) d r).0 ≡ ok p
      → IsRecorded d.pay_from d.asset_value d.bitcoin_fee p r.storage
          (commit sv (bitcoin to) d r).1.storage
  unfolding commit bitcoin_operation
  commit_bitcoin to d r p h =
      let o = bitcoin_operation sv d in
      let (os, before, after) =
        history-register_operation sv.storage_codec d.pay_from o r.storage (ground arith) in
      (o, os, before, ground arith, ground arith, ground arith, refl, refl)

  commit_rgb :
      (a : AssetId) (receiver : RgbReceiver) (d : Draft) (r : Runtime) (p : PreparedTransfer)
      → (commit sv (rgb a receiver) d r).0 ≡ ok p
      → IsRecorded d.pay_from d.asset_value d.bitcoin_fee p r.storage
          (commit sv (rgb a receiver) d r).1.storage
  unfolding commit rgb_operation
  commit_rgb a receiver d r p h =
      elim (Result-cases (
        sv.rgb_transfer a (map outpoint d.selection.choice.selected)
          ((d.payment.rgb_endpoint, d.asset_value) ∷ []) d.asset_change d.draft_psbt)) [
            | inr (inl (x, e)) ↦ absurd (ground arith)
            | inr (inr e) ↦ absurd (ground arith)
            | inl (t, e) ↦
                let o = rgb_operation sv d t in
                let (saved, r1) =
                  save_tweaks sv d.pay_from d.change.outputs t.witness 0 t.witness.outputs r in
                let kept =
                  save_tweaks-Keeps d.pay_from d.change.outputs t.witness 0 t.witness.outputs r
                    d.pay_from in
                elim (Result-cases saved) [
                  | inr (inl (x, e1)) ↦ absurd (ground arith)
                  | inr (inr e1) ↦ absurd (ground arith)
                  | inl (u, e1) ↦ elim (Result-cases (sv.enclose t.disclosure)) [
                    | inr (inl (x, e2)) ↦ absurd (ground arith)
                    | inr (inr e2) ↦ absurd (ground arith)
                    | inl (u2, e2) ↦
                        let (os, before, after) =
                          history-register_operation sv.storage_codec d.pay_from o r1.storage
                            (ground arith) in
                        (
                          o,
                          os,
                          sym kept ∙ before,
                          ground arith,
                          ground arith,
                          ground arith,
                          refl,
                          refl,
                        )
                  ]
                ]
          ]

  commit-IsRecorded :
      (info : TransferInfo) (d : Draft) (r : Runtime) (p : PreparedTransfer)
      → (commit sv info d r).0 ≡ ok p
      → IsRecorded d.pay_from d.asset_value d.bitcoin_fee p r.storage (commit sv info d r).1.storage
  commit-IsRecorded (bitcoin to) d r p h = commit_bitcoin to d r p h
  commit-IsRecorded (rgb a receiver) d r p h = commit_rgb a receiver d r p h

  -- A payment that is composed, in bitcoin or in an asset, enters the history of the contract that
  -- pays: behind the records that were there stands one more, and it has the PSBT that is
  -- returned, the id of its transaction, the value and the fee.
  pub transfer_recorded :
      (id : ContractId) (v fee : ℕ) (info : TransferInfo) (i : Invoice) (r : Runtime)
      (p : PreparedTransfer)
      → (transfer sv id v fee info i r).0 ≡ ok p
      → (o : Operation) × (os : List Operation) × (Storage.history id r.storage ≡ ok os)
        × (Storage.history id (transfer sv id v fee info i r).1.storage ≡ ok (os ++ o ∷ []))
        × (o.psbt ≡ p.psbt)
        × (o.txid ≡ sv.txid_of p.psbt.unsigned_tx)
        × (o.asset_value ≡ v)
        × (o.tx_fee ≡ fee)
  unfolding transfer
  transfer_recorded id v fee info i r p h =
      let (d, drafted, committed) =
        continue-eq-ok (draft sv id v fee info i r) (commit sv info) {b = p} h in
      let (frame, asked) = draft-Leads sv id v fee info i r in
      let (at_id, at_v, at_fee) = asked d drafted in
      let r1 = (draft sv id v fee info i r).1 in
      let (o, os, before, after, psbt', txid', value', fee') =
        commit-IsRecorded info d r1 p committed in
      (o, os, ground arith, ground arith, psbt', txid', value' ∙ at_v, fee' ∙ at_fee)
