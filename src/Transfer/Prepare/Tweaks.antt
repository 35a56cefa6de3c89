-- ===== src/Transfer/Prepare/Tweaks.antt =====
-- The tweaks of an RGB payment of `src/runtime/processor/transfer.rs`.
use citadel_runtime.Common.{
  ℕ, zero, suc, ◌+◌, ◌%◌, ◌≡◌, Option, none, some, List, [], ◌∷◌, arith, inl, inr, get_elem?, map,
  u32_mod,
}
use mathlib.Core.Path.{subst}
use citadel_runtime.Common.Key.{nat_key}
use citadel_runtime.Common.Result.{Result, ok, err, panic, map_err, Result-cases, continue-eq-ok}
use citadel_runtime.Foreign.Bitcoin.{AssetId, Invoice, Psbt, PsbtOutput, TxOut}
use citadel_runtime.Model.Utxo.{outpoint}
use citadel_runtime.Model.Contract.{TweakedOutput, ContractId, tweaked_key}
use citadel_runtime.Storage
use citadel_runtime.Storage.{Storage, p2c_tweak, operation}
use citadel_runtime.Runtime.Error.{storage_driver}
use citadel_runtime.Runtime.Message.{RgbReceiver, rgb, PreparedTransfer}
use citadel_runtime.Runtime.State.{Runtime, Services}
use citadel_runtime.Transfer.Change.{Output}
use citadel_runtime.Transfer.Prepare.Drafts.{draft-Leads}
use citadel_runtime.Transfer.Prepare.{
  Draft, draft, commit, transfer, save_tweak, check_output, save_tweaks, rgb_operation, field,
}
use citadel_runtime.Storage.Tweaks.{
  Known, Known-add_p2c_tweak, Known-register_operation, added-Known,
}

storage_result :
    (x : Result Storage.Error (Unit {0})) → map_err storage_driver x ≡ ok tt → x ≡ ok tt
storage_result (ok b) h = ground arith
storage_result (err e) h = absurd (ground arith)
storage_result panic h = absurd (ground arith)

-- `t` is what the output `n` of the witness says, at the index of the output `n` of the payment.
abbrev pub IsTweakOf : Services → List Output → Psbt → ℕ → TweakedOutput → Type 0
IsTweakOf sv outputs w n t =
    (out : PsbtOutput) × (tx_out : TxOut) × (paid : TxOut) × (get_elem? w.outputs n ≡ some out)
    × (get_elem? w.unsigned_tx.output n ≡ some tx_out)
    × (get_elem? outputs n ≡ some (paid, some t.derivation_index))
    × (field sv.pubkey_field sv.parse_pubkey out ≡ some t.pubkey)
    × (field sv.tweak_field sv.parse_tweak out ≡ some t.tweak)
    × (t ≡ record t {
      outpoint = record { txid = sv.txid_of w.unsigned_tx; vout = n % u32_mod };
      script = tx_out.script_pubkey;
    })

module _ (sv : Services) (id : ContractId) (outputs : List Output) (w : Psbt)
    (t : TweakedOutput) where
  save_tweak-Known :
      (n : ℕ) (out : Option TxOut) (found : Option (ℕ × ℕ × ℕ)) (r : Runtime)
      → Known id t r.storage
      → Known id t (save_tweak sv id w n out found r).1.storage
  unfolding save_tweak
  save_tweak-Known n out none r k = k
  save_tweak-Known n none (some (p, f, i)) r k = k
  save_tweak-Known n (some out) (some (p, f, i)) r k =
      Known-add_p2c_tweak sv.storage_codec id id _ t r.storage k

  check_output-Known :
      (n : ℕ) (out : PsbtOutput) (o : Option Output) (r : Runtime)
      → Known id t r.storage
      → Known id t (check_output sv id w n out o r).1.storage
  unfolding check_output
  check_output-Known n out none r k = k
  check_output-Known n out (some (paid, index)) r k =
      save_tweak-Known n (get_elem? w.unsigned_tx.output n) _ r k

  save_tweaks-Known :
      (n : ℕ) (rest : List PsbtOutput) (r : Runtime)
      → Known id t r.storage
      → Known id t (save_tweaks sv id outputs w n rest r).1.storage
  unfolding save_tweaks
  save_tweaks-Known n [] r k = k
  save_tweaks-Known n (out ∷ rest) r k =
      let checked = check_output-Known n out (get_elem? outputs n) r k in
      elim (Result-cases (check_output sv id w n out (get_elem? outputs n) r).0) [
        | inl (u, e) ↦ rw e (
            save_tweaks-Known (suc n) rest (check_output sv id w n out (get_elem? outputs n) r).1
              checked)
        | inr (inl (x, e)) ↦ rw e checked
        | inr (inr e) ↦ rw e checked
      ]

  -- the round of an output that has a tweak
  check_output-learns :
      (n : ℕ) (out : PsbtOutput) (tx_out paid : TxOut) (r : Runtime)
      → get_elem? w.unsigned_tx.output n ≡ some tx_out
      → get_elem? outputs n ≡ some (paid, some t.derivation_index)
      → field sv.pubkey_field sv.parse_pubkey out ≡ some t.pubkey
      → field sv.tweak_field sv.parse_tweak out ≡ some t.tweak
      → t ≡ record t {
        outpoint = record { txid = sv.txid_of w.unsigned_tx; vout = n % u32_mod };
        script = tx_out.script_pubkey;
      }
      → (check_output sv id w n out (get_elem? outputs n) r).0 ≡ ok tt
      → Known id t (check_output sv id w n out (get_elem? outputs n) r).1.storage
  unfolding check_output save_tweak
  check_output-learns n out tx_out paid r e1 e2 e3 e4 e5 h =
      let codec = sv.storage_codec in
      let written = rw (e2, e1, e3, e4, ← e5) at h in
      rw (e2, e1, e3, e4)
        (subst (λ (u : TweakedOutput). Known id t (Storage.add_p2c_tweak codec id u r.storage).1) e5
          (added-Known codec id t r.storage
            (storage_result (Storage.add_p2c_tweak codec id t r.storage).0 written)))

  -- a loop that ends well has learned the tweaks of all its outputs
  save_tweaks-learns :
      (n k m : ℕ) (rest : List PsbtOutput) (out : PsbtOutput) (tx_out paid : TxOut) (r : Runtime)
      → m ≡ n + k
      → get_elem? rest k ≡ some out
      → get_elem? w.unsigned_tx.output m ≡ some tx_out
      → get_elem? outputs m ≡ some (paid, some t.derivation_index)
      → field sv.pubkey_field sv.parse_pubkey out ≡ some t.pubkey
      → field sv.tweak_field sv.parse_tweak out ≡ some t.tweak
      → t ≡ record t {
        outpoint = record { txid = sv.txid_of w.unsigned_tx; vout = m % u32_mod };
        script = tx_out.script_pubkey;
      }
      → (save_tweaks sv id outputs w n rest r).0 ≡ ok tt
      → Known id t (save_tweaks sv id outputs w n rest r).1.storage
  unfolding save_tweaks
  save_tweaks-learns n k m [] out tx_out paid r place e0 e1 e2 e3 e4 e5 h = absurd (ground arith)
  save_tweaks-learns n zero m (o ∷ rest) out tx_out paid r place e0 e1 e2 e3 e4 e5 h =
      let (u, first, later) =
        continue-eq-ok (check_output sv id w n o (get_elem? outputs n) r)
          (λ u. save_tweaks sv id outputs w (suc n) rest) {b = tt} h in
      let same_out : out ≡ o = ground arith in
      let at_n : m ≡ n = omega (arith, place) in
      rw first (
        save_tweaks-Known (suc n) rest (check_output sv id w n o (get_elem? outputs n) r).1 (
          check_output-learns n o tx_out paid r (rw at_n at e1) (rw at_n at e2) (rw same_out at e3)
            (rw same_out at e4) (rw at_n at e5) first))
  save_tweaks-learns n (suc k) m (o ∷ rest) out tx_out paid r place e0 e1 e2 e3 e4 e5 h =
      let (u, first, later) =
        continue-eq-ok (check_output sv id w n o (get_elem? outputs n) r)
          (λ u. save_tweaks sv id outputs w (suc n) rest) {b = tt} h in
      rw first (
        save_tweaks-learns (suc n) k m rest out tx_out paid
          (check_output sv id w n o (get_elem? outputs n) r).1 (omega (arith, place)) e0 e1 e2 e3 e4
          e5 later)

module _ (sv : Services) where
  commit-learns :
      (a : AssetId) (receiver : RgbReceiver) (d : Draft) (r : Runtime) (p : PreparedTransfer)
      (n : ℕ) (t : TweakedOutput)
      → (commit sv (rgb a receiver) d r).0 ≡ ok p
      → IsTweakOf sv d.change.outputs p.psbt n t
      → Known d.pay_from t (commit sv (rgb a receiver) d r).1.storage
  unfolding commit
  commit-learns a receiver d r p n t h (out, tx_out, paid, e0, e1, e2, e3, e4, e5) =
      elim (Result-cases (
        sv.rgb_transfer a (map outpoint d.selection.choice.selected)
          ((d.payment.rgb_endpoint, d.asset_value) ∷ []) d.asset_change d.draft_psbt)) [
            | inr (inl (x, e)) ↦ absurd (ground arith)
            | inr (inr e) ↦ absurd (ground arith)
            | inl (made, e) ↦
                let (saved, r1) =
                  save_tweaks sv d.pay_from d.change.outputs made.witness 0 made.witness.outputs
                    r in
                elim (Result-cases saved) [
                  | inr (inl (x, e6)) ↦ absurd (ground arith)
                  | inr (inr e6) ↦ absurd (ground arith)
                  | inl (u, e6) ↦ elim (Result-cases (sv.enclose made.disclosure)) [
                    | inr (inl (x, e7)) ↦ absurd (ground arith)
                    | inr (inr e7) ↦ absurd (ground arith)
                    | inl (u2, e7) ↦
                        let same_psbt : p.psbt ≡ made.witness = ground arith in
                        let known : Known d.pay_from t r1.storage =
                          save_tweaks-learns sv d.pay_from d.change.outputs made.witness t 0 n n
                            made.witness.outputs out tx_out paid r (omega arith)
                            (rw same_psbt at e0) (rw same_psbt at e1) e2 e3 e4 (rw same_psbt at e5)
                            e6 in
                        let o = rgb_operation sv d made in
                        let after =
                          Known-register_operation sv.storage_codec d.pay_from d.pay_from o t
                            r1.storage known in
                        elim (Result-cases
                          (Storage.register_operation sv.storage_codec d.pay_from o r1.storage).0) [
                            | inl (u3, e8) ↦ rw (e, e6, e7, e8) after
                            | inr (inl (x, e8)) ↦ rw (e, e6, e7, e8) after
                            | inr (inr e8) ↦ rw (e, e6, e7, e8) after
                          ]
                  ]
                ]
          ]

  -- the tweak of an output of an RGB payment is known when the payment has been composed
  pub transfer_learns :
      (id : ContractId) (v fee : ℕ) (a : AssetId) (receiver : RgbReceiver) (i : Invoice)
      (r : Runtime) (p : PreparedTransfer) (d : Draft) (n : ℕ) (t : TweakedOutput)
      → (transfer sv id v fee (rgb a receiver) i r).0 ≡ ok p
      → (draft sv id v fee (rgb a receiver) i r).0 ≡ ok d
      → IsTweakOf sv d.change.outputs p.psbt n t
      → Known id t (transfer sv id v fee (rgb a receiver) i r).1.storage
  unfolding transfer
  transfer_learns id v fee a receiver i r p d n t h drafted tweak =
      let r1 = (draft sv id v fee (rgb a receiver) i r).1 in
      let (_, asked) = draft-Leads sv id v fee (rgb a receiver) i r in
      let (at_id, _, _) = asked d drafted in
      let known = commit-learns a receiver d r1 p n t (rw drafted at h) tweak in
      rw drafted (subst (λ j. Known j t (commit sv (rgb a receiver) d r1).1.storage) at_id known)
