-- ===== src/Transfer/Prepare/Closed.antt =====
-- A payment changes the storage only by tweaks and by a record in a history: what these keep, the
-- payment keeps.
use citadel_runtime.Common.{ℕ, suc, ◌≡◌, sym, Option, none, some, List, [], ◌∷◌, get_elem?, map}
use mathlib.Core.Path.{subst}
use citadel_runtime.Common.Result.{Result, ok, err, panic, Exec, ◌>>=◌, lift, continue, map_err}
use citadel_runtime.Foreign.Bitcoin.{Invoice, Psbt, PsbtOutput, TxOut}
use citadel_runtime.Model.Utxo.{outpoint}
use citadel_runtime.Model.Operation.{Operation}
use citadel_runtime.Model.Contract.{ContractId, TweakedOutput}
use citadel_runtime.Storage
use citadel_runtime.Storage.{Storage}
use citadel_runtime.Runtime.Error.{Error, storage_driver}
use citadel_runtime.Runtime.Message.{TransferInfo, bitcoin, rgb}
use citadel_runtime.Runtime.State.{Runtime, Services, Transfer, on_storage}
use citadel_runtime.Transfer.Change.{Output}
use citadel_runtime.Transfer.Prepare.{
  Draft, draft, commit, transfer, save_tweak, check_output, save_tweaks, rgb_operation,
  bitcoin_operation,
}
use citadel_runtime.Transfer.Prepare.Drafts.{draft-Leads}

-- the state after a step: `P` holds of it if the step returned `Ok`, and `F` if not
abbrev pub After : {S E A : Type 0} → (S → Type 0) → (S → Type 0) → Result E A → S → Type 0
After P F (ok a) s = P s
After P F (err e) s = F s
After P F panic s = F s

-- a step that starts where `P` holds
abbrev pub Preserves :
    {A : Type 0} → (Storage → Type 0) → (Storage → Type 0) → Exec Runtime Error A → Type 0
Preserves P F m = (r : Runtime) → P r.storage → After P F (m r).0 (m r).1.storage

module _ {S : Type 0} (P F : S → Type 0) (weaken : (s : S) → P s → F s) where
  -- whatever the result is
  pub always-After : {E A : Type 0} (x : Result E A) (s : S) → P s → After P F x s
  always-After (ok a) s p = p
  always-After (err e) s p = weaken s p
  always-After panic s p = weaken s p

  pub map_err-After :
      {E E' A : Type 0} (f : E → E') (x : Result E A) (s : S)
      → After P F x s
      → After P F (map_err f x) s
  map_err-After f (ok a) s p = p
  map_err-After f (err e) s p = p
  map_err-After f panic s p = p

module _ (P F : Storage → Type 0) (weaken : (s : Storage) → P s → F s) where
  continue-After :
      {A B : Type 0} (x : Result Error A) (r : Runtime) (f : A → Exec Runtime Error B)
      → After P F x r.storage
      → ((a : A) → Preserves P F (f a))
      → After P F (continue x r f).0 (continue x r f).1.storage
  continue-After (ok a) r f p next = next a r p
  continue-After (err e) r f p next = p
  continue-After panic r f p next = p

  pub bind-Preserves :
      {A B : Type 0} (m : Exec Runtime Error A) (f : A → Exec Runtime Error B)
      → Preserves P F m
      → ((a : A) → Preserves P F (f a))
      → Preserves P F (m >>= f)
  bind-Preserves m f keeps next r w = continue-After (m r).0 (m r).1 f (keeps r w) next

  -- a step that leaves the storage as it is
  pub frame-Preserves :
      {A : Type 0} (m : Exec Runtime Error A)
      → ((r : Runtime) → (m r).1.storage ≡ r.storage)
      → Preserves P F m
  frame-Preserves m frame r w =
      always-After P F weaken (m r).0 (m r).1.storage (subst P (sym (frame r)) w)

module _ (sv : Services) (P F : Storage → Type 0) (weaken : (s : Storage) → P s → F s)
    (tweak : (id : ContractId) (t : TweakedOutput) (s : Storage)
      → P s
      → After P F
          (Storage.add_p2c_tweak sv.storage_codec id t s).0
          (Storage.add_p2c_tweak sv.storage_codec id t s).1)
    (record_it : (id : ContractId) (o : Operation) (s : Storage)
      → P s
      → After P F
          (Storage.register_operation sv.storage_codec id o s).0
          (Storage.register_operation sv.storage_codec id o s).1) where
  save_tweak-Preserves :
      (id : ContractId) (w : Psbt) (n : ℕ) (out : Option TxOut) (found : Option (ℕ × ℕ × ℕ))
      → Preserves P F (save_tweak sv id w n out found)
  unfolding save_tweak
  save_tweak-Preserves id w n out none r p = p
  save_tweak-Preserves id w n none (some (k, t, i)) r p = weaken r.storage p
  save_tweak-Preserves id w n (some out) (some (k, t, i)) r p =
      map_err-After P F weaken storage_driver _ _ (tweak id _ r.storage p)

  check_output-Preserves :
      (id : ContractId) (w : Psbt) (n : ℕ) (out : PsbtOutput) (o : Option Output)
      → Preserves P F (check_output sv id w n out o)
  unfolding check_output
  check_output-Preserves id w n out none r p = weaken r.storage p
  check_output-Preserves id w n out (some (tx_out, index)) r p =
      save_tweak-Preserves id w n (get_elem? w.unsigned_tx.output n) _ r p

  save_tweaks-Preserves :
      (id : ContractId) (outs : List Output) (w : Psbt) (n : ℕ) (rest : List PsbtOutput)
      → Preserves P F (save_tweaks sv id outs w n rest)
  unfolding save_tweaks
  save_tweaks-Preserves id outs w n [] r p = p
  save_tweaks-Preserves id outs w n (out ∷ rest) r p =
      bind-Preserves P F weaken (check_output sv id w n out (get_elem? outs n))
        (λ u. save_tweaks sv id outs w (suc n) rest)
        (check_output-Preserves id w n out (get_elem? outs n))
        (λ u. save_tweaks-Preserves id outs w (suc n) rest) r p

  commit-Preserves : (info : TransferInfo) (d : Draft) → Preserves P F (commit sv info d)
  unfolding commit
  commit-Preserves (bitcoin to) d =
      bind-Preserves P F weaken
        (on_storage
          (Storage.register_operation sv.storage_codec d.pay_from (bitcoin_operation sv d)))
        _
        (λ r p.
          map_err-After P F weaken storage_driver _ _
            (record_it d.pay_from (bitcoin_operation sv d) r.storage p))
        (λ u r p. p)
  commit-Preserves (rgb a receiver) d =
      bind-Preserves P F weaken
        (lift (
          sv.rgb_transfer a (map outpoint d.selection.choice.selected)
            ((d.payment.rgb_endpoint, d.asset_value) ∷ []) d.asset_change d.draft_psbt))
        _ (λ r p. always-After P F weaken _ _ p)
        (λ (t : Transfer).
          bind-Preserves P F weaken
            (save_tweaks sv d.pay_from d.change.outputs t.witness 0 t.witness.outputs) _
            (save_tweaks-Preserves d.pay_from d.change.outputs t.witness 0 t.witness.outputs)
            (λ u.
              bind-Preserves P F weaken (lift (sv.enclose t.disclosure)) _
                (λ r p. always-After P F weaken _ _ p)
                (λ u2.
                  bind-Preserves P F weaken
                    (on_storage (
                      Storage.register_operation sv.storage_codec d.pay_from
                        (rgb_operation sv d t)))
                    _
                    (λ r p.
                      map_err-After P F weaken storage_driver _ _
                        (record_it d.pay_from (rgb_operation sv d t) r.storage p))
                    (λ u3 r p. p))))

  pub transfer-Preserves :
      (id : ContractId) (v fee : ℕ) (info : TransferInfo) (i : Invoice)
      → Preserves P F (transfer sv id v fee info i)
  unfolding transfer
  transfer-Preserves id v fee info i =
      bind-Preserves P F weaken (draft sv id v fee info i) (commit sv info)
        (frame-Preserves P F weaken (draft sv id v fee info i)
          (λ r. (draft-Leads sv id v fee info i r).0))
        (commit-Preserves info)
