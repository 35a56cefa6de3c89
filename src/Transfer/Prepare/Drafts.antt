-- ===== src/Transfer/Prepare/Drafts.antt =====
-- The draft of a payment leaves the storage as it is, and is the draft of what was asked for.
use citadel_runtime.Common.{ℕ, ◌≡◌, refl, ◌∙◌, arith, inl, inr}
use citadel_runtime.Common.Key.{nat_key}
use citadel_runtime.Common.Result.{ok, Exec, ◌>>=◌, pure, lift, Result-cases}
use mathlib.Core.Path.{subst}
use citadel_runtime.Foreign.Bitcoin.{Invoice}
use citadel_runtime.Model.Contract.{ContractId}
use citadel_runtime.Storage
use citadel_runtime.Storage.{Storage, p2c_tweak, operation}
use citadel_runtime.Runtime.Error.{Error}
use citadel_runtime.Runtime.Message.{TransferInfo}
use citadel_runtime.Runtime.State.{Runtime, Services, from_storage, from_cache}
use citadel_runtime.Transfer.Coins.{load_coins, select_coins}
use citadel_runtime.Transfer.Change.{pay, bitcoin_change, rgb_change, bitcoin_input_amount}
use citadel_runtime.Transfer.Change.Frame.{
  Frame, pay-Frame, bitcoin_change-Frame, rgb_change-Frame, input-Frame,
}
use citadel_runtime.Transfer.Prepare.{Draft, draft, make_psbt}

-- a step that leaves the storage as it is, and whose result has a property
abbrev pub Leads : {A : Type 0} → (A → Type 0) → Exec Runtime Error A → Type 0
Leads {A} Q m = (r : Runtime) → ((m r).1.storage ≡ r.storage) × ((a : A) → (m r).0 ≡ ok a → Q a)

bind-Leads :
    {A B : Type 0} (Q : B → Type 0) (m : Exec Runtime Error A) (f : A → Exec Runtime Error B)
    → Frame m
    → ((a : A) → Leads Q (f a))
    → Leads Q (m >>= f)
bind-Leads Q m f frame next r = elim (Result-cases (m r).0) [
  | inl (a, e) ↦ rw e ((next a (m r).1).0 ∙ frame r, (next a (m r).1).1)
  | inr (inl (x, e)) ↦ rw e (frame r, λ b h. cc)
  | inr (inr e) ↦ rw e (frame r, λ b h. cc)
]

pure-Leads : {A : Type 0} (Q : A → Type 0) (a : A) → Q a → Leads Q (pure a)
pure-Leads Q a q r = (refl, λ b h. let e : a ≡ b = ground arith in subst Q e q)

module _ (sv : Services) where
  -- the draft of a payment, as it was asked for
  abbrev pub IsFor : ContractId → ℕ → ℕ → Draft → Type 0
  IsFor id v fee d = (d.pay_from ≡ id) × (d.asset_value ≡ v) × (d.bitcoin_fee ≡ fee)

  pub draft-Leads :
      (id : ContractId) (v fee : ℕ) (info : TransferInfo) (i : Invoice)
      → Leads (IsFor id v fee) (draft sv id v fee info i)
  unfolding draft
  draft-Leads id v fee info i =
      let Q = IsFor id v fee in
      bind-Leads Q (from_storage (Storage.contract_ref id)) _ (λ r. refl)
        (λ contract.
          bind-Leads Q (from_cache (load_coins id info)) _ (λ r. refl)
            (λ coins.
              bind-Leads Q (lift (select_coins info v fee coins)) _ (λ r. refl)
                (λ selection. bind-Leads Q (pay sv info v) _ (pay-Frame sv info v) (λ payment.
                  let selected = selection.choice.selected in
                  bind-Leads Q (bitcoin_input_amount id selected) _ (input-Frame sv id selected)
                    (λ input.
                      bind-Leads Q (bitcoin_change sv id contract payment fee input) _
                        (bitcoin_change-Frame sv id contract payment fee input)
                        (λ change.
                          bind-Leads Q (rgb_change sv info v selection.choice change.change_vout) _
                            (rgb_change-Frame sv info v selection.choice change.change_vout)
                            (λ assets.
                              bind-Leads Q (lift sv.connect) _ (λ r. refl)
                                (λ u.
                                  bind-Leads Q
                                    (lift (make_psbt sv contract.policy selected change.outputs)) _
                                    (λ r. refl) (λ made. pure-Leads Q _ (refl, refl, refl))))))))))
