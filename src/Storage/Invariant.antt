-- ===== src/Storage/Invariant.antt =====
-- What holds of every contract in the storage, and what a repeated call does.
use citadel_runtime.Common.{
  ℕ, ◌≡◌, refl, sym, ◌∙◌, false, some, List, [], ◌∷◌, ◌++◌, if◌then◌else◌, arith, inl, inr,
  Option-cases, Bool-cases,
}
use citadel_runtime.Common.Key.{nat_key, same, same_iff, same_self}
use citadel_runtime.Common.Set.{contains, contains-append}
use citadel_runtime.Common.Result.{ok, map_ok, Result-cases}
use citadel_runtime.Foreign.Bitcoin.{OutpointReveal, Invoice}
use citadel_runtime.Model.Policy.{Policy}
use citadel_runtime.Model.Operation.{Operation}
use citadel_runtime.Model.Contract
use citadel_runtime.Model.Contract.{Contract, ContractId, Citadel, contract_with}
use citadel_runtime.Persist.{Codec, store}
use citadel_runtime.Storage.{
  Error, Storage, lookup, contract_ref, history, add_blindings, Call, add, rename, delete, invoice,
  p2c_tweak, operation, run, add_contract, set_contract,
}
use citadel_runtime.Storage.View.{View, changed, effect, run-effect}
use mathlib.Core.Path.{subst}

-- no invoice is listed twice
unfoldable pub IsDistinct : List Invoice → Type 0
IsDistinct [] = Unit
IsDistinct (i ∷ is) = (contains i is ≡ false) × IsDistinct is

append-IsDistinct :
    (is : List Invoice) (i : Invoice)
    → contains i is ≡ false
    → IsDistinct is
    → IsDistinct (is ++ i ∷ [])
unfolding IsDistinct contains
append-IsDistinct [] i n d = (refl, tt)
append-IsDistinct (x ∷ xs) i n d = (
  ground (arith, contains-append x xs (i ∷ []), same_iff x i, same_iff i x, d.0),
  append-IsDistinct xs i (ground arith) d.1,
)

add_invoice-IsDistinct :
    (i : Invoice) (c : Contract)
    → IsDistinct c.contents.sent_invoices
    → IsDistinct (Contract.add_invoice i c).contents.sent_invoices
unfolding Contract.add_invoice
add_invoice-IsDistinct i c d = elim (Bool-cases (contains i c.contents.sent_invoices)) [
  | inl e ↦ rw e d
  | inr e ↦ rw e (append-IsDistinct c.contents.sent_invoices i e d)
]

add_blindings_kept :
    (conceal : OutpointReveal → ℕ) (rs : List OutpointReveal) (c : Contract)
    → ((add_blindings conceal rs c).contents.sent_invoices ≡ c.contents.sent_invoices)
      × ((add_blindings conceal rs c).id ≡ c.id)
unfolding add_blindings
add_blindings_kept conceal [] c = (refl, refl)
add_blindings_kept conceal (r ∷ rs) c =
    ground (arith, add_blindings_kept conceal rs (Contract.add_blinding conceal r c))

add_invoice_id : (i : Invoice) (c : Contract) → (Contract.add_invoice i c).id ≡ c.id
unfolding Contract.add_invoice
add_invoice_id i c = ground arith

-- A contract is filed under its own id, and lists no invoice twice.
pub record IsFiled (j : ContractId) (c : Contract) : Type 0 where
  pub own_id : c.id ≡ j
  pub invoices : IsDistinct c.contents.sent_invoices

abbrev pub IsWellFormed : View → Type 0
IsWellFormed v = (j : ContractId) (c : Contract) → v j ≡ some c → IsFiled j c

changed-IsWellFormed :
    (id : ContractId) (f : Contract → Contract) (v : View)
    → ((j : ContractId) (c : Contract) → IsFiled j c → IsFiled j (f c))
    → IsWellFormed v
    → IsWellFormed (changed id f v)
changed-IsWellFormed id f v keeps w j c h = elim (Option-cases (v j)) [
  | inl e ↦ absurd (ground arith)
  | inr (b, e) ↦ elim (Bool-cases (same id j)) [
    | inl s ↦ let q : f b ≡ c = ground arith in subst (IsFiled j) q (keeps j b (w j b e))
    | inr n ↦ w j c (rw n at h)
  ]
]

invoice_keeps :
    (conceal : OutpointReveal → ℕ) (rs : List OutpointReveal) (i : Invoice) (j : ContractId)
    (c : Contract)
    → IsFiled j c
    → IsFiled j (add_blindings conceal rs (Contract.add_invoice i c))
invoice_keeps conceal rs i j c k =
    let (kept, same_id) = add_blindings_kept conceal rs (Contract.add_invoice i c) in
    record {
      own_id = same_id ∙ add_invoice_id i c ∙ k.own_id;
      invoices = rw kept (add_invoice-IsDistinct i c k.invoices);
    }

-- what a call must bring along: a contract that is added lists no invoice twice
abbrev pub IsProper : Call → Type 0
IsProper (add c) = IsDistinct c.contents.sent_invoices
IsProper (rename id n) = Unit
IsProper (delete id) = Unit
IsProper (invoice id i rs) = Unit
IsProper (p2c_tweak id t) = Unit
IsProper (operation id o) = Unit

effect-IsWellFormed :
    (conceal : OutpointReveal → ℕ) (call : Call) (v : View)
    → IsProper call
    → IsWellFormed v
    → IsWellFormed (effect conceal call v)
effect-IsWellFormed conceal (add a) v p w j c h = elim (Bool-cases (same a.id j)) [
  | inl s ↦
      let q : a ≡ c = ground arith in
      subst (IsFiled j) q (record { own_id = (same_iff a.id j).0 s; invoices = p })
  | inr n ↦ w j c (rw n at h)
]
effect-IsWellFormed conceal (rename id n) v p w j c h =
    changed-IsWellFormed id (λ c. record c { name = n }) v
      (λ j c k. record { own_id = k.own_id; invoices = k.invoices }) w j c h
effect-IsWellFormed conceal (delete id) v p w j c h = elim (Bool-cases (same id j)) [
  | inl s ↦ absurd (ground arith)
  | inr n ↦ w j c (rw n at h)
]
effect-IsWellFormed conceal (invoice id i rs) v p w j c h =
    changed-IsWellFormed id (λ c. add_blindings conceal rs (Contract.add_invoice i c)) v
      (invoice_keeps conceal rs i) w j c h
effect-IsWellFormed conceal (p2c_tweak id t) v p w j c h =
    unfold Contract.add_p2c_tweak in
    changed-IsWellFormed id (Contract.add_p2c_tweak t) v
      (λ j c k. record { own_id = k.own_id; invoices = k.invoices }) w j c h
effect-IsWellFormed conceal (operation id o) v p w j c h =
    unfold Contract.add_operation in
    changed-IsWellFormed id (Contract.add_operation o) v
      (λ j c k. record { own_id = k.own_id; invoices = k.invoices }) w j c h

module _ (codec : Codec Citadel Error) (conceal : OutpointReveal → ℕ) where
  -- Every method keeps each contract under its own id and each invoice listed once, whatever the
  -- method returns, provided that a contract which is added lists no invoice twice.
  pub run-IsWellFormed :
      (call : Call) (d : Storage)
      → IsProper call
      → IsWellFormed (λ j. lookup j d)
      → IsWellFormed (λ j. lookup j (run codec conceal call d).1)
  run-IsWellFormed call d p w j c h =
      effect-IsWellFormed conceal call (λ i. lookup i d) p w j c
        (sym (run-effect codec conceal call d j) ∙ h)

  -- Registering an operation for a contract: its history, if it is in the storage, has the
  -- operation behind all that were there; every other history stays. This holds whatever becomes
  -- of the file.
  pub history-operation :
      (id j : ContractId) (o : Operation) (d : Storage)
      → history j (run codec conceal (operation id o) d).1
        ≡ (if same id j then map_ok (λ os. os ++ o ∷ []) (history j d) else history j d)
  unfolding history contract_ref Contract.add_operation
  history-operation id j o d = elim (Bool-cases (same id j)) [
    | inl e ↦
        rw e
          (ground (arith, run-effect codec conceal (operation id o) d j, Option-cases (lookup j d)))
    | inr e ↦ rw e (ground (arith, run-effect codec conceal (operation id o) d j))
  ]

  run-added :
      (c : Contract) (d : Storage)
      → (run codec conceal (add c) d).0 ≡ (store codec (set_contract c.id c d)).0
  unfolding run add_contract
  run-added c d = elim (Result-cases (store codec (set_contract c.id c d)).0) [
    | inl (u, e) ↦ ground arith
    | inr (inl (x, e)) ↦ ground arith
    | inr (inr e) ↦ ground arith
  ]

  -- A contract that is created again, with the policy of one that is there, takes its place: the
  -- history, the invoices, the blinding factors and the tweaks of the old one are gone, and what is
  -- returned is what writing the file of the changed storage returns, so `Ok` where that succeeds.
  pub add_replaces :
      (commit : Policy → ContractId) (now : ℕ) (p : Policy) (name chain : ℕ) (old : Contract)
      (d : Storage)
      → lookup (commit p) d ≡ some old
      → (lookup (commit p) (run codec conceal (add (contract_with commit now p name chain)) d).1
          ≡ some (contract_with commit now p name chain))
        × (history (commit p) (run codec conceal (add (contract_with commit now p name chain)) d).1
            ≡ ok [])
        × ((run codec conceal (add (contract_with commit now p name chain)) d).0
            ≡ (store codec (set_contract (commit p) (contract_with commit now p name chain) d)).0)
  unfolding contract_with history contract_ref
  add_replaces commit now p name chain old d h =
      let same_result = run-added (contract_with commit now p name chain) d in
      ground (
        arith,
        run-effect codec conceal (add (contract_with commit now p name chain)) d (commit p),
        same_self (commit p),
        same_result,
      )
