-- ===== src/Storage/View.antt =====
-- The storage as a map from contract ids to contracts, and what each method does to that map.
use citadel_runtime.Common.{
  ℕ, ◌≡◌, ap, Option, none, some, map_option, if◌then◌else◌, arith, inl, inr, Option-cases,
}
use citadel_runtime.Common.Key.{nat_key, same, same_iff}
use citadel_runtime.Common.Map.{get, remove, get-insert, get-remove}
use citadel_runtime.Common.Result.{err}
use citadel_runtime.Foreign.Bitcoin.{OutpointReveal}
use citadel_runtime.Model.Contract
use citadel_runtime.Model.Contract.{Contract, ContractId, Citadel}
use citadel_runtime.Persist.{Codec, store}
use citadel_runtime.Persist.Synced.{content-store}
use citadel_runtime.Storage.{
  Error, contract_not_found, add_invoice, add_p2c_tweak, register_operation, Storage, lookup,
  contract_ref, set_contract, edit, add_blindings, add_contract, rename_contract, delete_contract,
  Call, add, rename, delete, invoice, p2c_tweak, operation, run,
}

abbrev pub View : Type 0
View = ContractId → Option Contract

abbrev pub changed : ContractId → (Contract → Contract) → View → View
changed id f v j = if same id j then map_option f (v j) else v j

module _ (conceal : OutpointReveal → ℕ) where
  -- the meaning of a call: no file, no result, only the contracts
  abbrev pub effect : Call → View → View
  effect (add c) v j = if same c.id j then some c else v j
  effect (rename id n) v j = changed id (λ c. record c { name = n }) v j
  effect (delete id) v j = if same id j then none else v j
  effect (invoice id i rs) v j =
      changed id (λ c. add_blindings conceal rs (Contract.add_invoice i c)) v j
  effect (p2c_tweak id t) v j = changed id (Contract.add_p2c_tweak t) v j
  effect (operation id o) v j = changed id (Contract.add_operation o) v j

module _ (codec : Codec Citadel Error) where
  lookup-store : (j : ContractId) (d : Storage) → lookup j (store codec d).1 ≡ lookup j d
  lookup-store j d = ap (λ (c : Citadel). get j c.contracts) (content-store codec d).0

  lookup-edit :
      (id j : ContractId) (f : Contract → Contract) (d : Storage)
      → lookup j (edit codec id f d).1 ≡ changed id f (λ i. lookup i d) j
  unfolding edit set_contract contract_ref
  lookup-edit id j f d = elim (Option-cases (lookup id d)) [
    | inl e ↦ ground (arith, same_iff id j)
    | inr (c, e) ↦ ground (
      arith,
      same_iff id j,
      lookup-store j (set_contract id (f c) d),
      get-insert id j (f c) d.content.contracts,
    )
  ]

  lookup-add :
      (c : Contract) (j : ContractId) (d : Storage)
      → lookup j (add_contract codec c d).1 ≡ (if same c.id j then some c else lookup j d)
  unfolding add_contract
  lookup-add c j d =
      ground
        (arith, lookup-store j (set_contract c.id c d), get-insert c.id j c d.content.contracts)

  lookup-delete :
      (id j : ContractId) (d : Storage)
      → lookup j (delete_contract codec id d).1 ≡ (if same id j then none else lookup j d)
  unfolding delete_contract
  lookup-delete id j d = elim (Option-cases (lookup id d)) [
    | inl e ↦ ground (arith, same_iff id j)
    | inr (c, e) ↦ ground (
      arith,
      same_iff id j,
      lookup-store j
          (record d { content = record d.content { contracts = remove id d.content.contracts } }),
      get-remove id j d.content.contracts,
    )
  ]

  -- Every method changes the map of contracts exactly as its meaning says, on every path: also
  -- where the contract is missing, and where writing the file fails.
  pub run-effect :
      (conceal : OutpointReveal → ℕ) (call : Call) (d : Storage) (j : ContractId)
      → lookup j (run codec conceal call d).1 ≡ effect conceal call (λ i. lookup i d) j
  unfolding run
  run-effect conceal (add c) d j = ground (arith, lookup-add c j d)
  run-effect conceal (rename id n) d j =
      unfold rename_contract in lookup-edit id j (λ c. record c { name = n }) d
  run-effect conceal (delete id) d j = lookup-delete id j d
  run-effect conceal (invoice id i rs) d j =
      unfold add_invoice in
      lookup-edit id j (λ c. add_blindings conceal rs (Contract.add_invoice i c)) d
  run-effect conceal (p2c_tweak id t) d j =
      unfold add_p2c_tweak in lookup-edit id j (Contract.add_p2c_tweak t) d
  run-effect conceal (operation id o) d j =
      unfold register_operation in lookup-edit id j (Contract.add_operation o) d

  -- the contract that a call needs to find
  abbrev pub target : Call → Option ContractId
  target (add c) = none
  target (rename id n) = some id
  target (delete id) = some id
  target (invoice id i rs) = some id
  target (p2c_tweak id t) = some id
  target (operation id o) = some id

  -- A method that does not find its contract returns `ContractNotFound` with the id, and leaves
  -- the storage and its file as they were.
  pub run_missing :
      (conceal : OutpointReveal → ℕ) (call : Call) (d : Storage) (id : ContractId)
      → target call ≡ some id
      → lookup id d ≡ none
      → run codec conceal call d ≡ (err (contract_not_found id), d)
  unfolding run rename_contract delete_contract add_invoice add_p2c_tweak register_operation
  run_missing conceal (add c) d id h m = cc
  run_missing conceal (rename i n) d id h m = ground arith
  run_missing conceal (delete i) d id h m = ground arith
  run_missing conceal (invoice i v rs) d id h m = ground arith
  run_missing conceal (p2c_tweak i t) d id h m = ground arith
  run_missing conceal (operation i o) d id h m = ground arith
