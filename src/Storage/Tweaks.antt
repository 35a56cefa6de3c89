-- ===== src/Storage/Tweaks.antt =====
-- The tweaks that the storage knows of a contract.
use citadel_runtime.Common.{◌≡◌, refl, true, some, arith, inl, inr, Option-cases, Bool-cases}
use citadel_runtime.Common.Key.{nat_key, same_self, same}
use citadel_runtime.Common.Set.{contains, contains-add}
use citadel_runtime.Common.Result.{ok}
use citadel_runtime.Model.Operation.{Operation}
use citadel_runtime.Model.Contract
use citadel_runtime.Model.Contract.{Citadel, TweakedOutput, Contract, ContractId, tweaked_key}
use citadel_runtime.Persist.{Codec}
use citadel_runtime.Storage
use citadel_runtime.Storage.{Storage, p2c_tweak, operation}
use citadel_runtime.Storage.View.{run-effect, run_missing}

-- the storage knows the tweak for the contract
abbrev pub Known : ContractId → TweakedOutput → Storage → Type 0
Known id t d =
    (c : Contract) × (Storage.lookup id d ≡ some c) × (contains t c.contents.p2c_tweaks ≡ true)

module _ (codec : Codec Citadel Storage.Error) where
  pub Known-add_p2c_tweak :
      (id j : ContractId) (u t : TweakedOutput) (d : Storage)
      → Known j t d
      → Known j t (Storage.add_p2c_tweak codec id u d).1
  unfolding Storage.run Contract.add_p2c_tweak
  Known-add_p2c_tweak id j u t d (c, e, k) = elim (Bool-cases (same id j)) [
    | inl s ↦ (
      Contract.add_p2c_tweak u c,
      ground (arith, run-effect codec (λ r. 0) (p2c_tweak id u) d j),
      ground (arith, contains-add u t c.contents.p2c_tweaks),
    )
    | inr s ↦ (c, ground (arith, run-effect codec (λ r. 0) (p2c_tweak id u) d j), k)
  ]

  pub Known-register_operation :
      (id j : ContractId) (o : Operation) (t : TweakedOutput) (d : Storage)
      → Known j t d
      → Known j t (Storage.register_operation codec id o d).1
  unfolding Storage.run Contract.add_operation
  Known-register_operation id j o t d (c, e, k) = elim (Bool-cases (same id j)) [
    | inl s ↦ (
      Contract.add_operation o c,
      ground (arith, run-effect codec (λ r. 0) (operation id o) d j),
      k,
    )
    | inr s ↦ (c, ground (arith, run-effect codec (λ r. 0) (operation id o) d j), k)
  ]

  pub added-Known :
      (id : ContractId) (t : TweakedOutput) (d : Storage)
      → (Storage.add_p2c_tweak codec id t d).0 ≡ ok tt
      → Known id t (Storage.add_p2c_tweak codec id t d).1
  unfolding Storage.run Contract.add_p2c_tweak
  added-Known id t d h = elim (Option-cases (Storage.lookup id d)) [
    | inl e ↦ absurd (ground (arith, run_missing codec (λ r. 0) (p2c_tweak id t) d id refl e))
    | inr (c, e) ↦ (
      Contract.add_p2c_tweak t c,
      ground (arith, run-effect codec (λ r. 0) (p2c_tweak id t) d id, same_self id),
      ground (arith, contains-add t t c.contents.p2c_tweaks, same_self t),
    )
  ]
