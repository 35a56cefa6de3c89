-- ===== src/Storage/Durable.antt =====
-- When a method of the storage returns `Ok`, the file holds what is in memory.
use citadel_runtime.Common.{ℕ, ◌≡◌, some, [], arith, inl, inr, Option-cases}
use citadel_runtime.Common.Result.{ok}
use citadel_runtime.Foreign.Bitcoin.{OutpointReveal}
use citadel_runtime.Common.Key.{nat_key}
use citadel_runtime.Common.Map.{remove}
use citadel_runtime.Model.Contract
use citadel_runtime.Model.Contract.{Contract, ContractId, Citadel}
use citadel_runtime.Persist.{Codec, with}
use citadel_runtime.Persist.Synced.{IsSynced, store-IsSynced}
use citadel_runtime.Persist.Reload.{RoundTrips, with_synced}
use citadel_runtime.Storage.{
  Error, Storage, lookup, contract_ref, set_contract, edit, add_contract, rename_contract,
  delete_contract, add_invoice, add_p2c_tweak, register_operation, Call, add, rename, delete,
  invoice, p2c_tweak, operation, run, add_blindings,
}

module _ (codec : Codec Citadel Error) where
  edit-IsSynced :
      (id : ContractId) (f : Contract → Contract) (d : Storage)
      → (edit codec id f d).0 ≡ ok tt
      → IsSynced codec (edit codec id f d).1 × ((edit codec id f d).1.config ≡ d.config)
  unfolding edit set_contract contract_ref
  edit-IsSynced id f d h = elim (Option-cases (lookup id d)) [
    | inl e ↦ absurd (ground arith)
    | inr (c, e) ↦ ground (arith, store-IsSynced codec (set_contract id (f c) d))
  ]

  pub call-IsSynced :
      (conceal : OutpointReveal → ℕ) (call : Call) (d : Storage)
      → (run codec conceal call d).0 ≡ ok tt
      → IsSynced codec (run codec conceal call d).1
        × ((run codec conceal call d).1.config ≡ d.config)
  unfolding run rename_contract delete_contract add_invoice add_p2c_tweak register_operation
  call-IsSynced conceal (add c) d h =
      unfold add_contract set_contract in
      ground (arith, store-IsSynced codec (set_contract c.id c d))
  call-IsSynced conceal (rename i n) d h = edit-IsSynced i (λ c. record c { name = n }) d h
  call-IsSynced conceal (delete i) d h = elim (Option-cases (lookup i d)) [
    | inl e ↦ absurd (ground arith)
    | inr (c, e) ↦ ground (
      arith,
      store-IsSynced codec
          (record d { content = record d.content { contracts = remove i d.content.contracts } }),
    )
  ]
  call-IsSynced conceal (invoice i v rs) d h =
      edit-IsSynced i (λ c. add_blindings conceal rs (Contract.add_invoice v c)) d h
  call-IsSynced conceal (p2c_tweak i t) d h = edit-IsSynced i (Contract.add_p2c_tweak t) d h
  call-IsSynced conceal (operation i o) d h = edit-IsSynced i (Contract.add_operation o) d h

  -- Durability: after a method that returned `Ok`, a storage that is started on the file has
  -- every contract as the memory had it, provided that the deserializers read back what the
  -- serializers write.
  pub run-restart :
      (laws : RoundTrips codec) (conceal : OutpointReveal → ℕ) (call : Call) (d : Storage)
      (empty : Citadel)
      → (run codec conceal call d).0 ≡ ok tt
      → (d' : Storage) × (with codec d.config (some (run codec conceal call d).1.fd.bytes) [] empty
          ≡ ok d')
        × (d'.content ≡ (run codec conceal call d).1.content)
  run-restart laws conceal call d empty h =
      let (synced, same_config) = call-IsSynced conceal call d h in
      let (d', opens, e) = with_synced codec laws (run codec conceal call d).1 empty synced in
      (d', rw same_config at opens, e)
