-- ===== src/Server/Found.antt =====
-- From `NextAddress` of `src/runtime/rpc_server.rs` to `chain_sync`.
use citadel_runtime.Common.{
  ℕ, ◌%◌, ◌<◌, ◌≤◌, ◌≡◌, refl, sym, ap, ◌∙◌, Bool, true, false, Option, some, unwrap_or, List, [],
  ◌∷◌, map, Elem, All, u32_mod, arith, inl, inr, Option-cases,
}
use mathlib.Core.Path.{subst}
use citadel_runtime.Common.Key.{nat_key}
use citadel_runtime.Common.Map.{BTreeMap, get}
use citadel_runtime.Common.Set.{contains}
use citadel_runtime.Common.Result.{ok, Result-cases}
use citadel_runtime.Foreign.Bitcoin.{AssetId, Script, bitcoin_id, outpoint_key}
use citadel_runtime.Foreign.Wallet.{Descriptor, DescriptorApi}
use citadel_runtime.Model.Utxo.{Utxo, outpoint}
use citadel_runtime.Model.Policy.{
  AddressDerivation, to_descriptor, translate, derive_descriptor, derive_address,
}
use citadel_runtime.Model.Contract.{Contract, contract_address}
use citadel_runtime.Cache
use citadel_runtime.Cache.Derivation.{last_used-ge}
use citadel_runtime.Runtime.Error.{Error}
use citadel_runtime.Runtime.State.{Runtime, ListUnspent}
use citadel_runtime.Sync.{chain_sync}
use citadel_runtime.Sync.Scan.Gathered.{listed_at}
use citadel_runtime.Sync.Rounds.Rule.{Answers}
use citadel_runtime.Sync.Rounds.Complete.{derived}
use citadel_runtime.Sync.Complete.{chain_sync_complete}
use citadel_runtime.Rpc.Request.{NextAddressRequest}
use citadel_runtime.Rpc.Reply.{Reply}
use citadel_runtime.Server.{mark_address, next_address}
use citadel_runtime.Server.Queries.{mark_address-storage}
use citadel_runtime.Server.Address.{next_address-Finds, mark_address-recorded, derived_at}
use citadel_runtime.Server.Outside.{Backend}

-- The address of a descriptor stands for its script, as the miniscript crate documents.
abbrev pub AddressScripts : DescriptorApi → Type 0
AddressScripts api =
    (d network a : ℕ) → api.address d network ≡ some a → api.address_script a ≡ api.script_pubkey d

module _ (api : DescriptorApi) where
  -- a contract that derives an address has a descriptor
  has_descriptor :
      (c : Contract) (index : ℕ) (legacy : Bool) (o : Option AddressDerivation)
      → contract_address {E = Error} api c index legacy ≡ ok o
      → (d : Descriptor) × (to_descriptor {E = Error} api c.policy ≡ ok d)
  unfolding contract_address derive_address derive_descriptor
  has_descriptor c index legacy o h = elim (Result-cases (to_descriptor {E = Error} api c.policy)) [
    | inl (d, e) ↦ (d, e)
    | inr (inl (x, e)) ↦ absurd (ground arith)
    | inr (inr e) ↦ absurd (ground arith)
  ]

  address_script-derived :
      (c : Contract) (index : ℕ) (x : AddressDerivation) (d : Descriptor)
      → AddressScripts api
      → to_descriptor {E = Error} api c.policy ≡ ok d
      → contract_address {E = Error} api c index false ≡ ok (some x)
      → api.address_script x.address ≡ api.script_pubkey (translate api d index)
  unfolding contract_address derive_address derive_descriptor
  address_script-derived c index x d law e h = elim (Option-cases (api.network c.chain)) [
    | inl n ↦ absurd (ground arith)
    | inr (network, n) ↦ elim (Option-cases (api.address (translate api d index) network)) [
      | inl m ↦ absurd (ground arith)
      | inr (a, m) ↦ ground (arith, law (translate api d index) network a)
    ]
  ]

-- Money that is sent to an address which the server handed out is found. When `NextAddress`, with
-- `mark_used` and not for a legacy address, has replied with an address whose index is not the
-- largest, the next `chain_sync` of the contract that succeeds, with a positive lookup depth, has
-- in its reply every output that the electrum server lists for the script of this address and
-- places in a block. The address of a descriptor stands for its script, and the server answers a
-- batch with what it lists for each script.
pub next_address-found :
    {M : Type 0} (b : Backend M) (hist : Script → List ListUnspent) (q : NextAddressRequest)
    (r : Runtime) (a : AddressDerivation) (fuel depth : ℕ) (assets : BTreeMap AssetId (List Utxo))
    (r' : Runtime) (item : ListUnspent) (pos : ℕ)
    → AddressScripts b.services.api
    → Answers b.services hist
    → q.mark_used ≡ true
    → q.legacy ≡ false
    → (next_address b q r).0 ≡ ok (Reply.address_derivation a)
    → All (λ i. i < b.services.hd.largest) a.derivation
    → 0 < depth
    → chain_sync b.services fuel q.contract_id depth (next_address b q r).1 ≡ some (ok assets, r')
    → Elem item (hist (b.services.api.address_script a.address))
    → b.services.get_merkle item.tx_hash (item.height % u32_mod) ≡ some pos
    → (us : List Utxo) × (get bitcoin_id assets ≡ some us)
      × (contains (listed_at item) (map outpoint us) ≡ true)
next_address-found b hist q r a fuel depth assets r' item pos law answering marks native h below
      positive synced listed placed =
    let sv = b.services in
    let (c, next, x, there, free, address, marked, after) = next_address-Finds b q r a h in
    let index = unwrap_or q.index next in
    let at : x.derivation ≡ index ∷ [] = derived_at b c index q.legacy x address in
    let (same_x, kept) =
      mark_address-recorded b q.contract_id x a index r at (rw marks at marked) in
    let (d, compiled) = has_descriptor sv.api c index q.legacy (some x) address in
    let script : sv.api.address_script a.address ≡ (derived sv d index).script =
      subst
        (λ (y : AddressDerivation). sv.api.address_script y.address ≡ (derived sv d index).script)
        (sym same_x)
        (address_script-derived sv.api c index x d law compiled (rw native at address)) in
    let r1 = (next_address b q r).1 in
    let same_storage : r1.storage ≡ r.storage =
      rw after (mark_address-storage b q.contract_id q.mark_used (some x) r) in
    let m1 = (mark_address b q.contract_id q.mark_used (some x) r).1 in
    let marked_a : Cache.address_derivation q.contract_id a.address m1.cache ≡ some index =
      subst
        (λ (y : AddressDerivation).
          Cache.address_derivation q.contract_id y.address m1.cache ≡ some index)
        (sym same_x) (rw marks kept) in
    let recorded : Cache.address_derivation q.contract_id a.address r1.cache ≡ some index =
      subst (λ (s : Runtime). Cache.address_derivation q.contract_id a.address s.cache ≡ some index)
        (sym after) marked_a in
    let used : index ≤ unwrap_or (Cache.last_used_derivation q.contract_id r1.cache) 0 =
      last_used-ge q.contract_id a.address r1.cache index recorded in
    let small : All (λ i. i < sv.hd.largest) (index ∷ []) =
      subst (All (λ i. i < sv.hd.largest)) (ap AddressDerivation.derivation same_x ∙ at) below in
    let (us, in_reply, found, _, _, _) =
      chain_sync_complete sv fuel q.contract_id depth r1 assets r' hist c d answering
        (rw same_storage there) compiled synced (derived sv d index) item pos positive
        (inr (index, (small.0, λ k l m. absurd (omega arith)), refl))
        (subst (λ (s : Script). Elem item (hist s)) script listed) placed in
    (us, in_reply, found)
