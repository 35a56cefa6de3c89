-- ===== src/Server/Address.antt =====
-- `NextAddress` that marks the address as used.
use citadel_runtime.Common.{
  ℕ, ◌<◌, ◌≡◌, refl, sym, Bool, true, none, some, [], ◌∷◌, Option, All, unwrap_or, arith, inl, inr,
  Option-cases,
}
use citadel_runtime.Common.Key.{nat_key, same_iff}
use citadel_runtime.Common.Result.{map_err, continue-eq-ok, ok, Result-cases}
use citadel_runtime.Model.Policy.{AddressDerivation, derive_address}
use citadel_runtime.Model.Contract.{Contract, ContractId, contract_address}
use citadel_runtime.Storage
use citadel_runtime.Cache
use citadel_runtime.Cache.{address_derivation}
use citadel_runtime.Cache.Derivation.{used, next_unused-All}
use citadel_runtime.Cache.Marking.{use-address_derivation, use_address_ok}
use citadel_runtime.Runtime.Error.{Error, storage_driver, cache_driver}
use citadel_runtime.Runtime.State.{Runtime}
use citadel_runtime.Rpc.Request.{NextAddressRequest}
use citadel_runtime.Rpc.Reply.{Reply}
use citadel_runtime.Server.{last, mark_address, next_address}
use citadel_runtime.Server.Outside.{Backend}

module _ {M : Type 0} (b : Backend M) where
  -- a marked address had no other index before, and has the given one afterwards
  pub mark_address-recorded :
      (id : ContractId) (d x : AddressDerivation) (index : ℕ) (r : Runtime)
      → d.derivation ≡ index ∷ []
      → (mark_address b id true (some d) r).0 ≡ ok (some x)
      → (x ≡ d)
        × (address_derivation id d.address (mark_address b id true (some d) r).1.cache ≡ some index)
  unfolding mark_address last
  mark_address-recorded id d x index r e h =
      elim (Result-cases
        (Cache.use_address_derivation b.services.cache_codec id d.address index r.cache).0) [
          | inl (new, m) ↦ (
            ground arith,
            ground (
              arith,
              use-address_derivation b.services.cache_codec id id d.address d.address index r.cache,
              use_address_ok b.services.cache_codec id d.address index r.cache new m,
              same_iff id id,
              same_iff d.address d.address,
            ),
          )
          | inr (inl (x, m)) ↦ absurd (ground arith)
          | inr (inr m) ↦ absurd (ground arith)
        ]

  pub derived_at :
      (p : Contract) (index : ℕ) (legacy : Bool) (d : AddressDerivation)
      → contract_address {E = Error} b.services.api p index legacy ≡ ok (some d)
      → d.derivation ≡ index ∷ []
  unfolding contract_address derive_address
  derived_at p index legacy d h = ground arith

  unmarked :
      (id : ContractId) (mark : Bool) (o a : Option AddressDerivation) (r : Runtime)
      → o ≡ none
      → (mark_address b id mark o r).0 ≡ ok a
      → a ≡ none
  unfolding mark_address
  unmarked id mark none a r e h = ground arith
  unmarked id mark (some x) a r e h = absurd (ground arith)

  -- what `NextAddress` has gone through when it replies with an address
  pub next_address-Finds :
      (q : NextAddressRequest) (r : Runtime) (d : AddressDerivation)
      → (next_address b q r).0 ≡ ok (Reply.address_derivation d)
      → (p : Contract) × (next : ℕ) × (x : AddressDerivation) × (Storage.contract_ref q.contract_id
            r.storage
          ≡ ok p)
        × (Cache.next_unused_derivation b.services.hd q.contract_id r.cache ≡ ok next)
        × (contract_address {E = Error} b.services.api p (unwrap_or q.index next) q.legacy
            ≡ ok (some x))
        × ((mark_address b q.contract_id q.mark_used (some x) r).0 ≡ ok (some d))
        × ((next_address b q r).1 ≡ (mark_address b q.contract_id q.mark_used (some x) r).1)
  unfolding next_address
  next_address-Finds q r d h =
      let id = q.contract_id in
      let (p, found, h1) =
        continue-eq-ok (map_err storage_driver (Storage.contract_ref id r.storage), r) _ h in
      let (next, free, h2) =
        continue-eq-ok
          (map_err cache_driver (Cache.next_unused_derivation b.services.hd id r.cache), r) _ h1 in
      let (o, derived, h3) =
        continue-eq-ok (contract_address b.services.api p (unwrap_or q.index next) q.legacy, r) _
          h2 in
      let (a, marked, h4) = continue-eq-ok (mark_address b id q.mark_used o r) _ h3 in
      let there : a ≡ some d = elim (Option-cases a) [
        | inl e ↦ absurd (ground arith)
        | inr (x, e) ↦ ground arith
      ] in
      elim (Option-cases o) [
        | inl e ↦ absurd (let q = unmarked id q.mark_used o a r e marked in ground arith)
        | inr (x, e) ↦
            let marked_x : (mark_address b id q.mark_used (some x) r).0 ≡ ok (some d) =
              rw (sym e) rw (sym there) marked in
            (
              p,
              next,
              x,
              ground arith,
              ground arith,
              rw (sym e) derived,
              marked_x,
              rw found rw free rw derived rw e rw marked_x refl,
            )
      ]

  -- When `NextAddress` with `mark_used` and without an index replies with an address, the index of
  -- that address lies above all the indexes of the contract that were in use, and the cache has
  -- the address under it, as long as all those lie below the largest index.
  pub next_address_marks :
      (q : NextAddressRequest) (r : Runtime) (d : AddressDerivation)
      → q.mark_used ≡ true
      → q.index ≡ none
      → All (λ e. e.1 < b.services.hd.largest) (used q.contract_id r.cache)
      → (next_address b q r).0 ≡ ok (Reply.address_derivation d)
      → (index : ℕ) × (d.derivation ≡ index ∷ [])
        × All (λ e. e.1 < index) (used q.contract_id r.cache)
        × (address_derivation q.contract_id d.address (next_address b q r).1.cache ≡ some index)
  next_address_marks q r d m n below h =
      let (p, next, x, there, free, derived, marked, after) = next_address-Finds q r d h in
      let at : x.derivation ≡ next ∷ [] = derived_at p next q.legacy x (rw n at derived) in
      let (same_x, kept) = mark_address-recorded q.contract_id x d next r at (rw m at marked) in
      (
        next,
        rw same_x at,
        next_unused-All b.services.hd q.contract_id r.cache next below free,
        rw after rw m rw same_x kept,
      )
