-- ===== src/Client/Invoices.antt =====
-- `invoice_create`, with the server behind the socket.
use citadel_runtime.Common.{
  ℕ, ◌≡◌, refl, ap, ◌∙◌, Bool, true, Option, none, some, [], ◌∷◌, arith, inl, inr,
}
use citadel_runtime.Common.Key.{nat_key, same_iff}
use citadel_runtime.Common.Set.{contains, contains-append}
use citadel_runtime.Common.Result.{ok, Result-cases, continue-eq-ok}
use citadel_runtime.Foreign.Bitcoin.{AssetId, Address, Invoice, OutpointReveal}
use citadel_runtime.Model.Policy.{AddressDerivation}
use citadel_runtime.Model.Contract.{Contract, ContractId}
use citadel_runtime.Model.Contract
use citadel_runtime.Storage
use citadel_runtime.Storage.{lookup, invoice, run, add_blindings}
use citadel_runtime.Storage.View.{run-effect}
use citadel_runtime.Runtime.State.{Runtime}
use citadel_runtime.Rpc.Request.{Request, NextAddressRequest}
use citadel_runtime.Rpc.Reply.{Reply, failed, failure_of}
use citadel_runtime.Server.{handle, add_invoices, reveals_of}
use citadel_runtime.Server.Outside as Served
use citadel_runtime.Server.Queries.{answer-handle, mark_address-storage}
use citadel_runtime.Server.Address.{next_address-Finds}
use citadel_runtime.Client.{
  request, made_invoice, register, InvoiceType, address_of, refused, beneficiary_for,
  invoice_create,
}
use citadel_runtime.Client.Outside.{Beneficiary, Backend}
use citadel_runtime.Client.Session.{World, idle, Wire, connected, request-answer}

added-contains :
    (i : Invoice) (p : Contract)
    → contains i (Contract.add_invoice i p).contents.sent_invoices ≡ true
unfolding Contract.add_invoice contains
added-contains i p =
    ground (arith, contains-append i p.contents.sent_invoices (i ∷ []), same_iff i i)

address_of-ok :
    (x : Reply) (a : Address)
    → address_of x ≡ ok a
    → (ad : AddressDerivation) × (x ≡ Reply.address_derivation ad)
unfolding address_of refused
address_of-ok (Reply.address_derivation ad) a h = (ad, refl)
address_of-ok x a h = absurd (ground arith)

-- the requests of an invoice for an address
abbrev address_request : ContractId → Bool → Bool → Request
address_request id mark_used legacy =
    Request.next_address
      (record { contract_id = id; index = none; legacy = legacy; mark_used = mark_used })

abbrev invoice_request : ContractId → Invoice → Request
invoice_request id i = Request.add_invoice (record { invoice = i; source_info = (id, none) ∷ [] })

module _ {M : Type 0} (b : Served.Backend M) where
  -- `AddInvoice` for one contract, whatever becomes of the file
  add_invoice-storage :
      (i : Invoice) (id : ContractId) (reveal : Option OutpointReveal) (r : Runtime)
      → (handle b
          (Request.add_invoice (record { invoice = i; source_info = (id, reveal) ∷ [] }))
          r).1.storage
        ≡ (run b.services.storage_codec b.conceal (invoice id i (reveals_of reveal)) r.storage).1
  unfolding handle add_invoices run
  add_invoice-storage i id reveal r = ground arith

  add_invoice-listed :
      (i : Invoice) (id : ContractId) (r : Runtime) (p : Contract)
      → lookup id r.storage ≡ some p
      → lookup id
          (handle b
            (Request.add_invoice (record { invoice = i; source_info = (id, none) ∷ [] }))
            r).1.storage
        ≡ some (Contract.add_invoice i p)
  unfolding add_blindings
  add_invoice-listed i id r p h = rw (add_invoice-storage i id none r) (
      rw (run-effect b.services.storage_codec b.conceal (invoice id i []) r.storage id)
        (ground (arith, same_iff id id)))

  -- the contract of an address that `NextAddress` replies with
  address-stored :
      (id : ContractId) (mark_used legacy : Bool) (r : Runtime) (ad : AddressDerivation)
      → (handle b (address_request id mark_used legacy) r).0 ≡ ok (Reply.address_derivation ad)
      → (p : Contract) × (lookup id (handle b (address_request id mark_used legacy) r).1.storage
          ≡ some p)
  unfolding handle Storage.contract_ref
  address-stored id mark_used legacy r ad h =
      let q : NextAddressRequest = record {
        contract_id = id;
        index = none;
        legacy = legacy;
        mark_used = mark_used;
      } in
      let (p, next, x, there, free, derived, marked, after) = next_address-Finds b q r ad h in
      (p, rw after (rw (mark_address-storage b id mark_used (some x) r) (ground arith)))

module _ {M : Type 0} (b : Served.Backend M) (c : Backend (World M) M) (wire : Wire b c)
    (fuel : ℕ) where
  -- the server after the request for an address
  abbrev asked_address : ContractId → Bool → Bool → World M → World M
  asked_address id mark_used legacy w =
      idle (handle b (address_request id mark_used legacy) w.runtime).1

  -- the beneficiary is found only if the server derives an address
  beneficiary_for-address :
      (id : ContractId) (mark_used legacy : Bool) (w : World M)
      (x : Beneficiary × Option OutpointReveal × Option AssetId)
      → (beneficiary_for (connected b fuel c) InvoiceType.address_utxo id none mark_used legacy w).0
        ≡ ok x
      → (ad : AddressDerivation) × ((handle b (address_request id mark_used legacy) w.runtime).0
          ≡ ok (Reply.address_derivation ad))
        × (x.1 ≡ none)
        × ((beneficiary_for
              (connected b fuel c)
              InvoiceType.address_utxo
              id
              none
              mark_used
              legacy
              w).1
            ≡ asked_address id mark_used legacy w)
  unfolding beneficiary_for address_of refused failed failure_of
  beneficiary_for-address id mark_used legacy w x h =
      let q = address_request id mark_used legacy in
      let (a, r) = handle b q w.runtime in
      let asked = request-answer b c wire fuel q w a r (answer-handle b fuel q w.runtime tt) in
      let (reply, replied, h1) = continue-eq-ok (request (connected b fuel c) q w) _ h in
      let (address, found, h2) =
        continue-eq-ok (address_of reply, (request (connected b fuel c) q w).1) _ h1 in
      let (ad, derived) = address_of-ok reply address found in
      let answered : a ≡ ok reply = elim (Result-cases a) [
        | inl (y, e) ↦ ground (arith, asked)
        | inr (inl (y, e)) ↦ absurd (ground (arith, asked))
        | inr (inr e) ↦ absurd (ground (arith, asked))
      ] in
      (ad, answered ∙ ap ok derived, ground arith, ground (arith, asked))

  -- an invoice that is registered is listed
  register-listed :
      (id : ContractId) (inv i : Invoice) (w : World M) (p : Contract)
      → lookup id w.runtime.storage ≡ some p
      → (register (connected b fuel c) id none inv w).0 ≡ ok i
      → lookup id (register (connected b fuel c) id none inv w).1.runtime.storage
        ≡ some (Contract.add_invoice i p)
  unfolding register
  register-listed id inv i w p there h =
      let q = invoice_request id inv in
      let (a, r) = handle b q w.runtime in
      let asked = request-answer b c wire fuel q w a r (answer-handle b fuel q w.runtime tt) in
      let (reply, replied, h1) = continue-eq-ok (request (connected b fuel c) q w) _ h in
      let same_i : inv ≡ i = ground arith in
      let listed = add_invoice-listed b inv id w.runtime p there in
      rw replied rw asked rw (← same_i) listed

  -- When `invoice_create` returns an invoice for an address, the contract is stored, and lists that
  -- invoice: also if the server answered with a failure, since it could not write the file.
  pub invoice_create-listed :
      (id : ContractId) (amount : ℕ) (merchant purpose : Option ℕ) (mark_used legacy : Bool)
      (w : World M) (i : Invoice)
      → (invoice_create
          (connected b fuel c)
          InvoiceType.address_utxo
          id
          none
          amount
          merchant
          purpose
          mark_used
          legacy
          w).0
        ≡ ok i
      → (p : Contract) × (lookup id
            (invoice_create
              (connected b fuel c)
              InvoiceType.address_utxo
              id
              none
              amount
              merchant
              purpose
              mark_used
              legacy
              w).1.runtime.storage
          ≡ some p)
        × (contains i p.contents.sent_invoices ≡ true)
  unfolding invoice_create
  invoice_create-listed id amount merchant purpose mark_used legacy w i h =
      let w1 = asked_address id mark_used legacy w in
      let (x, made, h1) =
        continue-eq-ok
          (beneficiary_for (connected b fuel c) InvoiceType.address_utxo id none mark_used legacy w)
          _ h in
      let (ad, derived, unrevealed, after) = beneficiary_for-address id mark_used legacy w x made in
      let (p, there) = address-stored b id mark_used legacy w.runtime ad derived in
      let inv = made_invoice (connected b fuel c) amount merchant purpose x.0 x.2 in
      let listed = register-listed id inv i w1 p there (rw (unrevealed, after) at h1) in
      (Contract.add_invoice i p, rw made rw unrevealed rw after listed, added-contains i p)
