-- ===== src/Server/Accept.antt =====
-- `AcceptTransfer`: the outpoints that are revealed to the node.
use mathlib.Core.List.{Memᴰ}
use mathlib.Core.List.Memᴰ
use citadel_runtime.Common.{
  ℕ, ◌≡◌, ◌↔◌, refl, sym, true, false, List, [], ◌∷◌, map, if◌then◌else◌, arith, inl, inr,
  Bool-cases,
}
use citadel_runtime.Common.Key.{nat_key, same, same_iff}
use citadel_runtime.Common.Map.{BTreeMap}
use citadel_runtime.Common.Set.{contains}
use citadel_runtime.Common.Result.{ok, Result-cases}
use citadel_runtime.Foreign.Bitcoin.{OutpointReveal}
use citadel_runtime.Model.Contract.{Contract}
use citadel_runtime.Storage
use citadel_runtime.Runtime.State.{Runtime, SealEndpoint}
use citadel_runtime.Rpc.Reply.{Reply}
use citadel_runtime.Server.{blinded, revealed, revealed_all, accept_valid, accept_transfer}
use citadel_runtime.Server.Outside.{Backend}

blinded-Mem :
    (hash : ℕ) (es : List SealEndpoint)
    → contains hash (blinded es) ≡ true
    → Memᴰ (SealEndpoint.tx_outpoint hash) es
unfolding blinded contains
blinded-Mem hash [] h = absurd (ground arith)
blinded-Mem hash (SealEndpoint.tx_outpoint k ∷ es) h = elim (Bool-cases (same k hash)) [
  | inl e ↦ Memᴰ.head (let q : k ≡ hash = (same_iff k hash).0 e in rw q refl)
  | inr n ↦ Memᴰ.tail (blinded-Mem hash es (ground arith))
]
blinded-Mem hash (SealEndpoint.witness_vout v k ∷ es) h = Memᴰ.tail (blinded-Mem hash es h)

contains-blinded :
    (hash : ℕ) (es : List SealEndpoint)
    → Memᴰ (SealEndpoint.tx_outpoint hash) es
    → contains hash (blinded es) ≡ true
unfolding blinded contains
contains-blinded hash [] m = absurd (Memᴰ.not-nil m)
contains-blinded hash (SealEndpoint.tx_outpoint k ∷ es) (Memᴰ.head e) =
    ground (arith, same_iff k hash)
contains-blinded hash (SealEndpoint.witness_vout v k ∷ es) (Memᴰ.head e) = absurd (ground arith)
contains-blinded hash (SealEndpoint.tx_outpoint k ∷ es) (Memᴰ.tail m) =
    ground (arith, contains-blinded hash es m)
contains-blinded hash (SealEndpoint.witness_vout v k ∷ es) (Memᴰ.tail m) =
    contains-blinded hash es m

-- a blinding factor of `m` whose hash is among `hashes`
abbrev Opened : List ℕ → BTreeMap ℕ OutpointReveal → OutpointReveal → Type 0
Opened hashes m reveal = (hash : ℕ) × Memᴰ (hash, reveal) m × (contains hash hashes ≡ true)

revealed-Opened :
    (hashes : List ℕ) (m : BTreeMap ℕ OutpointReveal) (reveal : OutpointReveal)
    → Memᴰ reveal (revealed hashes m)
    → Opened hashes m reveal
unfolding revealed
revealed-Opened hashes [] reveal h = absurd (Memᴰ.not-nil h)
revealed-Opened hashes ((hash, x) ∷ m) reveal h =
    elim (contains hash hashes)
        as (λ c.
          contains hash hashes ≡ c
          → Memᴰ reveal (if c then x ∷ revealed hashes m else revealed hashes m)
          → Opened hashes ((hash, x) ∷ m) reveal) [
            | true ↦ λ e k. elim (Memᴰ.cases_cons k) [
              | inl q ↦ (hash, Memᴰ.head (rw q refl), e)
              | inr k ↦
                  let (o, at, among) = revealed-Opened hashes m reveal k in (o, Memᴰ.tail at, among)
            ]
            | false ↦ λ e k.
                let (o, at, among) = revealed-Opened hashes m reveal k in (o, Memᴰ.tail at, among)
          ]
      refl h

Opened-revealed :
    (hashes : List ℕ) (m : BTreeMap ℕ OutpointReveal) (reveal : OutpointReveal) (hash : ℕ)
    → Memᴰ (hash, reveal) m
    → contains hash hashes ≡ true
    → Memᴰ reveal (revealed hashes m)
unfolding revealed
Opened-revealed hashes [] reveal hash m e = absurd (Memᴰ.not-nil m)
Opened-revealed hashes ((k, x) ∷ m) reveal hash (Memᴰ.head q) e =
    let i : hash ≡ k = ground arith in
    let among : contains k hashes ≡ true = rw (sym i) e in rw among (Memᴰ.head (ground arith))
Opened-revealed hashes ((k, x) ∷ m) reveal hash (Memᴰ.tail h) e =
    elim (contains k hashes)
      as (λ c. Memᴰ reveal (if c then x ∷ revealed hashes m else revealed hashes m)) [
        | true ↦ Memᴰ.tail (Opened-revealed hashes m reveal hash h e)
        | false ↦ Opened-revealed hashes m reveal hash h e
      ]

revealed_all-Opened :
    (hashes : List ℕ) (cs : List Contract) (reveal : OutpointReveal)
    → Memᴰ reveal (revealed_all hashes cs)
    → (c : Contract) × Memᴰ c cs × Opened hashes c.contents.blinding_factors reveal
unfolding revealed_all
revealed_all-Opened hashes [] reveal h = absurd (Memᴰ.not-nil h)
revealed_all-Opened hashes (c ∷ cs) reveal h =
    elim (Memᴰ.append_cases (revealed hashes c.contents.blinding_factors) h) [
      | inl k ↦ (c, Memᴰ.head refl, revealed-Opened hashes c.contents.blinding_factors reveal k)
      | inr k ↦
          let (x, at, opened) = revealed_all-Opened hashes cs reveal k in (x, Memᴰ.tail at, opened)
    ]

Opened-revealed_all :
    (hashes : List ℕ) (cs : List Contract) (c : Contract) (reveal : OutpointReveal)
    → Memᴰ c cs
    → Opened hashes c.contents.blinding_factors reveal
    → Memᴰ reveal (revealed_all hashes cs)
unfolding revealed_all
Opened-revealed_all hashes [] c reveal m o = absurd (Memᴰ.not-nil m)
Opened-revealed_all hashes (x ∷ cs) c reveal (Memᴰ.head q) (o, at, among) =
    Memᴰ.append_left (revealed_all hashes cs)
      (rw (sym q) (Opened-revealed hashes c.contents.blinding_factors reveal o at among))
Opened-revealed_all hashes (x ∷ cs) c reveal (Memᴰ.tail h) o =
    Memᴰ.append_right (revealed hashes x.contents.blinding_factors)
      (Opened-revealed_all hashes cs c reveal h o)

-- a blinding factor of a stored contract whose hash is a blinded endpoint
abbrev pub Opens : List SealEndpoint → Storage.Storage → OutpointReveal → Type 0
Opens es s reveal =
    (c : Contract) × (hash : ℕ) × Memᴰ c (map (λ e. e.1) s.content.contracts)
    × Memᴰ (hash, reveal) c.contents.blinding_factors
    × Memᴰ (SealEndpoint.tx_outpoint hash) es

module _ {M : Type 0} (b : Backend M) where
  -- the node has accepted the consignment, whatever status `s` it has
  accepted :
      (consignment status s : ℕ) (r : Runtime)
      → (accept_valid b consignment s (b.is_valid s) r).0 ≡ ok (Reply.validation status)
      → b.is_valid status ≡ true
      → b.accept consignment (
          revealed_all
            (blinded (b.endpoints consignment))
            (map (λ e. e.1) r.storage.content.contracts))
        ≡ ok tt
  unfolding accept_valid Storage.contracts
  accepted consignment status s r h valid = elim (Bool-cases (b.is_valid s)) [
    | inl e ↦ ground arith
    | inr e ↦ absurd (ground arith)
  ]

  -- When `AcceptTransfer` replies with a status that is valid, the node has accepted the
  -- consignment with some reveals: these are the blinding factors, of all stored contracts, whose
  -- hash is one of the blinded endpoints of the consignment, and no others.
  pub accept_transfer_reveals :
      (consignment status : ℕ) (r : Runtime)
      → (accept_transfer b consignment r).0 ≡ ok (Reply.validation status)
      → b.is_valid status ≡ true
      → (given : List OutpointReveal) × (b.accept consignment given ≡ ok tt)
        × ((reveal : OutpointReveal)
            → Memᴰ reveal given ↔ Opens (b.endpoints consignment) r.storage reveal)
  unfolding accept_transfer accept_valid Storage.contracts
  accept_transfer_reveals consignment status r h valid =
      let cs = map (λ e. e.1) r.storage.content.contracts in
      let hashes = blinded (b.endpoints consignment) in
      (
        revealed_all hashes cs,
        elim (Result-cases (b.validate consignment)) [
          | inl (s, e) ↦ accepted consignment status s r (ground arith) valid
          | inr (inl (x, e)) ↦ absurd (ground arith)
          | inr (inr e) ↦ absurd (ground arith)
        ],
        λ reveal. (
          λ m.
              let (c, at, (hash, factor, among)) = revealed_all-Opened hashes cs reveal m in
              (c, hash, at, factor, blinded-Mem hash (b.endpoints consignment) among),
          λ o.
              let (c, hash, at, factor, end) = o in
              Opened-revealed_all hashes cs c reveal at
                (hash, factor, contains-blinded hash (b.endpoints consignment) end),
        ),
      )
