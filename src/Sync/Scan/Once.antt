-- ===== src/Sync/Scan/Once.antt =====
-- The outputs and the outpoints that a round of `src/runtime/processor/chain_sync.rs` gathers.
use citadel_runtime.Common.{
  ℕ, ◌%◌, ◌≡◌, refl, false, List, [], ◌∷◌, ◌++◌, map, u16_mod, arith, inl, inr, Bool-cases,
  Option-cases,
}
use mathlib.Core.List.{map-append}
use citadel_runtime.Common.Key.{same, same_iff}
use citadel_runtime.Common.Set.{contains, add, contains-add, contains-append}
use citadel_runtime.Foreign.Bitcoin.{OutPoint, outpoint_key}
use citadel_runtime.Model.Utxo.{outpoint}
use citadel_runtime.Model.Contract.{Contract}
use citadel_runtime.Runtime.State.{Services}
use citadel_runtime.Sync.Scan.{Found, Batch, Progress, new_utxo, add_outputs, add_transactions}

-- the list has each outpoint once
abbrev pub Once : List OutPoint → Type 0
Once [] = Unit
Once (o ∷ os) = (contains o os ≡ false) × Once os

contains-singleton : (o x : OutPoint) → contains o (x ∷ []) ≡ same x o
unfolding contains
contains-singleton o x = ground arith

Once-append :
    (os : List OutPoint) (o : OutPoint) → Once os → contains o os ≡ false → Once (os ++ o ∷ [])
unfolding contains
Once-append [] o h n = (refl, tt)
Once-append (x ∷ os) o h n = (
  ground (arith, contains-append x os (o ∷ []), same_iff x o, same_iff o x),
  Once-append os o h.1 (ground arith),
)

-- the set has the outpoints of the outputs, and each output is there once
pub record Agrees (p : Progress) : Type 0 where
  pub has_all : (o : OutPoint) → contains o p.outpoints ≡ contains o (map outpoint p.unspent)
  pub once : Once (map outpoint p.unspent)

module _ (sv : Services) (c : Contract) where
  add_output-Agrees :
      (height offset txid : ℕ) (f : Found) (p : Progress)
      → contains (outpoint (new_utxo sv c height offset txid f)) p.outpoints ≡ false
      → Agrees p
      → Agrees (record p {
        unspent = p.unspent ++ new_utxo sv c height offset txid f ∷ [];
        outpoints = add (outpoint (new_utxo sv c height offset txid f)) p.outpoints;
      })
  add_output-Agrees height offset txid f p new h =
      let u = new_utxo sv c height offset txid f in
      let os = map outpoint p.unspent in
      record {
        has_all = λ o. rw (map-append outpoint p.unspent (u ∷ [])) (
            ground (
              arith,
              contains-add (outpoint u) o p.outpoints,
              contains-append o os (outpoint u ∷ []),
              h.has_all o,
              contains-singleton o (outpoint u),
            ));
        once =
            rw (map-append outpoint p.unspent (u ∷ []))
              (Once-append os (outpoint u) h.once (rw (h.has_all (outpoint u)) at new));
      }

  add_outputs-Agrees :
      (height offset txid : ℕ) (fs : List Found) (p : Progress)
      → Agrees p
      → Agrees (add_outputs sv c height offset txid fs p)
  unfolding add_outputs new_utxo
  add_outputs-Agrees height offset txid [] p h = h
  add_outputs-Agrees height offset txid (f ∷ fs) p h =
      let o : OutPoint = record { txid = txid; vout = f.vout } in
      add_outputs-Agrees height offset txid fs _ (elim (Bool-cases (contains o p.outpoints)) [
        | inl old ↦ rw old h
        | inr new ↦ rw new (add_output-Agrees height offset txid f p new h)
      ])

  pub add_transactions-Agrees :
      (m : Batch) (p : Progress) → Agrees p → Agrees (add_transactions sv c m p)
  unfolding add_transactions
  add_transactions-Agrees [] p h = h
  add_transactions-Agrees (((height, txid), fs) ∷ m) p h =
      add_transactions-Agrees m _ (elim (Option-cases (sv.get_merkle txid height)) [
        | inl e ↦ rw e h
        | inr (pos, e) ↦ rw e (
            add_outputs-Agrees height (pos % u16_mod) txid fs _
              (record { has_all = h.has_all; once = h.once }))
      ])
