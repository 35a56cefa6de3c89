-- ===== src/Sync/Rounds/Complete.antt =====
-- What the loop of `src/runtime/processor/chain_sync.rs` has found when it stops.
use citadel_runtime.Common.{
  ℕ, zero, suc, ◌+◌, ◌%◌, ◌≤◌, ◌<◌, ◌≡◌, ◌⊎◌, refl, true, none, some, List, [], ◌∷◌, All, Elem,
  All-all, ◌==◌, ltb, leb, u32_mod, arith, inl, inr, Bool-cases,
}
use mathlib.Core.Path.{subst}
use citadel_runtime.Common.Key.{nat_key}
use citadel_runtime.Common.Map.{BTreeMap, get, Elem-get}
use citadel_runtime.Common.Set.{contains}
use citadel_runtime.Common.Result.{ok}
use citadel_runtime.Foreign.Bitcoin.{Script, OutPoint, outpoint_key}
use citadel_runtime.Foreign.Wallet.{Descriptor}
use citadel_runtime.Model.Policy.{derive_scripts, to_descriptor, translate}
use citadel_runtime.Model.Policy.Scripts.{IsDerived, get-derive_scripts}
use citadel_runtime.Model.Contract.{Contract}
use citadel_runtime.Runtime.Error.{Error}
use citadel_runtime.Runtime.State.{Services, ListUnspent}
use citadel_runtime.Sync.Scan.{Query, Progress, group, count_found}
use citadel_runtime.Sync.Scan.Gathered.{
  listed_at, answers, count_found-pos, add_transactions-keeps, round-holds,
}
use citadel_runtime.Sync.Rounds.Rule.{Answers, gathered, round, loop_rule}
use citadel_runtime.Sync.Rounds.{sync_loop, next_offset, queries}
use citadel_runtime.Sync.Rounds.Stops.{next_offset-lt}

Elem-queries :
    (m : BTreeMap ℕ Script) (i : ℕ) (s : Script)
    → Elem (i, s) m
    → Elem (record { index = i; script = s; tweak = none }) (queries m)
unfolding queries
Elem-queries [] i s e = absurd e
Elem-queries ((j, t) ∷ m) i s (inl e) = inl (ground arith)
Elem-queries ((j, t) ∷ m) i s (inr e) = inr (Elem-queries m i s e)

-- the look-up of the script at an index
abbrev pub derived : Services → Descriptor → ℕ → Query
derived sv d i = record {
  index = i;
  script = sv.api.script_pubkey (translate sv.api d i);
  tweak = none;
}

-- what holds of the look-up at every index holds of a derived batch
pub queries-All :
    (sv : Services) (d : Descriptor) (Q : Query → Type 0) (m : BTreeMap ℕ Script)
    → ((i : ℕ) → Q (derived sv d i))
    → All (IsDerived sv.api d) m
    → All Q (queries m)
unfolding queries
queries-All sv d Q [] h k = tt
queries-All sv d Q ((i, s) ∷ m) h k = (rw k.0 (h i), queries-All sv d Q m h k.1)

module _ (sv : Services) (c : Contract) (last_used depth : ℕ) (hist : Script → List ListUnspent)
    (answering : Answers sv hist) where
  -- an output that was gathered stays
  keeps :
      (fuel : ℕ) (scripts : List Query) (offset : ℕ) (p t : Progress) (o : OutPoint)
      → sync_loop sv c last_used depth fuel scripts offset p ≡ some (ok t)
      → contains o p.outpoints ≡ true
      → contains o t.outpoints ≡ true
  keeps fuel scripts offset p t o h k =
      loop_rule sv c last_used depth hist answering (λ p. contains o p.outpoints ≡ true) (λ q. Unit)
        (λ scripts p q k.
          add_transactions-keeps sv c (group (answers hist scripts) scripts []) p o k)
        (λ from to m e. All-all (λ q. Unit) (λ q. tt) (queries m)) fuel scripts offset p t h
        (All-all (λ q. Unit) (λ q. tt) scripts) k

  module _ (item : ListUnspent) (pos : ℕ)
      (placed : sv.get_merkle item.tx_hash (item.height % u32_mod) ≡ some pos) where
    -- an output that is listed for a script of the batch
    pub covers_batch :
        (fuel : ℕ) (scripts : List Query) (offset : ℕ) (p t : Progress) (q : Query)
        → sync_loop sv c last_used depth fuel scripts offset p ≡ some (ok t)
        → Elem q scripts
        → Elem item (hist q.script)
        → contains (listed_at item) t.outpoints ≡ true
    unfolding sync_loop
    covers_batch zero scripts offset p t q h e l = absurd (ground arith)
    covers_batch (suc fuel) scripts offset p t q h e l =
        let now = round-holds sv c hist scripts p q item pos e l placed in
        elim (round sv c last_used depth hist answering fuel scripts offset p t h) [
          | inl (s, _) ↦
              subst (λ (t : Progress). contains (listed_at item) t.outpoints ≡ true) s now
          | inr (m, _, rest) ↦
              keeps fuel (queries m) _ (gathered sv c last_used depth hist answering scripts p) t
                (listed_at item) rest now
        ]

  module _ (d : Descriptor) (compiled : to_descriptor {E = Error} sv.api c.policy ≡ ok d) where
    in_batch :
        (from to i : ℕ) (m : BTreeMap ℕ Script)
        → to ≤ sv.hd.largest
        → derive_scripts {E = Error} sv.api sv.hd c.policy from to ≡ ok m
        → from ≤ i
        → i < to
        → Elem (derived sv d i) (queries m)
    in_batch from to i m h e lo hi =
        let (scripts, q, values) =
          get-derive_scripts {E = Error} sv.api sv.hd c.policy d from to h compiled in
        let same_map : scripts ≡ m = ground arith in
        let value : get i scripts ≡ some (derived sv d i).script = ground (arith, values i) in
        Elem-queries m i (derived sv d i).script (
          subst (Elem (i, (derived sv d i).script)) same_map
            (Elem-get i (derived sv d i).script scripts value))

    -- Among any `depth` indexes in a row that lie below `i`, and the last of which is the last used
    -- index or a later one, one has an output.
    abbrev pub Unbroken : ℕ → Type 0
    Unbroken i =
        (k : ℕ)
        → last_used < k + depth
        → k + depth ≤ i
        → (j : ℕ) × (item : ListUnspent) × (k ≤ j)
          × (j < k + depth)
          × Elem item (hist (derived sv d j).script)

    -- the batch is the one of the `depth` indexes below the offset, or the first one
    Follows : ℕ → List Query → Type 0
    Follows offset scripts =
        (offset ≡ 0)
        ⊎ (k : ℕ) × (k + depth ≡ offset)
          × ((j : ℕ) → k ≤ j → j < offset → Elem (derived sv d j) scripts)

    module _ (positive : 0 < depth) (i : ℕ) (unbroken : Unbroken i) (below : i < sv.hd.largest)
        (item : ListUnspent) (pos : ℕ)
        (placed : sv.get_merkle item.tx_hash (item.height % u32_mod) ≡ some pos)
        (has : Elem item (hist (derived sv d i).script)) where
      -- the loop does not stop before the index
      goes_on :
          (offset : ℕ) (scripts : List Query)
          → offset ≤ i
          → Follows offset scripts
          → count_found (answers hist scripts) scripts == 0 ≡ true
          → last_used < offset
          → ⊥
      unfolding Follows
      goes_on offset scripts h (inl e) z l = omega arith
      goes_on offset scripts h (inr (k, e, all)) z l =
          let (j, found, lo, hi, listed) = unbroken k (omega arith) (omega arith) in
          let counted =
            count_found-pos hist scripts (derived sv d j) found (all j lo (omega arith)) listed in
          cc

      next-Follows :
          (offset : ℕ) (m : BTreeMap ℕ Script)
          → next_offset sv c last_used depth offset ≤ sv.hd.largest
          → derive_scripts {E = Error} sv.api sv.hd c.policy offset
              (next_offset sv c last_used depth offset)
            ≡ ok m
          → next_offset sv c last_used depth offset ≤ i
          → Follows (next_offset sv c last_used depth offset) (queries m)
      unfolding Follows
      next-Follows offset m w q n = elim (Bool-cases (leb (offset + depth) sv.hd.largest)) [
        | inl fits ↦ inr (
          offset,
          rw (sv.hd.add_fits offset depth (ground arith)),
          λ j lo hi. in_batch offset (next_offset sv c last_used depth offset) j m w q lo hi,
        )
        | inr over ↦ absurd (ground (arith, sv.hd.add_overflows offset depth))
      ]

      covers_later :
          (fuel : ℕ) (scripts : List Query) (offset : ℕ) (p t : Progress)
          → offset ≤ i
          → Follows offset scripts
          → sync_loop sv c last_used depth fuel scripts offset p ≡ some (ok t)
          → contains (listed_at item) t.outpoints ≡ true
      unfolding sync_loop
      covers_later zero scripts offset p t h f e = absurd (ground arith)
      covers_later (suc fuel) scripts offset p t h f e =
          elim (round sv c last_used depth hist answering fuel scripts offset p t e) [
            | inl (_, inl (z, l)) ↦ absurd (goes_on offset scripts h f z l)
            | inl (_, inr l) ↦ absurd (omega arith)
            | inr (m, q, rest) ↦
                let next = next_offset sv c last_used depth offset in
                let (up, within) =
                  next_offset-lt sv c last_used depth offset positive (omega arith) in
                elim (Bool-cases (ltb i next)) [
                  | inl reached ↦
                      covers_batch item pos placed fuel (queries m) next
                        (gathered sv c last_used depth hist answering scripts p) t (derived sv d i)
                        rest (in_batch offset next i m within q h (ground arith)) has
                  | inr later ↦
                      covers_later fuel (queries m) next
                        (gathered sv c last_used depth hist answering scripts p) t (ground arith)
                        (next-Follows offset m within q (ground arith)) rest
                ]
          ]

    -- the same of the loop as `chain_sync` starts it, whatever the known scripts are
    pub covers_derived :
        (i : ℕ) (item : ListUnspent) (pos fuel : ℕ) (scripts : List Query) (p t : Progress)
        → 0 < depth
        → i < sv.hd.largest
        → Unbroken i
        → Elem item (hist (derived sv d i).script)
        → sv.get_merkle item.tx_hash (item.height % u32_mod) ≡ some pos
        → sync_loop sv c last_used depth fuel scripts 0 p ≡ some (ok t)
        → contains (listed_at item) t.outpoints ≡ true
    unfolding Follows
    covers_derived i item pos fuel scripts p t positive below unbroken has placed h =
        covers_later positive i unbroken below item pos placed has fuel scripts 0 p t (omega arith)
          (inl refl) h
