-- ===== src/Sync/Rounds/Rule.antt =====
-- The rounds of the loop of `src/runtime/processor/chain_sync.rs`, one by one.
use citadel_runtime.Common.{
  ℕ, zero, suc, ◌<◌, ◌≡◌, ◌⊎◌, refl, ◌∙◌, true, ◌&&◌, some, List, [], ◌∷◌, map, All, ◌==◌, ltb,
  arith, inl, inr, Bool-cases, Option-cases,
}
use mathlib.Core.Path.{subst}
use citadel_runtime.Common.Map.{BTreeMap}
use citadel_runtime.Common.Result.{ok, Result-cases}
use citadel_runtime.Foreign.Bitcoin.{Script}
use citadel_runtime.Model.Policy.{derive_scripts}
use citadel_runtime.Model.Contract.{Contract}
use citadel_runtime.Runtime.Error.{Error}
use citadel_runtime.Runtime.State.{Services, ListUnspent}
use citadel_runtime.Sync.Scan.{Query, Progress, group, count_found, add_transactions}
use citadel_runtime.Sync.Scan.Gathered.{answers}
use citadel_runtime.Sync.Rounds.{sync_loop, next_offset, queries}

-- The server answers a batch of scripts with what it lists for each of them, in their order, as
-- the calls of the Electrum protocol do.
abbrev pub Answers : Services → (Script → List ListUnspent) → Type 0
Answers sv hist =
    (scripts : List Script) (found : List (List ListUnspent))
    → sv.list_unspent scripts ≡ some found
    → found ≡ map hist scripts

map_scripts :
    (hist : Script → List ListUnspent) (qs : List Query)
    → map hist (map (λ (q : Query). q.script) qs) ≡ answers hist qs
map_scripts hist [] = refl
map_scripts hist (q ∷ qs) = rw (map_scripts hist qs)

module _ (sv : Services) (c : Contract) (last_used depth : ℕ) (hist : Script → List ListUnspent)
    (answering : Answers sv hist) where
  abbrev pub gathered : List Query → Progress → Progress
  gathered scripts p = add_transactions sv c (group (answers hist scripts) scripts []) p

  -- a round of a loop that returns: it is the last one, or another batch follows
  pub round :
      (fuel : ℕ) (scripts : List Query) (offset : ℕ) (p t : Progress)
      → sync_loop sv c last_used depth (suc fuel) scripts offset p ≡ some (ok t)
      → (gathered scripts p ≡ t)
          × ((count_found (answers hist scripts) scripts == 0 ≡ true) × (last_used < offset)
              ⊎ (offset ≡ sv.hd.largest))
        ⊎ (m : BTreeMap ℕ Script) × (derive_scripts {E = Error} sv.api sv.hd c.policy offset
              (next_offset sv c last_used depth offset)
            ≡ ok m)
          × (sync_loop sv c last_used depth fuel
                (queries m)
                (next_offset sv c last_used depth offset)
                (gathered scripts p)
              ≡ some (ok t))
  unfolding sync_loop
  round fuel scripts offset p t h =
      elim (Option-cases (sv.list_unspent (map (λ (q : Query). q.script) scripts))) [
        | inl e ↦ absurd (ground arith)
        | inr (found, e) ↦
            let all : found ≡ answers hist scripts =
              answering (map (λ (q : Query). q.script) scripts) found e
              ∙ map_scripts hist scripts in
            let listed : sv.list_unspent (map (λ (q : Query). q.script) scripts)
                ≡ some (answers hist scripts) =
              rw (← all) e in
            elim (Bool-cases
              (count_found (answers hist scripts) scripts == 0 && ltb last_used offset)) [
                | inl stops ↦ inl (ground arith)
                | inr more ↦ elim (Bool-cases (offset == sv.hd.largest)) [
                  | inl last ↦ inl (ground arith)
                  | inr before ↦
                      elim (Result-cases (
                        derive_scripts {E = Error} sv.api sv.hd c.policy offset
                          (next_offset sv c last_used depth offset))) [
                            | inl (m, q) ↦ inr (m, q, ground arith)
                            | inr (inl (x, q)) ↦ absurd (ground arith)
                            | inr (inr q) ↦ absurd (ground arith)
                          ]
                ]
              ]
      ]

  -- The invariant rule of the loop: `Q` holds of all that is looked up, `P` of what is gathered.
  pub loop_rule :
      (P : Progress → Type 0) (Q : Query → Type 0)
      → ((scripts : List Query) (p : Progress) → All Q scripts → P p → P (gathered scripts p))
      → ((from to : ℕ) (m : BTreeMap ℕ Script)
          → derive_scripts {E = Error} sv.api sv.hd c.policy from to ≡ ok m
          → All Q (queries m))
      → (fuel : ℕ) (scripts : List Query) (offset : ℕ) (p t : Progress)
      → sync_loop sv c last_used depth fuel scripts offset p ≡ some (ok t)
      → All Q scripts
      → P p
      → P t
  unfolding sync_loop
  loop_rule P Q step next zero scripts offset p t h q k = absurd (ground arith)
  loop_rule P Q step next (suc fuel) scripts offset p t h q k =
      elim (round fuel scripts offset p t h) [
        | inl (e, _) ↦ subst P e (step scripts p q k)
        | inr (m, d, rest) ↦
            loop_rule P Q step next fuel (queries m) (next_offset sv c last_used depth offset)
              (gathered scripts p) t rest (next _ _ m d) (step scripts p q k)
      ]
