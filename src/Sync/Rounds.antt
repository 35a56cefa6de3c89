-- ===== src/Sync/Rounds.antt =====
-- The loop over batches of derived scripts.
pub mod Stops
pub mod Rule
pub mod Complete
use citadel_runtime.Common.{
  ℕ, zero, suc, Bool, true, false, ◌&&◌, Option, none, some, List, [], ◌∷◌, map, unwrap_or, ltb,
  ◌==◌, if◌then◌else◌,
}
use citadel_runtime.Common.Map.{BTreeMap}
use citadel_runtime.Common.Result.{Result, ok, err, panic}
use citadel_runtime.Foreign.Bitcoin.{Script}
use citadel_runtime.Model.Policy.{derive_scripts}
use citadel_runtime.Model.Contract.{Contract}
use citadel_runtime.Runtime.Error.{Error, electrum}
use citadel_runtime.Runtime.State.{Services}
use citadel_runtime.Sync.Scan.{Query, Progress, Batch, group, count_found, add_transactions}

-- the next batch
pub queries : BTreeMap ℕ Script → List Query
queries [] = []
queries ((i, s) ∷ m) = record { index = i; script = s; tweak = none } ∷ queries m

module _ (sv : Services) (c : Contract) (last_used depth : ℕ) where
  -- `index_offset.checked_add(lookup_depth).unwrap_or(largest)`
  abbrev pub next_offset : ℕ → ℕ
  next_offset offset = unwrap_or (sv.hd.checked_add offset depth) sv.hd.largest

  -- The `loop`, on fuel: `none` means that the fuel ran out.
  unfoldable pub sync_loop : ℕ → List Query → ℕ → Progress → Option (Result Error Progress)
  unfolding queries
  sync_loop zero scripts offset p = none
  sync_loop (suc fuel) scripts offset p =
      elim (sv.list_unspent (map (λ (q : Query). q.script) scripts)) [
        | none ↦ some (err electrum)
        | some found ↦
            let p' = add_transactions sv c (group found scripts []) p in
            let next : Option (Result Error Progress) =
              elim (derive_scripts {E = Error} sv.api sv.hd c.policy offset (next_offset offset)) [
                | ok m ↦ sync_loop fuel (queries m) (next_offset offset) p'
                | err e ↦ some (err e)
                | panic ↦ some panic
              ] in
            if count_found found scripts == 0 && ltb last_used offset
            then some (ok p')
            else if offset == sv.hd.largest
            then some (ok p')
            else next
      ]
