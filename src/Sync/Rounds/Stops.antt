-- ===== src/Sync/Rounds/Stops.antt =====
-- When the loop of `chain_sync` ends.
use citadel_runtime.Common.{
  ℕ, zero, suc, ◌+◌, ◌-◌, ◌≤◌, ◌<◌, ◌≡◌, ◌≢◌, refl, none, some, List, [], map, leb, arith, inl, inr,
  Option-cases, Bool-cases,
}
use citadel_runtime.Common.Result.{ok, Result-cases}
use citadel_runtime.Foreign.Bitcoin.{Script}
use citadel_runtime.Foreign.Wallet.{Descriptor}
use citadel_runtime.Model.Policy.{derive_scripts, to_descriptor}
use citadel_runtime.Model.Contract.{Contract}
use citadel_runtime.Runtime.Error.{Error}
use citadel_runtime.Runtime.State.{Services, ListUnspent}
use citadel_runtime.Sync.Scan.{Query, Progress, group, add_transactions}
use citadel_runtime.Sync.Rounds.{sync_loop, next_offset, queries}

module _ (sv : Services) (c : Contract) (last_used : ℕ) where
  pub next_offset-lt :
      (depth offset : ℕ)
      → 0 < depth
      → offset < sv.hd.largest
      → (offset < next_offset sv c last_used depth offset)
        × (next_offset sv c last_used depth offset ≤ sv.hd.largest)
  next_offset-lt depth offset d h = elim (Bool-cases (leb (offset + depth) sv.hd.largest)) [
    | inl fits ↦ rw (sv.hd.add_fits offset depth (ground arith)) (omega arith, ground arith)
    | inr over ↦ rw (sv.hd.add_overflows offset depth (ground arith)) (h, omega arith)
  ]

  -- With a positive lookup depth the loop ends, whatever the server answers, from every offset up
  -- to the largest index: more fuel than there are indexes above the offset is enough.
  pub sync_loop_ends :
      (depth fuel : ℕ) (scripts : List Query) (offset : ℕ) (p : Progress)
      → 0 < depth
      → offset ≤ sv.hd.largest
      → sv.hd.largest - offset < fuel
      → sync_loop sv c last_used depth fuel scripts offset p ≢ none
  unfolding sync_loop
  sync_loop_ends depth zero scripts offset p d h f = absurd (omega arith)
  sync_loop_ends depth (suc fuel) scripts offset p d h f =
      let next = next_offset sv c last_used depth offset in
      elim (Option-cases (sv.list_unspent (map (λ (q : Query). q.script) scripts))) [
        | inl e ↦ ground arith
        | inr (found, e) ↦
            elim (Result-cases (derive_scripts {E = Error} sv.api sv.hd c.policy offset next)) [
              | inl (m, q) ↦ ground (
                arith,
                next_offset-lt depth offset d,
                sync_loop_ends depth fuel (queries m) next
                    (add_transactions sv c (group found scripts []) p) d,
              )
              | inr (inl (x, q)) ↦ ground arith
              | inr (inr q) ↦ ground arith
            ]
      ]

  derive_nothing :
      (d : Descriptor)
      → to_descriptor {E = Error} sv.api c.policy ≡ ok d
      → derive_scripts {E = Error} sv.api sv.hd c.policy 0 0 ≡ ok []
  unfolding derive_scripts
  derive_nothing d compiled = ground arith

  -- With the lookup depth 0 the loop never ends, if the policy of the contract has a descriptor and
  -- the server always answers: the offset stays 0, which is not beyond the last used index.
  pub sync_loop_spins :
      (d : Descriptor) (fuel : ℕ) (scripts : List Query) (p : Progress)
      → to_descriptor {E = Error} sv.api c.policy ≡ ok d
      → ((s : List Script) → (l : List (List ListUnspent)) × (sv.list_unspent s ≡ some l))
      → 0 < sv.hd.largest
      → sync_loop sv c last_used 0 fuel scripts 0 p ≡ none
  unfolding sync_loop
  sync_loop_spins d zero scripts p compiled answers h = refl
  sync_loop_spins d (suc fuel) scripts p compiled answers h =
      let derives = derive_nothing d compiled in
      let (found, e) = answers (map (λ (q : Query). q.script) scripts) in
      let stays : sv.hd.checked_add 0 0 ≡ some 0 = sv.hd.add_fits 0 0 (omega arith) in
      ground (
        arith,
        sync_loop_spins d fuel (queries []) (add_transactions sv c (group found scripts []) p)
            compiled answers h,
      )
