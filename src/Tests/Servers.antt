-- ===== src/Tests/Servers.antt =====
-- Synchronization, run against servers with fixed answers.
use citadel_runtime.Common.{
  ℕ, ◌+◌, leb, ltb, ◌&&◌, ◌≡◌, ◌≢◌, refl, none, some, [], ◌∷◌, arith, All, map, if◌then◌else◌, ◌==◌,
  sum64_from,
}
use citadel_runtime.Common.Key.{nat_key, same, less}
use citadel_runtime.Common.Map.{BTreeMap, get, insert}
use citadel_runtime.Common.Set.{collect}
use citadel_runtime.Common.Result.{ok}
use citadel_runtime.Foreign.Bitcoin.{outpoint_key, Script}
use citadel_runtime.Model.Utxo.{outpoint}
use citadel_runtime.Model.Policy.{derive_scripts, translate, to_descriptor}
use citadel_runtime.Model.Policy.Scripts.{get-derive_scripts}
use citadel_runtime.Foreign.Wallet.{wpkh_of}
use citadel_runtime.Runtime.Error.{Error}
use citadel_runtime.Runtime.State.{Services}
use citadel_runtime.Sync.{chain_sync}
use citadel_runtime.Sync.Ends.{chain_sync_ends}
use citadel_runtime.Sync.Scan.{nothing}
use citadel_runtime.Sync.Rounds.{sync_loop}
use citadel_runtime.Sync.Rounds.Stops.{sync_loop_spins}
use citadel_runtime.Sync.Assign.{Assets, assign_assets}
use citadel_runtime.Sync.Assign.Outpoints.{Carries, assign_assets_in_order, assign_assets_swapped}
use citadel_runtime.Tests.{services, indexes, descriptors, coin, contract, runtime_of}

sync_loop_spins_example : sync_loop services (contract 3) 2 0 100 [] 0 nothing ≡ none
unfolding to_descriptor
sync_loop_spins_example =
    sync_loop_spins services (contract 3) 2 (wpkh_of 0) 100 [] nothing refl (λ s. ([], refl))
      (omega arith)

-- a node with the asset 7 on the outputs of the transaction 1
abbrev node : Services
node = record services {
  outpoint_assets = λ o. ok (if o.txid == 1 then (7, 60 ∷ 40 ∷ []) ∷ [] else []);
}

abbrev recorded : Assets
recorded = (0, coin 1 10 ∷ coin 2 30 ∷ []) ∷ (7, coin 1 100 ∷ []) ∷ []

found :
    assign_assets node (coin 1 10 ∷ coin 2 30 ∷ []) (map outpoint (coin 1 10 ∷ coin 2 30 ∷ []))
    ≡ ok recorded
unfolding assign_assets get insert same less sum64_from
found = refl

assign_assets_in_order_example : All (Carries node 7) (coin 1 100 ∷ [])
unfolding get same
assign_assets_in_order_example =
    assign_assets_in_order node (coin 1 10 ∷ coin 2 30 ∷ []) recorded found 7 (coin 1 100 ∷ [])
      (λ e. absurd (omega arith)) refl

abbrev small_node : Services
small_node = record services {
  outpoint_assets = λ o. ok (if o.txid == 1 then (7, 60 ∷ []) ∷ [] else []);
}

assign_assets_swapped_example :
    (m : Assets) × (assign_assets small_node
        (coin 2 30 ∷ coin 1 10 ∷ [])
        (collect (map outpoint (coin 2 30 ∷ coin 1 10 ∷ [])))
      ≡ ok m)
    × (get 7 m ≡ some (coin 2 60 ∷ []))
assign_assets_swapped_example =
    assign_assets_swapped small_node (coin 2 30) (coin 1 10) 7 60 (λ e. absurd (omega arith))
      (omega arith) (omega arith) (unfold less in refl) refl refl

chain_sync_ends_example : chain_sync services 11 3 4 (runtime_of ((3, contract 3) ∷ []) []) ≢ none
chain_sync_ends_example =
    chain_sync_ends services 11 3 4 (runtime_of ((3, contract 3) ∷ []) []) (omega arith)
      (omega arith)

get-derive_scripts_example :
    (scripts : BTreeMap ℕ Script) × (derive_scripts {E = Error} descriptors indexes
        (contract 3).policy
        2
        4
      ≡ ok scripts)
    × ((i : ℕ)
        → get i scripts ≡ (
            if leb 2 i && ltb i 4 then some (1000 + translate descriptors (wpkh_of 0) i) else none))
get-derive_scripts_example =
    get-derive_scripts descriptors indexes (contract 3).policy (wpkh_of 0) 2 4 (omega arith)
      (unfold to_descriptor in refl)
