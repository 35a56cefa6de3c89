-- ===== src/Sync/Assign.antt =====
-- Which assets are on which outputs.
pub mod Outpoints
pub mod Bitcoin
use citadel_runtime.Common.{
  ℕ, Bool, true, false, Option, none, some, List, [], ◌∷◌, ◌++◌, unwrap_or, ltb, if◌then◌else◌,
  sum64,
}
use citadel_runtime.Common.Key.{nat_key}
use citadel_runtime.Common.Map.{BTreeMap, get, insert}
use citadel_runtime.Common.Set.{BTreeSet}
use citadel_runtime.Common.Result.{Result, ok, err, panic, and_then}
use citadel_runtime.Foreign.Bitcoin.{AssetId, bitcoin_id, OutPoint}
use citadel_runtime.Model.Utxo.{Utxo}
use citadel_runtime.Runtime.Error.{Error}
use citadel_runtime.Runtime.State.{Services}

abbrev pub Assets : Type 0
Assets = BTreeMap AssetId (List Utxo)

-- `assets.entry(asset_id).or_insert(vec![]).push(u)`
push : AssetId → Utxo → Assets → Assets
push a u m = insert a (unwrap_or (get a m) [] ++ u ∷ []) m

-- the loop over the assets on an outpoint; no amounts or a sum of 0 are passed over
push_assets : Utxo → BTreeMap AssetId (List ℕ) → Assets → Assets
unfolding push
push_assets u [] m = m
push_assets u ((a, []) ∷ rest) m = push_assets u rest m
push_assets u ((a, n ∷ ns) ∷ rest) m =
    push_assets u rest
      (if ltb 0 (sum64 (n ∷ ns)) then push a (record u { value = sum64 (n ∷ ns) }) m else m)

module _ (sv : Services) where
  -- the `zip` of the outputs with the outpoints
  assign_zip : List Utxo → List OutPoint → Assets → Result Error Assets
  unfolding push_assets
  assign_zip [] os m = ok m
  assign_zip (u ∷ us) [] m = ok m
  assign_zip (u ∷ us) (o ∷ os) m =
      and_then (sv.outpoint_assets o) (λ found. assign_zip us os (push_assets u found m))

  -- from `assets` on: all outputs carry bitcoin
  unfoldable pub assign_assets : List Utxo → BTreeSet OutPoint → Result Error Assets
  unfolding assign_zip
  assign_assets unspent outpoints = assign_zip unspent outpoints ((bitcoin_id, unspent) ∷ [])
