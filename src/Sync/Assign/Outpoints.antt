-- ===== src/Sync/Assign/Outpoints.antt =====
-- The outputs and the outpoints are walked in step, one in the order in which the server reported
-- the outputs, the other in the order of the set. Where the orders agree, each asset is recorded
-- on the output that carries it; where they do not, it is recorded on another.
use citadel_runtime.Common.{
  ℕ, ◌<◌, ◌≡◌, ◌≢◌, ◌⊎◌, refl, ◌∙◌, sym, true, none, some, List, [], ◌∷◌, ◌++◌, append_assoc, map,
  unwrap_or, All, All-append, ltb, sum64, u64_mod, sum64_from, arith, inl, inr, Bool-cases,
  Option-cases,
}
use mathlib.Core.Path.{subst}
use citadel_runtime.Common.Key.{nat_key, same, less, same_iff, less-same, less_trans, same_self}
use citadel_runtime.Common.Map.{BTreeMap, get, get-insert}
use citadel_runtime.Common.Set.{collect, add}
use citadel_runtime.Common.Result.{ok, Result-cases}
use citadel_runtime.Foreign.Bitcoin.{AssetId, bitcoin_id, outpoint_key}
use citadel_runtime.Model.Utxo.{Utxo, outpoint}
use citadel_runtime.Runtime.State.{Services}
use citadel_runtime.Sync.Assign.{Assets, push, push_assets, assign_zip, assign_assets}

module _ (sv : Services) where
  -- the node reports the asset on the outpoint of the output, with amounts of that value
  abbrev pub Carries : AssetId → Utxo → Type 0
  Carries a w =
      (found : BTreeMap AssetId (List ℕ)) × (sv.outpoint_assets (outpoint w) ≡ ok found)
      × (before : BTreeMap AssetId (List ℕ)) × (after : BTreeMap AssetId (List ℕ)) × (ns : List ℕ)
      × (found ≡ before ++ (a, ns) ∷ after)
      × (w.value ≡ sum64 ns)

  abbrev AllCarry : Assets → Type 0
  AllCarry m =
      (a : AssetId) (us : List Utxo) → a ≢ bitcoin_id → get a m ≡ some us → All (Carries a) us

  push-AllCarry :
      (a : AssetId) (w : Utxo) (m : Assets) → AllCarry m → Carries a w → AllCarry (push a w m)
  unfolding push
  push-AllCarry a w m h c b us n g = elim (Bool-cases (same a b)) [
    | inl e ↦
        let new = unwrap_or (get a m) [] ++ w ∷ [] in
        let q : new ≡ us = ground (arith, get-insert a b new m) in
        let ab : a ≡ b = (same_iff a b).0 e in
        rw (← ab) (
          subst (All (Carries a)) q (
            All-append (Carries a) (unwrap_or (get a m) []) (w ∷ [])
              (old (λ z. n (sym ab ∙ z)) (Option-cases (get a m))) (c, tt)))
    | inr d ↦ h b us n (ground (arith, get-insert a b (unwrap_or (get a m) [] ++ w ∷ []) m))
  ]
    where
      old :
          a ≢ bitcoin_id
          → (get a m ≡ none) ⊎ ((vs : List Utxo) × (get a m ≡ some vs))
          → All (Carries a) (unwrap_or (get a m) [])
      old k (inl e) = rw e tt
      old k (inr (vs, e)) = rw e (h a vs k e)

  push_assets-AllCarry :
      (u : Utxo) (found before rest : BTreeMap AssetId (List ℕ)) (m : Assets)
      → sv.outpoint_assets (outpoint u) ≡ ok found
      → found ≡ before ++ rest
      → AllCarry m
      → AllCarry (push_assets u rest m)
  unfolding push_assets
  push_assets-AllCarry u found before [] m o e h = h
  push_assets-AllCarry u found before ((a, []) ∷ rest) m o e h =
      push_assets-AllCarry u found (before ++ (a, []) ∷ []) rest m o
        (e ∙ sym (append_assoc before ((a, []) ∷ []) rest)) h
  push_assets-AllCarry u found before ((a, n ∷ ns) ∷ rest) m o e h =
      elim (Bool-cases (ltb 0 (sum64 (n ∷ ns)))) [
        | inl positive ↦ rw positive (
            push_assets-AllCarry u found (before ++ (a, n ∷ ns) ∷ []) rest
              (push a (record u { value = sum64 (n ∷ ns) }) m) o split
              (push-AllCarry a (record u { value = sum64 (n ∷ ns) }) m h
                (found, o, before, rest, n ∷ ns, e, refl)))
        | inr zero' ↦
            rw zero' (push_assets-AllCarry u found (before ++ (a, n ∷ ns) ∷ []) rest m o split h)
      ]
    where
      split : found ≡ (before ++ (a, n ∷ ns) ∷ []) ++ rest
      split = e ∙ sym (append_assoc before ((a, n ∷ ns) ∷ []) rest)

  assign_zip-AllCarry :
      (us : List Utxo) (m m' : Assets)
      → AllCarry m
      → assign_zip sv us (map outpoint us) m ≡ ok m'
      → AllCarry m'
  unfolding assign_zip
  assign_zip-AllCarry [] m m' h e = let q : m ≡ m' = ground arith in subst AllCarry q h
  assign_zip-AllCarry (u ∷ us) m m' h e = elim (Result-cases (sv.outpoint_assets (outpoint u))) [
    | inl (found, o) ↦
        assign_zip-AllCarry us (push_assets u found m) m'
          (push_assets-AllCarry u found [] found m o refl h) (ground arith)
    | inr (inl (x, o)) ↦ absurd (ground arith)
    | inr (inr o) ↦ absurd (ground arith)
  ]

  -- Where the outputs stand in the order of their outpoints, every output that is recorded for an
  -- asset carries that asset with that value, as the node reports it.
  pub assign_assets_in_order :
      (us : List Utxo) (m : Assets)
      → assign_assets sv us (map outpoint us) ≡ ok m
      → (a : AssetId) (ws : List Utxo) → a ≢ bitcoin_id
      → get a m ≡ some ws
      → All (Carries a) ws
  unfolding assign_assets get
  assign_assets_in_order us m h =
      assign_zip-AllCarry us ((bitcoin_id, us) ∷ []) m
        (λ a ws n g. absurd (ground (arith, same_iff bitcoin_id a))) h

  -- Where a second output has the smaller outpoint, its asset is recorded on the first output,
  -- which carries none.
  pub assign_assets_swapped :
      (u v : Utxo) (a n : ℕ)
      → a ≢ bitcoin_id
      → 0 < n
      → n < u64_mod
      → less (outpoint v) (outpoint u) ≡ true
      → sv.outpoint_assets (outpoint u) ≡ ok []
      → sv.outpoint_assets (outpoint v) ≡ ok ((a, n ∷ []) ∷ [])
      → (m : Assets) × (assign_assets sv (u ∷ v ∷ []) (collect (map outpoint (u ∷ v ∷ []))) ≡ ok m)
        × (get a m ≡ some (record u { value = n } ∷ []))
  unfolding assign_assets get collect add sum64_from
  assign_assets_swapped u v a n k p small l hu hv = (
    push a (record u { value = n }) ((bitcoin_id, u ∷ v ∷ []) ∷ []),
    ground (
      arith,
      less-same (outpoint v) (outpoint u),
      same_iff (outpoint v) (outpoint u),
      less_trans (outpoint u) (outpoint v) (outpoint u),
      less-same (outpoint u) (outpoint u),
      same_self (outpoint u),
    ),
    unfold push in
        ground (
          arith,
          get-insert a a (record u { value = n } ∷ []) ((bitcoin_id, u ∷ v ∷ []) ∷ []),
          same_iff a a,
          same_iff bitcoin_id a,
        ),
  )
