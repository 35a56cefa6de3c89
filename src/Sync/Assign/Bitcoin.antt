-- ===== src/Sync/Assign/Bitcoin.antt =====
-- The outputs as carriers of bitcoin, while the assets are assigned in
-- `src/runtime/processor/chain_sync.rs`.
use citadel_runtime.Common.{
  ℕ, ◌≡◌, refl, ◌∙◌, false, some, List, [], ◌∷◌, ◌++◌, append_assoc, append-nil, unwrap_or, All,
  ltb, sum64, arith, inl, inr, Bool-cases,
}
use citadel_runtime.Common.Key.{nat_key, same, same_iff, same_self}
use citadel_runtime.Common.Map.{BTreeMap, get, get-insert}
use citadel_runtime.Common.Result.{ok, Result-cases}
use citadel_runtime.Foreign.Bitcoin.{AssetId, bitcoin_id, OutPoint}
use citadel_runtime.Model.Utxo.{Utxo}
use citadel_runtime.Runtime.State.{Services}
use citadel_runtime.Sync.Assign.{Assets, push, push_assets, assign_zip, assign_assets}

-- the carriers of bitcoin begin with these
Begins : List Utxo → Assets → Type 0
Begins us m = (more : List Utxo) × (get bitcoin_id m ≡ some (us ++ more))

push-Begins :
    (us : List Utxo) (a : AssetId) (u : Utxo) (m : Assets) → Begins us m → Begins us (push a u m)
unfolding Begins push
push-Begins us a u m (more, e) = elim (Bool-cases (same a bitcoin_id)) [
  | inl s ↦ (
    more ++ u ∷ [],
    ground (
      arith,
      get-insert a bitcoin_id (unwrap_or (get a m) [] ++ u ∷ []) m,
      same_iff a bitcoin_id,
      append_assoc us more (u ∷ []),
    ),
  )
  | inr d ↦ (more, ground (arith, get-insert a bitcoin_id (unwrap_or (get a m) [] ++ u ∷ []) m))
]

push_assets-Begins :
    (us : List Utxo) (u : Utxo) (found : BTreeMap AssetId (List ℕ)) (m : Assets)
    → Begins us m
    → Begins us (push_assets u found m)
unfolding push_assets
push_assets-Begins us u [] m h = h
push_assets-Begins us u ((a, []) ∷ rest) m h = push_assets-Begins us u rest m h
push_assets-Begins us u ((a, n ∷ ns) ∷ rest) m h =
    push_assets-Begins us u rest _ (elim (Bool-cases (ltb 0 (sum64 (n ∷ ns)))) [
      | inl positive ↦ rw positive (push-Begins us a (record u { value = sum64 (n ∷ ns) }) m h)
      | inr nothing ↦ rw nothing h
    ])

module _ (sv : Services) where
  assign_zip-Begins :
      (us vs : List Utxo) (os : List OutPoint) (m m' : Assets)
      → Begins us m
      → assign_zip sv vs os m ≡ ok m'
      → Begins us m'
  unfolding assign_zip Begins
  assign_zip-Begins us [] os m m' (more, h) e = (more, ground arith)
  assign_zip-Begins us (v ∷ vs) [] m m' (more, h) e = (more, ground arith)
  assign_zip-Begins us (v ∷ vs) (o ∷ os) m m' h e = elim (Result-cases (sv.outpoint_assets o)) [
    | inl (found, q) ↦
        assign_zip-Begins us vs os (push_assets v found m) m' (push_assets-Begins us v found m h)
          (ground arith)
    | inr (inl (x, q)) ↦ absurd (ground arith)
    | inr (inr q) ↦ absurd (ground arith)
  ]

  -- all outputs are among the carriers of bitcoin
  pub assign_assets-bitcoin :
      (us : List Utxo) (os : List OutPoint) (m : Assets)
      → assign_assets sv us os ≡ ok m
      → (more : List Utxo) × (get bitcoin_id m ≡ some (us ++ more))
  unfolding assign_assets get Begins
  assign_assets-bitcoin us os m e =
      assign_zip-Begins us us os ((bitcoin_id, us) ∷ []) m
        ([], ground (arith, append-nil us, same_self bitcoin_id)) e

  -- the node does not report bitcoin as an asset
  abbrev pub NoBitcoin : Type 0
  NoBitcoin =
      (o : OutPoint) (found : BTreeMap AssetId (List ℕ))
      → sv.outpoint_assets o ≡ ok found
      → All (λ e. same e.0 bitcoin_id ≡ false) found

  push_assets-bitcoin :
      (u : Utxo) (found : BTreeMap AssetId (List ℕ)) (m : Assets)
      → All (λ e. same e.0 bitcoin_id ≡ false) found
      → get bitcoin_id (push_assets u found m) ≡ get bitcoin_id m
  unfolding push_assets push
  push_assets-bitcoin u [] m h = refl
  push_assets-bitcoin u ((a, []) ∷ rest) m h = push_assets-bitcoin u rest m h.1
  push_assets-bitcoin u ((a, n ∷ ns) ∷ rest) m h =
      let w = record u { value = sum64 (n ∷ ns) } in
      push_assets-bitcoin u rest _ h.1 ∙ elim (Bool-cases (ltb 0 (sum64 (n ∷ ns)))) [
        | inl positive ↦
            rw positive
              (ground (arith, get-insert a bitcoin_id (unwrap_or (get a m) [] ++ w ∷ []) m))
        | inr nothing ↦ rw nothing
      ]

  assign_zip-bitcoin :
      (vs : List Utxo) (os : List OutPoint) (m m' : Assets)
      → NoBitcoin
      → assign_zip sv vs os m ≡ ok m'
      → get bitcoin_id m' ≡ get bitcoin_id m
  unfolding assign_zip
  assign_zip-bitcoin [] os m m' h e = ground arith
  assign_zip-bitcoin (v ∷ vs) [] m m' h e = ground arith
  assign_zip-bitcoin (v ∷ vs) (o ∷ os) m m' h e = elim (Result-cases (sv.outpoint_assets o)) [
    | inl (found, q) ↦
        assign_zip-bitcoin vs os (push_assets v found m) m' h (ground arith)
        ∙ push_assets-bitcoin v found m (h o found q)
    | inr (inl (x, q)) ↦ absurd (ground arith)
    | inr (inr q) ↦ absurd (ground arith)
  ]

  -- then the carriers of bitcoin are the outputs
  pub assign_assets_exact :
      (us : List Utxo) (os : List OutPoint) (m : Assets)
      → NoBitcoin
      → assign_assets sv us os ≡ ok m
      → get bitcoin_id m ≡ some us
  unfolding assign_assets get
  assign_assets_exact us os m h e =
      assign_zip-bitcoin us os ((bitcoin_id, us) ∷ []) m h e ∙ ground (arith, same_self bitcoin_id)
