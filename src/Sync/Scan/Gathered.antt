-- ===== src/Sync/Scan/Gathered.antt =====
-- What one round gathers of `src/runtime/processor/chain_sync.rs`: no output that the server lists
-- and places in a block is lost.
use citadel_runtime.Common.{
  ℕ, ◌%◌, ◌≡◌, refl, true, false, some, List, [], ◌∷◌, ◌++◌, map, unwrap_or, Elem, Elem-pos, length,
  ap, Elem-append_left, Elem-append_last, ◌==◌, u16_mod, u32_mod, arith, inl, inr, Bool-cases,
  Option-cases,
}
use citadel_runtime.Common.Key.{nat_key, pair_key, same, same_iff, same_self}
use citadel_runtime.Common.Map.{get, insert, get-insert, Elem-get}
use citadel_runtime.Common.Set.{contains, contains-add}
use citadel_runtime.Foreign.Bitcoin.{Script, OutPoint, outpoint_key}
use citadel_runtime.Model.Contract.{Contract}
use citadel_runtime.Runtime.State.{Services, ListUnspent}
use citadel_runtime.Sync.Scan.{
  Query, Found, Batch, Progress, add_found, group, count_found, add_outputs, add_transactions,
}

-- the key of a listed output in a batch, and its outpoint
abbrev pub place : ListUnspent → ℕ × ℕ
place item = (item.height % u32_mod, item.tx_hash)

abbrev pub listed_at : ListUnspent → OutPoint
listed_at item = record { txid = item.tx_hash; vout = item.tx_pos % u16_mod }

abbrev pub found_by : Query → ListUnspent → Found
found_by q item = record { vout = item.tx_pos % u16_mod; value = item.value; query = q }

-- the batch has the output
Holds : Batch → ℕ × ℕ → Found → Type 0
Holds m at f = (fs : List Found) × (get at m ≡ some fs) × Elem f fs

Holds-insert :
    (m : Batch) (at at' : ℕ × ℕ) (f f' : Found)
    → Holds m at f
    → Holds (insert at' (unwrap_or (get at' m) [] ++ f' ∷ []) m) at f
unfolding Holds
Holds-insert m at at' f f' (fs, g, e) = elim (Bool-cases (same at' at)) [
  | inl s ↦
      let eq : at' ≡ at = (same_iff at' at).0 s in
      (
        fs ++ f' ∷ [],
        rw eq (rw get-insert (rw (same_self at) (rw g refl))),
        Elem-append_left f fs (f' ∷ []) e,
      )
  | inr d ↦ (fs, rw get-insert (rw d g), e)
]

Holds-added :
    (m : Batch) (at : ℕ × ℕ) (f : Found)
    → Holds (insert at (unwrap_or (get at m) [] ++ f ∷ []) m) at f
unfolding Holds
Holds-added m at f = (
  unwrap_or (get at m) [] ++ f ∷ [],
  rw get-insert (rw (same_self at)),
  Elem-append_last f (unwrap_or (get at m) []),
)

add_found-keeps :
    (q : Query) (items : List ListUnspent) (m : Batch) (at : ℕ × ℕ) (f : Found)
    → Holds m at f
    → Holds (add_found q items m) at f
unfolding add_found
add_found-keeps q [] m at f h = h
add_found-keeps q (item ∷ items) m at f h =
    add_found-keeps q items _ at f (Holds-insert m at (place item) f (found_by q item) h)

add_found-Holds :
    (q : Query) (items : List ListUnspent) (m : Batch) (item : ListUnspent)
    → Elem item items
    → Holds (add_found q items m) (place item) (found_by q item)
unfolding add_found
add_found-Holds q [] m item e = absurd e
add_found-Holds q (x ∷ items) m item (inl e) =
    rw (← e)
      (add_found-keeps q items _ (place x) (found_by q x) (Holds-added m (place x) (found_by q x)))
add_found-Holds q (x ∷ items) m item (inr e) = add_found-Holds q items _ item e

-- The server's answers stand in the order of the scripts.
module _ (hist : Script → List ListUnspent) where
  abbrev pub answers : List Query → List (List ListUnspent)
  answers qs = map (λ (q : Query). hist q.script) qs

  group-keeps :
      (qs : List Query) (m : Batch) (at : ℕ × ℕ) (f : Found)
      → Holds m at f
      → Holds (group (answers qs) qs m) at f
  unfolding group
  group-keeps [] m at f h = h
  group-keeps (q ∷ qs) m at f h = group-keeps qs _ at f (add_found-keeps q (hist q.script) m at f h)

  group-Holds :
      (qs : List Query) (m : Batch) (q : Query) (item : ListUnspent)
      → Elem q qs
      → Elem item (hist q.script)
      → Holds (group (answers qs) qs m) (place item) (found_by q item)
  unfolding group
  group-Holds [] m q item e h = absurd e
  group-Holds (x ∷ qs) m q item (inl e) h =
      group-keeps qs _ (place item) (found_by q item)
        (rw e (add_found-Holds q (hist q.script) m item h))
  group-Holds (x ∷ qs) m q item (inr e) h = group-Holds qs _ q item e h

  -- a script with an output makes the count positive
  pub count_found-pos :
      (qs : List Query) (q : Query) (item : ListUnspent)
      → Elem q qs
      → Elem item (hist q.script)
      → (count_found (answers qs) qs == 0) ≡ false
  unfolding count_found
  count_found-pos [] q item e h = absurd e
  count_found-pos (x ∷ qs) q item (inl e) h =
      ground (arith, Elem-pos item (hist q.script), ap (λ (y : Query). length (hist y.script)) e)
  count_found-pos (x ∷ qs) q item (inr e) h = ground (arith, count_found-pos qs q item e)

module _ (sv : Services) (c : Contract) where
  add_outputs-keeps :
      (height offset txid : ℕ) (fs : List Found) (p : Progress) (o : OutPoint)
      → contains o p.outpoints ≡ true
      → contains o (add_outputs sv c height offset txid fs p).outpoints ≡ true
  unfolding add_outputs
  add_outputs-keeps height offset txid [] p o h = h
  add_outputs-keeps height offset txid (f ∷ fs) p o h =
      let new : OutPoint = record { txid = txid; vout = f.vout } in
      add_outputs-keeps height offset txid fs _ o (ground (arith, contains-add new o p.outpoints))

  add_outputs-holds :
      (height offset txid : ℕ) (fs : List Found) (p : Progress) (f : Found)
      → Elem f fs
      → contains
          (record { txid = txid; vout = f.vout })
          (add_outputs sv c height offset txid fs p).outpoints
        ≡ true
  unfolding add_outputs
  add_outputs-holds height offset txid [] p f e = absurd e
  add_outputs-holds height offset txid (x ∷ fs) p f (inl e) =
      let new : OutPoint = record { txid = txid; vout = x.vout } in
      rw (← e) (
        add_outputs-keeps height offset txid fs _ new
          (ground (arith, contains-add new new p.outpoints, same_self new)))
  add_outputs-holds height offset txid (x ∷ fs) p f (inr e) =
      add_outputs-holds height offset txid fs _ f e

  pub add_transactions-keeps :
      (m : Batch) (p : Progress) (o : OutPoint)
      → contains o p.outpoints ≡ true
      → contains o (add_transactions sv c m p).outpoints ≡ true
  unfolding add_transactions
  add_transactions-keeps [] p o h = h
  add_transactions-keeps (((height, txid), fs) ∷ m) p o h =
      add_transactions-keeps m _ o (elim (Option-cases (sv.get_merkle txid height)) [
        | inl e ↦ rw e h
        | inr (pos, e) ↦ rw e (add_outputs-keeps height (pos % u16_mod) txid fs _ o h)
      ])

  add_transactions-holds :
      (m : Batch) (p : Progress) (height txid pos : ℕ) (fs : List Found) (f : Found)
      → Elem ((height, txid), fs) m
      → Elem f fs
      → sv.get_merkle txid height ≡ some pos
      → contains (record { txid = txid; vout = f.vout }) (add_transactions sv c m p).outpoints
        ≡ true
  unfolding add_transactions
  add_transactions-holds [] p height txid pos fs f e h k = absurd e
  add_transactions-holds (x ∷ m) p height txid pos fs f (inl e) h k = rw e (
      add_transactions-keeps m _ (record { txid = txid; vout = f.vout })
        (rw k (add_outputs-holds height (pos % u16_mod) txid fs _ f h)))
  add_transactions-holds (x ∷ m) p height txid pos fs f (inr e) h k =
      add_transactions-holds m _ height txid pos fs f e h k

  -- a round gathers every output that is listed for its scripts and has a place in a block
  pub round-holds :
      (hist : Script → List ListUnspent) (qs : List Query) (p : Progress) (q : Query)
      (item : ListUnspent) (pos : ℕ)
      → Elem q qs
      → Elem item (hist q.script)
      → sv.get_merkle item.tx_hash (item.height % u32_mod) ≡ some pos
      → contains
          (listed_at item)
          (add_transactions sv c (group (answers hist qs) qs []) p).outpoints
        ≡ true
  unfolding Holds
  round-holds hist qs p q item pos e h k =
      let (fs, g, f) = group-Holds hist qs [] q item e h in
      let m = group (answers hist qs) qs [] in
      add_transactions-holds m p (item.height % u32_mod) item.tx_hash pos fs (found_by q item)
        (Elem-get (place item) fs m g) f k
