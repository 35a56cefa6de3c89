-- ===== src/Sync/Scan/Reported.antt =====
-- Where the outputs come from that one round of `src/runtime/processor/chain_sync.rs` gathers.
use citadel_runtime.Common.{
  ℕ, ◌%◌, ◌≡◌, refl, List, [], ◌∷◌, map_option, unwrap_or, All, All-append, Elem, u16_mod, u32_mod,
  arith, inl, inr, Bool-cases, Option-cases,
}
use citadel_runtime.Common.Key.{nat_key, pair_key}
use citadel_runtime.Common.Map.{get, All-insert, All-get}
use citadel_runtime.Common.Set.{contains}
use citadel_runtime.Foreign.Bitcoin.{Script, OutPoint, outpoint_key}
use citadel_runtime.Model.Utxo.{Utxo}
use citadel_runtime.Model.Contract.{Contract, TweakedOutput}
use citadel_runtime.Runtime.State.{Services, ListUnspent}
use citadel_runtime.Sync.Scan.{
  Query, Found, Batch, Progress, add_found, group, new_utxo, add_outputs, add_transactions,
}
use citadel_runtime.Sync.Scan.Gathered.{place, found_by, answers}

-- The record of an output that the server lists for a script that was looked up, with the index
-- and the tweak of that script.
pub record Reported (hist : Script → List ListUnspent) (Q : Query → Type 0) (u : Utxo)
    : Type 0 where
  pub query : Query
  pub item : ListUnspent
  pub asked : Q query
  pub listed : Elem item (hist query.script)
  pub same_txid : u.txid ≡ item.tx_hash
  pub same_vout : u.vout ≡ item.tx_pos % u16_mod
  pub same_value : u.value ≡ item.value
  pub same_height : u.height ≡ item.height % u32_mod
  pub same_index : u.derivation_index ≡ query.index
  pub same_tweak : u.tweak ≡ map_option (λ (t : TweakedOutput). (t.tweak, t.pubkey)) query.tweak

module _ (hist : Script → List ListUnspent) (Q : Query → Type 0) where
  -- what is found of an output at a place
  IsListed : ℕ × ℕ → Found → Type 0
  IsListed at f =
      (item : ListUnspent) × Q f.query
      × Elem item (hist f.query.script)
      × (at ≡ place item)
      × (f ≡ found_by f.query item)

  abbrev AllListed : (ℕ × ℕ) × List Found → Type 0
  AllListed e = All (IsListed e.0) e.1

  known : (at : ℕ × ℕ) (m : Batch) → All AllListed m → All (IsListed at) (unwrap_or (get at m) [])
  known at m h = elim (Option-cases (get at m)) [
    | inl e ↦ rw e tt
    | inr (fs, e) ↦ rw e (All-get AllListed at fs m h e)
  ]

  add_found-AllListed :
      (q : Query) (items : List ListUnspent) (m : Batch)
      → Q q
      → ((item : ListUnspent) → Elem item items → Elem item (hist q.script))
      → All AllListed m
      → All AllListed (add_found q items m)
  unfolding add_found IsListed
  add_found-AllListed q [] m asked sub h = h
  add_found-AllListed q (item ∷ items) m asked sub h =
      add_found-AllListed q items _ asked (λ x e. sub x (inr e))
        (All-insert AllListed (place item) _ m h (
          All-append (IsListed (place item)) (unwrap_or (get (place item) m) [])
            (found_by q item ∷ []) (known (place item) m h)
            ((item, asked, sub item (inl refl), refl, refl), tt)))

  group-AllListed :
      (qs : List Query) (m : Batch)
      → All Q qs
      → All AllListed m
      → All AllListed (group (answers hist qs) qs m)
  unfolding group
  group-AllListed [] m q h = h
  group-AllListed (x ∷ qs) m q h =
      group-AllListed qs _ q.1 (add_found-AllListed x (hist x.script) m q.0 (λ item e. e) h)

  module _ (sv : Services) (c : Contract) where
    new_utxo-Reported :
        (height offset txid : ℕ) (f : Found)
        → IsListed (height, txid) f
        → Reported hist Q (new_utxo sv c height offset txid f)
    unfolding new_utxo IsListed
    new_utxo-Reported height offset txid f (item, asked, listed, at, f_eq) = record {
      query = f.query;
      item = item;
      asked = asked;
      listed = listed;
      same_txid = ground arith;
      same_vout = ground arith;
      same_value = ground arith;
      same_height = ground arith;
      same_index = refl;
      same_tweak = refl;
    }

    add_outputs-Reported :
        (height offset txid : ℕ) (fs : List Found) (p : Progress)
        → All (IsListed (height, txid)) fs
        → All (Reported hist Q) p.unspent
        → All (Reported hist Q) (add_outputs sv c height offset txid fs p).unspent
    unfolding add_outputs
    add_outputs-Reported height offset txid [] p l h = h
    add_outputs-Reported height offset txid (f ∷ fs) p l h =
        let o : OutPoint = record { txid = txid; vout = f.vout } in
        add_outputs-Reported height offset txid fs _ l.1
          (elim (Bool-cases (contains o p.outpoints)) [
            | inl old ↦ rw old h
            | inr new ↦ rw new (
                All-append (Reported hist Q) p.unspent (new_utxo sv c height offset txid f ∷ []) h
                  (new_utxo-Reported height offset txid f l.0, tt))
          ])

    add_transactions-Reported :
        (m : Batch) (p : Progress)
        → All AllListed m
        → All (Reported hist Q) p.unspent
        → All (Reported hist Q) (add_transactions sv c m p).unspent
    unfolding add_transactions
    add_transactions-Reported [] p l h = h
    add_transactions-Reported (((height, txid), fs) ∷ m) p l h =
        add_transactions-Reported m _ l.1 (elim (Option-cases (sv.get_merkle txid height)) [
          | inl e ↦ rw e h
          | inr (pos, e) ↦ rw e (add_outputs-Reported height (pos % u16_mod) txid fs _ l.0 h)
        ])

    pub round-Reported :
        (qs : List Query) (p : Progress)
        → All Q qs
        → All (Reported hist Q) p.unspent
        → All (Reported hist Q) (add_transactions sv c (group (answers hist qs) qs []) p).unspent
    round-Reported qs p q h =
        add_transactions-Reported (group (answers hist qs) qs []) p (group-AllListed qs [] q tt) h
