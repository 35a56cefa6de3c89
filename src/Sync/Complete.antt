-- ===== src/Sync/Complete.antt =====
-- What `chain_sync` of `src/runtime/processor/chain_sync.rs` returns and leaves in the cache.
use citadel_runtime.Common.{
  ℕ, ◌%◌, ◌<◌, ◌≡◌, ◌⊎◌, refl, ap, true, some, List, [], ◌∷◌, ◌++◌, map, All, Elem, unwrap_or,
  u32_mod, inl, inr,
}
use mathlib.Core.Path.{subst}
use mathlib.Core.List.{map-append}
use citadel_runtime.Common.Key.{nat_key, same_self}
use citadel_runtime.Common.Map.{BTreeMap, get}
use citadel_runtime.Common.Set.{contains, contains-append}
use citadel_runtime.Common.Result.{ok}
use citadel_runtime.Foreign.Bitcoin.{AssetId, Script, bitcoin_id, outpoint_key}
use citadel_runtime.Foreign.Wallet.{Descriptor}
use citadel_runtime.Model.Utxo.{Utxo, outpoint}
use citadel_runtime.Model.Policy.{to_descriptor}
use citadel_runtime.Model.Policy.Scripts.{derive_scripts-IsDerived}
use citadel_runtime.Model.Contract.{Contract, ContractId, TweakedOutput}
use citadel_runtime.Cache
use citadel_runtime.Cache.{ContractCache, contract_cache}
use citadel_runtime.Cache.Update.{contract_cache-update}
use citadel_runtime.Storage
use citadel_runtime.Runtime.Error.{Error}
use citadel_runtime.Runtime.State.{Runtime, Services, ListUnspent}
use citadel_runtime.Sync.{chain_sync}
use citadel_runtime.Sync.Scan.{Query, nothing, known_scripts}
use citadel_runtime.Sync.Scan.Gathered.{listed_at}
use citadel_runtime.Sync.Scan.Reported.{Reported, round-Reported}
use citadel_runtime.Sync.Scan.Once.{Agrees, Once, add_transactions-Agrees}
use citadel_runtime.Sync.Rounds.Rule.{Answers, loop_rule}
use citadel_runtime.Sync.Rounds.Complete.{
  derived, queries-All, Unbroken, covers_batch, covers_derived,
}
use citadel_runtime.Sync.Assign.Bitcoin.{assign_assets-bitcoin, assign_assets_exact, NoBitcoin}
use citadel_runtime.Sync.Ran.{Ran, chain_sync-Ran}

-- the look-up of the script of a known tweak
abbrev pub tweaked : TweakedOutput → Query
tweaked t = record { index = t.derivation_index; script = t.script; tweak = some t }

-- A look-up of a known tweak of the contract, or of its script at an index for which `P` holds.
abbrev pub Watched : Services → Contract → Descriptor → (ℕ → Type 0) → Query → Type 0
Watched sv c d P q =
    ((t : TweakedOutput) × Elem t c.contents.p2c_tweaks × (q ≡ tweaked t))
    ⊎ (i : ℕ) × P i × (q ≡ derived sv d i)

Elem-known_scripts :
    (t : TweakedOutput) (ts : List TweakedOutput) → Elem t ts → Elem (tweaked t) (known_scripts ts)
unfolding known_scripts
Elem-known_scripts t [] e = absurd e
Elem-known_scripts t (x ∷ ts) (inl e) = inl (ap tweaked e)
Elem-known_scripts t (x ∷ ts) (inr e) = inr (Elem-known_scripts t ts e)

known_scripts-All :
    (Q : Query → Type 0) (ts : List TweakedOutput)
    → ((t : TweakedOutput) → Elem t ts → Q (tweaked t))
    → All Q (known_scripts ts)
unfolding known_scripts
known_scripts-All Q [] h = tt
known_scripts-All Q (t ∷ ts) h = (h t (inl refl), known_scripts-All Q ts (λ t' e. h t' (inr e)))

module _ (sv : Services) (fuel : ℕ) (id : ContractId) (depth : ℕ) (r : Runtime)
    (assets : BTreeMap AssetId (List Utxo)) (r' : Runtime) where
  module _ (hist : Script → List ListUnspent) (c : Contract) (d : Descriptor)
      (answering : Answers sv hist) (stored : Storage.contract_ref id r.storage ≡ ok c)
      (compiled : to_descriptor {E = Error} sv.api c.policy ≡ ok d)
      (done : chain_sync sv fuel id depth r ≡ some (ok assets, r')) where
    abbrev last_used : ℕ
    last_used = unwrap_or (Cache.last_used_derivation id r.cache) 0

    progress-Agrees : (run : Ran sv fuel id depth c r assets r') → Agrees run.progress
    progress-Agrees run =
        loop_rule sv c last_used depth hist answering Agrees (λ q. Unit)
          (λ scripts p q h. add_transactions-Agrees sv c _ p h)
          (λ from to m e.
            queries-All sv d (λ q. Unit) m (λ i. tt)
              (derive_scripts-IsDerived {E = Error} sv.api sv.hd c.policy d from to m compiled e))
          fuel (known_scripts c.contents.p2c_tweaks) 0 nothing run.progress run.looped
          (known_scripts-All (λ q. Unit) c.contents.p2c_tweaks (λ t e. tt))
          (record { has_all = λ o. refl; once = tt })

    progress-covers :
        (run : Ran sv fuel id depth c r assets r') (q : Query) (item : ListUnspent) (pos : ℕ)
        → 0 < depth
        → Watched sv c d
            (λ i. (i < sv.hd.largest) × Unbroken sv c last_used depth hist answering d compiled i)
            q
        → Elem item (hist q.script)
        → sv.get_merkle item.tx_hash (item.height % u32_mod) ≡ some pos
        → contains (listed_at item) run.progress.outpoints ≡ true
    progress-covers run q item pos positive (inl (t, e, known)) l placed =
        covers_batch sv c last_used depth hist answering item pos placed fuel
          (known_scripts c.contents.p2c_tweaks) 0 nothing run.progress (tweaked t) run.looped
          (Elem-known_scripts t c.contents.p2c_tweaks e)
          (subst (λ (q : Query). Elem item (hist q.script)) known l)
    progress-covers run q item pos positive (inr (i, (below, unbroken), e)) l placed =
        covers_derived sv c last_used depth hist answering d compiled i item pos fuel
          (known_scripts c.contents.p2c_tweaks) nothing run.progress positive below unbroken
          (subst (λ (q : Query). Elem item (hist q.script)) e l) placed run.looped

    -- Nothing is missed. When `chain_sync` succeeds with a positive lookup depth, an output that
    -- the server lists, and places in a block, is in the reply, among the carriers of bitcoin, and
    -- in the cache, if the script it is listed for is that of a known tweak of the contract, or
    -- that of the contract at an index below the largest one which no gap cuts off: among any
    -- `depth` indexes in a row that lie below this index, and the last of which is the last used
    -- index or a later one, one has an output. Where no index was used, the last used one is 0. The
    -- server is taken to answer a batch with what it lists for each script.
    pub chain_sync_complete :
        (q : Query) (item : ListUnspent) (pos : ℕ)
        → 0 < depth
        → Watched sv c d
            (λ i. (i < sv.hd.largest) × Unbroken sv c last_used depth hist answering d compiled i)
            q
        → Elem item (hist q.script)
        → sv.get_merkle item.tx_hash (item.height % u32_mod) ≡ some pos
        → (us : List Utxo) × (get bitcoin_id assets ≡ some us)
          × (contains (listed_at item) (map outpoint us) ≡ true)
          × (known : ContractCache) × (contract_cache id r'.cache ≡ some known)
          × (contains (listed_at item) known.utxo ≡ true)
    chain_sync_complete q item pos positive watched l placed =
        let run = chain_sync-Ran sv fuel id depth r assets r' c stored done in
        let p = run.progress in
        let found = progress-covers run q item pos positive watched l placed in
        let (more, carriers) = assign_assets-bitcoin sv p.unspent p.outpoints assets run.assigned in
        let (known, cached, outpoints, _, _, _) =
          contract_cache-update sv.cache_codec id id p.mine_info (some run.height) p.outpoints
            assets r.cache in
        (
          p.unspent ++ more,
          carriers,
          rw (map-append outpoint p.unspent more) (
              rw (contains-append (listed_at item) (map outpoint p.unspent) (map outpoint more))
                (rw (← (progress-Agrees run).has_all (listed_at item)) (rw found))),
          known,
          rw run.updated (rw (same_self id) at cached),
          rw outpoints found,
        )

    -- Nothing is made up. When `chain_sync` succeeds, and the RGB node reports no asset with the id
    -- of bitcoin, the carriers of bitcoin in the reply have distinct outpoints, and each is an
    -- output that the server lists for the script of a known tweak of the contract, or for that of
    -- the contract at some index, with its transaction, its position in 16 bits, its value, its
    -- height in 32 bits, and the index and the tweak of that script. The server is taken to answer
    -- a batch with what it lists for each script.
    pub chain_sync-Reported :
        NoBitcoin sv
        → (us : List Utxo) × (get bitcoin_id assets ≡ some us)
          × All (Reported hist (Watched sv c d (λ i. Unit))) us
          × Once (map outpoint us)
    chain_sync-Reported foreign =
        let run = chain_sync-Ran sv fuel id depth r assets r' c stored done in
        let p = run.progress in
        let Q = Watched sv c d (λ i. Unit) in
        (
          p.unspent,
          assign_assets_exact sv p.unspent p.outpoints assets foreign run.assigned,
          loop_rule sv c last_used depth hist answering (λ p. All (Reported hist Q) p.unspent) Q
              (λ scripts p q h. round-Reported hist Q sv c scripts p q h)
              (λ from to m e.
                queries-All sv d Q m (λ i. inr (i, tt, refl))
                  (derive_scripts-IsDerived {E = Error} sv.api sv.hd c.policy d from to m compiled
                    e))
              fuel (known_scripts c.contents.p2c_tweaks) 0 nothing p run.looped
              (known_scripts-All Q c.contents.p2c_tweaks (λ t e. inl (t, e, refl))) tt,
          (progress-Agrees run).once,
        )
