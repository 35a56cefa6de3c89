-- ===== src/Sync/Scan.antt =====
-- One batch of scripts: the unspent outputs that the server reports, and what is kept of them.
pub mod Gathered
pub mod Reported
pub mod Once
use citadel_runtime.Common.{
  ℕ, ◌+◌, ◌%◌, Option, none, some, List, [], ◌∷◌, ◌++◌, map_option, unwrap_or, length,
  if◌then◌else◌, u16_mod, u32_mod,
}
use citadel_runtime.Common.Key.{nat_key, pair_key}
use citadel_runtime.Common.Map.{BTreeMap, get, insert}
use citadel_runtime.Common.Set.{BTreeSet, contains, add}
use citadel_runtime.Foreign.Bitcoin.{Txid, Script, OutPoint, outpoint_key}
use citadel_runtime.Model.Utxo.{Utxo}
use citadel_runtime.Model.Contract.{Contract, TweakedOutput}
use citadel_runtime.Runtime.State.{Services, ListUnspent}

-- a script to look up, with its index and its tweak
pub record Query : Type 0 where
  pub index : ℕ
  pub script : Script
  pub tweak : Option TweakedOutput

-- an output that was found
pub record Found : Type 0 where
  pub vout : ℕ
  pub value : ℕ
  pub query : Query

-- the scripts of the known tweaks
unfoldable pub known_scripts : List TweakedOutput → List Query
known_scripts [] = []
known_scripts (t ∷ ts) =
    record { index = t.derivation_index; script = t.script; tweak = some t } ∷ known_scripts ts

abbrev pub Batch : Type 0
Batch = BTreeMap (ℕ × ℕ) (List Found)

-- the `for` over the outputs that were found for a script
add_found : Query → List ListUnspent → Batch → Batch
add_found q [] m = m
add_found q (item ∷ items) m =
    let at : ℕ × ℕ = (item.height % u32_mod, item.tx_hash) in
    let found : Found = record { vout = item.tx_pos % u16_mod; value = item.value; query = q } in
    add_found q items (insert at (unwrap_or (get at m) [] ++ found ∷ []) m)

-- the `zip` with the scripts and the `fold`
unfoldable pub group : List (List ListUnspent) → List Query → Batch → Batch
unfolding add_found
group [] qs m = m
group (found ∷ rest) [] m = m
group (found ∷ rest) (q ∷ qs) m = group rest qs (add_found q found m)

-- `count`: the number of outputs that were found
unfoldable pub count_found : List (List ListUnspent) → List Query → ℕ
count_found [] qs = 0
count_found (found ∷ rest) [] = 0
count_found (found ∷ rest) (q ∷ qs) = length found + count_found rest qs

-- What the loop has gathered.
pub record Progress : Type 0 where
  pub unspent : List Utxo
  pub outpoints : BTreeSet OutPoint
  pub mine_info : BTreeMap (ℕ × ℕ) Txid

abbrev pub nothing : Progress
nothing = record { unspent = []; outpoints = []; mine_info = [] }

module _ (sv : Services) (c : Contract) where
  -- `Chain::try_into` and `AddressCompat::from_script`
  address_of : Script → Option ℕ
  address_of s = elim (sv.api.network c.chain) [ none ↦ none | some n ↦ sv.address_from_script s n ]

  new_utxo : ℕ → ℕ → Txid → Found → Utxo
  unfolding address_of
  new_utxo height offset txid f = record {
    value = f.value;
    height = height;
    offset = offset;
    txid = txid;
    vout = f.vout;
    derivation_index = f.query.index;
    tweak = map_option (λ (t : TweakedOutput). (t.tweak, t.pubkey)) f.query.tweak;
    address = address_of f.query.script;
  }

  -- the `for` over the outputs of a transaction; an outpoint that is known is passed over
  add_outputs : ℕ → ℕ → Txid → List Found → Progress → Progress
  unfolding new_utxo
  add_outputs height offset txid [] p = p
  add_outputs height offset txid (f ∷ fs) p =
      let o : OutPoint = record { txid = txid; vout = f.vout } in
      add_outputs height offset txid fs (
        if contains o p.outpoints then p else record p {
          unspent = p.unspent ++ new_utxo height offset txid f ∷ [];
          outpoints = add o p.outpoints;
        })

  -- the `for` over the transactions; one whose position the server does not tell is passed over
  unfoldable pub add_transactions : Batch → Progress → Progress
  unfolding add_outputs
  add_transactions [] p = p
  add_transactions (((height, txid), fs) ∷ m) p =
      add_transactions m (elim (sv.get_merkle txid height) [
        | none ↦ p
        | some pos ↦
            add_outputs height (pos % u16_mod) txid fs
              (record p { mine_info = insert (height, pos % u16_mod) txid p.mine_info })
      ])
