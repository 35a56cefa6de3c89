-- ===== src/Cache.antt =====
-- `src/cache`: the driver that keeps what is known of the chain: unspent outputs, and the
-- addresses that were handed out.
pub mod Derivation
pub mod Marking
pub mod Gathered
pub mod Assets
pub mod Update
pub mod Durable
pub mod Spendable
use citadel_runtime.Common.{
  ℕ, ◌≡◌, Bool, true, false, Option, none, some, List, [], ◌∷◌, map, map_option, unwrap_or, filter,
  ltb, leb, not, ◌==◌, if◌then◌else◌, add64, sum64,
}
use citadel_runtime.Common.Key.{nat_key, pair_key}
use citadel_runtime.Common.Map.{BTreeMap, get, insert, remove, extend}
use citadel_runtime.Common.Set.{BTreeSet, HashSet, contains, collect, distinct}
use citadel_runtime.Common.Result.{
  Result, ok, err, panic, Exec, ◌>>=◌, ◌>>◌, pure, lift, modify, map_ok, and_then,
}
use citadel_runtime.Foreign.Bitcoin.{Txid, AssetId, bitcoin_id, Address, OutPoint, outpoint_key}
use citadel_runtime.Foreign.Wallet.{ChildIndex}
use citadel_runtime.Model.Utxo.{Utxo, Allocations, outpoint, utxo_key}
use citadel_runtime.Model.Contract.{ContractId}
use citadel_runtime.Persist.{Codec, FileDriver, store}

-- `cache::Error`
pub data Error : Type 0 where
  io : ℕ → Error
  wrong_derivation : Error
  strict_encoding : ℕ → Error
  yaml_encoding : ℕ → Error
  json_encoding toml_encoding : Error

pub record ContractCache : Type 0 where
  pub updated_height : ℕ
  pub used_address_derivations : BTreeMap Address ℕ
  pub utxo : BTreeSet OutPoint
  pub unspent : BTreeMap AssetId (HashSet Utxo)

-- `ContractCache::default()`
abbrev pub no_cache : ContractCache
no_cache = record { updated_height = 0; used_address_derivations = []; utxo = []; unspent = [] }

pub record CacheData : Type 0 where
  pub known_height : ℕ
  pub descriptors : BTreeMap ContractId ContractCache
  pub block_info : List (ℕ × ℕ)
  pub mine_info : BTreeMap (ℕ × ℕ) Txid
  pub tx_cache : BTreeMap Txid ℕ

abbrev pub empty_cache : CacheData
empty_cache = record {
  known_height = 0;
  descriptors = [];
  block_info = [];
  mine_info = [];
  tx_cache = [];
}

abbrev pub Cache : Type 0
Cache = FileDriver CacheData

-- `self.cache.descriptors.get(&contract_id)`
abbrev pub contract_cache : ContractId → Cache → Option ContractCache
contract_cache id d = get id d.content.descriptors

-- `map_contract_or_default`, with the default of the result
abbrev map_contract_or_default :
    {R : Type 0} → R → ContractId → (ContractCache → R) → Cache → Result Error R
map_contract_or_default default id f d = ok (unwrap_or (map_option f (contract_cache id d)) default)

-- `blockpos_to_txid`
unfoldable pub blockpos_to_txid : ℕ → ℕ → Cache → Option Txid
blockpos_to_txid height offset d = get (height, offset) d.content.mine_info

-- `unspent`
unfoldable pub unspent : ContractId → Cache → Result Error (BTreeMap AssetId (HashSet Utxo))
unspent id = map_contract_or_default [] id (λ c. c.unspent)

-- one round of the inner loop of `allocations`
allocate : AssetId → Utxo → Allocations → Allocations
allocate asset_id u m =
    let assets = unwrap_or (get (outpoint u) m) [] in
    insert (outpoint u) (insert asset_id (add64 (unwrap_or (get asset_id assets) 0) u.value) assets)
      m

allocate_all : AssetId → List Utxo → Allocations → Allocations
unfolding allocate
allocate_all asset_id [] m = m
allocate_all asset_id (u ∷ us) m = allocate_all asset_id us (allocate asset_id u m)

-- the `fold` of `allocations`
pub allocations_of : BTreeMap AssetId (HashSet Utxo) → Allocations → Allocations
unfolding allocate_all
allocations_of [] m = m
allocations_of ((asset_id, utxos) ∷ rest) m = allocations_of rest (allocate_all asset_id utxos m)

-- `allocations`
unfoldable pub allocations : ContractId → Cache → Result Error Allocations
unfolding allocations_of
allocations id = map_contract_or_default [] id (λ c. allocations_of c.unspent [])

-- the `filter_map` of `unspent_bitcoin_only`
without_assets : Allocations → List OutPoint
without_assets [] = []
without_assets ((o, assets) ∷ m) =
    if sum64 (map (λ e. e.1) (remove bitcoin_id assets)) == 0
    then o ∷ without_assets m
    else without_assets m

-- `unspent_bitcoin_only`
unfoldable pub unspent_bitcoin_only : ContractId → Cache → Result Error (HashSet Utxo)
unfolding unspent allocations without_assets
unspent_bitcoin_only id d = and_then (unspent id d) (λ unspent'. and_then (allocations id d) (λ all.
    let outpoints = collect (without_assets all) in
    ok (
      unwrap_or
        (map_option
          (λ (us : HashSet Utxo). distinct (filter (λ u. contains (outpoint u) outpoints) us))
          (get bitcoin_id unspent'))
        [])))

-- `utxo`
unfoldable pub utxo : ContractId → Cache → Result Error (BTreeSet OutPoint)
utxo id = map_contract_or_default [] id (λ c. c.utxo)

-- `used_address_derivations`
unfoldable pub used_address_derivations : ContractId → Cache → Result Error (BTreeMap Address ℕ)
used_address_derivations id = map_contract_or_default [] id (λ c. c.used_address_derivations)

-- `used_addresses`
unfoldable pub used_addresses : ContractId → Cache → Result Error (HashSet Address)
used_addresses id =
    map_contract_or_default [] id (λ c. distinct (map (λ e. e.0) c.used_address_derivations))

-- `used_derivations`
unfoldable pub used_derivations : ContractId → Cache → Result Error (HashSet ℕ)
used_derivations id =
    map_contract_or_default [] id (λ c. distinct (map (λ e. e.1) c.used_address_derivations))

-- `.values().max()`
max_value : List (Address × ℕ) → Option ℕ
max_value [] = none
max_value ((a, i) ∷ m) = elim (max_value m) [
  | none ↦ some i
  | some j ↦ some (if leb i j then j else i)
]

-- `next_unused_derivation`
unfoldable pub next_unused_derivation : ChildIndex → ContractId → Cache → Result Error ℕ
unfolding max_value
next_unused_derivation hd id = map_contract_or_default 0 id (λ c.
    elim (max_value c.used_address_derivations) [
      | none ↦ 0
      | some i ↦ unwrap_or (hd.checked_inc i) 0
    ])

-- `last_used_derivation`
unfoldable pub last_used_derivation : ContractId → Cache → Option ℕ
unfolding max_value
last_used_derivation id d =
    map_option (λ c. unwrap_or (max_value (ContractCache.used_address_derivations c)) 0)
      (contract_cache id d)

-- `address_derivation`
unfoldable pub address_derivation : ContractId → Address → Cache → Option ℕ
address_derivation id address d = elim (contract_cache id d) [
  | none ↦ none
  | some c ↦ get address c.used_address_derivations
]

-- `.is_none()`
abbrev pub is_none : {A : Type 0} → Option A → Bool
is_none none = true
is_none (some a) = false

set_cache : ContractId → ContractCache → Cache → Cache
set_cache id c d = record d {
  content = record d.content { descriptors = insert id c d.content.descriptors };
}

-- the cache of a contract, or an empty one: `entry(id).or_insert(default)`
abbrev pub cache_or_default : ContractId → Cache → ContractCache
cache_or_default id d = unwrap_or (contract_cache id d) no_cache

-- the closure of `use_address_derivation`
use_address : Address → ℕ → ContractCache → Result Error Bool × ContractCache
use_address address path c =
    let old = get address c.used_address_derivations in
    if unwrap_or (map_option (λ p. not (p == path)) old) false then (err wrong_derivation, c) else (
      ok (is_none old),
      record c { used_address_derivations = insert address path c.used_address_derivations },
    )

-- the closure of `forget_address`
forget : Address → ContractCache → Result Error Bool × ContractCache
forget address c = (
  ok (not (is_none (get address c.used_address_derivations))),
  record c { used_address_derivations = remove address c.used_address_derivations },
)

-- `.filter(|utxo| utxo.value > 0).collect()` for each asset
nonzero : BTreeMap AssetId (List Utxo) → BTreeMap AssetId (HashSet Utxo)
nonzero [] = []
nonzero ((asset_id, us) ∷ m) =
    (asset_id, distinct (filter (λ u. ltb 0 (Utxo.value u)) us)) ∷ nonzero m

-- the assignments of `update`
updated :
    ContractId
    → BTreeMap (ℕ × ℕ) Txid
    → Option ℕ
    → BTreeSet OutPoint
    → BTreeMap AssetId (List Utxo)
    → CacheData
    → CacheData
unfolding nonzero
updated id mine_info updated_height utxo' unspent' data' =
    let c = unwrap_or (get id data'.descriptors) no_cache in
    let c' : ContractCache = record c {
      updated_height = unwrap_or updated_height c.updated_height;
      utxo = utxo';
      unspent = nonzero unspent';
    } in
    record data' {
      known_height = unwrap_or updated_height data'.known_height;
      descriptors = insert id c' data'.descriptors;
      mine_info = extend data'.mine_info mine_info;
    }

module _ (codec : Codec CacheData Error) where
  -- `with_contract`: the entry is made and changed in memory, and stored if the closure succeeds
  with_contract :
      {R : Type 0}
      → ContractId
      → (ContractCache → Result Error R × ContractCache)
      → Exec Cache Error R
  unfolding set_cache
  with_contract id f d =
      let (r, c) = f (cache_or_default id d) in
      (do a ← lift r; store codec; pure a) (set_cache id c d)

  -- `use_address_derivation`
  unfoldable pub use_address_derivation : ContractId → Address → ℕ → Exec Cache Error Bool
  unfolding with_contract use_address
  use_address_derivation id address path = with_contract id (use_address address path)

  -- `forget_address`
  unfoldable pub forget_address : ContractId → Address → Exec Cache Error Bool
  unfolding with_contract forget
  forget_address id address = with_contract id (forget address)

  -- `update`
  unfoldable pub update :
      ContractId
      → BTreeMap (ℕ × ℕ) Txid
      → Option ℕ
      → BTreeSet OutPoint
      → BTreeMap AssetId (List Utxo)
      → Exec Cache Error (Unit {0})
  unfolding updated
  update id mine_info updated_height utxo' unspent' d =
      (do
        modify (λ s. record s {
          content = updated id mine_info updated_height utxo' unspent' s.content;
        })
        store codec)
        d
