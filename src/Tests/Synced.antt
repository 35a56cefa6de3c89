-- ===== src/Tests/Synced.antt =====
-- Synchronization of a contract with outputs at its indexes 2 and 4, three indexes at a time.
use citadel_runtime.Common.{
  ◌+◌, ℕ, ◌≡◌, refl, false, true, none, some, unwrap_or, map_option, List, [], ◌∷◌, ◌==◌, map, All,
  if◌then◌else◌, arith, inl, inr,
}
use mathlib.Core.Path.{subst}
use citadel_runtime.Common.Key.{nat_key, pair_key, same, less}
use citadel_runtime.Common.Map.{BTreeMap, get, insert, extend}
use citadel_runtime.Common.Set.{contains, add, distinct}
use citadel_runtime.Common.Result.{ok, err}
use citadel_runtime.Foreign.Bitcoin.{AssetId, Script, bitcoin_id, outpoint_key}
use citadel_runtime.Foreign.Wallet.{wpkh_of}
use citadel_runtime.Model.Utxo.{Utxo, outpoint}
use citadel_runtime.Model.Policy.{to_descriptor, translate, derive_scripts}
use citadel_runtime.Persist.{Serializer, store}
use citadel_runtime.Cache
use citadel_runtime.Cache.{CacheData, ContractCache, contract_cache}
use citadel_runtime.Storage
use citadel_runtime.Runtime.Error.{Error}
use citadel_runtime.Runtime.State.{Runtime, Services, ListUnspent}
use citadel_runtime.Sync.{chain_sync}
use citadel_runtime.Sync.Scan.{count_found, known_scripts, group, add_transactions}
use citadel_runtime.Sync.Rounds.{sync_loop}
use citadel_runtime.Sync.Assign.{assign_assets}
use citadel_runtime.Sync.Scan.Gathered.{listed_at}
use citadel_runtime.Sync.Scan.Reported.{Reported}
use citadel_runtime.Sync.Scan.Once.{Once}
use citadel_runtime.Sync.Rounds.Rule.{Answers}
use citadel_runtime.Sync.Rounds.Complete.{derived, Unbroken}
use citadel_runtime.Sync.Complete.{Watched, chain_sync_complete, chain_sync-Reported}
use citadel_runtime.Model.Policy.{AddressDerivation, derive_address, derive_descriptor}
use citadel_runtime.Model.Contract.{contract_address}
use citadel_runtime.Rpc.Request.{NextAddressRequest}
use citadel_runtime.Rpc.Reply.{Reply}
use citadel_runtime.Server.{next_address, last}
use citadel_runtime.Server.Found.{next_address-found}
use citadel_runtime.Server.Outside.{Backend}
use citadel_runtime.Tests.Requests.{Raw, backend}
use citadel_runtime.Tests.{descriptors, small_add, small_inc, services, contract, runtime_of}
use citadel_runtime.Tests.Codecs.{cache_codec}

abbrev output : ℕ → ListUnspent
output txid = record { height = 100; tx_hash = txid; tx_pos = 1; value = 500 }

abbrev utxo : ℕ → ℕ → Utxo
utxo txid index = record {
  value = 500;
  height = 100;
  offset = 0;
  txid = txid;
  vout = 1;
  derivation_index = index;
  tweak = none;
  address = none;
}

-- what the server lists for a script
abbrev listing : Script → List ListUnspent
listing s = if s == 1102 then output 8 ∷ [] else if s == 1104 then output 7 ∷ [] else []

abbrev pub plain : Serializer CacheData Cache.Error
plain = record {
  encode = λ x. ([], none);
  decode = λ b. err Cache.json_encoding;
  failed = Cache.yaml_encoding;
}

abbrev server : Services
server = record services {
  cache_codec = record cache_codec { yaml_serializer = plain };
  list_unspent = λ scripts. some (map listing scripts);
}

abbrev start : Runtime
start = runtime_of ((3, contract 3) ∷ []) []

abbrev later : Runtime
later = unwrap_or (map_option (λ x. x.1) (chain_sync server 9 3 3 start)) start

abbrev found : BTreeMap AssetId (List Utxo)
found = (bitcoin_id, utxo 8 2 ∷ utxo 7 4 ∷ []) ∷ []

ran : chain_sync server 9 3 3 start ≡ some (ok found, later)
unfolding chain_sync derive_scripts insert extend get add contains distinct same less store
    translate Storage.contract_ref Cache.last_used_derivation Cache.update sync_loop count_found
    known_scripts group add_transactions assign_assets small_add small_inc
ran = refl

stored : Storage.contract_ref 3 start.storage ≡ ok (contract 3)
unfolding Storage.contract_ref get same
stored = refl

answering : Answers server listing
answering scripts found h = ground arith

compiled : to_descriptor {E = Error} server.api (contract 3).policy ≡ ok (wpkh_of 0)
unfolding to_descriptor
compiled = refl

-- of any three indexes in a row up to 4, one is 2
unbroken :
    Unbroken server
      (contract 3)
      (unwrap_or (Cache.last_used_derivation 3 start.cache) 0)
      3
      listing
      answering
      (wpkh_of 0)
      compiled
      4
unfolding translate
unbroken k l h = (2, output 8, omega arith, omega arith, inl refl)

chain_sync_complete_example :
    (us : List Utxo) × (get bitcoin_id found ≡ some us)
    × (contains (listed_at (output 7)) (map outpoint us) ≡ true)
    × (known : ContractCache) × (contract_cache 3 later.cache ≡ some known)
    × (contains (listed_at (output 7)) known.utxo ≡ true)
unfolding translate
chain_sync_complete_example =
    chain_sync_complete server 9 3 3 start found later listing (contract 3) (wpkh_of 0) answering
      stored compiled ran (derived server (wpkh_of 0) 4) (output 7) 0 (omega arith)
      (inr (4, (omega arith, unbroken), refl)) (inl refl) refl

chain_sync-Reported_example :
    (us : List Utxo) × (get bitcoin_id found ≡ some us)
    × All (Reported listing (Watched server (contract 3) (wpkh_of 0) (λ i. Unit))) us
    × Once (map outpoint us)
chain_sync-Reported_example =
    chain_sync-Reported server 9 3 3 start found later listing (contract 3) (wpkh_of 0) answering
      stored compiled ran
      (λ o assets h.
        let nothing : ◌≡◌ {A = BTreeMap AssetId (List ℕ)} [] assets = ground arith in
        subst (All (λ e. same e.0 bitcoin_id ≡ false)) nothing tt)

-- a server whose addresses are their scripts
abbrev watcher : Backend Raw
watcher = record backend {
  services = record server {
    api = record descriptors { address = λ d n. some (1000 + d); address_script = λ a. a };
  };
}

abbrev second : NextAddressRequest
second = record { contract_id = 3; index = some 2; legacy = false; mark_used = true }

abbrev handed_out : AddressDerivation
handed_out = record { address = 1102; derivation = 2 ∷ [] }

handed : (next_address watcher second start).0 ≡ ok (Reply.address_derivation handed_out)
unfolding next_address Storage.contract_ref get same Cache.next_unused_derivation derive_descriptor
    to_descriptor contract_address derive_address translate store insert less
    Cache.use_address_derivation last small_inc
handed = refl

abbrev marked : Runtime
marked = (next_address watcher second start).1

abbrev after : Runtime
after = unwrap_or (map_option (λ x. x.1) (chain_sync watcher.services 9 3 3 marked)) marked

ran_marked : chain_sync watcher.services 9 3 3 marked ≡ some (ok found, after)
unfolding chain_sync derive_scripts insert extend get add contains distinct same less store
    translate Storage.contract_ref Cache.last_used_derivation Cache.update sync_loop count_found
    known_scripts group add_transactions assign_assets small_add small_inc next_address
    Cache.next_unused_derivation derive_descriptor to_descriptor contract_address derive_address
    Cache.use_address_derivation last
ran_marked = refl

next_address-found_example :
    (us : List Utxo) × (get bitcoin_id found ≡ some us)
    × (contains (listed_at (output 8)) (map outpoint us) ≡ true)
next_address-found_example =
    next_address-found watcher listing second start handed_out 9 3 found after (output 8) 0
      (λ d n a h. ground arith) answering refl refl handed (omega arith, tt) (omega arith)
      ran_marked (inl refl) refl
