-- ===== src/Tests/Restarts.antt =====
-- A server that takes in a contract, and is started again on the file.
use citadel_runtime.Common.{
  ℕ, ◌≡◌, refl, Bool, true, false, ◌&&◌, inl, inr, Option, none, some, List, [], ◌∷◌, ◌==◌,
  if◌then◌else◌, arith, Option-cases,
}
use citadel_runtime.Common.Key.{nat_key, less, same}
use citadel_runtime.Common.Map.{BTreeMap, get, insert}
use citadel_runtime.Common.Result.{Result, ok}
use citadel_runtime.Foreign.Wallet.{single_sig, compound}
use citadel_runtime.Model.Policy.{Policy}
use citadel_runtime.Model.Contract.{
  to_meta, Contract, ContractData, ContractId, Citadel, no_data, empty_citadel, contract_with,
}
use citadel_runtime.Persist.{FileFormat, Codec, Serializer, store}
use citadel_runtime.Persist.Synced.{encoded}
use citadel_runtime.Persist.Reload.{RoundTrips}
use citadel_runtime.Cache
use citadel_runtime.Storage
use citadel_runtime.Runtime.Config.{Config, other, storage_conf, cache_conf}
use citadel_runtime.Runtime.State.{Runtime}
use citadel_runtime.Rpc.Request.{Request}
use citadel_runtime.Rpc.Reply.{Reply}
use citadel_runtime.Server.{single_sig_contract, rpc_process, handle}
use citadel_runtime.Server.Outside.{Backend}
use citadel_runtime.Server.Service.{Start, init}
use citadel_runtime.Server.Restart.{StartsUp, Saved}
use citadel_runtime.Server.Disk.{
  Disk, storage_path, cache_path, with_files, path_key, restart_on_disk,
}
use citadel_runtime.Tests.{services, runtime_of}
use citadel_runtime.Tests.Codecs.{
  is_nil, nil_of, cache_bytes, cache_codec, cache_trips, storage_codec,
}
use citadel_runtime.Tests.Requests.{Raw, backend}

is_bare : ContractData → Bool
unfolding is_nil
is_bare d =
    (d.state.mu_sig == 0)
    && (is_nil d.blinding_factors
        && (is_nil d.sent_invoices
            && (is_nil d.unpaid_invoices && (is_nil d.p2c_tweaks && is_nil d.operations))))

-- a contract with one key that has no data yet
contract_bytes : Policy → Contract → Option (List ℕ)
contract_bytes (Policy.current (single_sig category k)) c =
    some (category ∷ k ∷ c.id ∷ c.name ∷ c.chain ∷ c.created_at ∷ [])
contract_bytes p c = none

entry_bytes : List (ContractId × Contract) → Option (List ℕ)
unfolding is_bare contract_bytes
entry_bytes [] = some []
entry_bytes ((id, c) ∷ []) =
    if is_bare c.contents && id == c.id then contract_bytes c.policy c else none
entry_bytes _ = none

bytes_of : Citadel → List ℕ × Option Storage.Error
unfolding is_nil entry_bytes
bytes_of c = elim (entry_bytes c.contracts) [
  | none ↦ ([], some Storage.json_encoding)
  | some b ↦
      if is_nil c.identities && is_nil c.assets then (b, none) else ([], some Storage.json_encoding)
]

read_back : List ℕ → Result Storage.Error Citadel
read_back (category ∷ k ∷ id ∷ name ∷ chain ∷ created_at ∷ []) = ok (record empty_citadel {
  contracts =
      (
        id,
        record {
          id = id;
          name = name;
          chain = chain;
          policy = Policy.current (single_sig category k);
          created_at = created_at;
          contents = no_data;
        },
      )
      ∷ [];
})
read_back _ = ok empty_citadel

bare : (d : ContractData) → is_bare d ≡ true → d ≡ no_data
unfolding is_bare
bare d h = ground (
  arith,
  nil_of d.blinding_factors,
  nil_of d.sent_invoices,
  nil_of d.unpaid_invoices,
  nil_of d.p2c_tweaks,
  nil_of d.operations,
)

contract_trip :
    (p : Policy) (c : Contract) (b : List ℕ)
    → contract_bytes p c ≡ some b
    → c.policy ≡ p
    → c.contents ≡ no_data
    → read_back b ≡ ok (record empty_citadel { contracts = (c.id, c) ∷ [] })
unfolding contract_bytes read_back
contract_trip (Policy.current (single_sig category k)) c b h same_policy same_data =
    let bytes : category ∷ k ∷ c.id ∷ c.name ∷ c.chain ∷ c.created_at ∷ [] ≡ b = ground arith in
    rw (← bytes) (ground arith)
contract_trip (Policy.current (compound d)) c b h same_policy same_data = absurd (ground arith)
contract_trip (Policy.instant d) c b h same_policy same_data = absurd (ground arith)
contract_trip (Policy.saving d) c b h same_policy same_data = absurd (ground arith)

entry_trip :
    (m : BTreeMap ContractId Contract) (b : List ℕ)
    → entry_bytes m ≡ some b
    → read_back b ≡ ok (record empty_citadel { contracts = m })
unfolding entry_bytes read_back
entry_trip [] b h = ground arith
entry_trip ((id, c) ∷ []) b h = ground (arith, contract_trip c.policy c b, bare c.contents)
entry_trip (e ∷ e' ∷ m) b h = absurd (ground arith)

trip : (x : Citadel) (b : List ℕ) → bytes_of x ≡ (b, none) → read_back b ≡ ok x
unfolding bytes_of
trip x b h = elim (Option-cases (entry_bytes x.contracts)) [
  | inl e ↦ absurd (ground arith)
  | inr (c, e) ↦ ground (arith, entry_trip x.contracts b, nil_of x.identities, nil_of x.assets)
]

abbrev serializer : Serializer Citadel Storage.Error
serializer = record { encode = bytes_of; decode = read_back; failed = Storage.yaml_encoding }

abbrev codec : Codec Citadel Storage.Error
codec = record storage_codec {
  strict_serializer = serializer;
  yaml_serializer = serializer;
  toml_serializer = serializer;
  json_serializer = serializer;
}

abbrev trips : RoundTrips codec
trips = record { strict_trip = trip; yaml_trip = trip; toml_trip = trip; json_trip = trip }

abbrev server : Backend Raw
server = record backend { services = record services { storage_codec = codec } }

abbrev settings : Config
settings = record {
  chain = 0;
  rpc_endpoint = other 0;
  rgb20_endpoint = other 0;
  rgb_embedded = false;
  data_dir = [];
  verbose = 0;
  electrum_server = 0;
}

abbrev taken_in : Request
taken_in = Request.create_single_sig (record { name = 8; pubkey_chain = 2; category = 1 })

abbrev cache : Cache.Cache
cache = record {
  fd = record { bytes = 5 ∷ 3 ∷ 4 ∷ []; cursor = 0; outcomes = [] };
  config = cache_conf settings;
  content = record Cache.empty_cache {
    known_height = 5;
    descriptors = (3, record Cache.no_cache { updated_height = 4 }) ∷ [];
  };
}

abbrev fresh : Runtime
fresh = record (runtime_of [] []) { cache = cache }

abbrev later : Runtime
later = (handle server taken_in fresh).1

abbrev reply : Reply
reply =
    Reply.contract
      (to_meta (single_sig_contract server (record { name = 8; pubkey_chain = 2; category = 1 })))

took : rpc_process server 0 (inl taken_in) fresh ≡ some (ok reply, later)
unfolding rpc_process handle Storage.add_contract store bytes_of entry_bytes contract_bytes is_bare
    contract_with insert get same less
took = refl

saved : Saved codec (storage_conf settings) fresh.storage
unfolding encoded storage_conf bytes_of entry_bytes
saved = (refl, refl)

cached : Saved cache_codec (cache_conf settings) fresh.cache
unfolding encoded cache_conf cache_bytes
cached = (refl, refl)

-- the extensions that the test gives to the formats
abbrev extension : FileFormat → List ℕ
extension f = 121 ∷ []

abbrev disk : Disk
disk = with_files extension settings later []

abbrev start : Start
start = record {
  storage_file = get (storage_path extension settings) disk;
  storage_outcomes = [];
  cache_file = get (cache_path extension settings) disk;
  cache_outcomes = [];
  rng = 0;
  socket = λ a. ok tt;
  headers = ok 700000;
  node = λ n. some tt;
}

up : StartsUp server settings start
up = record {
  height = 700000;
  storage_calm = refl;
  cache_calm = refl;
  listens = refl;
  connects = refl;
  subscribes = refl;
  node_starts = refl;
}

restart_on_disk_example :
    (again : Runtime) × (init server settings start ≡ ok again)
    × (again.storage.content ≡ later.storage.content)
    × (again.cache.content ≡ later.cache.content)
restart_on_disk_example =
    restart_on_disk server trips cache_trips extension settings [] 0 (inl taken_in) fresh later
      reply start saved cached took refl refl up
