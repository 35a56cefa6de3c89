-- ===== src/Tests.antt =====
-- Runs of the code at concrete inputs: the values that they share.
mod Codecs
mod Coins
mod Payments
mod Files
mod Wallets
mod Servers
mod Requests
mod Clients
mod Texts
mod Restarts
mod Paths
mod Synced
mod Tweaks
use citadel_runtime.Common.{
  ℕ, zero, suc, ◌+◌, ◌≤◌, ◌<◌, ◌≡◌, refl, Bool, true, false, Option, none, some, List, [], ◌∷◌, leb,
  if◌then◌else◌, arith, inl, inr, Bool-cases, ◌&&◌, ◌⊎◌,
}
use citadel_runtime.Common.Key.{nat_key}
use citadel_runtime.Common.Map.{BTreeMap}
use citadel_runtime.Common.Result.{Result, ok, err, panic}
use citadel_runtime.Foreign.Bitcoin.{
  Script, Address, Transaction, SealDefinition, AssetId, OutPoint, Psbt,
}
use citadel_runtime.Foreign.Wallet.{
  ChildIndex, ContractDescriptor, single_sig, compound, wpkh_of, wpkh, DescriptorApi,
}
use citadel_runtime.Model.Utxo.{Utxo}
use citadel_runtime.Model.Policy.{Policy}
use citadel_runtime.Model.Contract.{Contract, Citadel, ContractId, no_data, empty_citadel}
use citadel_runtime.Persist.{Serializer, Codec, FileConfig, FileDriver, yaml}
use citadel_runtime.Persist.Reload.{RoundTrips}
use citadel_runtime.Cache
use citadel_runtime.Cache.{CacheData}
use citadel_runtime.Storage
use citadel_runtime.Runtime.Error.{Error}
use citadel_runtime.Runtime.State.{Runtime, Services, SealEndpoint, ListUnspent}
use citadel_runtime.Tests.Codecs.{storage_codec, cache_codec}

-- the indexes from 0 to 10
unfoldable pub small_inc : ℕ → Option ℕ
small_inc i = if leb 10 i then none else some (i + 1)

unfoldable pub small_add : ℕ → ℕ → Option ℕ
small_add i d = if leb (i + d) 10 then some (i + d) else none

pub small_inc_below : (i : ℕ) → i < 10 → small_inc i ≡ some (i + 1)
unfolding small_inc
small_inc_below i h = ground arith

pub small_add_fits : (i d : ℕ) → i + d ≤ 10 → small_add i d ≡ some (i + d)
unfolding small_add
small_add_fits i d h = ground arith

pub small_add_overflows : (i d : ℕ) → 10 < i + d → small_add i d ≡ none
unfolding small_add
small_add_overflows i d h = ground arith

pub small_inc_largest : small_inc 10 ≡ none
unfolding small_inc
small_inc_largest = refl

abbrev pub indexes : ChildIndex
indexes = record {
  largest = 10;
  checked_inc = small_inc;
  checked_add = small_add;
  inc_below = small_inc_below;
  inc_largest = small_inc_largest;
  add_fits = small_add_fits;
  add_overflows = small_add_overflows;
}

abbrev pub descriptors : DescriptorApi
descriptors = record {
  to_descriptor = λ d. wpkh_of 0;
  desc_type = λ d. wpkh;
  keys = λ d. 1 ∷ [];
  derive_pubkey = λ k i. 100 + i;
  bip32_derivation = λ k i. (100 + i, i);
  translate_keys = λ d f. f 1;
  script_pubkey = λ d. 1000 + d;
  explicit_script = λ d. 2000 + d;
  address = λ d n. some (3000 + d);
  network = λ c. some c;
  sh_wpkh_new = λ d. some (wpkh_of d);
  sh_wsh_new = λ d. none;
  sh_sortedmulti_new = λ d. none;
  address_script = λ a. a + 1;
  compact_script = λ d. d;
}

-- a server and a node that know nothing
abbrev pub services : Services
services = record {
  storage_codec = storage_codec;
  cache_codec = cache_codec;
  hd = indexes;
  api = descriptors;
  now = 1;
  connect = ok tt;
  transaction_get = λ t. none;
  list_unspent = λ s. some [];
  get_merkle = λ t h. some 0;
  header_heights = [];
  address_from_script = λ s n. none;
  txid_of = λ t. 1;
  next_u64 = λ r. (r, r + 1);
  with_vout = λ v r. (SealEndpoint.witness_vout v r, r + 1);
  pubkey_field = 1;
  tweak_field = 2;
  parse_tweak = λ b. some b;
  parse_pubkey = λ b. some b;
  outpoint_assets = λ o. ok [];
  rgb_transfer = λ a os e c p. ok (record { consignment = 0; disclosure = 0; witness = p });
  enclose = λ d. ok tt;
}

abbrev pub coin : ℕ → ℕ → Utxo
coin txid value = record {
  value = value;
  height = 1;
  offset = 0;
  txid = txid;
  vout = 0;
  derivation_index = 0;
  tweak = none;
  address = none;
}

abbrev pub contract : ContractId → Contract
contract id = record {
  id = id;
  name = 0;
  chain = 0;
  policy = Policy.current (single_sig 0 0);
  created_at = 0;
  contents = no_data;
}

abbrev pub yaml_file : FileConfig
yaml_file = record { location = []; format = yaml }

abbrev pub storage_of : BTreeMap ContractId Contract → Storage.Storage
storage_of m = record {
  fd = record { bytes = []; cursor = 0; outcomes = [] };
  config = yaml_file;
  content = record { contracts = m; identities = []; assets = [] };
}

abbrev pub cache_of : BTreeMap ContractId Cache.ContractCache → Cache.Cache
cache_of m = record {
  fd = record { bytes = []; cursor = 0; outcomes = [] };
  config = yaml_file;
  content = record Cache.empty_cache { descriptors = m };
}

abbrev pub runtime_of :
    BTreeMap ContractId Contract → BTreeMap ContractId Cache.ContractCache → Runtime
runtime_of contracts caches = record {
  storage = storage_of contracts;
  cache = cache_of caches;
  rng = 0;
  known_height = 0;
}
