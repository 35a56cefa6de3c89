-- ===== src/Runtime/State.antt =====
-- `Runtime` of `src/runtime/service.rs`, and the servers and crates that its methods call.
use citadel_runtime.Common.{ℕ, Option, List}
use citadel_runtime.Common.Map.{BTreeMap}
use citadel_runtime.Common.Result.{Result, Exec, map_err}
use citadel_runtime.Foreign.Bitcoin.{
  Txid, AssetId, Script, OutPoint, SealDefinition, Transaction, Psbt,
}
use citadel_runtime.Foreign.Wallet.{ChildIndex, DescriptorApi}
use citadel_runtime.Model.Contract.{Citadel}
use citadel_runtime.Persist.{Codec}
use citadel_runtime.Cache
use citadel_runtime.Storage
use citadel_runtime.Runtime.Error.{Error, storage_driver, cache_driver}

-- `Runtime`, without the sockets and the unmarshaller: `rng` is the state of the generator
pub record Runtime : Type 0 where
  pub storage : Storage.Storage
  pub cache : Cache.Cache
  pub rng : ℕ
  pub known_height : ℕ

-- an entry of Electrum's list of unspent outputs
pub record ListUnspent : Type 0 where
  pub height : ℕ
  pub tx_hash : Txid
  pub tx_pos : ℕ
  pub value : ℕ

-- `rgb::SealEndpoint`
pub data SealEndpoint : Type 0 where
  tx_outpoint : ℕ → SealEndpoint
  witness_vout : ℕ → ℕ → SealEndpoint

-- `rgb_node::rpc::reply::Transfer`
pub record Transfer : Type 0 where
  pub consignment : ℕ
  pub disclosure : ℕ
  pub witness : Psbt

-- What the runtime calls and does not implement. The servers answer as they do during one request.
pub record Services : Type 0 where
  pub storage_codec : Codec Citadel Storage.Error
  pub cache_codec : Codec Cache.CacheData Cache.Error
  pub hd : ChildIndex
  pub api : DescriptorApi
  -- the clock
  pub now : ℕ
  -- `ElectrumClient::new`
  pub connect : Result Error (Unit {0})
  pub transaction_get : Txid → Option ℕ
  pub list_unspent : List Script → Option (List (List ListUnspent))
  pub get_merkle : Txid → ℕ → Option ℕ
  pub header_heights : List ℕ
  -- `AddressCompat::from_script`
  pub address_from_script : Script → ℕ → Option ℕ
  -- `Transaction::txid`
  pub txid_of : Transaction → Txid
  -- `rng.next_u64()` and `SealEndpoint::with_vout`: the value and the new state of the generator
  pub next_u64 : ℕ → ℕ × ℕ
  pub with_vout : ℕ → ℕ → SealEndpoint × ℕ
  -- the proprietary keys with `PSBT_OUT_PUBKEY` and `PSBT_OUT_TWEAK`, and their parsers
  pub pubkey_field : ℕ
  pub tweak_field : ℕ
  pub parse_tweak : ℕ → Option ℕ
  pub parse_pubkey : ℕ → Option ℕ
  -- the RGB node
  pub outpoint_assets : OutPoint → Result Error (BTreeMap AssetId (List ℕ))
  pub rgb_transfer :
      AssetId
      → List OutPoint
      → List (SealEndpoint × ℕ)
      → List (SealDefinition × ℕ)
      → Psbt
      → Result Error Transfer
  pub enclose : ℕ → Result Error (Unit {0})

-- a method of the storage or of the cache, called with `?` by a method of the runtime
abbrev pub on_storage : {A : Type 0} → Exec Storage.Storage Storage.Error A → Exec Runtime Error A
on_storage m r = let (a, d) = m r.storage in (map_err storage_driver a, record r { storage = d })

abbrev pub on_cache : {A : Type 0} → Exec Cache.Cache Cache.Error A → Exec Runtime Error A
on_cache m r = let (a, d) = m r.cache in (map_err cache_driver a, record r { cache = d })

abbrev pub from_storage :
    {A : Type 0} → (Storage.Storage → Result Storage.Error A) → Exec Runtime Error A
from_storage f r = (map_err storage_driver (f r.storage), r)

abbrev pub from_cache : {A : Type 0} → (Cache.Cache → Result Cache.Error A) → Exec Runtime Error A
from_cache f r = (map_err cache_driver (f r.cache), r)
