-- ===== src/Tests/Codecs.antt =====
-- The codecs of the runs. They write the few values that the runs store, and fail on all others.
use citadel_runtime.Common.{
  ℕ, ◌≡◌, refl, Bool, true, false, Option, none, some, List, [], ◌∷◌, if◌then◌else◌, arith, inl,
  inr, ◌&&◌, ◌⊎◌,
}
use citadel_runtime.Common.Key.{nat_key}
use citadel_runtime.Common.Map.{BTreeMap}
use citadel_runtime.Common.Result.{Result, ok, err}
use citadel_runtime.Foreign.Bitcoin.{Address}
use citadel_runtime.Model.Contract.{Citadel, ContractId, empty_citadel}
use citadel_runtime.Persist.{Serializer, Codec}
use citadel_runtime.Persist.Reload.{RoundTrips}
use citadel_runtime.Cache
use citadel_runtime.Cache.{CacheData}
use citadel_runtime.Storage

unfoldable pub is_nil : {A : Type 0} → List A → Bool
is_nil [] = true
is_nil (a ∷ l) = false

pub nil_of : {A : Type 0} (l : List A) → is_nil l ≡ true → l ≡ []
unfolding is_nil
nil_of [] h = refl
nil_of (a ∷ l) h = cc

-- one byte for an empty storage, and an error for all others
unfoldable pub storage_bytes : Citadel → List ℕ × Option Storage.Error
unfolding is_nil
storage_bytes c =
    if is_nil c.contracts && (is_nil c.identities && is_nil c.assets)
    then (7 ∷ [], none)
    else ([], some Storage.json_encoding)

unfoldable pub storage_decoded : List ℕ → Result Storage.Error Citadel
storage_decoded b = ok empty_citadel

pub storage_trip :
    (x : Citadel) (b : List ℕ) → storage_bytes x ≡ (b, none) → storage_decoded b ≡ ok x
unfolding storage_bytes storage_decoded
storage_trip x b h = ground (arith, nil_of x.contracts, nil_of x.identities, nil_of x.assets)

abbrev pub storage_serializer : Serializer Citadel Storage.Error
storage_serializer = record {
  encode = storage_bytes;
  decode = storage_decoded;
  failed = Storage.yaml_encoding;
}

abbrev pub storage_codec : Codec Citadel Storage.Error
storage_codec = record {
  io = Storage.io;
  strict_serializer = storage_serializer;
  yaml_serializer = storage_serializer;
  toml_serializer = storage_serializer;
  json_serializer = storage_serializer;
}

abbrev pub storage_trips : RoundTrips storage_codec
storage_trips = record {
  strict_trip = storage_trip;
  yaml_trip = storage_trip;
  toml_trip = storage_trip;
  json_trip = storage_trip;
}

used_bytes : BTreeMap Address ℕ → List ℕ
used_bytes [] = []
used_bytes ((a, i) ∷ m) = a ∷ i ∷ used_bytes m

used_decoded : List ℕ → BTreeMap Address ℕ
used_decoded [] = []
used_decoded (a ∷ []) = []
used_decoded (a ∷ i ∷ b) = (a, i) ∷ used_decoded b

used_trip : (m : BTreeMap Address ℕ) → used_decoded (used_bytes m) ≡ m
unfolding used_bytes used_decoded
used_trip [] = refl
used_trip ((a, i) ∷ m) = rw (used_trip m) refl

is_bare : Cache.ContractCache → Bool
unfolding is_nil
is_bare c = is_nil c.utxo && is_nil c.unspent

only_heights : CacheData → Bool
unfolding is_nil
only_heights d = is_nil d.block_info && (is_nil d.mine_info && is_nil d.tx_cache)

-- the heights and the addresses of one contract, and an error where there is more
unfoldable pub cache_bytes : CacheData → List ℕ × Option Cache.Error
unfolding is_bare only_heights used_bytes
cache_bytes d = elim d.descriptors [
  | [] ↦ ([], some Cache.json_encoding)
  | e ∷ rest ↦
      if is_nil rest && (is_bare e.1 && only_heights d)
      then (
        d.known_height ∷ e.0 ∷ e.1.updated_height ∷ used_bytes e.1.used_address_derivations,
        none,
      )
      else ([], some Cache.json_encoding)
]

unfoldable pub cache_decoded : List ℕ → Result Cache.Error CacheData
unfolding used_decoded
cache_decoded (k ∷ id ∷ h ∷ b) = ok (record Cache.empty_cache {
  known_height = k;
  descriptors =
      (id, record Cache.no_cache { updated_height = h; used_address_derivations = used_decoded b })
      ∷ [];
})
cache_decoded _ = err Cache.json_encoding

pub cache_trip : (x : CacheData) (b : List ℕ) → cache_bytes x ≡ (b, none) → cache_decoded b ≡ ok x
unfolding cache_bytes cache_decoded is_bare only_heights
cache_trip x b h = elim (list_cases x.descriptors) [
  | inl e ↦ absurd (ground arith)
  | inr (i, c, rest, e) ↦ ground (
    arith,
    nil_of rest,
    used_trip c.used_address_derivations,
    nil_of c.utxo,
    nil_of c.unspent,
    nil_of x.block_info,
    nil_of x.mine_info,
    nil_of x.tx_cache,
  )
]
  where
    list_cases :
        (m : BTreeMap ContractId Cache.ContractCache)
        → (m ≡ [])
          ⊎ ((i : ℕ) × (c : Cache.ContractCache) × (rest : BTreeMap ContractId Cache.ContractCache)
              × (m ≡ (i, c) ∷ rest))
    list_cases [] = inl refl
    list_cases ((i, c) ∷ rest) = inr (i, c, rest, refl)

abbrev pub cache_serializer : Serializer CacheData Cache.Error
cache_serializer = record {
  encode = cache_bytes;
  decode = cache_decoded;
  failed = Cache.yaml_encoding;
}

abbrev pub cache_codec : Codec CacheData Cache.Error
cache_codec = record {
  io = Cache.io;
  strict_serializer = cache_serializer;
  yaml_serializer = cache_serializer;
  toml_serializer = cache_serializer;
  json_serializer = cache_serializer;
}

abbrev pub cache_trips : RoundTrips cache_codec
cache_trips = record {
  strict_trip = cache_trip;
  yaml_trip = cache_trip;
  toml_trip = cache_trip;
  json_trip = cache_trip;
}
