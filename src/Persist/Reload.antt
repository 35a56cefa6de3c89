-- ===== src/Persist/Reload.antt =====
-- Restarting a driver on the file that another one left, and what a failed `store` leaves.
use citadel_runtime.Common.{ℕ, ◌≡◌, refl, ap, ◌∙◌, Option, none, some, List, [], ◌∷◌, arith}
use citadel_runtime.Common.Result.{ok, err}
use citadel_runtime.Persist.{
  FileFormat, strict_encode, yaml, toml, json, unsupported, Outcome, succeeds, fails, Codec,
  FileConfig, FileDriver, deserialize, store, with, splice,
}
use citadel_runtime.Persist.Synced.{driver_with, encoded, complete, IsSynced, store-IsSynced}

-- Each decoder reads back what its encoder wrote in full: what the program relies on the
-- serialization crates for.
pub record RoundTrips {T E : Type 0} (codec : Codec T E) : Type 0 where
  pub strict_trip :
      (x : T) (b : List ℕ)
      → codec.strict_serializer.encode x ≡ (b, none)
      → codec.strict_serializer.decode b ≡ ok x
  pub yaml_trip :
      (x : T) (b : List ℕ)
      → codec.yaml_serializer.encode x ≡ (b, none)
      → codec.yaml_serializer.decode b ≡ ok x
  pub toml_trip :
      (x : T) (b : List ℕ)
      → codec.toml_serializer.encode x ≡ (b, none)
      → codec.toml_serializer.decode b ≡ ok x
  pub json_trip :
      (x : T) (b : List ℕ)
      → codec.json_serializer.encode x ≡ (b, none)
      → codec.json_serializer.decode b ≡ ok x

module _ {T E : Type 0} (codec : Codec T E) (laws : RoundTrips codec) where
  complete_inv : (r : List ℕ × Option E) (b : List ℕ) → complete r ≡ some b → r ≡ (b, none)
  complete_inv (bytes, none) b h = cc
  complete_inv (bytes, some e) b h = cc

  decode_encoded :
      (format : FileFormat) (x : T) (b : List ℕ) (config : FileConfig) (content : T)
      → encoded codec format x ≡ some b
      → deserialize codec format (driver_with config content b 0 [])
        ≡ (ok x, driver_with config content b 0 [])
  unfolding encoded deserialize
  decode_encoded strict_encode x b config content h =
      ap (λ y. (y, driver_with config content b 0 [])) (laws.strict_trip x b (complete_inv _ b h))
  decode_encoded yaml x b config content h =
      ap (λ y. (y, driver_with config content b 0 [])) (laws.yaml_trip x b (complete_inv _ b h))
  decode_encoded toml x b config content h =
      ap (λ y. (y, driver_with config content b 0 [])) (laws.toml_trip x b (complete_inv _ b h))
  decode_encoded json x b config content h =
      ap (λ y. (y, driver_with config content b 0 [])) (laws.json_trip x b (complete_inv _ b h))
  decode_encoded unsupported x b config content h = cc

  -- A driver that is started on the file of a synced driver has the same content.
  pub with_synced :
      (d : FileDriver T) (empty : T)
      → IsSynced codec d
      → (d' : FileDriver T) × (with codec d.config (some d.fd.bytes) [] empty ≡ ok d')
        × (d'.content ≡ d.content)
  unfolding with
  with_synced d empty h = (
    record {
      fd = record { bytes = d.fd.bytes; cursor = 0; outcomes = [] };
      config = d.config;
      content = d.content;
    },
    ground (arith, decode_encoded d.config.format d.content d.fd.bytes d.config empty h),
    refl,
  )

  -- What `store` has written with `Ok` is what a driver that is started on the file loads,
  -- provided that the deserializers read back what the serializers write.
  pub with-store :
      (d : FileDriver T) (empty : T)
      → (store codec d).0 ≡ ok tt
      → (d' : FileDriver T) × (with codec d.config (some (store codec d).1.fd.bytes) [] empty
          ≡ ok d')
        × (d'.content ≡ d.content)
  with-store d empty h =
      let (synced, same_content, same_config) = store-IsSynced codec d h in
      let (d', opens, e) = with_synced (store codec d).1 empty synced in
      (d', rw same_config at opens, e ∙ same_content)

-- The file is cut to length 0 before the first byte is written. In the YAML format, where the file
-- can be sought and cut but the write fails before a byte of it is done: what the file held is
-- gone, the error that the serializer makes of the failed write is returned, and the value in
-- memory is as it was.
pub store_failure :
    {T E : Type 0} (codec : Codec T E) (d : FileDriver T) (k : ℕ) (rest : List Outcome)
    → d.config.format ≡ yaml
    → d.fd.outcomes ≡ succeeds ∷ succeeds ∷ fails 0 k ∷ rest
    → ((store codec d).0 ≡ err (codec.yaml_serializer.failed k))
      × ((store codec d).1.fd.bytes ≡ [])
      × ((store codec d).1.content ≡ d.content)
unfolding store splice
store_failure codec d k rest f o = ground arith
