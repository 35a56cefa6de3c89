-- ===== src/Persist/Synced.antt =====
-- What `store` leaves on disk.
use citadel_runtime.Common.{ℕ, ◌≡◌, refl, Option, none, some, List, [], ◌∷◌, append-nil, arith}
use citadel_runtime.Common.Result.{Result, ok}
use citadel_runtime.Persist.{
  FileFormat, strict_encode, yaml, toml, json, unsupported, Outcome, succeeds, fails, Serializer,
  Codec, FileConfig, FileDriver, splice, write_with, written, stream, buffered, serialize, store,
}

abbrev pub complete : {E : Type 0} → List ℕ × Option E → Option (List ℕ)
complete (bytes, none) = some bytes
complete (bytes, some e) = none

splice_empty : (new : List ℕ) → splice 0 new [] ≡ new
unfolding splice
splice_empty [] = refl
splice_empty (b ∷ new) = append-nil (b ∷ new)

-- `store` of a driver whose system calls are given apart, for the case splits
abbrev pub driver_with : {T : Type 0} → FileConfig → T → List ℕ → ℕ → List Outcome → FileDriver T
driver_with config content bytes cursor o = record {
  fd = record { bytes = bytes; cursor = cursor; outcomes = o };
  config = config;
  content = content;
}

module _ {T E : Type 0} where
  -- the whole encoding of a value in a format, if it has one
  unfoldable pub encoded : Codec T E → FileFormat → T → Option (List ℕ)
  encoded codec strict_encode x = complete (codec.strict_serializer.encode x)
  encoded codec yaml x = complete (codec.yaml_serializer.encode x)
  encoded codec toml x = complete (codec.toml_serializer.encode x)
  encoded codec json x = complete (codec.json_serializer.encode x)
  encoded codec unsupported x = none

  -- the file holds the encoding of what is in memory, and nothing else
  abbrev pub IsSynced : Codec T E → FileDriver T → Type 0
  IsSynced codec d = encoded codec d.config.format d.content ≡ some d.fd.bytes

  -- a write to an empty file at its start
  write_fresh :
      (codec : Codec T E) (failed : ℕ → E) (outcomes : List Outcome) (new : List ℕ)
      (d : FileDriver T)
      → d.fd.bytes ≡ []
      → d.fd.cursor ≡ 0
      → (write_with codec failed outcomes new d).0 ≡ ok tt
      → ((write_with codec failed outcomes new d).1.fd.bytes ≡ new)
        × ((write_with codec failed outcomes new d).1.content ≡ d.content)
        × ((write_with codec failed outcomes new d).1.config ≡ d.config)
  unfolding write_with written
  write_fresh codec failed [] new d b c h = (rw (b, c) (splice_empty new), refl, refl)
  write_fresh codec failed (succeeds ∷ rest) new d b c h =
      (rw (b, c) (splice_empty new), refl, refl)
  write_fresh codec failed (fails n k ∷ rest) new d b c h = cc

  stream_fresh :
      (codec : Codec T E) (s : Serializer T E) (d : FileDriver T)
      → d.fd.bytes ≡ []
      → d.fd.cursor ≡ 0
      → (stream codec s d).0 ≡ ok tt
      → (complete (s.encode d.content) ≡ some (stream codec s d).1.fd.bytes)
        × ((stream codec s d).1.content ≡ d.content)
        × ((stream codec s d).1.config ≡ d.config)
  unfolding stream
  stream_fresh codec s d b c h =
      ground (arith, write_fresh codec s.failed d.fd.outcomes (s.encode d.content).0 d b c)

  buffered_fresh :
      (codec : Codec T E) (s : Serializer T E) (d : FileDriver T)
      → d.fd.bytes ≡ []
      → d.fd.cursor ≡ 0
      → (buffered codec s d).0 ≡ ok tt
      → (complete (s.encode d.content) ≡ some (buffered codec s d).1.fd.bytes)
        × ((buffered codec s d).1.content ≡ d.content)
        × ((buffered codec s d).1.config ≡ d.config)
  unfolding buffered
  buffered_fresh codec s d b c h =
      ground (arith, write_fresh codec codec.io d.fd.outcomes (s.encode d.content).0 d b c)

  serialize_fresh :
      (codec : Codec T E) (format : FileFormat) (d : FileDriver T)
      → d.fd.bytes ≡ []
      → d.fd.cursor ≡ 0
      → (serialize codec format d).0 ≡ ok tt
      → (encoded codec format d.content ≡ some (serialize codec format d).1.fd.bytes)
        × ((serialize codec format d).1.content ≡ d.content)
        × ((serialize codec format d).1.config ≡ d.config)
  unfolding serialize encoded
  serialize_fresh codec strict_encode d b c h = stream_fresh codec codec.strict_serializer d b c h
  serialize_fresh codec yaml d b c h = stream_fresh codec codec.yaml_serializer d b c h
  serialize_fresh codec toml d b c h = buffered_fresh codec codec.toml_serializer d b c h
  serialize_fresh codec json d b c h = stream_fresh codec codec.json_serializer d b c h
  serialize_fresh codec unsupported d b c h = cc

  abbrev Stored : Codec T E → FileDriver T → Type 0
  Stored codec d =
      IsSynced codec (store codec d).1
      × ((store codec d).1.content ≡ d.content)
      × ((store codec d).1.config ≡ d.config)

  module _ (codec : Codec T E) (config : FileConfig) (content : T) where
    store_fresh :
        (d : FileDriver T)
        → d.fd.bytes ≡ []
        → d.fd.cursor ≡ 0
        → (serialize codec d.config.format d).0 ≡ ok tt
        → IsSynced codec (serialize codec d.config.format d).1
          × ((serialize codec d.config.format d).1.content ≡ d.content)
          × ((serialize codec d.config.format d).1.config ≡ d.config)
    store_fresh d b c h =
        let (e, same_content, same_config) = serialize_fresh codec d.config.format d b c h in
        (rw (same_content, same_config) e, same_content, same_config)

    store_cases :
        (bytes : List ℕ) (cursor : ℕ) (o : List Outcome)
        → (store codec (driver_with config content bytes cursor o)).0 ≡ ok tt
        → Stored codec (driver_with config content bytes cursor o)
    unfolding store
    store_cases bytes cursor [] h = store_fresh (driver_with config content [] 0 []) refl refl h
    store_cases bytes cursor (succeeds ∷ []) h =
        store_fresh (driver_with config content [] 0 []) refl refl h
    store_cases bytes cursor (succeeds ∷ succeeds ∷ rest) h =
        store_fresh (driver_with config content [] 0 rest) refl refl h
    store_cases bytes cursor (succeeds ∷ fails n k ∷ rest) h = cc
    store_cases bytes cursor (fails n k ∷ rest) h = cc

  -- Whatever the file held and wherever its cursor stood: when `store` returns `Ok`, the file
  -- holds exactly the encoding of what is in memory, and the memory is as it was.
  pub store-IsSynced :
      (codec : Codec T E) (d : FileDriver T)
      → (store codec d).0 ≡ ok tt
      → IsSynced codec (store codec d).1
        × ((store codec d).1.content ≡ d.content)
        × ((store codec d).1.config ≡ d.config)
  store-IsSynced codec d h =
      store_cases codec d.config d.content d.fd.bytes d.fd.cursor d.fd.outcomes h

  abbrev Kept : FileDriver T → Result E (Unit {0}) × FileDriver T → Type 0
  Kept d r = (r.1.content ≡ d.content) × (r.1.config ≡ d.config)

  write-Kept :
      (codec : Codec T E) (failed : ℕ → E) (o : List Outcome) (new : List ℕ) (d : FileDriver T)
      → Kept d (write_with codec failed o new d)
  unfolding write_with written
  write-Kept codec failed [] new d = (refl, refl)
  write-Kept codec failed (succeeds ∷ rest) new d = (refl, refl)
  write-Kept codec failed (fails n k ∷ rest) new d = (refl, refl)

  serialize-Kept :
      (codec : Codec T E) (format : FileFormat) (d : FileDriver T)
      → Kept d (serialize codec format d)
  unfolding serialize
  serialize-Kept codec strict_encode d = ground (
    arith,
    write-Kept codec codec.strict_serializer.failed d.fd.outcomes
        (codec.strict_serializer.encode d.content).0 d,
  )
  serialize-Kept codec yaml d = ground (
    arith,
    write-Kept codec codec.yaml_serializer.failed d.fd.outcomes
        (codec.yaml_serializer.encode d.content).0 d,
  )
  serialize-Kept codec toml d =
      ground (
        arith,
        write-Kept codec codec.io d.fd.outcomes (codec.toml_serializer.encode d.content).0 d,
      )
  serialize-Kept codec json d = ground (
    arith,
    write-Kept codec codec.json_serializer.failed d.fd.outcomes
        (codec.json_serializer.encode d.content).0 d,
  )
  serialize-Kept codec unsupported d = (refl, refl)

  store-Kept_cases :
      (codec : Codec T E) (config : FileConfig) (content : T) (bytes : List ℕ) (cursor : ℕ)
      (o : List Outcome)
      → Kept
          (driver_with config content bytes cursor o)
          (store codec (driver_with config content bytes cursor o))
  unfolding store
  store-Kept_cases codec config content bytes cursor [] =
      serialize-Kept codec config.format (driver_with config content [] 0 [])
  store-Kept_cases codec config content bytes cursor (succeeds ∷ []) =
      serialize-Kept codec config.format (driver_with config content [] 0 [])
  store-Kept_cases codec config content bytes cursor (succeeds ∷ succeeds ∷ rest) =
      serialize-Kept codec config.format (driver_with config content [] 0 rest)
  store-Kept_cases codec config content bytes cursor (succeeds ∷ fails n k ∷ rest) = (refl, refl)
  store-Kept_cases codec config content bytes cursor (fails n k ∷ rest) = (refl, refl)

  -- `store` never changes what is in memory, whether it succeeds or not.
  pub content-store :
      (codec : Codec T E) (d : FileDriver T)
      → ((store codec d).1.content ≡ d.content) × ((store codec d).1.config ≡ d.config)
  content-store codec d =
      store-Kept_cases codec d.config d.content d.fd.bytes d.fd.cursor d.fd.outcomes
