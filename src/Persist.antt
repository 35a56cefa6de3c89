-- ===== src/Persist.antt =====
-- The part that the two file drivers share: `src/cache/file/internal.rs` and the first half of
-- `src/storage/file.rs`. An open file has its bytes and a cursor, and the outcomes of the system
-- calls to come; with none left every call succeeds.
pub mod Synced
pub mod Reload
pub mod Filename
use citadel_runtime.Common.{
  ℕ, zero, suc, ◌+◌, Bool, true, false, Option, none, some, List, [], ◌∷◌, ◌++◌, length, drop, take,
}
use citadel_runtime.Common.Result.{
  Result, ok, err, panic, Exec, ◌>>=◌, ◌>>◌, pure, lift, gets, modify,
}

-- `microservices::FileFormat`; `unsupported` stands for the formats that the drivers do not know
pub data FileFormat : Type 0 where
  strict_encode yaml toml json unsupported : FileFormat

-- `FileConfig`
pub record FileConfig : Type 0 where
  pub location : List ℕ
  pub format : FileFormat

-- The outcome of a system call. `fails n k` is the error `k` after `n` bytes of a write.
pub data Outcome : Type 0 where
  succeeds : Outcome
  fails : ℕ → ℕ → Outcome

pub record File : Type 0 where
  pub bytes : List ℕ
  pub cursor : ℕ
  pub outcomes : List Outcome

-- A serializer writes bytes to the file as it goes, and may stop with an error. A deserializer
-- reads what follows the cursor.
pub record Serializer (T E : Type 0) : Type 0 where
  pub encode : T → List ℕ × Option E
  pub decode : List ℕ → Result E T
  -- what becomes of an error of the file below it
  pub failed : ℕ → E

pub record Codec (T E : Type 0) : Type 0 where
  pub io : ℕ → E
  pub strict_serializer : Serializer T E
  pub yaml_serializer : Serializer T E
  pub toml_serializer : Serializer T E
  pub json_serializer : Serializer T E

-- `FileDriver`; the field `cache` or `data` of the source is `content`
pub record FileDriver (T : Type 0) : Type 0 where
  pub fd : File
  pub config : FileConfig
  pub content : T

-- where `cursor` lies past the end, the file is filled with zeros
unfoldable pub splice : ℕ → List ℕ → List ℕ → List ℕ
splice zero new old = new ++ drop (length new) old
splice (suc n) new [] = 0 ∷ splice n new []
splice (suc n) new (b ∷ old) = b ∷ splice n new old

module _ {T E : Type 0} (codec : Codec T E) where
  abbrev set_file : FileDriver T → List ℕ → ℕ → List Outcome → FileDriver T
  set_file d bytes cursor rest = record d {
    fd = record { bytes = bytes; cursor = cursor; outcomes = rest };
  }

  -- a system call that leaves the file with the given bytes and cursor if it succeeds
  file_call : List ℕ → ℕ → List Outcome → Exec (FileDriver T) E (Unit {0})
  file_call bytes cursor [] d = (ok tt, set_file d bytes cursor [])
  file_call bytes cursor (succeeds ∷ rest) d = (ok tt, set_file d bytes cursor rest)
  file_call bytes cursor (fails n k ∷ rest) d =
      (err (codec.io k), set_file d d.fd.bytes d.fd.cursor rest)

  -- `fd.seek(SeekFrom::Start(0))`
  seek_start : Exec (FileDriver T) E (Unit {0})
  unfolding file_call
  seek_start d = file_call d.fd.bytes 0 d.fd.outcomes d

  -- `fd.set_len(0)`
  truncate : Exec (FileDriver T) E (Unit {0})
  unfolding file_call
  truncate d = file_call [] d.fd.cursor d.fd.outcomes d

  written : List ℕ → List Outcome → FileDriver T → FileDriver T
  unfolding splice
  written new rest d =
      set_file d (splice d.fd.cursor new d.fd.bytes) (d.fd.cursor + length new) rest

  -- `failed` says which error a failed write turns into
  write_with : (ℕ → E) → List Outcome → List ℕ → Exec (FileDriver T) E (Unit {0})
  unfolding written
  write_with failed [] new d = (ok tt, written new [] d)
  write_with failed (succeeds ∷ rest) new d = (ok tt, written new rest d)
  write_with failed (fails n k ∷ rest) new d = (err (failed k), written (take n new) rest d)

  -- `fd.write_all(bytes)`
  write_all : (ℕ → E) → List ℕ → Exec (FileDriver T) E (Unit {0})
  unfolding write_with
  write_all failed new d = write_with failed d.fd.outcomes new d

  raised : Option E → Exec (FileDriver T) E (Unit {0})
  raised none = pure tt
  raised (some e) = lift (err e)

  -- a serializer that writes to the file as it goes
  stream : Serializer T E → Exec (FileDriver T) E (Unit {0})
  unfolding write_all raised
  stream s d = (do write_all s.failed (s.encode d.content).0; raised (s.encode d.content).1) d

  -- a serializer to memory, whose bytes are then written
  buffered : Serializer T E → Exec (FileDriver T) E (Unit {0})
  unfolding write_all raised
  buffered s d = (do raised (s.encode d.content).1; write_all codec.io (s.encode d.content).0) d

  serialize : FileFormat → Exec (FileDriver T) E (Unit {0})
  unfolding stream buffered
  serialize strict_encode = stream codec.strict_serializer
  serialize yaml = stream codec.yaml_serializer
  serialize toml = buffered codec.toml_serializer
  serialize json = stream codec.json_serializer
  serialize unsupported = lift panic

  -- `FileDriver::store`
  unfoldable pub store : Exec (FileDriver T) E (Unit {0})
  unfolding seek_start truncate serialize
  store d = (do seek_start; truncate; serialize d.config.format) d

  -- reading the file to the end, and the deserializer; `failed` says which error a failed read
  -- turns into
  read_with : (ℕ → E) → Serializer T E → List Outcome → Exec (FileDriver T) E T
  read_with failed s [] d = (s.decode (drop d.fd.cursor d.fd.bytes), d)
  read_with failed s (succeeds ∷ rest) d =
      (s.decode (drop d.fd.cursor d.fd.bytes), set_file d d.fd.bytes d.fd.cursor rest)
  read_with failed s (fails n k ∷ rest) d = (err (failed k), set_file d d.fd.bytes d.fd.cursor rest)

  read_from : (ℕ → E) → Serializer T E → Exec (FileDriver T) E T
  unfolding read_with
  read_from failed s d = read_with failed s d.fd.outcomes d

  deserialize : FileFormat → Exec (FileDriver T) E T
  unfolding read_from
  deserialize strict_encode = read_from codec.strict_serializer.failed codec.strict_serializer
  deserialize yaml = read_from codec.yaml_serializer.failed codec.yaml_serializer
  deserialize toml = read_from codec.io codec.toml_serializer
  deserialize json = read_from codec.json_serializer.failed codec.json_serializer
  deserialize unsupported = lift panic

  -- `FileDriver::load`
  unfoldable pub load : Exec (FileDriver T) E (Unit {0})
  unfolding seek_start deserialize
  load d =
      (do
        seek_start
        content ← deserialize d.config.format
        modify (λ d'. record d' { content = content }))
        d

  opened : Result E (Unit {0}) × FileDriver T → Result E (FileDriver T)
  opened (ok u, d) = ok d
  opened (err e, d) = err e
  opened (panic, d) = panic

  -- `create_dir_all` and `open`: system calls that leave the bytes alone
  prepare : Exec (FileDriver T) E (Unit {0})
  unfolding file_call
  prepare d = file_call d.fd.bytes d.fd.cursor d.fd.outcomes d

  -- `FileDriver::with`: the bytes on disk, if the file exists, and the value of an empty driver
  unfoldable pub with : FileConfig → Option (List ℕ) → List Outcome → T → Result E (FileDriver T)
  unfolding store load opened prepare
  with config none outcomes empty = opened (
      (do prepare; prepare; store)
        (record {
          fd = record { bytes = []; cursor = 0; outcomes = outcomes };
          config = config;
          content = empty;
        }))
  with config (some bytes) outcomes empty = opened (
      (do prepare; prepare; load)
        (record {
          fd = record { bytes = bytes; cursor = 0; outcomes = outcomes };
          config = config;
          content = empty;
        }))
