-- ===== src/Server/Disk.antt =====
-- The start of the server on a disk, where it looks for its files by their paths.
use citadel_runtime.Common.{ℕ, ◌≡◌, refl, ◌∙◌, some, List, arith}
use citadel_runtime.Common.Key.{Key, same_iff, same_self}
use citadel_runtime.Common.Map.{BTreeMap, get, insert, get-insert}
use citadel_runtime.Common.Result.{ok}
use citadel_runtime.Persist.{FileFormat}
use citadel_runtime.Persist.Filename.{storage_file, cache_file}
use citadel_runtime.Persist.Filename.Distinct.{storage_file-ne-cache_file}
use citadel_runtime.Persist.Reload.{RoundTrips}
use citadel_runtime.Runtime.State.{Runtime}
use citadel_runtime.Runtime.Config.{Config, storage_conf, cache_conf}
use citadel_runtime.Rpc.Reply.{Reply}
use citadel_runtime.Server.{rpc_process}
use citadel_runtime.Server.Service.{Start, init}
use citadel_runtime.Server.Restart.{StartsUp, Saved, init-rpc_process}
use citadel_runtime.Server.Outside.{Backend}

instance abbrev pub path_key : Key (List ℕ)
path_key = record { words = λ p. p; words_injective = λ a b h. h }

-- the files of a disk, by their paths
abbrev pub Disk : Type 0
Disk = BTreeMap (List ℕ) (List ℕ)

module _ (extension : FileFormat → List ℕ) (c : Config) where
  abbrev pub storage_path : List ℕ
  storage_path = storage_file extension (storage_conf c)

  abbrev pub cache_path : List ℕ
  cache_path = cache_file extension (cache_conf c)

  -- the disk with the files that a server has open
  abbrev pub with_files : Runtime → Disk → Disk
  with_files r disk =
      insert cache_path r.cache.fd.bytes (insert storage_path r.storage.fd.bytes disk)

  get-cache :
      (r : Runtime) (disk : Disk) → get cache_path (with_files r disk) ≡ some r.cache.fd.bytes
  get-cache r disk =
      get-insert cache_path cache_path r.cache.fd.bytes
        (insert storage_path r.storage.fd.bytes disk)
      ∙ rw (same_self cache_path)

  get-storage :
      (r : Runtime) (disk : Disk) → get storage_path (with_files r disk) ≡ some r.storage.fd.bytes
  unfolding storage_conf cache_conf
  get-storage r disk =
      let differ = storage_file-ne-cache_file extension (storage_conf c) (cache_conf c) refl in
      ground (
        arith,
        get-insert cache_path storage_path r.cache.fd.bytes
            (insert storage_path r.storage.fd.bytes disk),
        get-insert storage_path storage_path r.storage.fd.bytes disk,
        same_self storage_path,
        same_iff cache_path storage_path,
        differ,
      )

module _ {M : Type 0} (b : Backend M) (laws : RoundTrips b.services.storage_codec)
    (cache_laws : RoundTrips b.services.cache_codec) (extension : FileFormat → List ℕ) where
  -- Once a message got a reply that is no error, a server that is started with the same
  -- configuration, and finds its two files by their paths on the disk to which the first server
  -- wrote, has the contracts and the cache that the first one had in memory: if each file of the
  -- first server held what was in memory before the message, the deserializers read back what the
  -- serializers write, and the rest of the start succeeds.
  pub restart_on_disk :
      (c : Config) (disk : Disk) (fuel : ℕ) (raw : M) (r r' : Runtime) (reply : Reply) (s : Start)
      → Saved b.services.storage_codec (storage_conf c) r.storage
      → Saved b.services.cache_codec (cache_conf c) r.cache
      → rpc_process b fuel raw r ≡ some (ok reply, r')
      → s.storage_file ≡ get (storage_path extension c) (with_files extension c r' disk)
      → s.cache_file ≡ get (cache_path extension c) (with_files extension c r' disk)
      → StartsUp b c s
      → (again : Runtime) × (init b c s ≡ ok again)
        × (again.storage.content ≡ r'.storage.content)
        × (again.cache.content ≡ r'.cache.content)
  restart_on_disk c disk fuel raw r r' reply s saved cached h file cache up =
      init-rpc_process b laws cache_laws c fuel raw r r' reply s saved cached h
        (file ∙ get-storage extension c r' disk) (cache ∙ get-cache extension c r' disk) up
