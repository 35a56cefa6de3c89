-- ===== src/Server/Restart.antt =====
-- A server that is started again on the files of one that ran before.
use citadel_runtime.Common.{ℕ, ◌%◌, u32_mod, ◌≡◌, refl, ◌∙◌, Option, some, List, []}
use citadel_runtime.Common.Result.{Result, ok, err, panic}
use citadel_runtime.Model.Contract.{empty_citadel}
use citadel_runtime.Persist.{Codec, FileConfig, FileDriver, Outcome, with}
use citadel_runtime.Persist.Synced.{IsSynced}
use citadel_runtime.Persist.Reload.{RoundTrips, with_synced}
use citadel_runtime.Cache
use citadel_runtime.Cache.Durable.{run_change-Saved}
use citadel_runtime.Storage.Durable.{call-IsSynced}
use citadel_runtime.Runtime.State.{Runtime}
use citadel_runtime.Runtime.Config.{Config, storage_conf, cache_conf}
use citadel_runtime.Transfer.Prepare.Closed.{After}
use citadel_runtime.Rpc.Reply.{Reply}
use citadel_runtime.Server.{rpc_process}
use citadel_runtime.Server.Steps.{rpc_process-After}
use citadel_runtime.Server.CacheSteps.{rpc_process-Cache}
use citadel_runtime.Server.Service.{rgb_config, Start, init}
use citadel_runtime.Server.Outside.{Backend}

-- All that `init` needs besides the two files is there.
pub record StartsUp {M : Type 0} (b : Backend M) (c : Config) (s : Start) : Type 0 where
  pub height : ℕ
  pub storage_calm : s.storage_outcomes ≡ []
  pub cache_calm : s.cache_outcomes ≡ []
  pub listens : s.socket c.rpc_endpoint ≡ ok tt
  pub connects : b.services.connect ≡ ok tt
  pub subscribes : s.headers ≡ ok height
  pub node_starts : s.node (rgb_config c) ≡ some tt

module _ {T E : Type 0} (codec : Codec T E) (config : FileConfig) where
  -- the file is the one of the configuration, and holds what is in memory
  abbrev pub Saved : FileDriver T → Type 0
  Saved d = IsSynced codec d × (d.config ≡ config)

  -- after a failure nothing is known of the file
  abbrev Unknown : FileDriver T → Type 0
  Unknown d = Unit

  result-After :
      (x : Result E (Unit {0})) (d d' : FileDriver T)
      → d.config ≡ config
      → (x ≡ ok tt → IsSynced codec d' × (d'.config ≡ d.config))
      → After Saved Unknown x d'
  result-After (ok u) d d' c saved = let (synced, same) = saved refl in (synced, same ∙ c)
  result-After (err e) d d' c saved = tt
  result-After panic d d' c saved = tt

  -- the file opens again, with what the memory had
  reopened :
      (laws : RoundTrips codec) (d : FileDriver T) (empty : T) (file : Option (List ℕ))
      (outcomes : List Outcome)
      → Saved d
      → file ≡ some d.fd.bytes
      → outcomes ≡ []
      → (d' : FileDriver T) × (with codec config file outcomes empty ≡ ok d')
        × (d'.content ≡ d.content)
  reopened laws d empty file outcomes (synced, same_config) held calm =
      let (d', opens, same) = with_synced codec laws d empty synced in
      (d', rw held rw calm (rw same_config at opens), same)

module _ {M : Type 0} (b : Backend M) (c : Config) where
  rpc_process-Storage :
      (fuel : ℕ) (raw : M) (r r' : Runtime) (reply : Reply)
      → rpc_process b fuel raw r ≡ some (ok reply, r')
      → Saved b.services.storage_codec (storage_conf c) r.storage
      → Saved b.services.storage_codec (storage_conf c) r'.storage
  rpc_process-Storage fuel raw r r' reply h w =
      rpc_process-After b (Saved b.services.storage_codec (storage_conf c))
        (Unknown b.services.storage_codec (storage_conf c)) (λ s w. tt)
        (λ call s p w.
          result-After b.services.storage_codec (storage_conf c) _ s _ w.1
            (call-IsSynced b.services.storage_codec b.conceal call s))
        fuel raw r (ok reply) r' h w

  rpc_process-CacheSaved :
      (fuel : ℕ) (raw : M) (r r' : Runtime) (reply : Reply)
      → rpc_process b fuel raw r ≡ some (ok reply, r')
      → Saved b.services.cache_codec (cache_conf c) r.cache
      → Saved b.services.cache_codec (cache_conf c) r'.cache
  rpc_process-CacheSaved fuel raw r r' reply h w =
      rpc_process-Cache b (Saved b.services.cache_codec (cache_conf c))
        (Unknown b.services.cache_codec (cache_conf c)) (λ s w. tt)
        (λ change s w.
          result-After b.services.cache_codec (cache_conf c) _ s _ w.1
            (run_change-Saved b.services.cache_codec change s))
        fuel raw r (ok reply) r' h w

module _ {M : Type 0} (b : Backend M) (laws : RoundTrips b.services.storage_codec)
    (cache_laws : RoundTrips b.services.cache_codec) where
  -- Once a message got a reply that is no error, a server that is started with the same
  -- configuration on the two files has the contracts and the cache that the first server had in
  -- memory: if each file of the first server held what was in memory before the message, the
  -- deserializers read back what the serializers write, and the rest of the start succeeds.
  pub init-rpc_process :
      (c : Config) (fuel : ℕ) (raw : M) (r r' : Runtime) (reply : Reply) (s : Start)
      → Saved b.services.storage_codec (storage_conf c) r.storage
      → Saved b.services.cache_codec (cache_conf c) r.cache
      → rpc_process b fuel raw r ≡ some (ok reply, r')
      → s.storage_file ≡ some r'.storage.fd.bytes
      → s.cache_file ≡ some r'.cache.fd.bytes
      → StartsUp b c s
      → (again : Runtime) × (init b c s ≡ ok again)
        × (again.storage.content ≡ r'.storage.content)
        × (again.cache.content ≡ r'.cache.content)
  unfolding init
  init-rpc_process c fuel raw r r' reply s w cw h file cache_file up =
      let (storage, opens, same) =
        reopened b.services.storage_codec (storage_conf c) laws r'.storage empty_citadel
          s.storage_file s.storage_outcomes (rpc_process-Storage b c fuel raw r r' reply h w) file
          up.storage_calm in
      let (cache, cache_opens, same_cache) =
        reopened b.services.cache_codec (cache_conf c) cache_laws r'.cache Cache.empty_cache
          s.cache_file s.cache_outcomes (rpc_process-CacheSaved b c fuel raw r r' reply h cw)
          cache_file up.cache_calm in
      (
        record {
          storage = storage;
          cache = cache;
          rng = s.rng;
          known_height = up.height % u32_mod;
        },
        rw opens rw cache_opens rw up.listens rw up.connects rw up.subscribes rw up.node_starts
            refl,
        same,
        same_cache,
      )
