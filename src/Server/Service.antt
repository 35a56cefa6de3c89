-- ===== src/Server/Service.antt =====
-- `src/runtime/service.rs`: the loop that receives, answers and sends, and the start of the server.
pub mod Running
use citadel_runtime.Common.{
  ℕ, Bool, Option, none, some, List, [], ◌∷◌, ◌++◌, map_option, u32_mod, ◌%◌,
}
use citadel_runtime.Common.Result.{Result, ok, err, panic, and_then, map_ok, map_err}
use citadel_runtime.Persist.{Outcome, FileConfig, FileDriver, with}
use citadel_runtime.Cache
use citadel_runtime.Storage
use citadel_runtime.Runtime.Error.{Error, storage_driver, cache_driver, embedded_node_init_error}
use citadel_runtime.Runtime.State.{Runtime}
use citadel_runtime.Runtime.Config.{Config, ZmqSocketAddr, inproc, storage_conf, cache_conf}
use citadel_runtime.Rpc.Reply.{Reply}
use citadel_runtime.Server.{rpc_process}
use citadel_runtime.Server.Outside.{Backend}

-- What the socket does in one round: what is received, and what becomes of the sending.
pub record Event (M : Type 0) : Type 0 where
  pub received : Result Error M
  pub sent : Result Error (Unit {0})

-- How a round ends: with a reply that was sent, with an error, or with a panic.
pub data Round (M : Type 0) : Type 0 where
  replied : M → Round M
  stopped : Error → Round M
  crashed : Round M

-- What the service has sent, and how it stands: `none` while it waits for the next message.
pub record Served (M : Type 0) : Type 0 where
  pub sent : List M
  pub ended : Option (Round M)
  pub runtime : Runtime

module _ {M : Type 0} (b : Backend M) where
  -- `session_rpc.send_raw_message`
  send : Result Error (Unit {0}) → Reply → Round M
  send (ok u) reply = replied (b.serialize reply)
  send (err e) reply = stopped e
  send panic reply = crashed

  -- `unwrap_or_else(|err| err)`, and the reply is sent
  unfoldable pub respond : Result Error (Unit {0}) → Result Reply Reply → Round M
  unfolding send
  respond sent (ok reply) = send sent reply
  respond sent (err reply) = send sent reply
  respond sent panic = crashed

  -- `Runtime::run`, one round: `none` means that the fuel of `chain_sync` ran out
  unfoldable pub run : ℕ → Event M → Runtime → Option (Round M × Runtime)
  unfolding respond
  run fuel e r = elim e.received [
    | err x ↦ some (stopped x, r)
    | panic ↦ some (crashed, r)
    | ok raw ↦ map_option (λ a. (respond e.sent a.0, a.1)) (rpc_process b fuel raw r)
  ]

  -- The `loop` of `try_run_loop`, over the rounds to come: it ends at the first error.
  unfoldable pub try_run_loop : ℕ → List (Event M) → List M → Runtime → Option (Served M)
  try_run_loop fuel [] sent r = some (record { sent = sent; ended = none; runtime = r })
  try_run_loop fuel (e ∷ es) sent r = elim (run fuel e r) [
    | none ↦ none
    | some (replied bytes, r') ↦ try_run_loop fuel es (sent ++ bytes ∷ []) r'
    | some (stopped x, r') ↦ some (record { sent = sent; ended = some (stopped x); runtime = r' })
    | some (crashed, r') ↦ some (record { sent = sent; ended = some crashed; runtime = r' })
  ]

-- "stash.rpc", the socket where the server looks for the stash daemon
abbrev pub stash_socket : List ℕ
stash_socket = 115 ∷ 116 ∷ 97 ∷ 115 ∷ 104 ∷ 46 ∷ 114 ∷ 112 ∷ 99 ∷ []

-- `rgb_node::rgbd::ContractName`, the name that the server uses
pub data ContractName : Type 0 where
  fungible : ContractName

-- `rgb_node::i9n::Config`
pub record NodeConfig : Type 0 where
  pub verbose : ℕ
  pub data_dir : List ℕ
  pub electrum_server : ℕ
  pub stash_rpc_endpoint : ZmqSocketAddr
  pub contract_endpoints : List (ContractName × ZmqSocketAddr)
  pub network : ℕ
  pub run_embedded : Bool

unfoldable pub rgb_config : Config → NodeConfig
rgb_config c = record {
  verbose = c.verbose;
  data_dir = c.data_dir;
  electrum_server = c.electrum_server;
  stash_rpc_endpoint = inproc stash_socket;
  contract_endpoints = (fungible, c.rgb20_endpoint) ∷ [];
  network = c.chain;
  run_embedded = c.rgb_embedded;
}

-- What `init` finds: the files on disk, the outcomes of the system calls, the generator, the
-- sockets, the height that the electrum server reports, and what becomes of the RGB node.
pub record Start : Type 0 where
  pub storage_file : Option (List ℕ)
  pub storage_outcomes : List Outcome
  pub cache_file : Option (List ℕ)
  pub cache_outcomes : List Outcome
  pub rng : ℕ
  pub socket : ZmqSocketAddr → Result Error (Unit {0})
  pub headers : Result Error ℕ
  pub node : NodeConfig → Option (Unit {0})

module _ {M : Type 0} (b : Backend M) where
  -- `Runtime::init`
  unfoldable pub init : Config → Start → Result Error Runtime
  unfolding rgb_config
  init c s =
      and_then
        (map_err storage_driver (
          Storage.with b.services.storage_codec (storage_conf c) s.storage_file s.storage_outcomes))
        (λ storage.
          and_then
            (map_err cache_driver (
              with b.services.cache_codec (cache_conf c) s.cache_file s.cache_outcomes
                Cache.empty_cache))
            (λ cache. and_then (s.socket c.rpc_endpoint) (λ u. and_then b.services.connect (λ v.
              and_then s.headers (λ height. elim (s.node (rgb_config c)) [
                | none ↦ err embedded_node_init_error
                | some w ↦ ok (record {
                  storage = storage;
                  cache = cache;
                  rng = s.rng;
                  known_height = height % u32_mod;
                })
              ])))))
