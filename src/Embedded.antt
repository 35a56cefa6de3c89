-- ===== src/Embedded.antt =====
-- `src/embedded/mod.rs`: the server, the two daemons of the RGB node and the client in one process.
pub mod Endpoints
use citadel_runtime.Common.{ℕ, Option, none, some, List, [], ◌∷◌, ◌++◌}
use citadel_runtime.Common.Result.{Result, ok, err, panic, and_then, map_ok}
use citadel_runtime.Persist.{FileFormat, yaml}
use citadel_runtime.Runtime.Config.{Config, ZmqSocketAddr, inproc, process}
use citadel_runtime.Client

-- "stash.rpc"
abbrev pub stash_name : List ℕ
stash_name = 115 ∷ 116 ∷ 97 ∷ 115 ∷ 104 ∷ 46 ∷ 114 ∷ 112 ∷ 99 ∷ []

-- "/stash/", "/" and "/index/"
abbrev pub stash_dir : List ℕ
stash_dir = 47 ∷ 115 ∷ 116 ∷ 97 ∷ 115 ∷ 104 ∷ 47 ∷ []

abbrev pub cache_dir : List ℕ
cache_dir = 47 ∷ []

abbrev pub index_dir : List ℕ
index_dir = 47 ∷ 105 ∷ 110 ∷ 100 ∷ 101 ∷ 120 ∷ 47 ∷ []

-- `rgb_node::stashd::Config`, the fields that are not left at their defaults
pub record StashdConfig : Type 0 where
  pub verbose : ℕ
  pub data_dir : List ℕ
  pub stash : List ℕ
  pub index : List ℕ
  pub rpc_endpoint : ZmqSocketAddr
  pub network : ℕ
  pub electrum_server : ℕ

-- `rgb_node::fungibled::Config`
pub record FungibledConfig : Type 0 where
  pub verbose : ℕ
  pub data_dir : List ℕ
  pub cache : List ℕ
  pub format : FileFormat
  pub rpc_endpoint : ZmqSocketAddr
  pub stash_rpc : ZmqSocketAddr
  pub network : ℕ

pub stashd_config : Config → StashdConfig
stashd_config c = record {
  verbose = c.verbose;
  data_dir = c.data_dir;
  stash = c.data_dir ++ stash_dir;
  index = c.data_dir ++ index_dir;
  rpc_endpoint = inproc stash_name;
  network = c.chain;
  electrum_server = c.electrum_server;
}

pub fungibled_config : Config → FungibledConfig
fungibled_config c = record {
  verbose = c.verbose;
  data_dir = c.data_dir;
  cache = c.data_dir ++ cache_dir;
  format = yaml;
  rpc_endpoint = c.rgb20_endpoint;
  stash_rpc = inproc stash_name;
  network = c.chain;
}

-- The threads that run, each with its configuration, and the client that is returned. What becomes
-- of the thread of the server is not waited for.
pub record Embedded : Type 0 where
  pub stashd : StashdConfig
  pub fungibled : FungibledConfig
  pub server : Config
  pub client : Client.Config

-- `stashd::Runtime::init` and `fungibled::Runtime::init`, whose errors are panics, and the socket
-- of `Client::with`
module _ {E : Type 0} (tilde : List ℕ → List ℕ) (chain_name : ℕ → List ℕ)
    (create_dir_all : List ℕ → Option (Unit {0})) (stashd_init : StashdConfig → Option (Unit {0}))
    (fungibled_init : FungibledConfig → Option (Unit {0}))
    (connect : Client.Config → Result E (Unit {0})) where
  -- from the processed configuration on
  launch : Config → Result E Embedded
  unfolding stashd_config fungibled_config
  launch c = elim (stashd_init (stashd_config c)) [
    | none ↦ panic
    | some u ↦ elim (fungibled_init (fungibled_config c)) [
      | none ↦ panic
      | some v ↦
          let client : Client.Config = record {
            rpc_endpoint = c.rpc_endpoint;
            verbose = c.verbose;
          } in
          map_ok
            (λ w. record {
              stashd = stashd_config c;
              fungibled = fungibled_config c;
              server = c;
              client = client;
            })
            (connect client)
    ]
  ]

  -- `run_embedded`
  unfoldable pub run_embedded : Config → Result E Embedded
  unfolding launch
  run_embedded config = and_then (process tilde chain_name create_dir_all config) launch
