-- ===== src/Runtime/Config.antt =====
-- `src/runtime/config.rs`. A path is the list of its bytes.
pub mod Paths
use citadel_runtime.Common.{ℕ, Bool, Option, none, some, List, [], ◌∷◌}
use citadel_runtime.Common.Result.{Result, ok, panic}
use citadel_runtime.Common.Replace.{replace}
use citadel_runtime.Persist.{FileFormat, yaml, FileConfig}

-- `internet2::ZmqSocketAddr`, the cases that the program matches on or makes
pub data ZmqSocketAddr : Type 0 where
  ipc inproc : List ℕ → ZmqSocketAddr
  other : ℕ → ZmqSocketAddr

pub record Config : Type 0 where
  pub chain : ℕ
  pub rpc_endpoint : ZmqSocketAddr
  pub rgb20_endpoint : ZmqSocketAddr
  pub rgb_embedded : Bool
  pub data_dir : List ℕ
  pub verbose : ℕ
  pub electrum_server : ℕ

abbrev pub storage_format : FileFormat
storage_format = yaml

abbrev pub cache_format : FileFormat
cache_format = yaml

-- `Config::storage_conf`
unfoldable pub storage_conf : Config → FileConfig
storage_conf c = record { location = c.data_dir; format = storage_format }

-- `Config::cache_conf`
unfoldable pub cache_conf : Config → FileConfig
cache_conf c = record { location = c.data_dir; format = cache_format }

-- "data_dir}", "network}" and "id}", which follow a '{', and "default"
abbrev pub data_dir_mark : List ℕ
data_dir_mark = 100 ∷ 97 ∷ 116 ∷ 97 ∷ 95 ∷ 100 ∷ 105 ∷ 114 ∷ 125 ∷ []

abbrev pub network_mark : List ℕ
network_mark = 110 ∷ 101 ∷ 116 ∷ 119 ∷ 111 ∷ 114 ∷ 107 ∷ 125 ∷ []

abbrev pub id_mark : List ℕ
id_mark = 105 ∷ 100 ∷ 125 ∷ []

abbrev pub default_id : List ℕ
default_id = 100 ∷ 101 ∷ 102 ∷ 97 ∷ 117 ∷ 108 ∷ 116 ∷ []

-- the byte '{'
abbrev pub open_brace : ℕ
open_brace = 123

-- `shellexpand::tilde`, and `to_string` of a chain
module _ (tilde : List ℕ → List ℕ) (chain_name : ℕ → List ℕ) where
  -- `Config::process_dir`
  unfoldable pub process_dir : Config → List ℕ → List ℕ
  process_dir c path = tilde (
      replace (open_brace ∷ id_mark) default_id (
        replace (open_brace ∷ network_mark) (chain_name c.chain)
          (replace (open_brace ∷ data_dir_mark) c.data_dir path)))

  -- one round of the loop over the endpoints
  process_endpoint : Config → ZmqSocketAddr → ZmqSocketAddr
  process_endpoint me (ipc path) = ipc (process_dir me path)
  process_endpoint me (inproc a) = inproc a
  process_endpoint me (other a) = other a

  -- `Config::process`, where `create_dir_all` says whether the directory can be made; the
  -- endpoints are read with `me`, the configuration before its directory was replaced
  unfoldable pub process : {E : Type 0} → (List ℕ → Option (Unit {0})) → Config → Result E Config
  unfolding process_endpoint
  process create_dir_all c =
      let me : Config = record c { data_dir = tilde c.data_dir } in
      let data_dir = process_dir me me.data_dir in
      elim (create_dir_all data_dir) [
        | none ↦ panic
        | some u ↦ ok (record c {
          data_dir = data_dir;
          rpc_endpoint = process_endpoint me c.rpc_endpoint;
          rgb20_endpoint = process_endpoint me c.rgb20_endpoint;
        })
      ]
