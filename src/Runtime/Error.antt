-- ===== src/Runtime/Error.antt =====
-- `src/error.rs`
use Prim.Native.String.{String}
use citadel_runtime.Common.{ℕ}
use citadel_runtime.Cache
use citadel_runtime.Storage

-- `microservices::rpc::Failure`
pub record Failure : Type 0 where
  pub code : ℕ
  pub info : String

-- `crate::Error`
pub data Error : Type 0 where
  io : ℕ → Error
  rpc : ℕ → Error
  networking : ℕ → Error
  transport : ℕ → Error
  not_supported : ℕ → Error
  rgb_node : String → Error
  electrum : Error
  storage_driver : Storage.Error → Error
  cache_driver : Cache.Error → Error
  server_failure : Failure → Error
  cache_inconsistency : Error
  strict_encoding : ℕ → Error
  consensis_encoding : Error
  base64 : ℕ → Error
  bech32 : ℕ → Error
  embedded_node_init_error : Error
  unexpected_api : Error
