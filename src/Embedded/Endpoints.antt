-- ===== src/Embedded/Endpoints.antt =====
-- The sockets of the parts that `src/embedded/mod.rs` starts.
use citadel_runtime.Common.{ℕ, ◌≡◌, refl, false, arith, Option, some, List, [], ◌∷◌, ◌++◌}
use citadel_runtime.Common.Result.{Result, ok}
use citadel_runtime.Common.Replace.{starts_with, contains_text}
use citadel_runtime.Runtime.Config.{Config, ipc, data_dir_mark, open_brace, process_dir}
use citadel_runtime.Runtime.Config.Paths.{IsBraceless, process-endpoints}
use citadel_runtime.Client
use citadel_runtime.Server.Service.{fungible, rgb_config}
use citadel_runtime.Embedded.{
  StashdConfig, FungibledConfig, Embedded, stashd_config, fungibled_config, launch, run_embedded,
}

module _ {E : Type 0} (tilde : List ℕ → List ℕ) (chain_name : ℕ → List ℕ)
    (tilde_plain : (s : List ℕ) → starts_with (126 ∷ []) s ≡ false → tilde s ≡ s)
    (create_dir_all : List ℕ → Option (Unit {0})) (stashd_init : StashdConfig → Option (Unit {0}))
    (fungibled_init : FungibledConfig → Option (Unit {0}))
    (connect : Client.Config → Result E (Unit {0})) where
  abbrev embedded : Config → Embedded
  embedded c = record {
    stashd = stashd_config c;
    fungibled = fungibled_config c;
    server = c;
    client = record { rpc_endpoint = c.rpc_endpoint; verbose = c.verbose };
  }

  launch_ok :
      (c : Config)
      → ((x : StashdConfig) → stashd_init x ≡ some tt)
      → ((x : FungibledConfig) → fungibled_init x ≡ some tt)
      → ((x : Client.Config) → connect x ≡ ok tt)
      → launch tilde chain_name create_dir_all stashd_init fungibled_init connect c
        ≡ ok (embedded c)
  unfolding launch
  launch_ok c stash rgb20 connects = ground (
    arith,
    stash (stashd_config c),
    rgb20 (fungibled_config c),
    connects (record { rpc_endpoint = c.rpc_endpoint; verbose = c.verbose }),
  )

  -- The parts of one process meet. Suppose that the sockets of the server and of the RGB20 daemon
  -- are given as files in `{data_dir}`, whose names have no braces; that the directory, with `~`
  -- expanded, begins with a slash and does not hold `{data_dir}`, and can be made; and that the two
  -- daemons start and the client connects. Then `run_embedded` returns; the client calls the file
  -- in the data directory of the server where the server listens; and the two sockets at which the
  -- server looks for the RGB node are those where the daemons listen, the one of the RGB20 daemon
  -- being its file in the data directory of the server, and that of the stash daemon also the one
  -- that the RGB20 daemon calls.
  pub run_embedded_meets :
      (c : Config) (d s t : List ℕ)
      → tilde c.data_dir ≡ 47 ∷ d
      → contains_text (open_brace ∷ data_dir_mark) (tilde c.data_dir) ≡ false
      → IsBraceless s
      → IsBraceless t
      → c.rpc_endpoint ≡ ipc ((open_brace ∷ data_dir_mark) ++ s)
      → c.rgb20_endpoint ≡ ipc ((open_brace ∷ data_dir_mark) ++ t)
      → create_dir_all (
          process_dir tilde chain_name
            (record c { data_dir = tilde c.data_dir })
            (tilde c.data_dir))
        ≡ some tt
      → ((x : StashdConfig) → stashd_init x ≡ some tt)
      → ((x : FungibledConfig) → fungibled_init x ≡ some tt)
      → ((x : Client.Config) → connect x ≡ ok tt)
      → (e : Embedded) × (run_embedded tilde chain_name create_dir_all stashd_init fungibled_init
            connect c
          ≡ ok e)
        × (e.client.rpc_endpoint ≡ ipc (e.server.data_dir ++ s))
        × (e.server.rpc_endpoint ≡ ipc (e.server.data_dir ++ s))
        × (e.fungibled.rpc_endpoint ≡ ipc (e.server.data_dir ++ t))
        × ((rgb_config e.server).contract_endpoints ≡ (fungible, e.fungibled.rpc_endpoint) ∷ [])
        × ((rgb_config e.server).stash_rpc_endpoint ≡ e.stashd.rpc_endpoint)
        × (e.fungibled.stash_rpc ≡ e.stashd.rpc_endpoint)
  unfolding run_embedded stashd_config fungibled_config rgb_config
  run_embedded_meets c d s t slash once plain plain20 asked asked20 made stash rgb20 connects =
      let (c', processed, at, at20) =
        process-endpoints tilde chain_name tilde_plain {E = E} create_dir_all c d s t slash once
          plain plain20 asked asked20 made in
      (
        embedded c',
        rw processed (launch_ok c' stash rgb20 connects),
        at,
        at,
        at20,
        refl,
        refl,
        refl,
      )
