-- ===== src/Tests/Paths.antt =====
-- The configuration, run on a directory in the home of the user.
use citadel_runtime.Common.{
  ℕ, ◌≡◌, refl, false, Option, some, List, [], ◌∷◌, ◌++◌, arith, ◌==◌, if◌then◌else◌,
}
use citadel_runtime.Common.Result.{ok}
use citadel_runtime.Common.Replace.{starts_with, contains_text}
use citadel_runtime.Runtime.Error.{Error}
use citadel_runtime.Runtime.Config.{Config, ipc, open_brace, data_dir_mark, network_mark}
use citadel_runtime.Runtime.Config.Paths.{IsBraceless}
use citadel_runtime.Server.Service.{fungible, rgb_config}
use citadel_runtime.Embedded.{Embedded, run_embedded}
use citadel_runtime.Embedded.Endpoints.{run_embedded_meets}

-- `~` is "/h", and the chain is "b"
home : List ℕ → List ℕ
home [] = []
home (c ∷ s) = if c == 126 then 47 ∷ 104 ∷ s else c ∷ s

home_plain : (s : List ℕ) → starts_with (126 ∷ []) s ≡ false → home s ≡ s
unfolding home starts_with
home_plain [] h = refl
home_plain (c ∷ s) h = ground arith

abbrev chain_name : ℕ → List ℕ
chain_name c = 98 ∷ []

abbrev makes : List ℕ → Option (Unit {0})
makes dir = some tt

-- "/rpc"
abbrev rpc : List ℕ
rpc = 47 ∷ 114 ∷ 112 ∷ 99 ∷ []

-- "/r"
abbrev rgb20 : List ℕ
rgb20 = 47 ∷ 114 ∷ []

-- the directory "~/{network}", and the sockets "{data_dir}/rpc" and "{data_dir}/r"
abbrev settings : Config
settings = record {
  chain = 0;
  rpc_endpoint = ipc ((open_brace ∷ data_dir_mark) ++ rpc);
  rgb20_endpoint = ipc ((open_brace ∷ data_dir_mark) ++ rgb20);
  rgb_embedded = false;
  data_dir = 126 ∷ 47 ∷ open_brace ∷ network_mark;
  verbose = 0;
  electrum_server = 0;
}

no_braces : IsBraceless rpc
no_braces = ((refl, (refl, (refl, (refl, tt)))), (refl, (refl, (refl, (refl, tt)))))

no_braces20 : IsBraceless rgb20
no_braces20 = ((refl, (refl, tt)), (refl, (refl, tt)))

run_embedded_meets_example :
    (e : Embedded) × (run_embedded {E = Error} home chain_name makes
        (λ x. some tt)
        (λ x. some tt)
        (λ x. ok tt)
        settings
      ≡ ok e)
    × (e.client.rpc_endpoint ≡ ipc (e.server.data_dir ++ rpc))
    × (e.server.rpc_endpoint ≡ ipc (e.server.data_dir ++ rpc))
    × (e.fungibled.rpc_endpoint ≡ ipc (e.server.data_dir ++ rgb20))
    × ((rgb_config e.server).contract_endpoints ≡ (fungible, e.fungibled.rpc_endpoint) ∷ [])
    × ((rgb_config e.server).stash_rpc_endpoint ≡ e.stashd.rpc_endpoint)
    × (e.fungibled.stash_rpc ≡ e.stashd.rpc_endpoint)
unfolding home contains_text starts_with
run_embedded_meets_example =
    run_embedded_meets {E = Error} home chain_name home_plain makes (λ x. some tt) (λ x. some tt)
      (λ x. ok tt) settings (104 ∷ 47 ∷ open_brace ∷ network_mark) rpc rgb20 refl refl no_braces
      no_braces20 refl refl refl (λ x. refl) (λ x. refl) (λ x. refl)
