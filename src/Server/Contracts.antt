-- ===== src/Server/Contracts.antt =====
-- Every request, whatever becomes of it, leaves the storage well-formed.
use citadel_runtime.Common.{ℕ, ◌≡◌, some}
use citadel_runtime.Common.Result.{Result, ok, err, panic}
use citadel_runtime.Storage.{Storage, lookup}
use citadel_runtime.Storage.Invariant.{IsWellFormed, run-IsWellFormed}
use citadel_runtime.Runtime.State.{Runtime}
use citadel_runtime.Transfer.Prepare.Closed.{After, always-After}
use citadel_runtime.Rpc.Reply.{Reply}
use citadel_runtime.Server.{rpc_process}
use citadel_runtime.Server.Steps.{rpc_process-After}
use citadel_runtime.Server.Outside.{Backend}

-- the contracts stand under their own ids, and list no invoice twice
abbrev pub HasContracts : Storage → Type 0
HasContracts s = IsWellFormed (λ j. lookup j s)

anyhow :
    {E A : Type 0} (x : Result E A) (s : Storage)
    → After HasContracts HasContracts x s
    → HasContracts s
anyhow (ok a) s w = w
anyhow (err e) s w = w
anyhow panic s w = w

module _ {M : Type 0} (b : Backend M) where
  pub rpc_process-Keeps :
      (fuel : ℕ) (raw : M) (r : Runtime) (a : Result Reply Reply) (r' : Runtime)
      → rpc_process b fuel raw r ≡ some (a, r')
      → HasContracts r.storage
      → HasContracts r'.storage
  rpc_process-Keeps fuel raw r a r' h w = anyhow a r'.storage (
      rpc_process-After b HasContracts HasContracts (λ s w. w)
        (λ call s p w.
          always-After HasContracts HasContracts (λ s w. w) _ _
            (run-IsWellFormed b.services.storage_codec b.conceal call s p w))
        fuel raw r a r' h w)
