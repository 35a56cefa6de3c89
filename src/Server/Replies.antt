-- ===== src/Server/Replies.antt =====
-- How `rpc_process` of `src/runtime/rpc_server.rs` ends.
use citadel_runtime.Common.{ℕ, ◌≡◌, ◌<◌, refl, some, arith, inl, inr, Option-cases}
use citadel_runtime.Common.Result.{Result, ok, err, panic, Result-cases, map_err, map_ok}
use citadel_runtime.Runtime.Error.{Error, Failure}
use citadel_runtime.Runtime.State.{Runtime}
use citadel_runtime.Sync.{chain_sync}
use citadel_runtime.Sync.Ends.{chain_sync_ends}
use citadel_runtime.Rpc.Request.{Request}
use citadel_runtime.Rpc.Reply.{Reply, failure, malformed, failed, failure_of}
use citadel_runtime.Server.{handle, answer, rpc_process}
use citadel_runtime.Server.Outside.{Backend}

-- a synchronization is asked for with a positive lookup depth
abbrev pub HasDepth : Request → Type 0
HasDepth (Request.sync_contract q) = 0 < q.lookup_depth
HasDepth q = Unit

-- a result is a reply, or an error that is sent as a failure, or a panic
abbrev pub IsFailure : Result Reply Reply → Type 0
IsFailure (ok x) = Unit
IsFailure (err x) = (f : Failure) × (x ≡ failure f)
IsFailure panic = Unit

module _ {M : Type 0} (b : Backend M) where
  answer_ends :
      (fuel : ℕ) (q : Request) (r : Runtime)
      → b.services.hd.largest < fuel
      → HasDepth q
      → (a : Result Error Reply × Runtime) × (answer b fuel q r ≡ some a)
  unfolding answer
  answer_ends fuel (Request.sync_contract q) r f d =
      elim (Option-cases (chain_sync b.services fuel q.contract_id q.lookup_depth r)) [
        | inl e ↦ absurd (chain_sync_ends b.services fuel q.contract_id q.lookup_depth r d f e)
        | inr (a, e) ↦ ((map_ok Reply.contract_unspent a.0, a.1), ground arith)
      ]
  answer_ends fuel q r f d = (handle b q r, refl)

  failed-IsFailure : (a : Result Error Reply) → IsFailure (map_err (failed b.to_string) a)
  unfolding failed
  failed-IsFailure (ok x) = tt
  failed-IsFailure (err e) = (failure_of b.to_string e, refl)
  failed-IsFailure panic = tt

  -- Handling a message ends, with a reply or with a panic, if a synchronization has a positive
  -- lookup depth: more fuel than the largest index is enough. An error, also that of a malformed
  -- message, is a failure reply.
  pub rpc_process_replies :
      (fuel : ℕ) (raw : M) (r : Runtime)
      → b.services.hd.largest < fuel
      → ((q : Request) → b.unmarshall raw ≡ ok q → HasDepth q)
      → (a : Result Reply Reply) × (r' : Runtime) × (rpc_process b fuel raw r ≡ some (a, r'))
        × IsFailure a
  unfolding rpc_process
  rpc_process_replies fuel raw r f d = elim (Result-cases (b.unmarshall raw)) [
    | inl (q, e) ↦
        let (a, ends) = answer_ends fuel q r f (d q e) in
        (map_err (failed b.to_string) a.0, a.1, ground arith, failed-IsFailure a.0)
    | inr (inl (x, e)) ↦ (
      err (malformed x),
      r,
      ground arith,
      (record { code = 0; info = x }, unfold malformed in refl),
    )
    | inr (inr e) ↦ (panic, r, ground arith, tt)
  ]
