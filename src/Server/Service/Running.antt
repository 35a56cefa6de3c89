-- ===== src/Server/Service/Running.antt =====
-- The service over any sequence of messages.
use citadel_runtime.Common.{
  ℕ, ◌+◌, ◌≡◌, ◌≢◌, ◌⊎◌, ◌<◌, refl, none, some, List, [], ◌∷◌, ◌++◌, All, length, arith, inl, inr,
  Option-cases,
}
use citadel_runtime.Common.Result.{ok, Result-cases}
use citadel_runtime.Runtime.State.{Runtime}
use citadel_runtime.Rpc.Request.{Request}
use citadel_runtime.Server.{rpc_process}
use citadel_runtime.Server.Outside.{Backend}
use citadel_runtime.Server.Contracts.{HasContracts, rpc_process-Keeps}
use citadel_runtime.Server.Replies.{HasDepth, rpc_process_replies}
use citadel_runtime.Server.Service.{
  Event, Round, replied, stopped, crashed, Served, respond, run, try_run_loop,
}
use mathlib.Core.Path.{subst}

module _ {M : Type 0} (b : Backend M) where
  -- the requests among the messages ask for a positive lookup depth
  abbrev pub HasDepths : Event M → Type 0
  HasDepths e =
      (raw : M) → e.received ≡ ok raw → (q : Request) → b.unmarshall raw ≡ ok q → HasDepth q

  run-HasContracts :
      (fuel : ℕ) (e : Event M) (r : Runtime) (a : Round M) (r' : Runtime)
      → run b fuel e r ≡ some (a, r')
      → HasContracts r.storage
      → HasContracts r'.storage
  unfolding run
  run-HasContracts fuel e r a r' h w = elim (Result-cases e.received) [
    | inl (raw, m) ↦ elim (Option-cases (rpc_process b fuel raw r)) [
      | inl n ↦ absurd (ground arith)
      | inr ((x, s), n) ↦ rpc_process-Keeps b fuel raw r x r' (ground arith) w
    ]
    | inr (inl (x, m)) ↦
        let same : r ≡ r' = ground arith in subst (λ (s : Runtime). HasContracts s.storage) same w
    | inr (inr m) ↦
        let same : r ≡ r' = ground arith in subst (λ (s : Runtime). HasContracts s.storage) same w
  ]

  run_ends :
      (fuel : ℕ) (e : Event M) (r : Runtime)
      → b.services.hd.largest < fuel
      → HasDepths e
      → (a : Round M) × (r' : Runtime) × (run b fuel e r ≡ some (a, r'))
  unfolding run
  run_ends fuel e r f d = elim (Result-cases e.received) [
    | inl (raw, m) ↦
        let (a, r', answered, fails) = rpc_process_replies b fuel raw r f (d raw m) in
        (respond b e.sent a, r', ground arith)
    | inr (inl (x, m)) ↦ (stopped x, r, ground arith)
    | inr (inr m) ↦ (crashed, r, ground arith)
  ]

  -- Whatever messages arrive, and whatever fails on the way: in the storage that the service has
  -- after them, every contract stands under its own id and lists no invoice twice, if this was so
  -- before.
  pub try_run_loop-HasContracts :
      (fuel : ℕ) (es : List (Event M)) (sent : List M) (r : Runtime) (s : Served M)
      → try_run_loop b fuel es sent r ≡ some s
      → HasContracts r.storage
      → HasContracts s.runtime.storage
  unfolding try_run_loop
  try_run_loop-HasContracts fuel [] sent r s h w =
      let same : r ≡ s.runtime = ground arith in
      subst (λ (s : Runtime). HasContracts s.storage) same w
  try_run_loop-HasContracts fuel (e ∷ es) sent r s h w = elim (Option-cases (run b fuel e r)) [
    | inl n ↦ absurd (ground arith)
    | inr ((replied bytes, r'), n) ↦
        try_run_loop-HasContracts fuel es (sent ++ bytes ∷ []) r' s (ground arith)
          (run-HasContracts fuel e r (replied bytes) r' n w)
    | inr ((stopped x, r'), n) ↦
        let same : r' ≡ s.runtime = ground arith in
        subst (λ (s : Runtime). HasContracts s.storage) same
          (run-HasContracts fuel e r (stopped x) r' n w)
    | inr ((crashed, r'), n) ↦
        let same : r' ≡ s.runtime = ground arith in
        subst (λ (s : Runtime). HasContracts s.storage) same
          (run-HasContracts fuel e r crashed r' n w)
  ]

  length-snoc : (sent : List M) (x : M) → length (sent ++ x ∷ []) ≡ length sent + 1
  length-snoc [] x = refl
  length-snoc (y ∷ sent) x = omega (arith, length-snoc sent x)

  -- With more fuel than the largest index, and positive lookup depths, the service gets through
  -- all messages or ends at an error or a panic; in the first case it has sent one reply for each.
  pub try_run_loop_replies :
      (fuel : ℕ) (es : List (Event M)) (sent : List M) (r : Runtime)
      → b.services.hd.largest < fuel
      → All HasDepths es
      → (s : Served M) × (try_run_loop b fuel es sent r ≡ some s)
        × ((s.ended ≢ none) ⊎ (length s.sent ≡ length sent + length es))
  unfolding try_run_loop
  try_run_loop_replies fuel [] sent r f d =
      (record { sent = sent; ended = none; runtime = r }, refl, inr (omega arith))
  try_run_loop_replies fuel (e ∷ es) sent r f d = elim (Option-cases (run b fuel e r)) [
    | inl m ↦ let (a, r', n) = run_ends fuel e r f d.0 in absurd (ground arith)
    | inr ((replied bytes, r'), n) ↦
        let (s, done, count) = try_run_loop_replies fuel es (sent ++ bytes ∷ []) r' f d.1 in
        (s, ground arith, ground (arith, length-snoc sent bytes, count))
    | inr ((stopped x, r'), n) ↦ (
      record { sent = sent; ended = some (stopped x); runtime = r' },
      ground arith,
      inl (λ z. ground arith),
    )
    | inr ((crashed, r'), n) ↦ (
      record { sent = sent; ended = some crashed; runtime = r' },
      ground arith,
      inl (λ z. ground arith),
    )
  ]
