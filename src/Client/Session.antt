-- ===== src/Client/Session.antt =====
-- The client and the server at the two ends of one socket.
use citadel_runtime.Common.{ℕ, ◌≡◌, Option, none, some, arith}
use citadel_runtime.Common.Result.{Result, ok, err, panic, Exec}
use citadel_runtime.Runtime.Error.{Error}
use citadel_runtime.Runtime.State.{Runtime}
use citadel_runtime.Rpc.Request.{Request}
use citadel_runtime.Rpc.Reply.{Reply, failed}
use citadel_runtime.Server.{answer, rpc_process}
use citadel_runtime.Server.Outside as Served
use citadel_runtime.Server.Service.{Round, replied, stopped, crashed, respond, run}
use citadel_runtime.Client.Outside.{Backend}
use citadel_runtime.Client.{request}

-- the server, and the message that waits for it
pub record World (M : Type 0) : Type 0 where
  pub runtime : Runtime
  pub inbox : Option M

-- the server, when no message waits
abbrev pub idle : {M : Type 0} → Runtime → World M
idle r = record { runtime = r; inbox = none }

module _ {M : Type 0} (b : Served.Backend M) (fuel : ℕ) where
  -- What the client receives after one round of the server. A server that ends in a panic, or for
  -- which the fuel does not suffice, sends nothing.
  delivered : World M → Option (Round M × Runtime) → Result Error M × World M
  delivered w none = (panic, w)
  delivered w (some (replied raw, r)) = (ok raw, idle r)
  delivered w (some (stopped e, r)) = (err e, idle r)
  delivered w (some (crashed, r)) = (panic, idle r)

  -- the round of the server for the message that waits
  receive : Exec (World M) Error M
  unfolding delivered
  receive w = elim w.inbox [
    | none ↦ (panic, w)
    | some raw ↦ delivered w (run b fuel (record { received = ok raw; sent = ok tt }) w.runtime)
  ]

  -- the client's side, with the server behind the socket
  unfoldable pub connected : Backend (World M) M → Backend (World M) M
  unfolding receive
  connected c = record c {
    send_raw_message = λ raw w. (ok tt, record w { inbox = some raw });
    recv_raw_message = receive;
  }

-- The two sides agree on how messages are written.
pub record Wire {M : Type 0} (b : Served.Backend M) (c : Backend (World M) M) : Type 0 where
  pub requests : (q : Request) → b.unmarshall (c.serialize q) ≡ ok q
  pub replies : (x : Reply) → c.unmarshall (b.serialize x) ≡ ok x

module _ {M : Type 0} (b : Served.Backend M) (c : Backend (World M) M) (wire : Wire b c)
    (fuel : ℕ) where
  -- an error of the server reaches the client as a reply
  abbrev pub as_reply : Result Error Reply → Result Error Reply
  as_reply (ok x) = ok x
  as_reply (err e) = ok (failed b.to_string e)
  as_reply panic = panic

  -- A client that asks the server over a socket gets what the server's handler returns for that
  -- request, an error as a failure reply, and leaves the server as the handler does: if the two
  -- agree on how messages are written, and the handler ends.
  pub request-answer :
      (q : Request) (w : World M) (a : Result Error Reply) (r : Runtime)
      → answer b fuel q w.runtime ≡ some (a, r)
      → request (connected b fuel c) q w ≡ (as_reply a, idle r)
  unfolding connected request run rpc_process respond
  request-answer q w (ok x) r h = ground (arith, wire.requests q, wire.replies x)
  request-answer q w (err e) r h =
      ground (arith, wire.requests q, wire.replies (failed b.to_string e))
  request-answer q w panic r h = ground (arith, wire.requests q)
