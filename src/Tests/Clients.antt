-- ===== src/Tests/Clients.antt =====
-- The client at the other end of the socket, and the service over several messages.
use mathlib.Core.Path.{subst}
use citadel_runtime.Common.{
  ◌≡◌, ◌≢◌, ◌⊎◌, refl, inl, inr, true, false, Bool-cases, none, some, List, [], ◌∷◌, All, ◌==◌,
  length, arith,
}
use citadel_runtime.Common.Key.{nat_key, same, less}
use citadel_runtime.Common.Map.{get, insert, remove}
use citadel_runtime.Common.Set.{contains}
use citadel_runtime.Common.Result.{Result, ok, err, panic}
use citadel_runtime.Model.Operation.{Operation}
use citadel_runtime.Model.Policy.{derive_address, derive_descriptor, to_descriptor, translate}
use citadel_runtime.Model.Contract.{Contract, contract_address}
use citadel_runtime.Cache
use citadel_runtime.Cache.{next_unused_derivation}
use citadel_runtime.Storage
use citadel_runtime.Storage.{lookup}
use citadel_runtime.Storage.Invariant.{IsDistinct, IsFiled}
use citadel_runtime.Persist.{store}
use citadel_runtime.Runtime.Error.{Error}
use citadel_runtime.Rpc.Request.{Request}
use citadel_runtime.Rpc.Reply.{Reply}
use citadel_runtime.Server.{handle, next_address, add_invoices, last, rpc_process}
use citadel_runtime.Server.Outside as Served
use citadel_runtime.Server.Contracts.{HasContracts}
use citadel_runtime.Server.Replies.{HasDepth}
use citadel_runtime.Server.Queries.{answer-handle}
use citadel_runtime.Server.Service.{Event, Served, run, respond, try_run_loop}
use citadel_runtime.Server.Service.Running.{
  HasDepths, try_run_loop-HasContracts, try_run_loop_replies,
}
use citadel_runtime.Client.{request, InvoiceType, invoice_create, address_of}
use citadel_runtime.Client.Outside.{Backend, Beneficiary, AssetClass}
use citadel_runtime.Client.Session.{World, Wire, idle, connected, as_reply, request-answer}
use citadel_runtime.Client.Invoices.{invoice_create-listed}
use citadel_runtime.Tests.{small_inc, contract}
use citadel_runtime.Tests.Codecs.{cache_bytes}
use citadel_runtime.Tests.Requests.{Raw, request_in, backend, one_contract}
use citadel_runtime.Tests.Payments.{recorder}

abbrev reply_in : Raw → Result Error Reply
reply_in (inl q) = err Error.unexpected_api
reply_in (inr x) = ok x

-- The client: an invoice is the number of its amount, and all are for an address.
abbrev client : Backend (World Raw) Raw
client = record {
  send_raw_message = λ raw w. (ok tt, w);
  recv_raw_message = λ w. (panic, w);
  serialize = λ q. inl q;
  unmarshall = reply_in;
  new_invoice = λ b amount asset. amount;
  set_merchant = λ m i. i;
  set_purpose = λ m i. i;
  rgb_asset = λ i. none;
  beneficiary = λ i. Beneficiary.address 3;
  classify_asset = λ i c. AssetClass.native;
  atomic_value = λ i. none;
  asset_from = λ a. a;
  conceal = λ r. r.blinding;
  is_mainnet = λ a. true;
  chain_of = λ a. 0;
  native_asset = λ c. 0;
  compact = λ a. some 9;
  txid_of = λ t. 1;
  genesis_from_str = λ s. none;
}

abbrev paying : Served.Backend Raw
paying = record backend { services = recorder }

abbrev wire : Wire paying client
wire = record { requests = λ q. refl; replies = λ x. refl }

-- a request for the invoices of a contract that is not there
abbrev missing : Request
missing = Request.list_invoices 4

request-answer_example : request (connected paying 0 client) missing (idle one_contract) ≡ (
  as_reply paying client wire 0 (handle paying missing one_contract).0,
  idle (handle paying missing one_contract).1,
)
request-answer_example =
    request-answer paying client wire 0 missing (idle one_contract)
      (handle paying missing one_contract).0 (handle paying missing one_contract).1
      (answer-handle paying 0 missing one_contract tt)

created :
    (invoice_create
      (connected paying 0 client)
      InvoiceType.address_utxo
      3
      none
      40
      none
      none
      true
      false
      (idle one_contract)).0
    ≡ ok 40
unfolding invoice_create connected run respond rpc_process handle next_address Storage.contract_ref
    get same next_unused_derivation derive_descriptor to_descriptor contract_address derive_address
    translate store insert less Cache.use_address_derivation last small_inc cache_bytes address_of
    add_invoices Storage.add_invoice
created = refl

invoice_create-listed_example :
    (p : Contract) × (lookup 3
        (invoice_create
          (connected paying 0 client)
          InvoiceType.address_utxo
          3
          none
          40
          none
          none
          true
          false
          (idle one_contract)).1.runtime.storage
      ≡ some p)
    × (contains 40 p.contents.sent_invoices ≡ true)
invoice_create-listed_example =
    invoice_create-listed paying client wire 0 3 40 none none true false (idle one_contract) 40
      created

-- a request to forget the contract, and one for the contracts that are left
abbrev events : List (Event Raw)
events =
    record { received = ok (inl (Request.delete_contract 3)); sent = ok tt }
    ∷ record { received = ok (inl Request.list_contracts); sent = ok tt }
    ∷ []

abbrev served : Served Raw
served = record {
  sent = inr Reply.success ∷ inr (Reply.contracts []) ∷ [];
  ended = none;
  runtime = (handle paying (Request.delete_contract 3) one_contract).1;
}

runs : try_run_loop paying 0 events [] one_contract ≡ some served
unfolding try_run_loop run respond rpc_process handle Storage.contracts Storage.delete_contract get
    same remove store
runs = refl

filed : HasContracts one_contract.storage
unfolding get same IsDistinct
filed j c h = elim (Bool-cases (3 == j)) [
  | inl e ↦
      let q : contract 3 ≡ c = ground arith in
      let i : 3 ≡ j = ground arith in subst (IsFiled j) q (record { own_id = i; invoices = tt })
  | inr n ↦ absurd (ground arith)
]

try_run_loop-HasContracts_example : HasContracts served.runtime.storage
try_run_loop-HasContracts_example =
    try_run_loop-HasContracts paying 0 events [] one_contract served runs filed

only :
    (q q' : Request) (raw : Raw)
    → ◌≡◌ {A = Result Error Raw} (ok (inl q)) (ok raw)
    → request_in raw ≡ ok q'
    → q ≡ q'
only q q' (inl p) e h = ground arith
only q q' (inr x) e h = absurd (ground arith)

no_depths : All (HasDepths paying) events
no_depths = (
  λ raw e q h. subst HasDepth (only (Request.delete_contract 3) q raw e h) tt,
  (λ raw e q h. subst HasDepth (only Request.list_contracts q raw e h) tt, tt),
)

try_run_loop_replies_example :
    (s : Served Raw) × (try_run_loop paying 11 events [] one_contract ≡ some s)
    × ((s.ended ≢ none) ⊎ (length s.sent ≡ 2))
try_run_loop_replies_example =
    try_run_loop_replies paying 11 events [] one_contract (omega arith) no_depths
