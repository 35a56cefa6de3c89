-- ===== src/Tests/Requests.antt =====
-- The server, run on single messages. A raw message is the request or the reply itself.
use Prim.Native.String.{String}
use mathlib.Core.Path.{subst}
use mathlib.Core.List.{Memᴰ}
use citadel_runtime.Common.{
  ℕ, ◌+◌, ◌<◌, false, ◌≡◌, ◌⊎◌, ◌↔◌, refl, inl, inr, true, false, none, some, List, [], ◌∷◌, All,
  ◌==◌, arith,
}
use citadel_runtime.Common.Key.{nat_key, same, less}
use citadel_runtime.Common.Map.{get, insert}
use citadel_runtime.Common.Result.{Result, ok, err}
use citadel_runtime.Foreign.Bitcoin.{OutpointReveal}
use citadel_runtime.Model.Policy.{
  AddressDerivation, derive_address, derive_descriptor, to_descriptor, translate,
}
use citadel_runtime.Model.Contract.{Contract, to_meta, no_data, contract_address}
use citadel_runtime.Cache
use citadel_runtime.Cache.{address_derivation, next_unused_derivation}
use citadel_runtime.Cache.Derivation.{used}
use citadel_runtime.Storage
use citadel_runtime.Persist.{store}
use citadel_runtime.Runtime.State.{Runtime, SealEndpoint}
use citadel_runtime.Rpc.Request.{Request, NextAddressRequest}
use citadel_runtime.Rpc.Reply.{Reply}
use citadel_runtime.Server.{handle, rpc_process, next_address, accept_transfer, last}
use citadel_runtime.Server.Outside.{Backend}
use citadel_runtime.Server.Queries.{IsQuery, Same, rpc_process-Asks}
use citadel_runtime.Server.Address.{next_address_marks}
use citadel_runtime.Server.Accept.{Opens, accept_transfer_reveals}
use citadel_runtime.Tests.{small_inc, services, contract, runtime_of}
use citadel_runtime.Tests.Codecs.{cache_bytes}

abbrev pub Raw : Type 0
Raw = Request ⊎ Reply

abbrev pub request_in : Raw → Result String Request
request_in (inl q) = ok q
request_in (inr x) = err "a reply"

-- a server whose node takes what it is given, and knows the status 0 as valid
abbrev pub backend : Backend Raw
backend = record {
  services = services;
  chain = 0;
  commit = λ p. 3;
  conceal = λ r. r.blinding;
  reveal_of = λ o n. (record { blinding = n; reveal_txid = o.txid; reveal_vout = o.vout }, n + 1);
  to_string = λ e. "an error";
  serialize = λ x. inr x;
  unmarshall = request_in;
  endpoints = λ c. SealEndpoint.witness_vout 0 0 ∷ SealEndpoint.tx_outpoint 5 ∷ [];
  validate = λ c. ok 0;
  is_valid = λ s. s == 0;
  accept = λ c rs. ok tt;
  import_asset = λ g. ok g;
  list_assets = ok [];
  decode_assets = λ bytes. ok bytes;
  finalize = λ p. ok p;
  extract = λ p. ok p.unsigned_tx;
  broadcast = λ tx. true;
}

abbrev pub one_contract : Runtime
one_contract = runtime_of ((3, contract 3) ∷ []) []

-- a request for the contracts
abbrev asked :
    (q : Request) → request_in (inl Request.list_contracts) ≡ ok q → Request.list_contracts ≡ q
asked q h = ground arith

answered :
    rpc_process backend 0 (inl Request.list_contracts) one_contract
    ≡ some (ok (Reply.contracts (to_meta (contract 3) ∷ [])), one_contract)
unfolding rpc_process handle Storage.contracts
answered = refl

rpc_process-Asks_example : Same one_contract one_contract
rpc_process-Asks_example =
    rpc_process-Asks backend 0 (inl Request.list_contracts) one_contract one_contract
      (ok (Reply.contracts (to_meta (contract 3) ∷ []))) (λ q h. subst IsQuery (asked q h) tt)
      answered

-- an address of a contract that has handed out index 0
abbrev used_one : Runtime
used_one =
    runtime_of ((3, contract 3) ∷ [])
      ((3, record Cache.no_cache { used_address_derivations = (77, 0) ∷ [] }) ∷ [])

abbrev next_one : NextAddressRequest
next_one = record { contract_id = 3; index = none; legacy = false; mark_used = true }

abbrev handed_out : AddressDerivation
handed_out = record { address = 3101; derivation = 1 ∷ [] }

handed : (next_address backend next_one used_one).0 ≡ ok (Reply.address_derivation handed_out)
unfolding next_address Storage.contract_ref get same next_unused_derivation derive_descriptor
    to_descriptor contract_address derive_address translate store insert less
    Cache.use_address_derivation last small_inc cache_bytes
handed = refl

next_address_marks_example :
    (index : ℕ) × (handed_out.derivation ≡ index ∷ [])
    × All (λ e. e.1 < index) (used 3 used_one.cache)
    × (address_derivation 3 3101 (next_address backend next_one used_one).1.cache ≡ some index)
unfolding get same
next_address_marks_example =
    next_address_marks backend next_one used_one handed_out refl refl (omega arith, tt) handed

-- a contract with one blinding factor
abbrev blinding : Contract
blinding = record (contract 3) {
  contents = record no_data {
    blinding_factors =
        (5, record { blinding = 5; reveal_txid = 1; reveal_vout = 0 })
        ∷ (6, record { blinding = 6; reveal_txid = 1; reveal_vout = 1 })
        ∷ [];
  };
}

abbrev accepting : Runtime
accepting = runtime_of ((3, blinding) ∷ []) []

accept_done : (accept_transfer backend 1 accepting).0 ≡ ok (Reply.validation 0)
unfolding accept_transfer Storage.contracts
accept_done = refl

accept_transfer_reveals_example :
    (given : List OutpointReveal) × (backend.accept 1 given ≡ ok tt)
    × ((reveal : OutpointReveal)
        → Memᴰ reveal given ↔ Opens (backend.endpoints 1) accepting.storage reveal)
accept_transfer_reveals_example = accept_transfer_reveals backend 1 0 accepting accept_done refl
