-- ===== src/Tests/Files.antt =====
-- The files of the drivers, and the storage, run on one contract.
use citadel_runtime.Common.{
  ℕ, ◌==◌, inl, inr, Bool-cases, ◌≡◌, refl, true, none, some, [], ◌∷◌, arith,
}
use citadel_runtime.Common.Key.{nat_key, same}
use citadel_runtime.Common.Map.{get, remove}
use citadel_runtime.Common.Result.{ok, err}
use citadel_runtime.Foreign.Bitcoin.{OutpointReveal}
use citadel_runtime.Model.Operation.{Operation, outcoming}
use mathlib.Core.Path.{subst}
use citadel_runtime.Model.Contract.{empty_citadel, Contract, contract_with}
use citadel_runtime.Persist.{succeeds, fails, store, with}
use citadel_runtime.Persist.Reload.{store_failure}
use citadel_runtime.Storage.{
  set_contract, yaml_encoding, Storage, lookup, add, rename, delete, invoice, run, history,
  delete_contract,
}
use citadel_runtime.Storage.View.{run-effect}
use citadel_runtime.Storage.Durable.{run-restart}
use citadel_runtime.Storage.Invariant.{
  IsDistinct, IsFiled, IsWellFormed, run-IsWellFormed, add_replaces,
}
use citadel_runtime.Tests.{contract, storage_of, yaml_file}
use citadel_runtime.Tests.Codecs.{storage_codec, storage_bytes, storage_trips}

abbrev conceal : OutpointReveal → ℕ
conceal r = r.blinding

abbrev one : Storage
one = storage_of ((3, contract 3) ∷ [])

abbrev nothing_stored : Storage
nothing_stored = storage_of []

abbrev full_disk : Storage
full_disk = record {
  fd = record { bytes = 9 ∷ 9 ∷ []; cursor = 2; outcomes = succeeds ∷ succeeds ∷ fails 0 28 ∷ [] };
  config = yaml_file;
  content = empty_citadel;
}

store_failure_example :
    ((store storage_codec full_disk).0 ≡ err (yaml_encoding 28))
    × ((store storage_codec full_disk).1.fd.bytes ≡ [])
    × ((store storage_codec full_disk).1.content ≡ empty_citadel)
store_failure_example = store_failure storage_codec full_disk 28 [] refl refl

run-effect_example :
    lookup 3 (run storage_codec conceal (rename 3 5) one).1
    ≡ some (record (contract 3) { name = 5 })
unfolding get same
run-effect_example = run-effect storage_codec conceal (rename 3 5) one 3

deleted : (run storage_codec conceal (delete 3) one).0 ≡ ok tt
unfolding run delete_contract get same remove store storage_bytes
deleted = refl

run-restart_example :
    (d' : Storage) × (with storage_codec yaml_file
        (some (run storage_codec conceal (delete 3) one).1.fd.bytes)
        []
        empty_citadel
      ≡ ok d')
    × (d'.content ≡ (run storage_codec conceal (delete 3) one).1.content)
run-restart_example =
    run-restart storage_codec storage_trips conceal (delete 3) one empty_citadel deleted

abbrev payment : Operation
payment = record {
  direction = outcoming true 0 5 (1 ∷ []) none 2 (0 ∷ []) 1;
  created_at = 1;
  height = 0;
  asset_id = none;
  balance_before = 40;
  bitcoin_volume = 30;
  asset_volume = 30;
  bitcoin_value = 20;
  asset_value = 20;
  tx_fee = 5;
  txid = 1;
  psbt = record {
    unsigned_tx = record { version = 1; lock_time = 0; input = []; output = [] };
    inputs = [];
    outputs = [];
  };
  disclosure = none;
  notes = none;
}

filed : IsWellFormed (λ j. lookup j one)
unfolding get same IsDistinct
filed j c h = elim (Bool-cases (3 == j)) [
  | inl e ↦
      let q : contract 3 ≡ c = ground arith in
      let i : 3 ≡ j = ground arith in subst (IsFiled j) q (record { own_id = i; invoices = tt })
  | inr n ↦ absurd (ground arith)
]

run-IsWellFormed_example :
    IsWellFormed (λ j. lookup j (run storage_codec conceal (invoice 3 1 []) one).1)
run-IsWellFormed_example = run-IsWellFormed storage_codec conceal (invoice 3 1 []) one tt filed

abbrev again : Contract
again = contract_with (λ p. 3) 9 (contract 3).policy 1 0

add_replaces_example :
    (lookup 3 (run storage_codec conceal (add again) one).1 ≡ some again)
    × (history 3 (run storage_codec conceal (add again) one).1 ≡ ok [])
    × ((run storage_codec conceal (add again) one).0
        ≡ (store storage_codec (set_contract 3 again one)).0)
add_replaces_example =
    add_replaces storage_codec conceal (λ p. 3) 9 (contract 3).policy 1 0 (contract 3) one
      (unfold get same in refl)
