-- ===== src/Transfer/Prepare.antt =====
-- The PSBT, the call of the RGB node, the record in the history, and the whole of `transfer`.
pub mod Drafts
pub mod History
pub mod Stages
pub mod Spends
pub mod Tweaks
pub mod Closed
pub mod Cached
use citadel_runtime.Common.{
  ℕ, suc, ◌%◌, false, Option, none, some, List, [], ◌∷◌, map, map_option, if◌then◌else◌, u16_mod,
  u32_mod, sum64, get_elem?,
}
use citadel_runtime.Common.Key.{nat_key}
use citadel_runtime.Common.Map.{get, insert}
use citadel_runtime.Common.Set.{HashSet}
use citadel_runtime.Common.Result.{
  Result, ok, panic, Exec, ◌>>=◌, ◌>>◌, pure, lift, and_then, map_ok,
}
use citadel_runtime.Foreign.Bitcoin.{
  Invoice, TxOut, Transaction, PsbtInput, PsbtOutput, Psbt, SealDefinition,
}
use citadel_runtime.Model.Utxo.{Utxo, outpoint}
use citadel_runtime.Model.Policy.{
  Policy, is_scripted, has_witness, bip32_derivations, derive_descriptor, first_public_key,
}
use citadel_runtime.Model.Operation.{Operation, outcoming}
use citadel_runtime.Model.Contract.{ContractId}
use citadel_runtime.Storage
use citadel_runtime.Runtime.Error.{Error}
use citadel_runtime.Runtime.Message.{TransferInfo, bitcoin, rgb, PreparedTransfer}
use citadel_runtime.Runtime.State.{
  Runtime, Services, Transfer, on_storage, from_storage, from_cache,
}
use citadel_runtime.Transfer.Coins.{Selection, load_coins, select_coins, tx_input}
use citadel_runtime.Transfer.Change.{
  Output, Payment, BitcoinChange, pay, bitcoin_input_amount, bitcoin_change, rgb_change,
}

-- `.map(f).collect()`, where `f` may panic
traverse : {E A B : Type 0} → (A → Result E B) → List A → Result E (List B)
traverse f [] = ok []
traverse f (x ∷ xs) = and_then (f x) (λ y. map_ok (λ ys. y ∷ ys) (traverse f xs))

abbrev all_three : Option ℕ → Option ℕ → Option ℕ → Option (ℕ × ℕ × ℕ)
all_three (some k) (some t) (some d) = some (k, t, d)
all_three (some k) (some t) none = none
all_three (some k) none d = none
all_three none t d = none

-- `.get(key).and_then(parse)`
unfoldable pub field : ℕ → (ℕ → Option ℕ) → PsbtOutput → Option ℕ
field key parse out = elim (get key out.proprietary) [ none ↦ none | some b ↦ parse b ]

-- the transaction that pays
abbrev pub unsigned : List Utxo → List Output → Transaction
unsigned selected outputs = record {
  version = 1;
  lock_time = 0;
  input = map tx_input selected;
  output = map (λ e. e.0) outputs;
}

abbrev vout16 : Option ℕ → HashSet ℕ
vout16 none = []
vout16 (some v) = (v % u16_mod) ∷ []

-- what `transfer` has worked out before the PSBT is committed
pub record Draft : Type 0 where
  pub pay_from : ContractId
  pub asset_value : ℕ
  pub bitcoin_fee : ℕ
  pub invoice : Invoice
  pub selection : Selection
  pub payment : Payment
  pub bitcoin_input : ℕ
  pub change : BitcoinChange
  pub asset_change : List (SealDefinition × ℕ)
  pub draft_psbt : Psbt

module _ (sv : Services) where
  -- the script in the input, by the kind of the policy
  with_script : Policy → Option ℕ → PsbtInput → Result Error PsbtInput
  with_script p script input =
      if is_scripted p
      then map_ok
          (λ w.
            if w
            then record input { witness_script = script }
            else record input { redeem_script = script })
          (has_witness sv.api p)
      else ok input

  -- one input of the PSBT
  psbt_input : Policy → Utxo → Result Error PsbtInput
  unfolding with_script
  psbt_input p u = and_then (bip32_derivations sv.api p u.derivation_index) (λ derivations.
      and_then (derive_descriptor sv.api p u.derivation_index false) (λ d.
        with_script p (map_option sv.api.explicit_script d) (record {
          non_witness_utxo = sv.transaction_get u.txid;
          bip32_derivation = derivations;
          witness_script = none;
          redeem_script = none;
          p2c_tweaks = elim u.tweak [ none ↦ [] | some (t, k) ↦ (k, t) ∷ [] ];
        })))

  -- one output of the PSBT
  psbt_output : Policy → Output → Result Error PsbtOutput
  psbt_output p (out, none) = ok (record { proprietary = [] })
  psbt_output p (out, some i) =
      map_ok (λ k. record { proprietary = insert sv.pubkey_field k [] })
        (first_public_key sv.api p i)

  make_psbt : Policy → List Utxo → List Output → Result Error Psbt
  unfolding psbt_input psbt_output traverse
  make_psbt p selected outputs = and_then (traverse (psbt_input p) selected) (λ inputs.
      map_ok
        (λ outs. record {
          unsigned_tx = unsigned selected outputs;
          inputs = inputs;
          outputs = outs;
        })
        (traverse (psbt_output p) outputs))

  -- `witness.global.unsigned_tx.output[vout]` and `add_p2c_tweak`
  save_tweak :
      ContractId → Psbt → ℕ → Option TxOut → Option (ℕ × ℕ × ℕ) → Exec Runtime Error (Unit {0})
  save_tweak pay_from witness vout out none r = (ok tt, r)
  save_tweak pay_from witness vout none (some (k, t, d)) r = (panic, r)
  save_tweak pay_from witness vout (some out) (some (k, t, d)) r =
      on_storage
        (Storage.add_p2c_tweak sv.storage_codec pay_from (record {
          outpoint = record { txid = sv.txid_of witness.unsigned_tx; vout = vout % u32_mod };
          script = out.script_pubkey;
          tweak = t;
          pubkey = k;
          derivation_index = d;
        }))
        r

  -- one round of the loop; `tx_outputs[vout]` panics past the end
  check_output : ContractId → Psbt → ℕ → PsbtOutput → Option Output → Exec Runtime Error (Unit {0})
  unfolding save_tweak field
  check_output pay_from witness vout out none r = (panic, r)
  check_output pay_from witness vout out (some (tx_out, index)) r =
      save_tweak pay_from witness vout (get_elem? witness.unsigned_tx.output vout)
        (all_three (field sv.pubkey_field sv.parse_pubkey out)
          (field sv.tweak_field sv.parse_tweak out) index)
        r

  -- the loop over the outputs of the witness, from the output `vout` on
  save_tweaks :
      ContractId → List Output → Psbt → ℕ → List PsbtOutput → Exec Runtime Error (Unit {0})
  unfolding check_output
  save_tweaks pay_from outputs witness vout [] = pure tt
  save_tweaks pay_from outputs witness vout (out ∷ outs) = do
    check_output pay_from witness vout out (get_elem? outputs vout)
    save_tweaks pay_from outputs witness (suc vout) outs

  -- the record of an RGB payment
  rgb_operation : Draft → Transfer → Operation
  rgb_operation d t = record {
    direction =
        outcoming false (sum64 (map (λ e. e.1) d.asset_change)) d.change.change
          (vout16 d.change.change_vout) d.payment.bitcoin_giveaway d.bitcoin_fee
          d.change.derivation_indexes d.invoice;
    created_at = sv.now;
    height = 0;
    asset_id = none;
    balance_before = d.selection.balance_before;
    bitcoin_volume = d.bitcoin_input;
    asset_volume = d.selection.choice.amount;
    bitcoin_value = d.payment.bitcoin_value;
    asset_value = d.asset_value;
    tx_fee = d.bitcoin_fee;
    txid = sv.txid_of t.witness.unsigned_tx;
    psbt = t.witness;
    disclosure = some t.disclosure;
    notes = none;
  }

  -- the record of a bitcoin payment
  bitcoin_operation : Draft → Operation
  bitcoin_operation d = record {
    direction =
        outcoming false d.change.change d.change.change (vout16 d.change.change_vout) none
          d.bitcoin_fee d.change.derivation_indexes d.invoice;
    created_at = sv.now;
    height = 0;
    asset_id = none;
    balance_before = d.selection.balance_before;
    bitcoin_volume = d.bitcoin_input;
    asset_volume = d.bitcoin_input;
    bitcoin_value = d.payment.bitcoin_value;
    asset_value = d.asset_value;
    tx_fee = d.bitcoin_fee;
    txid = sv.txid_of d.draft_psbt.unsigned_tx;
    psbt = d.draft_psbt;
    disclosure = none;
    notes = none;
  }

  -- the last stage: the node commits to an RGB payment, and the payment enters the history
  commit : TransferInfo → Draft → Exec Runtime Error PreparedTransfer
  unfolding save_tweaks rgb_operation bitcoin_operation
  commit (rgb asset_id receiver) d = do
    t ← lift (
        sv.rgb_transfer asset_id (map outpoint d.selection.choice.selected)
          ((d.payment.rgb_endpoint, d.asset_value) ∷ []) d.asset_change d.draft_psbt)
    save_tweaks d.pay_from d.change.outputs t.witness 0 t.witness.outputs
    lift (sv.enclose t.disclosure)
    on_storage (Storage.register_operation sv.storage_codec d.pay_from (rgb_operation d t))
    pure (record { psbt = t.witness; consignment = some t.consignment })
  commit (bitcoin descriptor) d = do
    on_storage (Storage.register_operation sv.storage_codec d.pay_from (bitcoin_operation d))
    pure (record { psbt = d.draft_psbt; consignment = none })

  -- the stages up to the PSBT
  unfoldable pub draft : ContractId → ℕ → ℕ → TransferInfo → Invoice → Exec Runtime Error Draft
  unfolding make_psbt
  draft pay_from asset_value bitcoin_fee info invoice = do
    contract ← from_storage (Storage.contract_ref pay_from)
    coins ← from_cache (load_coins pay_from info)
    selection ← lift (select_coins info asset_value bitcoin_fee coins)
    payment ← pay sv info asset_value
    input ← bitcoin_input_amount pay_from selection.choice.selected
    change ← bitcoin_change sv pay_from contract payment bitcoin_fee input
    asset_change ← rgb_change sv info asset_value selection.choice change.change_vout
    lift sv.connect
    psbt ← lift (make_psbt contract.policy selection.choice.selected change.outputs)
    pure (record {
      pay_from = pay_from;
      asset_value = asset_value;
      bitcoin_fee = bitcoin_fee;
      invoice = invoice;
      selection = selection;
      payment = payment;
      bitcoin_input = input;
      change = change;
      asset_change = asset_change;
      draft_psbt = psbt;
    })

  -- `Runtime::transfer`
  unfoldable pub transfer :
      ContractId → ℕ → ℕ → TransferInfo → Invoice → Exec Runtime Error PreparedTransfer
  unfolding draft commit
  transfer pay_from asset_value bitcoin_fee info invoice = do
    d ← draft pay_from asset_value bitcoin_fee info invoice
    commit info d
