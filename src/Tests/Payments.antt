-- ===== src/Tests/Payments.antt =====
-- A payment of 20 with the fee 5 from one coin of 25.
use citadel_runtime.Common.{sum, arith, ◌≡◌, refl, none, List, [], ◌∷◌, ◌++◌, sum64_from, filter}
use citadel_runtime.Common.Key.{same, less}
use citadel_runtime.Common.Map.{get, insert, remove, extend}
use citadel_runtime.Common.Set.{contains, collect, add, distinct}
use citadel_runtime.Common.Result.{ok}
use citadel_runtime.Model.Operation.{Operation}
use citadel_runtime.Persist.{Serializer, store}
use citadel_runtime.Model.Contract.{Citadel, empty_citadel}
use citadel_runtime.Cache
use citadel_runtime.Storage
use citadel_runtime.Runtime.Message.{bitcoin, PreparedTransfer, is_rgb, contract_id}
use citadel_runtime.Runtime.State.{Runtime, Services}
use citadel_runtime.Transfer.Coins.{tx_input, load_coins, select_coins, choose, order_coins}
use citadel_runtime.Transfer.Change.{pay, bitcoin_input_amount, bitcoin_change, rgb_change}
use citadel_runtime.Model.Policy.{bip32_derivations, derive_descriptor, is_scripted}
use citadel_runtime.Model.Utxo.{utxo_words}
use citadel_runtime.Transfer.Prepare.{transfer}
use citadel_runtime.Transfer.Prepare.Spends.{Spends, transfer-Spends}
use citadel_runtime.Transfer.Prepare.History.{transfer_recorded}
use citadel_runtime.Tests.{services, coin, contract, runtime_of}
use citadel_runtime.Tests.Codecs.{storage_codec}

-- a serializer that writes one byte for every storage
abbrev one_byte : Serializer Citadel Storage.Error
one_byte = record {
  encode = λ c. (7 ∷ [], none);
  decode = λ b. ok empty_citadel;
  failed = Storage.yaml_encoding;
}

abbrev pub recorder : Services
recorder = record services { storage_codec = record storage_codec { yaml_serializer = one_byte } }

abbrev pub before : Runtime
before =
    runtime_of ((3, contract 3) ∷ [])
      ((3, record Cache.no_cache { unspent = (0, coin 1 25 ∷ []) ∷ [] }) ∷ [])

abbrev pub prepared : PreparedTransfer
prepared = record {
  psbt = record {
    unsigned_tx = record {
      version = 1;
      lock_time = 0;
      input = tx_input (coin 1 25) ∷ [];
      output = record { value = 20; script_pubkey = 9 } ∷ [];
    };
    inputs =
        record {
          non_witness_utxo = none;
          bip32_derivation = (100, 0) ∷ [];
          witness_script = none;
          redeem_script = none;
          p2c_tweaks = [];
        }
        ∷ [];
    outputs = record { proprietary = [] } ∷ [];
  };
  consignment = none;
}

made : (transfer recorder 3 20 5 (bitcoin 9) 1 before).0 ≡ ok prepared
unfolding transfer Storage.contract_ref load_coins select_coins pay bitcoin_input_amount
    bitcoin_change rgb_change bip32_derivations derive_descriptor is_scripted
    Storage.register_operation Cache.unspent Cache.unspent_bitcoin_only get insert remove same less
    contains collect add distinct sum64_from store choose order_coins is_rgb contract_id filter
    utxo_words extend
made = refl

transfer_recorded_example :
    (o : Operation) × (os : List Operation) × (Storage.history 3 before.storage ≡ ok os)
    × (Storage.history 3 (transfer recorder 3 20 5 (bitcoin 9) 1 before).1.storage
        ≡ ok (os ++ o ∷ []))
    × (o.psbt ≡ prepared.psbt)
    × (o.txid ≡ 1)
    × (o.asset_value ≡ 20)
    × (o.tx_fee ≡ 5)
transfer_recorded_example = transfer_recorded recorder 3 20 5 (bitcoin 9) 1 before prepared made

transfer-Spends_example : Spends recorder 3 20 5 9 before.cache prepared
transfer-Spends_example =
    transfer-Spends recorder 3 20 5 9 1 before prepared ((0, coin 1 25 ∷ []) ∷ []) (coin 1 25 ∷ [])
      made (unfold Cache.unspent get same in refl) (unfold get same in refl)
      (unfold contains in (refl, tt)) (unfold sum in omega arith) (omega arith)
