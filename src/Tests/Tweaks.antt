-- ===== src/Tests/Tweaks.antt =====
-- A payment of 100 of the asset 7, whose change carries a tweak, and the synchronization after it.
use citadel_runtime.Common.{
  ◌≡◌, refl, true, some, unwrap_or, map_option, List, [], ◌∷◌, ◌==◌, map, if◌then◌else◌, arith, inl,
  sum64_from, filter, get_elem?,
}
use citadel_runtime.Common.Key.{nat_key, same, less}
use citadel_runtime.Common.Map.{BTreeMap, get, insert, extend, remove}
use citadel_runtime.Common.Set.{contains, add, distinct, collect}
use citadel_runtime.Common.Result.{ok}
use citadel_runtime.Foreign.Bitcoin.{outpoint_key, AssetId, Script, bitcoin_id, Psbt, TxOut}
use citadel_runtime.Foreign.Wallet.{wpkh_of}
use citadel_runtime.Model.Utxo.{Utxo, outpoint, utxo_words}
use citadel_runtime.Model.Contract
use citadel_runtime.Model.Contract.{Contract, TweakedOutput, contract_address}
use citadel_runtime.Model.Policy.{
  to_descriptor, translate, derive_scripts, derive_address, derive_descriptor, bip32_derivations,
  first_public_key, is_scripted,
}
use citadel_runtime.Persist.{store}
use citadel_runtime.Cache
use citadel_runtime.Storage
use citadel_runtime.Runtime.Error.{Error}
use citadel_runtime.Runtime.Message.{rgb, blind_utxo, PreparedTransfer, is_rgb, contract_id}
use citadel_runtime.Runtime.State.{Runtime, Services, ListUnspent}
use citadel_runtime.Sync.{chain_sync}
use citadel_runtime.Sync.Scan.{count_found, known_scripts, group, add_transactions}
use citadel_runtime.Sync.Rounds.{sync_loop}
use citadel_runtime.Sync.Assign.{assign_assets}
use citadel_runtime.Sync.Scan.Gathered.{listed_at}
use citadel_runtime.Sync.Rounds.Rule.{Answers}
use citadel_runtime.Sync.Tweaked.{transfer_change-found}
use citadel_runtime.Transfer.Coins.{tx_input, load_coins, select_coins, choose, order_coins}
use citadel_runtime.Transfer.Change.{pay, bitcoin_input_amount, bitcoin_change, rgb_change}
use citadel_runtime.Transfer.Prepare.{transfer, draft, Draft, field}
use citadel_runtime.Tests.Payments.{recorder}
use citadel_runtime.Tests.Synced.{plain}
use citadel_runtime.Tests.{small_add, small_inc, coin, contract, runtime_of}
use citadel_runtime.Tests.Codecs.{cache_codec}

abbrev output : ListUnspent
output = record { height = 100; tx_hash = 1; tx_pos = 0; value = 20 }

abbrev listing : Script → List ListUnspent
listing s = if s == 5000 then output ∷ [] else []

-- the witness that the node returns: the change pays to the tweaked script 5000
abbrev witness : Psbt
witness = record {
  unsigned_tx = record {
    version = 1;
    lock_time = 0;
    input = tx_input (coin 1 25) ∷ [];
    output = record { value = 20; script_pubkey = 5000 } ∷ [];
  };
  inputs = [];
  outputs = record { proprietary = (1, 42) ∷ (2, 77) ∷ [] } ∷ [];
}

abbrev node : Services
node = record recorder {
  cache_codec = record cache_codec { yaml_serializer = plain };
  list_unspent = λ scripts. some (map listing scripts);
  rgb_transfer = λ a os e c p. ok (record { consignment = 0; disclosure = 0; witness = witness });
}

abbrev start : Runtime
start =
    runtime_of ((3, contract 3) ∷ []) (
      (3, record Cache.no_cache { unspent = (0, coin 1 25 ∷ []) ∷ (7, coin 1 100 ∷ []) ∷ [] }) ∷ [])

abbrev prepared : PreparedTransfer
prepared = record { psbt = witness; consignment = some 0 }

abbrev tweak : TweakedOutput
tweak = record {
  outpoint = record { txid = 1; vout = 0 };
  script = 5000;
  tweak = 77;
  pubkey = 42;
  derivation_index = 0;
}

abbrev after : Runtime
after = (transfer node 3 100 5 (rgb 7 (blind_utxo 9)) 1 start).1

made : (transfer node 3 100 5 (rgb 7 (blind_utxo 9)) 1 start).0 ≡ ok prepared
unfolding transfer Storage.contract_ref load_coins select_coins pay bitcoin_input_amount
    bitcoin_change rgb_change bip32_derivations derive_descriptor is_scripted first_public_key
    Storage.register_operation Storage.add_p2c_tweak Cache.unspent Cache.unspent_bitcoin_only get
    insert remove same less contains collect add distinct sum64_from store choose order_coins is_rgb
    contract_id filter utxo_words extend Cache.next_unused_derivation contract_address
    derive_address translate to_descriptor Cache.use_address_derivation small_inc
made = refl

drafted :
    (d : Draft) × ((draft node 3 100 5 (rgb 7 (blind_utxo 9)) 1 start).0 ≡ ok d)
    × (paid : TxOut) × (get_elem? d.change.outputs 0 ≡ some (paid, some 0))
unfolding draft Storage.contract_ref load_coins select_coins pay bitcoin_input_amount bitcoin_change
    rgb_change bip32_derivations derive_descriptor is_scripted first_public_key Cache.unspent
    Cache.unspent_bitcoin_only get insert remove same less contains collect add distinct sum64_from
    store choose order_coins is_rgb contract_id filter utxo_words extend
    Cache.next_unused_derivation contract_address derive_address translate to_descriptor
    Cache.use_address_derivation small_inc
drafted = (_, refl, _, refl)

abbrev synced : Runtime
synced = unwrap_or (map_option (λ x. x.1) (chain_sync node 9 3 3 after)) after

abbrev found : BTreeMap AssetId (List Utxo)
found = (bitcoin_id, record (coin 1 20) { height = 100; tweak = some (77, 42) } ∷ []) ∷ []

ran : chain_sync node 9 3 3 after ≡ some (ok found, synced)
unfolding transfer Storage.contract_ref load_coins select_coins pay bitcoin_input_amount
    bitcoin_change rgb_change bip32_derivations derive_descriptor is_scripted first_public_key
    Storage.register_operation Storage.add_p2c_tweak Cache.unspent Cache.unspent_bitcoin_only get
    insert remove same less contains collect add distinct sum64_from store choose order_coins is_rgb
    contract_id filter utxo_words extend Cache.next_unused_derivation contract_address
    derive_address translate to_descriptor Cache.use_address_derivation small_inc chain_sync
    derive_scripts Cache.last_used_derivation Cache.update sync_loop count_found known_scripts group
    add_transactions assign_assets small_add Contract.add_p2c_tweak Contract.add_operation
ran = refl

after_contract :
    (c : Contract) × (Storage.contract_ref 3 after.storage ≡ ok c)
    × (to_descriptor {E = Error} node.api c.policy ≡ ok (wpkh_of 0))
unfolding transfer Storage.contract_ref load_coins select_coins pay bitcoin_input_amount
    bitcoin_change rgb_change bip32_derivations derive_descriptor is_scripted first_public_key
    Storage.register_operation Storage.add_p2c_tweak Cache.unspent Cache.unspent_bitcoin_only get
    insert remove same less contains collect add distinct sum64_from store choose order_coins is_rgb
    contract_id filter utxo_words extend Cache.next_unused_derivation contract_address
    derive_address translate to_descriptor Cache.use_address_derivation small_inc
    Contract.add_p2c_tweak Contract.add_operation
after_contract = (_, refl, refl)

answering : Answers node listing
answering scripts found h = ground arith

transfer_change-found_example :
    (us : List Utxo) × (get bitcoin_id found ≡ some us)
    × (contains (listed_at output) (map outpoint us) ≡ true)
transfer_change-found_example =
    transfer_change-found node listing 3 100 5 7 (blind_utxo 9) 1 start prepared drafted.0 0 tweak
      after_contract.0 (wpkh_of 0) 9 3 found synced output 0 answering made drafted.1
      (
        _,
        _,
        drafted.2,
        refl,
        refl,
        drafted.3,
        unfold field get same in refl,
        unfold field get same in refl,
        refl,
      )
      after_contract.1 after_contract.2 (omega arith) ran (inl refl) refl
