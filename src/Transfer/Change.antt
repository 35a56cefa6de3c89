-- ===== src/Transfer/Change.antt =====
-- The outputs of the payment and the change, in bitcoin and in the asset.
pub mod Conservation
pub mod Fresh
pub mod Frame
pub mod Cached
use citadel_runtime.Common.{
  ℕ, ◌+◌, ◌-◌, ◌%◌, Bool, true, false, ◌&&◌, Option, none, some, List, [], ◌∷◌, ◌++◌, map,
  map_option, filter, unwrap_or, ltb, if◌then◌else◌, add64, u64_mod, u32_mod, length, sum64,
}
use citadel_runtime.Common.Key.{nat_key}
use citadel_runtime.Common.Map.{get}
use citadel_runtime.Common.Set.{BTreeSet, HashSet, contains, collect}
use citadel_runtime.Common.Result.{
  Result, ok, err, panic, Exec, ◌>>=◌, ◌>>◌, pure, lift, gets, modify, ok_or,
}
use citadel_runtime.Foreign.Bitcoin.{
  AssetId, bitcoin_id, Script, OutPoint, outpoint_key, TxOut, OutpointReveal, SealDefinition,
}
use citadel_runtime.Foreign.Wallet.{DescriptorApi}
use citadel_runtime.Model.Utxo.{Utxo, outpoint}
use citadel_runtime.Model.Policy.{AddressDerivation}
use citadel_runtime.Model.Contract.{Contract, ContractId, contract_address}
use citadel_runtime.Cache
use citadel_runtime.Runtime.Error.{Error, server_failure, cache_inconsistency}
use citadel_runtime.Runtime.Message.{
  TransferInfo, RgbReceiver, bitcoin, rgb, blind_utxo, descriptor, psbt, bitcoin_descriptor, is_rgb,
}
use citadel_runtime.Runtime.State.{Runtime, Services, SealEndpoint, on_cache, from_cache}
use citadel_runtime.Transfer.Coins.{Choice}

-- an output of the transaction, with the derivation index of an output of ours
abbrev pub Output : Type 0
Output = TxOut × Option ℕ

pub record Payment : Type 0 where
  pub tx_outputs : List Output
  pub bitcoin_value : ℕ
  pub bitcoin_giveaway : Option ℕ
  pub rgb_endpoint : SealEndpoint

-- `a - b` on `u64`
abbrev pub sub64 : ℕ → ℕ → ℕ
sub64 a b = (a + u64_mod - b) % u64_mod

-- the bitcoins on the selected outpoints
unfoldable pub bitcoin_inputs : List Utxo → HashSet Utxo → ℕ
bitcoin_inputs selected bitcoin_utxos =
    let outpoints : BTreeSet OutPoint = collect (map outpoint selected) in
    sum64
      (map (λ (u : Utxo). u.value) (filter (λ u. contains (outpoint u) outpoints) bitcoin_utxos))

pub record BitcoinChange : Type 0 where
  pub outputs : List Output
  pub change : ℕ
  pub change_vout : Option ℕ
  pub derivation_indexes : HashSet ℕ

abbrev pub index_of : Output → HashSet ℕ
index_of (out, none) = []
index_of (out, some i) = i ∷ []

no_change_address : Error
no_change_address = server_failure (record { code = 0; info = "Unable to derive change address" })

no_rgb_change : Error
no_rgb_change = server_failure (record { code = 0; info = "Can't allocate RGB change" })

-- the bitcoins that go in
unfoldable pub bitcoin_input_amount : ContractId → List Utxo → Exec Runtime Error ℕ
unfolding bitcoin_inputs
bitcoin_input_amount pay_from selected = do
  all_unspent ← from_cache (Cache.unspent pay_from)
  bitcoin_utxos ← lift (ok_or (get bitcoin_id all_unspent) cache_inconsistency)
  pure (bitcoin_inputs selected bitcoin_utxos)

module _ (sv : Services) where
  -- the output that pays the beneficiary, and the endpoint of the assets
  unfoldable pub pay : TransferInfo → ℕ → Exec Runtime Error Payment
  pay (bitcoin d) asset_value r = (
    ok (record {
      tx_outputs =
          (record { value = asset_value; script_pubkey = sv.api.compact_script d }, none) ∷ [];
      bitcoin_value = asset_value;
      bitcoin_giveaway = none;
      rgb_endpoint = SealEndpoint.tx_outpoint 0;
    }),
    r,
  )
  pay (rgb id (descriptor d giveaway)) asset_value r =
      let (endpoint, rng) = sv.with_vout 0 r.rng in
      (
        ok (record {
          tx_outputs =
              (record { value = giveaway; script_pubkey = sv.api.compact_script d }, none) ∷ [];
          bitcoin_value = giveaway;
          bitcoin_giveaway = some giveaway;
          rgb_endpoint = endpoint;
        }),
        record r { rng = rng },
      )
  pay (rgb id (blind_utxo hash)) asset_value r = (
    ok (record {
      tx_outputs = [];
      bitcoin_value = 0;
      bitcoin_giveaway = none;
      rgb_endpoint = SealEndpoint.tx_outpoint hash;
    }),
    r,
  )
  pay (rgb id (psbt p)) asset_value r = (panic, r)

  -- an address for the change, marked as used
  change_output : ContractId → Contract → ℕ → Exec Runtime Error Output
  unfolding no_change_address contract_address
  change_output pay_from contract change = do
    change_index ← from_cache (Cache.next_unused_derivation sv.hd pay_from)
    derived ← lift (contract_address sv.api contract change_index false)
    address ← lift (ok_or derived no_change_address)
    on_cache (Cache.use_address_derivation sv.cache_codec pay_from address.address change_index)
    pure (
      record { value = change; script_pubkey = sv.api.address_script address.address },
      some change_index,
    )

  -- the bitcoin change output, if more goes in than the payment and the fee
  unfoldable pub bitcoin_change :
      ContractId → Contract → Payment → ℕ → ℕ → Exec Runtime Error BitcoinChange
  unfolding change_output
  bitcoin_change pay_from contract p bitcoin_fee input r =
      if ltb (add64 p.bitcoin_value bitcoin_fee) input
      then (do
        let change = sub64 (sub64 input p.bitcoin_value) bitcoin_fee
        out ← change_output pay_from contract change
        pure (record {
          outputs = p.tx_outputs ++ out ∷ [];
          change = change;
          change_vout = some (length p.tx_outputs);
          derivation_indexes = index_of out;
        }))
          r
      else (
        ok (record {
          outputs = p.tx_outputs;
          change = 0;
          change_vout = none;
          derivation_indexes = [];
        }),
        r,
      )

  -- where the change in the asset goes
  change_seal : Option OutPoint → Option ℕ → Exec Runtime Error SealDefinition
  unfolding no_rgb_change
  change_seal (some o) vout r =
      let (blinding, rng) = sv.next_u64 r.rng in
      (
        ok (
            SealDefinition.tx_outpoint
              (record { blinding = blinding; reveal_txid = o.txid; reveal_vout = o.vout })),
        record r { rng = rng },
      )
  change_seal none (some vout) r =
      let (blinding, rng) = sv.next_u64 r.rng in
      (ok (SealDefinition.witness_vout vout blinding), record r { rng = rng })
  change_seal none none r = (err no_rgb_change, r)

  -- the change in the asset, if more of it goes in than is paid
  unfoldable pub rgb_change :
      TransferInfo → ℕ → Choice → Option ℕ → Exec Runtime Error (List (SealDefinition × ℕ))
  unfolding change_seal is_rgb
  rgb_change info asset_value choice change_vout =
      if ltb asset_value choice.amount && is_rgb info
      then (do
        seal ← change_seal choice.change_outpoint change_vout
        pure ((seal, choice.amount - asset_value) ∷ []))
      else pure []
