-- ===== src/Foreign/Bitcoin.antt =====
-- Types of the crates `bitcoin`, `rgb` and `invoice` that the program builds and takes apart.
use citadel_runtime.Common.{ℕ, Option, List, [], ◌∷◌, ◌≡◌, arith}
use citadel_runtime.Common.Key.{Key, nat_key}
use citadel_runtime.Common.Map.{BTreeMap}

abbrev pub Txid : Type 0
Txid = ℕ

-- `rgb::ContractId`; the default id stands for bitcoin
abbrev pub AssetId : Type 0
AssetId = ℕ

abbrev pub bitcoin_id : AssetId
bitcoin_id = 0

abbrev pub Script : Type 0
Script = ℕ

abbrev pub Address : Type 0
Address = ℕ

abbrev pub PublicKey : Type 0
PublicKey = ℕ

abbrev pub Slice32 : Type 0
Slice32 = ℕ

abbrev pub Invoice : Type 0
Invoice = ℕ

pub record OutPoint : Type 0 where
  pub txid : Txid
  pub vout : ℕ

pub outpoint_injective :
    (a b : OutPoint) → ◌≡◌ {A = List ℕ} (a.txid ∷ a.vout ∷ []) (b.txid ∷ b.vout ∷ []) → a ≡ b
outpoint_injective a b h = ground arith

instance abbrev pub outpoint_key : Key OutPoint
outpoint_key = record { words = λ o. o.txid ∷ o.vout ∷ []; words_injective = outpoint_injective }

pub record TxIn : Type 0 where
  pub previous_output : OutPoint
  pub script_sig : Script
  pub sequence : ℕ
  pub witness : List ℕ

pub record TxOut : Type 0 where
  pub value : ℕ
  pub script_pubkey : Script

pub record Transaction : Type 0 where
  pub version : ℕ
  pub lock_time : ℕ
  pub input : List TxIn
  pub output : List TxOut

-- `psbt::Input`, the fields that the program fills
pub record PsbtInput : Type 0 where
  pub non_witness_utxo : Option ℕ
  pub bip32_derivation : BTreeMap PublicKey ℕ
  pub witness_script : Option Script
  pub redeem_script : Option Script
  pub p2c_tweaks : List (PublicKey × Slice32)

-- `psbt::Output`: proprietary keys and their bytes
pub record PsbtOutput : Type 0 where
  pub proprietary : BTreeMap ℕ ℕ

pub record Psbt : Type 0 where
  pub unsigned_tx : Transaction
  pub inputs : List PsbtInput
  pub outputs : List PsbtOutput

-- `bp::seals::OutpointReveal`
pub record OutpointReveal : Type 0 where
  pub blinding : ℕ
  pub reveal_txid : Txid
  pub reveal_vout : ℕ

-- `rgb::SealDefinition`
pub data SealDefinition : Type 0 where
  tx_outpoint : OutpointReveal → SealDefinition
  witness_vout : ℕ → ℕ → SealDefinition
