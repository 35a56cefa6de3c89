-- ===== src/Foreign/Wallet.antt =====
-- The crates `descriptor-wallet`, `miniscript` and `lnpbp`: child indexes and descriptors.
use citadel_runtime.Common.{ℕ, ◌+◌, ◌≤◌, ◌<◌, ◌≡◌, Option, none, some, List}
use citadel_runtime.Foreign.Bitcoin.{Script, Address, PublicKey}

-- `wallet::hd::UnhardenedIndex`: the indexes from 0 up to `largest`
pub record ChildIndex : Type 0 where
  pub largest : ℕ
  pub checked_inc : ℕ → Option ℕ
  pub checked_add : ℕ → ℕ → Option ℕ
  pub inc_below : (i : ℕ) → i < largest → checked_inc i ≡ some (i + 1)
  pub inc_largest : checked_inc largest ≡ none
  pub add_fits : (i d : ℕ) → i + d ≤ largest → checked_add i d ≡ some (i + d)
  pub add_overflows : (i d : ℕ) → largest < i + d → checked_add i d ≡ none

-- `wallet::descriptors::ContractDescriptor`; the program tells only `SingleSig` from the others
pub data ContractDescriptor : Type 0 where
  single_sig : ℕ → ℕ → ContractDescriptor
  compound : ℕ → ContractDescriptor

-- `miniscript::descriptor::DescriptorType`
pub data DescriptorType : Type 0 where
  bare sh pkh sh_sorted_multi wpkh wsh sh_wsh sh_wpkh wsh_sorted_multi : DescriptorType
  sh_wsh_sorted_multi : DescriptorType

-- `miniscript::Descriptor`, the cases that the program matches on
pub data Descriptor : Type 0 where
  wpkh_of : ℕ → Descriptor
  wsh_ms : ℕ → Descriptor
  wsh_sortedmulti : ℕ → Descriptor
  other : ℕ → Descriptor

pub record DescriptorApi : Type 0 where
  pub to_descriptor : ContractDescriptor → Descriptor
  pub desc_type : Descriptor → DescriptorType
  -- the keys that `for_each_key` visits
  pub keys : Descriptor → List ℕ
  -- `chain.derive_pubkey(SECP256K1, Some(index))`
  pub derive_pubkey : ℕ → ℕ → PublicKey
  -- `chain.bip32_derivation(SECP256K1, Some(index))`
  pub bip32_derivation : ℕ → ℕ → PublicKey × ℕ
  -- `d.translate_pk2_infallible(f)`: every key of `d` replaced
  pub translate_keys : Descriptor → (ℕ → PublicKey) → ℕ
  pub script_pubkey : ℕ → Script
  pub explicit_script : ℕ → Script
  pub address : ℕ → ℕ → Option Address
  -- `Network::try_from(chain).ok()`
  pub network : ℕ → Option ℕ
  pub sh_wpkh_new : ℕ → Option Descriptor
  pub sh_wsh_new : ℕ → Option Descriptor
  pub sh_sortedmulti_new : ℕ → Option Descriptor
  -- `address.script_pubkey()`
  pub address_script : Address → Script
  -- `PubkeyScript::from(descriptor)`
  pub compact_script : ℕ → Script
