-- ===== src/Model/Policy.antt =====
-- `src/model/policy.rs` and `src/model/address.rs`: spending policies and what they derive.
pub mod Scripts
use citadel_runtime.Common.{
  ℕ, zero, suc, ◌-◌, ltb, if◌then◌else◌, Bool, true, false, Option, none, some, List, [], ◌∷◌, map,
  map_option,
}
use citadel_runtime.Common.Key.{nat_key}
use citadel_runtime.Common.Map.{BTreeMap, insert, extend}
use citadel_runtime.Common.Result.{Result, ok, panic, map_ok, and_then}
use citadel_runtime.Foreign.Bitcoin.{Address, Script, PublicKey}
use citadel_runtime.Foreign.Wallet.{
  ChildIndex, ContractDescriptor, single_sig, compound, DescriptorType, bare, sh, pkh,
  sh_sorted_multi, wpkh, wsh, sh_wsh, sh_wpkh, wsh_sorted_multi, sh_wsh_sorted_multi, Descriptor,
  wpkh_of, wsh_ms, wsh_sortedmulti, other, DescriptorApi,
}

pub data PolicyType : Type 0 where
  current instant saving loan staking trading storage computing : PolicyType

pub record ChannelDescriptor : Type 0 where
  pub channel_id : ℕ
  pub peers : List ℕ

pub data Policy : Type 0 where
  current : ContractDescriptor → Policy
  instant : ChannelDescriptor → Policy
  saving : ContractDescriptor → Policy

pub record AddressDerivation : Type 0 where
  pub address : Address
  pub derivation : List ℕ

-- `Policy::policy_type`
unfoldable pub policy_type : Policy → PolicyType
policy_type (Policy.current d) = PolicyType.current
policy_type (Policy.instant c) = PolicyType.instant
policy_type (Policy.saving d) = PolicyType.saving

-- `Policy::is_scripted`
unfoldable pub is_scripted : Policy → Bool
is_scripted (Policy.current (single_sig c k)) = false
is_scripted (Policy.current (compound d)) = true
is_scripted (Policy.instant c) = true
is_scripted (Policy.saving d) = true

-- the inner match of `Policy::has_witness`
is_witness_type : DescriptorType → Bool
is_witness_type bare = false
is_witness_type sh = false
is_witness_type pkh = false
is_witness_type sh_sorted_multi = false
is_witness_type wpkh = true
is_witness_type wsh = true
is_witness_type sh_wsh = true
is_witness_type sh_wpkh = true
is_witness_type wsh_sorted_multi = true
is_witness_type sh_wsh_sorted_multi = true

module _ (api : DescriptorApi) where
  -- `Policy::translate`: the path that it builds is not used
  unfoldable pub translate : Descriptor → ℕ → ℕ
  translate d index = api.translate_keys d (λ chain. api.derive_pubkey chain index)

  -- the `if legacy` of `derive_descriptor`
  nested : Descriptor → Option Descriptor
  nested (wpkh_of d) = api.sh_wpkh_new d
  nested (wsh_ms d) = api.sh_wsh_new d
  nested (wsh_sortedmulti d) = api.sh_sortedmulti_new d
  nested (other d) = some (other d)

  -- the steps of `derive_address` after `derive_descriptor`
  abbrev address_at : ℕ → ℕ → Option ℕ → Option AddressDerivation
  address_at index chain none = none
  address_at index chain (some d) = elim (api.network chain) [
    | none ↦ none
    | some network ↦
        map_option (λ a. record { address = a; derivation = index ∷ [] }) (api.address d network)
  ]

module _ {E : Type 0} (api : DescriptorApi) where
  -- `Policy::to_descriptor`; `ChannelDescriptor::to_descriptor` is `unimplemented!()`
  unfoldable pub to_descriptor : Policy → Result E Descriptor
  to_descriptor (Policy.current d) = ok (api.to_descriptor d)
  to_descriptor (Policy.instant c) = panic
  to_descriptor (Policy.saving d) = ok (api.to_descriptor d)

  -- `Policy::has_witness`
  unfoldable pub has_witness : Policy → Result E Bool
  unfolding to_descriptor is_witness_type
  has_witness (Policy.instant c) = ok true
  has_witness (Policy.current d) =
      map_ok (λ k. is_witness_type (api.desc_type k)) (to_descriptor (Policy.current d))
  has_witness (Policy.saving d) =
      map_ok (λ k. is_witness_type (api.desc_type k)) (to_descriptor (Policy.saving d))

  -- `Policy::pubkey_chains`
  unfoldable pub pubkey_chains : Policy → Result E (List ℕ)
  unfolding to_descriptor
  pubkey_chains p = map_ok api.keys (to_descriptor p)

  -- `Policy::bip32_derivations`
  unfoldable pub bip32_derivations : Policy → ℕ → Result E (BTreeMap PublicKey ℕ)
  unfolding pubkey_chains
  bip32_derivations p index =
      map_ok (λ chains. extend [] (map (λ chain. api.bip32_derivation chain index) chains))
        (pubkey_chains p)

  first_key : List ℕ → ℕ → Result E PublicKey
  first_key [] index = panic
  first_key (chain ∷ chains) index = ok (api.derive_pubkey chain index)

  -- `Policy::first_public_key`
  unfoldable pub first_public_key : Policy → ℕ → Result E PublicKey
  unfolding pubkey_chains first_key
  first_public_key p index = and_then (pubkey_chains p) (λ chains. first_key chains index)

  module _ (hd : ChildIndex) where
    -- the `while` of `derive_scripts`; each round raises the index by one
    derive_loop : ℕ → Descriptor → ℕ → ℕ → BTreeMap ℕ Script → Result E (BTreeMap ℕ Script)
    derive_loop zero d index end script_map = ok script_map
    derive_loop (suc rounds) d index end script_map = elim (ltb index end) [
      | true ↦ elim (hd.checked_inc index) [
        | none ↦ panic
        | some next ↦
            derive_loop rounds d next end
              (insert index (api.script_pubkey (translate api d index)) script_map)
      ]
      | false ↦ ok script_map
    ]

    -- `Policy::derive_scripts` of the range `from..to`
    unfoldable pub derive_scripts : Policy → ℕ → ℕ → Result E (BTreeMap ℕ Script)
    unfolding to_descriptor derive_loop
    derive_scripts p from to =
        and_then (to_descriptor p) (λ d. derive_loop (to - from) d from to [])

  -- `Policy::derive_descriptor`
  unfoldable pub derive_descriptor : Policy → ℕ → Bool → Result E (Option ℕ)
  unfolding to_descriptor nested translate
  derive_descriptor p index legacy =
      map_ok
        (λ d. map_option (λ d'. translate api d' index) (if legacy then nested api d else some d))
        (to_descriptor p)

  -- `Policy::derive_address`
  unfoldable pub derive_address : Policy → ℕ → ℕ → Bool → Result E (Option AddressDerivation)
  unfolding derive_descriptor
  derive_address p index chain legacy =
      map_ok (address_at api index chain) (derive_descriptor p index legacy)
