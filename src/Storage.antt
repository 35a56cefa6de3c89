-- ===== src/Storage.antt =====
-- `src/storage/mod.rs` and the driver of `src/storage/file.rs`: the contracts of the wallet.
pub mod View
pub mod Durable
pub mod Invariant
pub mod Tweaks
use citadel_runtime.Common.{ℕ, ◌≡◌, Option, none, some, List, [], ◌∷◌, map}
use citadel_runtime.Common.Key.{nat_key}
use citadel_runtime.Common.Map.{get, insert, remove}
use citadel_runtime.Common.Result.{
  Result, ok, err, panic, Exec, ◌>>=◌, ◌>>◌, pure, lift, gets, modify, ok_or, map_ok,
}
use citadel_runtime.Foreign.Bitcoin.{Invoice, OutpointReveal}
use citadel_runtime.Model.Policy.{Policy}
use citadel_runtime.Model.Operation.{Operation}
use citadel_runtime.Model.Contract
use citadel_runtime.Model.Contract.{Contract, ContractId, Citadel, TweakedOutput, empty_citadel}
use citadel_runtime.Persist
use citadel_runtime.Persist.{Codec, FileConfig, FileDriver, Outcome}

-- `storage::Error`
pub data Error : Type 0 where
  io : ℕ → Error
  contract_exists : ContractId → Error
  contract_not_found : ContractId → Error
  identity_exists : ℕ → Error
  strict_encoding : ℕ → Error
  yaml_encoding : ℕ → Error
  json_encoding toml_encoding : Error

abbrev pub Storage : Type 0
Storage = FileDriver Citadel

-- `FileDriver::with` and `FileDriver::store` of the storage, which are those of the cache with
-- another value: `Citadel::default()`
abbrev pub with :
    Codec Citadel Error → FileConfig → Option (List ℕ) → List Outcome → Result Error Storage
with codec config file outcomes = Persist.with codec config file outcomes empty_citadel

abbrev pub store : Codec Citadel Error → Exec Storage Error (Unit {0})
store codec = Persist.store codec

-- `self.data.contracts.get(&contract_id)`
abbrev pub lookup : ContractId → Storage → Option Contract
lookup id d = get id d.content.contracts

-- `contracts`
unfoldable pub contracts : Storage → Result Error (List Contract)
contracts d = ok (map (λ e. e.1) d.content.contracts)

-- `contract_ref`
unfoldable pub contract_ref : ContractId → Storage → Result Error Contract
contract_ref id d = ok_or (lookup id d) (contract_not_found id)

-- `policy`
unfoldable pub policy : ContractId → Storage → Result Error Policy
unfolding contract_ref
policy id d = map_ok (λ (c : Contract). c.policy) (contract_ref id d)

-- `history`
unfoldable pub history : ContractId → Storage → Result Error (List Operation)
unfolding contract_ref Contract.history
history id d = map_ok Contract.history (contract_ref id d)

pub set_contract : ContractId → Contract → Storage → Storage
set_contract id c d = record d {
  content = record d.content { contracts = insert id c d.content.contracts };
}

-- the loop of `add_invoice`
unfoldable pub add_blindings : (OutpointReveal → ℕ) → List OutpointReveal → Contract → Contract
unfolding Contract.add_blinding
add_blindings conceal [] c = c
add_blindings conceal (r ∷ rs) c = add_blindings conceal rs (Contract.add_blinding conceal r c)

module _ (codec : Codec Citadel Error) where
  -- a change to the contract that `get_mut(&contract_id)` finds, and `store`
  edit : ContractId → (Contract → Contract) → Exec Storage Error (Unit {0})
  unfolding contract_ref set_contract
  edit id f d = (do c ← λ s. (contract_ref id s, s); modify (set_contract id (f c)); store codec) d

  -- `add_contract`
  unfoldable pub add_contract : Contract → Exec Storage Error Contract
  unfolding set_contract
  add_contract c d = (do modify (set_contract c.id c); store codec; pure c) d

  -- `rename_contract`
  unfoldable pub rename_contract : ContractId → ℕ → Exec Storage Error (Unit {0})
  unfolding edit
  rename_contract id new_name = edit id (λ c. record c { name = new_name })

  -- `delete_contract`
  unfoldable pub delete_contract : ContractId → Exec Storage Error (Unit {0})
  unfolding contract_ref
  delete_contract id d =
      (do
        _ ← λ s. (contract_ref id s, s)
        modify (λ s. record s {
          content = record s.content { contracts = remove id s.content.contracts };
        })
        store codec)
        d

  -- `add_invoice`
  unfoldable pub add_invoice :
      (OutpointReveal → ℕ)
      → ContractId
      → Invoice
      → List OutpointReveal
      → Exec Storage Error (Unit {0})
  unfolding edit add_blindings Contract.add_invoice
  add_invoice conceal id invoice reveals =
      edit id (λ c. add_blindings conceal reveals (Contract.add_invoice invoice c))

  -- `add_p2c_tweak`
  unfoldable pub add_p2c_tweak : ContractId → TweakedOutput → Exec Storage Error (Unit {0})
  unfolding edit Contract.add_p2c_tweak
  add_p2c_tweak id tweak = edit id (Contract.add_p2c_tweak tweak)

  -- `register_operation`
  unfoldable pub register_operation : ContractId → Operation → Exec Storage Error (Unit {0})
  unfolding edit Contract.add_operation
  register_operation id o = edit id (Contract.add_operation o)

-- The methods that change the storage, as one type of requests.
pub data Call : Type 0 where
  add : Contract → Call
  rename : ContractId → ℕ → Call
  delete : ContractId → Call
  invoice : ContractId → Invoice → List OutpointReveal → Call
  p2c_tweak : ContractId → TweakedOutput → Call
  operation : ContractId → Operation → Call

unfoldable pub run :
    Codec Citadel Error → (OutpointReveal → ℕ) → Call → Exec Storage Error (Unit {0})
run codec conceal (add c) = do add_contract codec c; pure tt
run codec conceal (rename id name) = rename_contract codec id name
run codec conceal (delete id) = delete_contract codec id
run codec conceal (invoice id i reveals) = add_invoice codec conceal id i reveals
run codec conceal (p2c_tweak id t) = add_p2c_tweak codec id t
run codec conceal (operation id o) = register_operation codec id o
