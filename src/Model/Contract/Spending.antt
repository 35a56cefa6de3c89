-- ===== src/Model/Contract/Spending.antt =====
-- The trait `SpendingPolicy` of `src/model/contract.rs`, and the commitments of contracts and
-- policies.
use citadel_runtime.Common.{ℕ, ◌≡◌, refl, Bool, Option, List}
use citadel_runtime.Common.Result.{Result, map_ok}
use citadel_runtime.Foreign.Wallet.{DescriptorApi}
use citadel_runtime.Model.Policy.{
  Policy, PolicyType, AddressDerivation, policy_type, pubkey_chains, to_descriptor, derive_address,
}
use citadel_runtime.Model.Contract.{
  Contract, ContractId, ContractMeta, to_meta, contract_with, contract_address,
}

pub record SpendingPolicy (A : Type 0) : Type 0 where
  pub policy : A → Policy
  pub chain : A → ℕ

instance abbrev pub spending_contract : SpendingPolicy Contract
spending_contract = record { policy = λ c. c.policy; chain = λ c. c.chain }

instance abbrev pub spending_meta : SpendingPolicy ContractMeta
spending_meta = record { policy = λ m. m.policy; chain = λ m. m.chain }

-- the provided methods of the trait
module _ {A : Type 0} ⦃s : SpendingPolicy A⦄ where
  unfoldable spending_type : A → PolicyType
  spending_type a = policy_type (s.policy a)

  unfoldable spending_keys : {E : Type 0} → DescriptorApi → A → Result E (List ℕ)
  spending_keys api a = map_ok api.keys (to_descriptor api (s.policy a))

  unfoldable spending_address :
      {E : Type 0} → DescriptorApi → A → ℕ → Bool → Result E (Option AddressDerivation)
  spending_address api a index legacy = derive_address api (s.policy a) index (s.chain a) legacy

-- What a contract and its metadata spend by is the same, and it is what the policy says.
to_meta_spending :
    {E : Type 0} (api : DescriptorApi) (c : Contract) (index : ℕ) (legacy : Bool)
    → (spending_type (to_meta c) ≡ policy_type c.policy)
      × (spending_keys {E = E} api (to_meta c) ≡ pubkey_chains api c.policy)
      × (spending_address {E = E} api (to_meta c) index legacy
          ≡ contract_address api c index legacy)
unfolding spending_type spending_keys spending_address pubkey_chains contract_address to_meta
to_meta_spending api c index legacy = (refl, refl, refl)

-- `strict_encode` of a policy, and the hash of `consensus_commit`
module _ (strict_encode : Policy → List ℕ) (hash : List ℕ → ContractId) where
  -- `Policy::commit_encode`
  unfoldable policy_commit : Policy → List ℕ
  policy_commit p = strict_encode p

  -- `Contract::commit_encode`
  unfoldable contract_commit : Contract → List ℕ
  contract_commit c = strict_encode c.policy

  -- `Policy::id`
  unfoldable policy_id : Policy → ContractId
  unfolding policy_commit
  policy_id p = hash (policy_commit p)

  -- The id of a contract that `Contract::with` makes is the commitment of that contract.
  contract_with-commit :
      (now : ℕ) (p : Policy) (name chain : ℕ)
      → (contract_with policy_id now p name chain).id
        ≡ hash (contract_commit (contract_with policy_id now p name chain))
  unfolding policy_id contract_commit contract_with
  contract_with-commit now p name chain = refl
