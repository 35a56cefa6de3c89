-- ===== src/Model/Contract.antt =====
-- `src/model/contract.rs`, `src/model/state.rs` and `src/model/citadel.rs`
pub mod Spending
use citadel_runtime.Common.{ℕ, ◌≡◌, Bool, Option, List, [], ◌∷◌, ◌++◌, map, arith, if◌then◌else◌}
use citadel_runtime.Common.Key.{Key, nat_key}
use citadel_runtime.Common.Map.{BTreeMap, insert}
use citadel_runtime.Common.Set.{BTreeSet, contains, add}
use citadel_runtime.Common.Result.{Result}
use citadel_runtime.Foreign.Bitcoin.{
  Script, Slice32, PublicKey, Invoice, AssetId, OutPoint, OutpointReveal,
}
use citadel_runtime.Foreign.Wallet.{DescriptorApi}
use citadel_runtime.Model.Policy.{Policy, AddressDerivation, derive_address}
use citadel_runtime.Model.Operation.{Operation}

-- `ContractId`, a tagged hash
abbrev pub ContractId : Type 0
ContractId = ℕ

pub record State : Type 0 where
  pub mu_sig : Slice32

pub record TweakedOutput : Type 0 where
  pub outpoint : OutPoint
  pub script : Script
  pub tweak : Slice32
  pub pubkey : PublicKey
  pub derivation_index : ℕ

abbrev pub tweaked_words : TweakedOutput → List ℕ
tweaked_words t =
    t.outpoint.txid ∷ t.outpoint.vout ∷ t.script ∷ t.tweak ∷ t.pubkey ∷ t.derivation_index ∷ []

pub tweaked_words_injective : (a b : TweakedOutput) → tweaked_words a ≡ tweaked_words b → a ≡ b
tweaked_words_injective a b h = ground arith

-- `derive(Ord)`
instance abbrev pub tweaked_key : Key TweakedOutput
tweaked_key = record { words = tweaked_words; words_injective = tweaked_words_injective }

pub record ContractData : Type 0 where
  pub state : State
  pub blinding_factors : BTreeMap ℕ OutpointReveal
  pub sent_invoices : List Invoice
  pub unpaid_invoices : BTreeMap Invoice ℕ
  pub p2c_tweaks : BTreeSet TweakedOutput
  pub operations : List Operation

-- `ContractData::default()`
abbrev pub no_data : ContractData
no_data = record {
  state = record { mu_sig = 0 };
  blinding_factors = [];
  sent_invoices = [];
  unpaid_invoices = [];
  p2c_tweaks = [];
  operations = [];
}

-- The field `data` of the source is `contents` here.
pub record Contract : Type 0 where
  pub id : ContractId
  pub name : ℕ
  pub chain : ℕ
  pub policy : Policy
  pub created_at : ℕ
  pub contents : ContractData

pub record ContractMeta : Type 0 where
  pub id : ContractId
  pub name : ℕ
  pub chain : ℕ
  pub policy : Policy
  pub created_at : ℕ

-- `From<Contract> for ContractMeta`
unfoldable pub to_meta : Contract → ContractMeta
to_meta c = record {
  id = c.id;
  name = c.name;
  chain = c.chain;
  policy = c.policy;
  created_at = c.created_at;
}

-- `Contract::with`: `commit` is the commitment of `Policy::id`, `now` the time of the call
unfoldable pub contract_with : (Policy → ContractId) → ℕ → Policy → ℕ → ℕ → Contract
contract_with commit now p name chain = record {
  id = commit p;
  name = name;
  chain = chain;
  policy = p;
  created_at = now;
  contents = no_data;
}

-- `Contract::tweaked_script_iter`
unfoldable tweaked_scripts : Contract → List Script
tweaked_scripts c = map (λ (t : TweakedOutput). t.script) c.contents.p2c_tweaks

-- `Contract::add_p2c_tweak`
unfoldable pub add_p2c_tweak : TweakedOutput → Contract → Contract
add_p2c_tweak t c = record c {
  contents = record c.contents { p2c_tweaks = add t c.contents.p2c_tweaks };
}

-- `Contract::add_operation`
unfoldable pub add_operation : Operation → Contract → Contract
add_operation o c = record c {
  contents = record c.contents { operations = c.contents.operations ++ o ∷ [] };
}

-- `Contract::history`
unfoldable pub history : Contract → List Operation
history c = c.contents.operations

-- `Contract::add_invoice`
unfoldable pub add_invoice : Invoice → Contract → Contract
add_invoice i c = if contains i c.contents.sent_invoices then c else record c {
  contents = record c.contents { sent_invoices = c.contents.sent_invoices ++ i ∷ [] };
}

-- `Contract::add_blinding`: `conceal` is the hash `commit_conceal`
unfoldable pub add_blinding : (OutpointReveal → ℕ) → OutpointReveal → Contract → Contract
add_blinding conceal r c = record c {
  contents = record c.contents {
    blinding_factors = insert (conceal r) r c.contents.blinding_factors;
  };
}

-- `SpendingPolicy::derive_address`
unfoldable pub contract_address :
    {E : Type 0} → DescriptorApi → Contract → ℕ → Bool → Result E (Option AddressDerivation)
contract_address api c index legacy = derive_address api c.policy index c.chain legacy

-- `model::Citadel`; identities and assets are never read or written
pub record Citadel : Type 0 where
  pub contracts : BTreeMap ContractId Contract
  pub identities : BTreeMap AssetId ℕ
  pub assets : BTreeMap AssetId ℕ

abbrev pub empty_citadel : Citadel
empty_citadel = record { contracts = []; identities = []; assets = [] }
