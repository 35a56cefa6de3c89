-- ===== src/Rpc/Reply.antt =====
-- `src/rpc/reply.rs`
use Prim.Native.String.{String}
use citadel_runtime.Common.{ℕ, List}
use citadel_runtime.Common.Map.{BTreeMap}
use citadel_runtime.Foreign.Bitcoin.{AssetId, Address, Invoice, OutpointReveal}
use citadel_runtime.Model.Utxo.{Utxo}
use citadel_runtime.Model.Policy.{AddressDerivation}
use citadel_runtime.Model.Operation.{Operation}
use citadel_runtime.Model.Contract.{ContractMeta}
use citadel_runtime.Runtime.Error.{Error, Failure}
use citadel_runtime.Runtime.Message.{PreparedTransfer}
use citadel_runtime.Rpc.Info.{IdentityInfo}

-- `Reply`; a status of a validation and an asset are the numbers that stand for them
pub data Reply : Type 0 where
  success : Reply
  failure : Failure → Reply
  contracts : List ContractMeta → Reply
  contract : ContractMeta → Reply
  contract_unspent : BTreeMap AssetId (List Utxo) → Reply
  operations : List Operation → Reply
  addresses : BTreeMap Address ℕ → Reply
  address_derivation : AddressDerivation → Reply
  blind_utxo : OutpointReveal → Reply
  invoices : List Invoice → Reply
  prepared_payment : PreparedTransfer → Reply
  validation : ℕ → Reply
  asset : ℕ → Reply
  assets : List ℕ → Reply
  identities : List IdentityInfo → Reply

-- `From<presentation::Error> for Reply`: `info` is the text of the error
unfoldable pub malformed : String → Reply
malformed info = failure (record { code = 0; info = info })

module _ (to_string : Error → String) where
  -- `From<Error> for rpc::Failure`
  unfoldable pub failure_of : Error → Failure
  failure_of (Error.server_failure f) = f
  failure_of e = record { code = 1; info = to_string e }

  -- `From<Error> for Reply`
  unfoldable pub failed : Error → Reply
  unfolding failure_of
  failed e = failure (failure_of e)
