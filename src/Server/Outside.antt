-- ===== src/Server/Outside.antt =====
-- What the requests call and the runtime does not implement, besides `Services`.
use Prim.Native.String.{String}
use citadel_runtime.Common.{ℕ, Bool, List}
use citadel_runtime.Common.Result.{Result}
use citadel_runtime.Foreign.Bitcoin.{OutPoint, OutpointReveal, Psbt, Transaction}
use citadel_runtime.Model.Policy.{Policy}
use citadel_runtime.Model.Contract.{ContractId}
use citadel_runtime.Runtime.Error.{Error}
use citadel_runtime.Runtime.State.{Services, SealEndpoint}
use citadel_runtime.Rpc.Request.{Request}
use citadel_runtime.Rpc.Reply.{Reply}

-- `M` is the type of the raw messages.
pub record Backend (M : Type 0) : Type 0 where
  pub services : Services
  -- `config.chain`
  pub chain : ℕ
  -- the commitments of a policy and of a blinded outpoint
  pub commit : Policy → ContractId
  pub conceal : OutpointReveal → ℕ
  -- `OutpointReveal::from`, which takes the blinding factor from the generator
  pub reveal_of : OutPoint → ℕ → OutpointReveal × ℕ
  -- `to_string` of an error
  pub to_string : Error → String
  -- `serialize` of a reply, and the unmarshaller of requests
  pub serialize : Reply → M
  pub unmarshall : M → Result String Request
  -- the RGB node; `endpoints` are those of a consignment, `is_valid` compares the validity
  pub endpoints : ℕ → List SealEndpoint
  pub validate : ℕ → Result Error ℕ
  pub is_valid : ℕ → Bool
  pub accept : ℕ → List OutpointReveal → Result Error (Unit {0})
  pub import_asset : ℕ → Result Error ℕ
  pub list_assets : Result Error (List ℕ)
  -- `Vec::<Asset>::strict_deserialize`
  pub decode_assets : List ℕ → Result ℕ (List ℕ)
  -- `miniscript::psbt::finalize` and `extract`
  pub finalize : Psbt → Result String Psbt
  pub extract : Psbt → Result String Transaction
  -- `transaction_broadcast` of the electrum server: whether it takes the transaction
  pub broadcast : Transaction → Bool
