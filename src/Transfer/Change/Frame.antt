-- ===== src/Transfer/Change/Frame.antt =====
-- The stages of the payment and of the change leave the storage as it is.
use citadel_runtime.Common.{ℕ, ◌≡◌, refl, Option, none, some, List, arith}
use citadel_runtime.Common.Result.{Exec}
use citadel_runtime.Foreign.Bitcoin.{OutPoint}
use citadel_runtime.Model.Utxo.{Utxo}
use citadel_runtime.Model.Contract.{Contract, ContractId}
use citadel_runtime.Runtime.Error.{Error}
use citadel_runtime.Runtime.Message.{TransferInfo, bitcoin, rgb, descriptor, blind_utxo, psbt}
use citadel_runtime.Runtime.State.{Runtime, Services}
use citadel_runtime.Transfer.Coins.{Choice}
use citadel_runtime.Transfer.Change.{
  Payment, pay, bitcoin_change, change_output, change_seal, rgb_change, bitcoin_input_amount,
}

-- a step that leaves the storage as it is
abbrev pub Frame : {A : Type 0} → Exec Runtime Error A → Type 0
Frame m = (r : Runtime) → (m r).1.storage ≡ r.storage

module _ (sv : Services) where
  pub pay-Frame : (info : TransferInfo) (v : ℕ) → Frame (pay sv info v)
  unfolding pay
  pay-Frame (bitcoin d) v r = refl
  pay-Frame (rgb i (blind_utxo h)) v r = refl
  pay-Frame (rgb i (descriptor d g)) v r = refl
  pay-Frame (rgb i (psbt p)) v r = refl

  change_output-Frame :
      (id : ContractId) (c : Contract) (change : ℕ) → Frame (change_output sv id c change)
  unfolding change_output
  change_output-Frame id c change r = ground arith

  pub bitcoin_change-Frame :
      (id : ContractId) (c : Contract) (p : Payment) (fee input : ℕ)
      → Frame (bitcoin_change sv id c p fee input)
  unfolding bitcoin_change
  bitcoin_change-Frame id c p fee input r = ground (arith, change_output-Frame id c)

  change_seal-Frame : (o : Option OutPoint) (vout : Option ℕ) → Frame (change_seal sv o vout)
  unfolding change_seal
  change_seal-Frame (some o) vout r = refl
  change_seal-Frame none (some vout) r = refl
  change_seal-Frame none none r = refl

  pub rgb_change-Frame :
      (info : TransferInfo) (v : ℕ) (choice : Choice) (vout : Option ℕ)
      → Frame (rgb_change sv info v choice vout)
  unfolding rgb_change
  rgb_change-Frame info v choice vout r =
      ground (arith, change_seal-Frame choice.change_outpoint vout r)

  pub input-Frame : (id : ContractId) (us : List Utxo) → Frame (bitcoin_input_amount id us)
  unfolding bitcoin_input_amount
  input-Frame id us r = ground arith
