-- ===== src/Client/Payments.antt =====
-- `invoice_pay`, with the server behind the socket.
use citadel_runtime.Common.{ℕ}
use citadel_runtime.Foreign.Bitcoin.{Invoice}
use citadel_runtime.Model.Operation.{Operation}
use citadel_runtime.Model.Contract.{ContractId}
use citadel_runtime.Storage
use citadel_runtime.Runtime.Error.{Error}
use citadel_runtime.Runtime.Message.{TransferInfo}
use citadel_runtime.Rpc.Request.{Request}
use citadel_runtime.Rpc.Reply.{Reply}
use citadel_runtime.Server.Outside as Served
use citadel_runtime.Client.{transfer_info}

-- the request of `invoice_pay`
abbrev compose : ContractId → ℕ → ℕ → TransferInfo → Invoice → Request
compose id fee v info inv = Request.compose_transfer (record {
  pay_from = id;
  bitcoin_fee = fee;
  asset_value = v;
  transfer_info = info;
  invoice = inv;
})
