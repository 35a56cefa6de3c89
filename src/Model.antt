-- ===== src/Model.antt =====
-- `src/model`: the data that the runtime keeps.
pub mod Utxo
pub mod Policy
pub mod Operation
pub mod Contract
