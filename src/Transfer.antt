-- ===== src/Transfer.antt =====
-- `Runtime::transfer` of `src/runtime/processor/transfer.rs`, stage by stage.
pub mod Coins
pub mod Change
pub mod Prepare
