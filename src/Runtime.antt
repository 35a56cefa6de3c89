-- ===== src/Runtime.antt =====
-- What the parts of `src/runtime` and `src/rpc` share: the state of the runtime, its errors, and
-- the servers that it calls.
pub mod Error
pub mod Message
pub mod State
pub mod Config
