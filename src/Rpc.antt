-- ===== src/Rpc.antt =====
-- `src/rpc`: what a client asks the server, and what the server answers.
pub mod Info
pub mod Request
pub mod Reply
