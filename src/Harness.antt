-- ===== src/Harness.antt =====
-- packages/agents/src/harness: the types that the harness and its parts share.
pub mod Types
pub mod Recover
pub mod Lifecycle
