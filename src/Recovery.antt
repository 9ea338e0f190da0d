-- ===== src/Recovery.antt =====
-- packages/agents/src/recovery: the classes of failures, and the strategy that follows a failure.
pub mod Types
pub mod Classify
pub mod Policy
