-- ===== src/Experience.antt =====
-- packages/agents/src/experience: what local runs teach, and which lessons become skills.
pub mod Types
pub mod Promote
pub mod Policy
pub mod State
pub mod Store
