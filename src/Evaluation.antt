-- ===== src/Evaluation.antt =====
-- packages/agents/src/evaluation: how a run is judged.
pub mod Types
pub mod Suite
