-- ===== src/Skills.antt =====
-- packages/agents/src/skills: the skills that a task may use.
pub mod Types
pub mod Definition
pub mod Policy
pub mod Resolver
pub mod Hits
pub mod Acquire
