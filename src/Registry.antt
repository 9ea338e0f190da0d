-- ===== src/Registry.antt =====
-- packages/agents/src/registry: where packs come from.
pub mod Types
pub mod Cache
pub mod Spec
pub mod Memory
pub mod Publish
