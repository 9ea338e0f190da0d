-- ===== src/Dependencies.antt =====
-- packages/agents/src/dependencies: the packs that a run depends on.
pub mod Root
pub mod Activation
pub mod Lockfile
