-- ===== src/Capabilities.antt =====
-- packages/agents/src/capabilities: grants of authority and the index of capability metadata.
pub mod Authority
pub mod Index
