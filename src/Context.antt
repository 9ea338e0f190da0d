-- ===== src/Context.antt =====
-- packages/agents/src/context: what is put before an agent, within a budget of characters.
pub mod Lexical
pub mod Budget
pub mod Types
pub mod Rank
pub mod Compiler
