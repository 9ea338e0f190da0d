-- ===== src/Tests.antt =====
-- Runs on concrete inputs, and the theorems applied to them.
mod Sample
mod Engine
mod Builder
mod Harness
mod Parts
mod Lockfile
mod Acquire
mod Judged
mod Skills
mod Experience
mod Registry
