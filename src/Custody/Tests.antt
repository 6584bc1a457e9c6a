-- ===== src/Custody/Tests.antt =====
-- An in-memory provider, a concrete package, and the theorems at them.
pub mod Memory
pub mod Sample
mod Runs
