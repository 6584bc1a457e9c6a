-- ===== src/Firewall.antt =====
-- plugins/filter/root_of_trust.py: the fail-closed contract of a root-of-trust firewall plan.
pub mod Order
pub mod Checks
pub mod Rules
pub mod Plan
pub mod Counts
pub mod Exposure
mod Tests
