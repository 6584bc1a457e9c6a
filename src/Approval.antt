-- ===== src/Approval.antt =====
-- plugins/module_utils/onepassword_boundary.py: the one-time approvals that guard every mutation of a
-- 1Password account.
pub mod Checks
pub mod Os
pub mod Disk
pub mod Files
pub mod Signers
pub mod Claim
pub mod Normalize
pub mod Validate
pub mod Trust
pub mod Signed
pub mod Tests
