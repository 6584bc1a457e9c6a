-- ===== src/Document.antt =====
-- plugins/module_utils/luks_header_onepassword.py: a header package as a 1Password Document.
pub mod Config
pub mod Cli
pub mod Native
pub mod Inspect
pub mod Transfer
pub mod Quiet
pub mod Pinned
pub mod Approved
pub mod Tests
