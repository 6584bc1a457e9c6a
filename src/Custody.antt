-- ===== src/Custody.antt =====
-- plugins/module_utils/luks_header_custody.py: encrypted header packages and their publication to
-- a Vault KV2 mount.
pub mod Package
pub mod Chunks
pub mod Receipt
pub mod Client
pub mod Http
pub mod Vault
pub mod Retrieval
pub mod Publication
pub mod Tests
