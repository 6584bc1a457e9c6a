-- ===== src/Handoff.antt =====
-- plugins/module_utils/luks_header_native_handoff.py: requests to the native client, and its responses.
pub mod Request
pub mod Response
pub mod Safety
mod Tests
