-- ===== src/OnePassword.antt =====
-- plugins/action/onepassword_vault_co_manager.py, onepassword_secret_item.py, onepassword_ssh_key_item.py and
-- onepassword_approval.py: the actions that change a 1Password account, and the key that approves one.
pub mod Environment
pub mod Client
pub mod Arguments
pub mod Account
pub mod Quiet
pub mod Claimed
pub mod Manager
pub mod Secret
pub mod Key
pub mod Signing
