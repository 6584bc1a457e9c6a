-- ===== src/OnePassword/Manager.antt =====
-- `_OnePasswordVaultCoManagerStore.run` and the action: a fixed permission grant under a one-time approval.
pub mod Config
pub mod Inspect
pub mod Approved
pub mod Complete
mod Tests
use ansible_collection_found.Base.{
  String, Bool, true, false, ◌||◌, Option, none, some, List, [], ◌∷◌, join, if◌then◌else◌,
}
use ansible_collection_found.Base.Exec.{Exec, pure, raise, ◌>>=◌, ◌>>◌}
use ansible_collection_found.Base.Value.{Value, Fields}
use ansible_collection_found.Stdlib.{Stdlib}
use ansible_collection_found.Approval.Os.{Os}
use ansible_collection_found.Approval.Normalize.{Trusted, safe_approval_metadata}
use ansible_collection_found.Approval.Claim.{Approval, Moment}
use ansible_collection_found.OnePassword.Arguments.{Operation, is_plan}
use ansible_collection_found.OnePassword.Client.{Desktop, Client, run_discard, onepassword_cli}
use ansible_collection_found.OnePassword.Claimed.{claimed_then}
use ansible_collection_found.OnePassword.Manager.Config.{
  Grant, required_permissions, normalize_arguments,
}
use ansible_collection_found.OnePassword.Manager.Inspect.{Observed, inspect}

pub record Report : Type 0 where
  pub changed : Bool
  pub planned : Bool
  pub observed : Observed
  pub required : List String
  pub approval : Option Value

abbrev pub metadata_if : Option Approval → Option Value
metadata_if none = none
metadata_if (some approval) = some (safe_approval_metadata approval)

-- `_result(config, observed, changed, planned)`
unfoldable pub result : Option Approval → Observed → Bool → Bool → Report
result approval observed changed planned = record {
  changed = changed;
  planned = planned;
  observed = observed;
  required = required_permissions;
  approval = metadata_if approval;
}

-- `bool(permissions)`
abbrev pub some_missing : List String → Bool
some_missing [] = false
some_missing (_ ∷ _) = true

abbrev pub grant_arguments : Grant → List String
grant_arguments config =
    "vault"
    ∷ "user"
    ∷ "grant"
    ∷ "--account"
    ∷ config.pins.account_id
    ∷ "--vault"
    ∷ config.pins.vault_id
    ∷ "--user"
    ∷ config.user_uuid
    ∷ "--permissions"
    ∷ join "," required_permissions
    ∷ "--no-input"
    ∷ []

module _ (py : Stdlib) (os : Os) (desktop : Desktop (Os.State os)) (trusted : Trusted (Os.State os))
    (clock : Exec (Os.State os) Moment) where
  open os use {State}

  -- The grant and its readback, once the approval is claimed.
  unfoldable pub grant : Client → Grant → Option Approval → Exec State Report
  grant client config approval = do
    run_discard desktop trusted client (grant_arguments config) "vault Co-Manager permission grant"
    observed ← inspect desktop trusted client config
    elim (some_missing observed.missing_permissions) [
      | true ↦ raise "1Password did not grant the complete Co-Manager permission set."
      | false ↦ pure (result approval observed true false)
    ]

  -- The second look before the claim.
  unfoldable pub apply_grant : Client → Grant → Option Approval → Exec State Report
  apply_grant client config approval = do
    observed ← inspect desktop trusted client config
    elim (some_missing observed.missing_permissions) [
      | true ↦ claimed_then py os clock approval (grant client config approval)
      | false ↦ pure (result approval observed false false)
    ]

  unfoldable pub run_store : Client → Grant → Option Approval → Bool → Exec State Report
  run_store client config approval check_mode = do
    observed ← inspect desktop trusted client config
    let missing = some_missing observed.missing_permissions
    elim (is_plan config.operation || check_mode) [
      | true ↦ pure (result approval observed missing missing)
      | false ↦ elim missing [
        | true ↦ apply_grant client config approval
        | false ↦ pure (result approval observed false false)
      ]
    ]

  -- The action plugin's `run`.
  unfoldable pub vault_co_manager : Fields → Bool → Exec State Report
  vault_co_manager args check_mode = do
    config ← normalize_arguments desktop py trusted clock args
    client ←
        onepassword_cli desktop trusted config.0.cli_path config.0.cli_sha256
          config.0.pins.account_id
    run_store client config.0 config.1 check_mode
