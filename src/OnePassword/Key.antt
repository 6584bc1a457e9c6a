-- ===== src/OnePassword/Key.antt =====
-- plugins/action/onepassword_ssh_key_item.py: an SSH key item, created under a one-time approval, read, or verified
-- against the agent that holds it.
pub mod Config
pub mod Identity
pub mod Inspect
pub mod Proof
pub mod Proved
pub mod Calm
pub mod Approved
mod Tests
use ansible_collection_found.Base.{
  ℕ, String, ◌<>◌, Bool, true, false, not, ◌&&◌, ◌||◌, Option, none, some, List, [], ◌∷◌, ◌++◌,
}
use ansible_collection_found.Base.Exec.{Exec, pure, raise, lift, check, ◌>>=◌, ◌>>◌}
use ansible_collection_found.Base.Value.{Value, Fields, null, dict, end}
use ansible_collection_found.Stdlib.{Stdlib}
use ansible_collection_found.Approval.Os.{Os}
use ansible_collection_found.Approval.Normalize.{Trusted}
use ansible_collection_found.Approval.Claim.{Approval, Moment}
use ansible_collection_found.Approval.Signers.{Codec}
use ansible_collection_found.Approval.Trust.{Scratch}
use ansible_collection_found.Approval.Validate.{normalize_approval}
use ansible_collection_found.OnePassword.Arguments.{get_or, is_unset}
use ansible_collection_found.OnePassword.Client.{Desktop, Client, run_discard, onepassword_cli}
use ansible_collection_found.OnePassword.Claimed.{claimed_then}
use ansible_collection_found.OnePassword.Manager.{metadata_if}
use ansible_collection_found.OnePassword.Secret.{tag_arguments}
use ansible_collection_found.OnePassword.Key.Config.{
  Key, KeyOperation, plan_key, apply_key, read_public, verify_agent, applies_key, needs_agent,
  key_binding, check_key,
}
use ansible_collection_found.OnePassword.Key.Inspect.{SeenKey, inspect_key, public_metadata}
use ansible_collection_found.OnePassword.Key.Proof.{Agent, verify_agent_key}

pub record KeyReport : Type 0 where
  pub changed : Bool
  pub created : Bool
  pub planned : Bool
  pub found : Option (String × ℕ)
  pub operator_user_uuid : String
  -- the public key and its fingerprint
  pub identity : Option (String × String)
  pub agent_verified : Bool
  pub approval : Option Value

abbrev pub is_there : SeenKey → Bool
is_there seen = elim (seen.found) [ none ↦ false | some _ ↦ true ]

-- Whether the run only plans.
abbrev pub plans : KeyOperation → Bool → Bool
plans plan_key check_mode = true
plans apply_key check_mode = check_mode
plans _ check_mode = false

unfoldable pub key_arguments : Stdlib → Key → List String
key_arguments py config =
    "item"
    ∷ "create"
    ∷ "--account"
    ∷ config.pins.account_id
    ∷ "--vault"
    ∷ config.pins.vault_id
    ∷ "--category=ssh"
    ∷ "--title"
    ∷ config.item_title
    ∷ (tag_arguments config.tags
        ++ "--ssh-generate-key=ed25519"
          ∷ ("subject[text]=" <> config.subject)
          ∷ ("schema_version[text]=" <> Stdlib.decimal py 1)
          ∷ [])

module _ (py : Stdlib) (codec : Codec) (os : Os) (desktop : Desktop (Os.State os))
    (upper : String → String) (trusted : Trusted (Os.State os)) (scratch : Scratch (Os.State os))
    (agent : Agent (Os.State os)) (clock : Exec (Os.State os) Moment) where
  open os use {State}

  -- The approval that the operation needs, or none.
  unfoldable pub key_approval : Fields → Key → Bool → Exec State (Option Approval)
  key_approval args config true = do
    approval ←
        normalize_approval py trusted (get_or args "approval" (dict end))
          (get_or args "approval_authority" null) "create-onepassword-ssh-key" config.subject
          (key_binding config) clock
    pure (some approval)
  key_approval args config false = do
    check (not (is_unset (get_or args "approval_authority" null)))
        "approval_authority is accepted only for apply."
    check (not (is_unset (get_or args "approval" (dict end))))
        "approval is accepted only for apply."
    pure none

  unfoldable pub normalize_key : Fields → Exec State (Key × Option Approval)
  normalize_key args = do
    config ← lift (check_key desktop args)
    approval ← key_approval args config (applies_key config.operation)
    pure (config, approval)

  -- The public key of an item that is there.
  unfoldable pub planned_identity :
      Client → Key → Option (String × ℕ) → Exec State (Option (String × String))
  planned_identity client config none = pure none
  planned_identity client config (some found) = do
    identity ← public_metadata py codec desktop upper trusted client config found
    pure (some identity)

  unfoldable pub plan_report : Client → Key → Option Approval → SeenKey → Exec State KeyReport
  plan_report client config approval seen = do
    identity ← planned_identity client config seen.found
    pure (record {
      changed = not (is_there seen);
      created = false;
      planned = not (is_there seen);
      found = seen.found;
      operator_user_uuid = seen.operator_user_uuid;
      identity = identity;
      agent_verified = false;
      approval = metadata_if approval;
    })

  unfoldable pub prove_if : Bool → Key → String × String → Exec State Bool
  prove_if false config identity = pure false
  prove_if true config identity = do
    verify_agent_key py codec trusted scratch agent config.tools identity
    pure true

  -- The public key of the item, and its proof by the agent.
  unfoldable pub report_key :
      Client → Key → Option Approval → Bool → SeenKey → Option (String × ℕ) → Exec State KeyReport
  report_key client config approval created seen none = raise "The exact SSH Key item is absent."
  report_key client config approval created seen (some found) = do
    identity ← public_metadata py codec desktop upper trusted client config found
    proved ← prove_if (needs_agent config.operation) config identity
    pure (record {
      changed = created;
      created = created;
      planned = false;
      found = some found;
      operator_user_uuid = seen.operator_user_uuid;
      identity = some identity;
      agent_verified = proved;
      approval = metadata_if approval;
    })

  -- The creation and its readback, once the approval is claimed.
  unfoldable pub create_key : Client → Key → Option Approval → Exec State KeyReport
  create_key client config approval = do
    run_discard desktop trusted client (key_arguments py config) "SSH item creation"
    seen ← inspect_key py codec desktop upper trusted client config false
    check (not (is_there seen)) "1Password did not return the created SSH item metadata."
    report_key client config approval true seen seen.found

  unfoldable pub run_key : Client → Key → Option Approval → Bool → Exec State KeyReport
  run_key client config approval check_mode = do
    seen ← inspect_key py codec desktop upper trusted client config false
    check (applies_key config.operation && is_there seen)
        "apply found a pre-existing unpinned SSH item; review and pin its item ID, positive item version, and fingerprint before a separate validation operation."
    elim (plans config.operation check_mode) [
      | true ↦ plan_report client config approval seen
      | false ↦ elim (applies_key config.operation) [
        | true ↦ claimed_then py os clock approval (create_key client config approval)
        | false ↦ report_key client config approval false seen seen.found
      ]
    ]

  -- The action plugin's `run`.
  unfoldable pub ssh_key_item : Fields → Bool → Exec State KeyReport
  ssh_key_item args check_mode = do
    config ← normalize_key args
    client ←
        onepassword_cli desktop trusted config.0.cli_path config.0.cli_sha256
          config.0.pins.account_id
    run_key client config.0 config.1 check_mode
