-- ===== src/OnePassword/Secret.antt =====
-- `_OnePasswordSecretItemStore.run` and the action: one new item under a one-time approval.
pub mod Config
pub mod Authorized
pub mod Inspect
pub mod Approved
pub mod Exact
mod Tests
use ansible_collection_found.Base.{
  ℕ, String, ◌<>◌, Bool, true, false, not, ◌&&◌, ◌||◌, Option, none, some, List, [], ◌∷◌, ◌++◌,
  join,
}
use ansible_collection_found.Base.Exec.{Exec, pure, raise, check, ◌>>=◌, ◌>>◌}
use ansible_collection_found.Base.Value.{Value, Fields}
use ansible_collection_found.Stdlib.{Stdlib}
use ansible_collection_found.Approval.Os.{Os}
use ansible_collection_found.Approval.Normalize.{Trusted}
use ansible_collection_found.Approval.Claim.{Approval, Moment}
use ansible_collection_found.OnePassword.Arguments.{Operation, is_plan}
use ansible_collection_found.OnePassword.Client.{Desktop, Client, run_discard, onepassword_cli}
use ansible_collection_found.OnePassword.Claimed.{claimed_then}
use ansible_collection_found.OnePassword.Manager.{metadata_if}
use ansible_collection_found.OnePassword.Secret.Config.{Item}
use ansible_collection_found.OnePassword.Secret.Authorized.{normalize_secret}
use ansible_collection_found.OnePassword.Secret.Inspect.{Seen, inspect_item}

pub record Created : Type 0 where
  pub changed : Bool
  pub created : Bool
  pub planned : Bool
  pub seen : Seen
  pub approval : Option Value

-- `observed["exists"]`
abbrev pub exists : Seen → Bool
exists seen = elim (seen.found) [ none ↦ false | some _ ↦ true ]

unfoldable pub plan_result : Option Approval → Seen → Created
plan_result approval seen = record {
  changed = not (exists seen);
  created = false;
  planned = not (exists seen);
  seen = seen;
  approval = metadata_if approval;
}

unfoldable pub creation_result : Option Approval → Seen → Created
creation_result approval seen = record {
  changed = true;
  created = true;
  planned = false;
  seen = seen;
  approval = metadata_if approval;
}

abbrev pub tag_arguments : List String → List String
tag_arguments [] = []
tag_arguments (t ∷ ts) = "--tags" ∷ join "," (t ∷ ts) ∷ []

unfoldable pub creation_arguments : Stdlib → Item → List String
creation_arguments py config =
    "item"
    ∷ "create"
    ∷ "--account"
    ∷ config.pins.account_id
    ∷ "--vault"
    ∷ config.pins.vault_id
    ∷ "--category"
    ∷ "Password"
    ∷ "--title"
    ∷ config.item_title
    ∷ (tag_arguments config.tags
        ++ ("--generate-password=" <> config.password_recipe)
          ∷ ("subject[text]=" <> config.subject)
          ∷ ("schema_version[text]=" <> Stdlib.decimal py 1)
          ∷ ("expected_length[text]=" <> Stdlib.decimal py config.password_length)
          ∷ [])

module _ (py : Stdlib) (os : Os) (desktop : Desktop (Os.State os)) (trusted : Trusted (Os.State os))
    (clock : Exec (Os.State os) Moment) where
  open os use {State}

  -- The creation and its readback, once the approval is claimed.
  unfoldable pub create_item : Client → Item → Option Approval → Exec State Created
  create_item client config approval = do
    run_discard desktop trusted client (creation_arguments py config) "item creation"
    seen ← inspect_item desktop py trusted client config
    check (not (exists seen)) "1Password did not return the created item metadata."
    pure (creation_result approval seen)

  unfoldable pub run_item : Client → Item → Option Approval → Bool → Exec State Created
  run_item client config approval check_mode = do
    seen ← inspect_item desktop py trusted client config
    check (not (is_plan config.operation) && exists seen)
        "apply found a pre-existing unpinned item; review and pin its item ID before using a separate plan operation."
    elim (is_plan config.operation || check_mode) [
      | true ↦ pure (plan_result approval seen)
      | false ↦ claimed_then py os clock approval (create_item client config approval)
    ]

  -- The action plugin's `run`.
  unfoldable pub secret_item : Fields → Bool → Exec State Created
  secret_item args check_mode = do
    config ← normalize_secret py desktop trusted clock args
    client ←
        onepassword_cli desktop trusted config.0.cli_path config.0.cli_sha256
          config.0.pins.account_id
    run_item client config.0 config.1 check_mode
