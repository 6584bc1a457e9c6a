-- ===== src/OnePassword/Manager/Config.antt =====
-- `_normalize_arguments` and `_approval_binding` of the vault co-manager.
use ansible_collection_found.Base.{
  String, ◌<>◌, Bool, false, not, ◌&&◌, Option, none, some, List, [], ◌∷◌, leb, len,
}
use ansible_collection_found.Base.Result.{Result, refuse}
use ansible_collection_found.Base.Exec.{Exec, pure, lift, check, ◌>>=◌, ◌>>◌}
use ansible_collection_found.Base.Value.{
  Value, Fields, Items, null, bool, str, list, dict, nil, cons, end, field, get,
}
use ansible_collection_found.Stdlib.{Stdlib}
use ansible_collection_found.Approval.Normalize.{Trusted}
use ansible_collection_found.Approval.Checks.{
  normalize_sha256, is_user_uuid, normalize_user_uuid_list,
}
use ansible_collection_found.Approval.Claim.{Approval, Moment}
use ansible_collection_found.Approval.Validate.{normalize_approval}
use ansible_collection_found.Document.Config.{is_object_id, is_version}
use ansible_collection_found.OnePassword.Arguments.{
  is_host, is_email, get_or, is_unset, check_known, normalize_boolean, Operation, plan, apply,
  operation_name, parse_operation, parse_cli_path, exact,
}
use ansible_collection_found.OnePassword.Account.{Pins}
use ansible_collection_found.OnePassword.Client.{Desktop}

abbrev pub expected_args : List String
expected_args =
    "operation" ∷ "cli_path" ∷ "cli_sha256" ∷ "cli_version" ∷ "account_id"
    ∷ "account_sign_in_address" ∷ "authorized_user_uuids" ∷ "vault_id" ∷ "user_uuid" ∷ "user_email"
    ∷ "allow_grant" ∷ "approval_authority" ∷ "approval" ∷ []

abbrev pub required_permissions : List String
required_permissions = "allow_viewing" ∷ "allow_editing" ∷ "allow_managing" ∷ []

-- The checked arguments, but for the approval.
pub record Grant : Type 0 where
  pub operation : Operation
  pub cli_path : String
  pub cli_sha256 : String
  pub pins : Pins
  pub user_uuid : String
  pub user_email : String
  pub allow_grant : Bool

abbrev pub str_items : List String → Items
str_items [] = nil
str_items (s ∷ ss) = cons (str s) (str_items ss)

unfoldable pub approval_binding : Grant → Value
approval_binding config = dict (
    field "operation" (str (operation_name config.operation)) (
      field "allow_grant" (bool config.allow_grant) (
        field "account_id" (str config.pins.account_id) (
          field "account_sign_in_address" (str config.pins.address) (
            field "authorized_user_uuids" (list (str_items config.pins.authorized_user_uuids)) (
              field "cli_path" (str config.cli_path) (
                field "cli_sha256" (str config.cli_sha256) (
                  field "cli_version" (str config.pins.cli_version) (
                    field "required_permissions" (list (str_items required_permissions)) (
                      field "user_email" (str config.user_email) (
                        field "user_uuid" (str config.user_uuid)
                          (field "vault_id" (str config.pins.vault_id) end))))))))))))

-- `allow_grant` for the operation.
unfoldable pub check_allowed : Operation → Bool → Result (Unit {0})
check_allowed plan allowed = refuse allowed "plan cannot permit a permission grant."
check_allowed apply allowed = refuse (not allowed) "apply requires allow_grant=true."

module _ {S : Type 0} (desktop : Desktop S) where
  open desktop use {lower, normpath}

  unfoldable pub check_arguments : Fields → Exec S Grant
  check_arguments args = do
    lift (check_known expected_args args)
    operation ← lift (parse_operation (get args "operation"))
    cli_path ← lift (parse_cli_path normpath (get args "cli_path"))
    cli_version ←
        lift (
          exact is_version (get args "cli_version")
            "cli_version must be an exact semantic version.")
    cli_sha256 ← lift (normalize_sha256 (get args "cli_sha256") "cli_sha256")
    users ←
        lift (normalize_user_uuid_list (get args "authorized_user_uuids") "authorized_user_uuids")
    account_id ←
        lift
          (exact is_user_uuid (get args "account_id") "account_id must be an exact 1Password UUID.")
    user_uuid ←
        lift
          (exact is_user_uuid (get args "user_uuid") "user_uuid must be an exact 1Password UUID.")
    vault_id ←
        lift
          (exact is_object_id (get args "vault_id") "vault_id must be an exact 1Password vault ID.")
    address ← lift (
        exact is_host (get args "account_sign_in_address")
          "account_sign_in_address must be an exact host name.")
    email ← lift (
        exact (λ s. leb (len s) 254 && is_email s) (get args "user_email")
          "user_email must be an exact safe email address.")
    allow_grant ← lift (normalize_boolean (get_or args "allow_grant" (bool false)) "allow_grant")
    lift (check_allowed operation allow_grant)
    pure (record {
      operation = operation;
      cli_path = cli_path;
      cli_sha256 = cli_sha256;
      pins = record {
        cli_version = cli_version;
        account_id = account_id;
        address = lower address;
        authorized_user_uuids = users;
        vault_id = vault_id;
      };
      user_uuid = user_uuid;
      user_email = lower email;
      allow_grant = allow_grant;
    })

  module _ (py : Stdlib) (trusted : Trusted S) (clock : Exec S Moment) where
    -- The approval that the operation needs, or none.
    unfoldable pub approval_of : Fields → Grant → Operation → Exec S (Option Approval)
    approval_of args config apply = do
      approval ←
          normalize_approval py trusted (get_or args "approval" (dict end))
            (get_or args "approval_authority" null) "grant-onepassword-vault-co-manager"
            (config.pins.vault_id <> (":" <> config.user_uuid)) (approval_binding config) clock
      pure (some approval)
    approval_of args config plan = do
      check (not (is_unset (get_or args "approval_authority" null)))
          "approval_authority is accepted only for apply."
      check (not (is_unset (get_or args "approval" (dict end))))
          "approval is accepted only for apply."
      pure none

    unfoldable pub normalize_arguments : Fields → Exec S (Grant × Option Approval)
    normalize_arguments args = do
      config ← check_arguments args
      approval ← approval_of args config config.operation
      pure (config, approval)
