-- ===== src/OnePassword/Key/Config.antt =====
-- plugins/action/onepassword_ssh_key_item.py, `_normalize_arguments`: what may be asked of an SSH key item.
use ansible_collection_found.Base.{
  ℕ, String, ◌<>◌, Bool, true, false, not, ◌&&◌, ◌||◌, ◌==◌, Option, some, List, [], ◌∷◌, any,
  codes, nat_eq, is_empty_text, if◌then◌else◌, starts_with,
}
use ansible_collection_found.Base.Result.{Result, ok, err, refuse, ◌>>=◌, ◌>>◌}
use ansible_collection_found.Base.Value.{
  Value, Fields, bool, int, str, list, dict, nil, pos, end, field, get, int_eq,
}
use ansible_collection_found.Approval.Checks.{
  normalize_sha256, is_user_uuid, normalize_user_uuid_list,
}
use ansible_collection_found.Approval.Validate.{is_fingerprint}
use ansible_collection_found.Document.Config.{is_object_id, is_version, truthy}
use ansible_collection_found.OnePassword.Arguments.{
  is_host, get_or, check_known, normalize_boolean, normalize_integer, parse_cli_path, exact,
}
use ansible_collection_found.OnePassword.Account.{Pins}
use ansible_collection_found.OnePassword.Client.{Desktop}
use ansible_collection_found.OnePassword.Manager.Config.{str_items}
use ansible_collection_found.OnePassword.Secret.Config.{
  is_secret_subject, is_item_title, parse_tags, natural, check_pins,
}

abbrev pub key_args : List String
key_args =
    "operation" ∷ "cli_path" ∷ "cli_sha256" ∷ "cli_version" ∷ "account_id"
    ∷ "account_sign_in_address" ∷ "authorized_user_uuids" ∷ "vault_id" ∷ "item_id" ∷ "item_version"
    ∷ "item_title" ∷ "category" ∷ "tags" ∷ "subject" ∷ "schema_version" ∷ "key_type"
    ∷ "expected_fingerprint" ∷ "allow_create" ∷ "approval_authority" ∷ "approval" ∷ "ssh_add_path"
    ∷ "ssh_add_sha256" ∷ "ssh_keygen_path" ∷ "ssh_keygen_sha256" ∷ "agent_socket_path" ∷ []

pub data KeyOperation : Type 0 where
  plan_key : KeyOperation
  apply_key : KeyOperation
  read_public : KeyOperation
  verify_agent : KeyOperation

abbrev pub key_operation_name : KeyOperation → String
key_operation_name plan_key = "plan"
key_operation_name apply_key = "apply"
key_operation_name read_public = "read_public"
key_operation_name verify_agent = "verify_agent"

abbrev pub applies_key : KeyOperation → Bool
applies_key apply_key = true
applies_key _ = false

abbrev pub needs_agent : KeyOperation → Bool
needs_agent apply_key = true
needs_agent verify_agent = true
needs_agent _ = false

unfoldable pub parse_key_operation : Option Value → Result KeyOperation
parse_key_operation (some (str s)) =
    if s == "plan"
    then ok plan_key
    else if s == "apply"
    then ok apply_key
    else if s == "read_public"
    then ok read_public
    else if s == "verify_agent"
    then ok verify_agent
    else err "operation must be plan, apply, read_public, or verify_agent."
parse_key_operation _ = err "operation must be plan, apply, read_public, or verify_agent."

-- The programs and the socket of the agent. A false value is kept as it is.
pub record Tools : Type 0 where
  pub ssh_add_path : Value
  pub ssh_add_sha256 : Value
  pub ssh_keygen_path : Value
  pub ssh_keygen_sha256 : Value
  pub agent_socket_path : Value

pub record Key : Type 0 where
  pub operation : KeyOperation
  pub cli_path : String
  pub cli_sha256 : String
  pub pins : Pins
  pub sign_in_address : String
  pub item_id : String
  pub item_version : ℕ
  pub item_title : String
  pub tags : List String
  pub subject : String
  pub expected_fingerprint : String
  pub allow_create : Bool
  pub tools : Tools

-- What an operation may and must be given.
unfoldable pub check_request : KeyOperation → String → ℕ → String → Bool → Result (Unit {0})
check_request plan_key item_id item_version fingerprint allow_create = do
  refuse allow_create "plan cannot permit creation."
  refuse (not (is_empty_text item_id) && is_empty_text fingerprint)
      "a pinned plan requires the externally pinned fingerprint."
check_request apply_key item_id item_version fingerprint allow_create = do
  refuse
      (not (is_empty_text item_id)
        || not (nat_eq item_version 0)
        || not (is_empty_text fingerprint))
      "apply requires empty item_id and expected_fingerprint values and item_version=0."
  refuse (not allow_create) "apply requires allow_create=true."
check_request _ item_id item_version fingerprint allow_create = do
  refuse (is_empty_text item_id) "read_public and verify_agent require a pinned exact item_id."
  refuse (is_empty_text fingerprint)
      "read_public and verify_agent require an externally pinned fingerprint."
  refuse allow_create "read_public and verify_agent cannot permit creation."

-- `isinstance(value, str)` and a normalized absolute path on one line.
abbrev pub is_tool_path : (String → String) → Value → Bool
is_tool_path normpath (str path) =
    starts_with path "/"
    && normpath path == path
    && not (any (λ c. nat_eq c 0 || nat_eq c 13 || nat_eq c 10) (codes path))
is_tool_path normpath _ = false

unfoldable pub check_tool_path : (String → String) → Value → String → Result (Unit {0})
check_tool_path normpath value name =
    refuse (truthy value && not (is_tool_path normpath value))
      (name <> " must be an exact normalized absolute path.")

unfoldable pub check_tool_sha256 : Value → String → Result Value
check_tool_sha256 value name =
    if truthy value then (normalize_sha256 (some value) name >>= λ sha. ok (str sha)) else ok value

unfoldable pub check_tools : (String → String) → KeyOperation → Fields → Result Tools
check_tools normpath operation args = do
  let ssh_add = get_or args "ssh_add_path" (str "")
  let ssh_add_sha = get_or args "ssh_add_sha256" (str "")
  let ssh_keygen = get_or args "ssh_keygen_path" (str "")
  let ssh_keygen_sha = get_or args "ssh_keygen_sha256" (str "")
  let socket = get_or args "agent_socket_path" (str "")
  check_tool_path normpath ssh_add "ssh_add_path"
  check_tool_path normpath ssh_keygen "ssh_keygen_path"
  check_tool_path normpath socket "agent_socket_path"
  refuse
      (needs_agent operation
        && (not (truthy ssh_add)
            || not (truthy ssh_keygen)
            || not (truthy socket)
            || not (truthy ssh_add_sha)
            || not (truthy ssh_keygen_sha)))
      "apply and verify_agent require exact ssh-add, ssh-keygen, and SSH Agent dependency paths."
  add_sha ← check_tool_sha256 ssh_add_sha "ssh_add_sha256"
  keygen_sha ← check_tool_sha256 ssh_keygen_sha "ssh_keygen_sha256"
  ok (record {
    ssh_add_path = ssh_add;
    ssh_add_sha256 = add_sha;
    ssh_keygen_path = ssh_keygen;
    ssh_keygen_sha256 = keygen_sha;
    agent_socket_path = socket;
  })

unfoldable pub key_binding : Key → Value
key_binding config = dict (
    field "operation" (str (key_operation_name config.operation)) (
      field "allow_create" (bool config.allow_create) (
        field "account_id" (str config.pins.account_id) (
          field "account_sign_in_address" (str config.sign_in_address) (
            field "agent_socket_path" config.tools.agent_socket_path (
              field "authorized_user_uuids" (list (str_items config.pins.authorized_user_uuids)) (
                field "cli_path" (str config.cli_path) (
                  field "cli_sha256" (str config.cli_sha256) (
                    field "cli_version" (str config.pins.cli_version) (
                      field "category" (str "SSH Key") (
                        field "expected_fingerprint" (str config.expected_fingerprint) (
                          field "item_id" (str config.item_id) (
                            field "item_title" (str config.item_title) (
                              field "item_version" (int (pos config.item_version)) (
                                field "key_type" (str "ed25519") (
                                  field "schema_version" (int (pos 1)) (
                                    field "ssh_add_path" config.tools.ssh_add_path (
                                      field "ssh_add_sha256" config.tools.ssh_add_sha256 (
                                        field "ssh_keygen_path" config.tools.ssh_keygen_path (
                                          field "ssh_keygen_sha256" config.tools.ssh_keygen_sha256 (
                                            field "subject" (str config.subject) (
                                              field "tags" (list (str_items config.tags)) (
                                                field "vault_id" (str config.pins.vault_id)
                                                  end)))))))))))))))))))))))

module _ {S : Type 0} (desktop : Desktop S) where
  open desktop use {lower, normpath}

  unfoldable pub check_key : Fields → Result Key
  check_key args = do
    check_known key_args args
    operation ← parse_key_operation (get args "operation")
    cli_path ← parse_cli_path normpath (get args "cli_path")
    cli_version ←
        exact is_version (get args "cli_version") "cli_version must be an exact semantic version."
    cli_sha256 ← normalize_sha256 (get args "cli_sha256") "cli_sha256"
    users ← normalize_user_uuid_list (get args "authorized_user_uuids") "authorized_user_uuids"
    version ← normalize_integer (get_or args "item_version" (int (pos 0))) "item_version"
    account_id ←
        exact is_user_uuid (get args "account_id")
          "account_id must be an exact 1Password account UUID."
    vault_id ←
        exact is_object_id (get args "vault_id") "vault_id must be an exact 1Password vault ID."
    item_id ←
        exact (λ s. is_empty_text s || is_object_id s) (some (get_or args "item_id" (str "")))
          "item_id must be empty or an exact 1Password object ID."
    item_version ← natural version "item_version must be zero or a positive integer."
    check_pins item_id item_version
    address ←
        exact is_host (get args "account_sign_in_address")
          "account_sign_in_address must be an exact host name."
    title ←
        exact is_item_title (get args "item_title")
          "item_title must be a safe non-empty exact title."
    exact (λ s. s == "SSH Key") (some (get_or args "category" (str "SSH Key")))
        "category must be exactly SSH Key."
    exact (λ s. s == "ed25519") (some (get_or args "key_type" (str "ed25519")))
        "key_type must be exactly ed25519."
    tags ← parse_tags (get_or args "tags" (list nil))
    subject ←
        exact is_secret_subject (get args "subject")
          "subject must be a safe non-empty exact identity."
    schema ← normalize_integer (get_or args "schema_version" (int (pos 1))) "schema_version"
    refuse (not (int_eq schema (pos 1))) "schema_version must be exactly 1."
    fingerprint ←
        exact (λ s. is_empty_text s || is_fingerprint s)
          (some (get_or args "expected_fingerprint" (str "")))
          "expected_fingerprint must be empty or an exact SHA-256 SSH fingerprint."
    allow_create ← normalize_boolean (get_or args "allow_create" (bool false)) "allow_create"
    check_request operation item_id item_version fingerprint allow_create
    tools ← check_tools normpath operation args
    ok (record {
      operation = operation;
      cli_path = cli_path;
      cli_sha256 = cli_sha256;
      pins = record {
        cli_version = cli_version;
        account_id = account_id;
        address = lower address;
        authorized_user_uuids = users;
        vault_id = vault_id;
      };
      sign_in_address = address;
      item_id = item_id;
      item_version = item_version;
      item_title = title;
      tags = tags;
      subject = subject;
      expected_fingerprint = fingerprint;
      allow_create = allow_create;
      tools = tools;
    })
