-- ===== src/OnePassword/Secret/Config.antt =====
-- `_normalize_arguments` and `_approval_binding` of the secret item action.
use ansible_collection_found.Base.{
  ℕ, String, ◌<>◌, Bool, true, false, not, ◌&&◌, ◌||◌, ◌==◌, some, List, [], ◌∷◌, all, any, codes,
  len, length, leb, nat_eq, distinct, is_empty_text,
}
use ansible_collection_found.Base.Result.{Result, ok, err, refuse, ◌>>=◌, ◌>>◌}
use ansible_collection_found.Base.Value.{
  Value, Fields, ℤ, null, bool, int, str, list, dict, nil, pos, negsuc, end, field, get, items,
  str_and, int_eq,
}
use ansible_collection_found.Stdlib.{Stdlib}
use ansible_collection_found.Approval.Checks.{
  normalize_sha256, is_user_uuid, normalize_user_uuid_list, texts,
}
use ansible_collection_found.Document.Config.{is_object_id, is_version}
use ansible_collection_found.OnePassword.Arguments.{
  framed, is_host, get_or, check_known, normalize_boolean, normalize_integer, Operation, plan,
  apply, operation_name, parse_operation, parse_cli_path, exact,
}
use ansible_collection_found.OnePassword.Account.{Pins}
use ansible_collection_found.OnePassword.Client.{Desktop}
use ansible_collection_found.OnePassword.Manager.Config.{str_items}

abbrev pub secret_args : List String
secret_args =
    "operation" ∷ "cli_path" ∷ "cli_sha256" ∷ "cli_version" ∷ "account_id"
    ∷ "account_sign_in_address" ∷ "authorized_user_uuids" ∷ "vault_id" ∷ "item_id" ∷ "item_version"
    ∷ "item_title" ∷ "field_id" ∷ "category" ∷ "tags" ∷ "subject" ∷ "schema_version"
    ∷ "password_recipe" ∷ "password_length" ∷ "allow_create" ∷ "approval_authority" ∷ "approval"
    ∷ []

-- The checked arguments, but for the approval. `field_id`, `category` and `schema_version` have one value each.
pub record Item : Type 0 where
  pub operation : Operation
  pub cli_path : String
  pub cli_sha256 : String
  pub pins : Pins
  pub sign_in_address : String
  pub item_id : String
  pub item_version : ℕ
  pub item_title : String
  pub tags : List String
  pub subject : String
  pub password_recipe : String
  pub password_length : ℕ
  pub allow_create : Bool

-- `[A-Za-z0-9](?:[A-Za-z0-9._-]{0,251}[A-Za-z0-9])?`
unfoldable pub is_secret_subject : String → Bool
unfolding framed
is_secret_subject s = framed (b'.' ∷ b'_' ∷ b'-' ∷ []) 251 (codes s)

-- `[A-Za-z0-9](?:[A-Za-z0-9._/-]{0,61}[A-Za-z0-9])?`
unfoldable pub is_tag : String → Bool
unfolding framed
is_tag s = framed (b'.' ∷ b'_' ∷ b'/' ∷ b'-' ∷ []) 61 (codes s)

unfoldable pub is_item_title : String → Bool
is_item_title s =
    leb 1 (len s) && leb (len s) 128 && not (any (λ c. nat_eq c 13 || nat_eq c 10) (codes s))

abbrev pub is_unhashable : Value → Bool
is_unhashable (list _) = true
is_unhashable (dict _) = true
is_unhashable _ = false

abbrev pub bad_tags : String
bad_tags = "tags must be a unique list of safe non-sensitive values."

-- `set(tags)` raises on an element that has no hash.
unfoldable pub parse_tags : Value → Result (List String)
parse_tags (list vs) =
    let tags = items vs in
    ◌>>◌ (refuse (not (leb 1 (length tags)) || not (leb (length tags) 10)) bad_tags) (
      ◌>>◌ (refuse (any is_unhashable tags) "TypeError") (
        ◌>>◌
          (refuse (not (all (λ v. str_and is_tag (some v)) tags) || not (distinct (texts tags)))
            bad_tags)
          (ok (texts tags))))
parse_tags _ = err bad_tags

abbrev pub natural : ℤ → String → Result ℕ
natural (pos n) e = ok n
natural (negsuc _) e = err e

-- The item's pins: both, or none.
unfoldable pub check_pins : String → ℕ → Result (Unit {0})
check_pins item_id item_version =
    refuse
      ((is_empty_text item_id && not (nat_eq item_version 0))
        || (not (is_empty_text item_id) && nat_eq item_version 0))
      "item_id and a positive item_version must be pinned together."

-- `allow_create` and the pins, for the operation.
unfoldable pub check_creation : Operation → String → ℕ → Bool → Result (Unit {0})
check_creation plan item_id item_version allowed = refuse allowed "plan cannot permit creation."
check_creation apply item_id item_version allowed =
    ◌>>◌
      (refuse (not (is_empty_text item_id) || not (nat_eq item_version 0))
        "apply requires empty item_id and zero item_version values and may only create a new item.")
      (refuse (not allowed) "apply requires allow_create=true.")

unfoldable pub secret_binding : Item → Value
secret_binding config = dict (
    field "operation" (str (operation_name config.operation)) (
      field "allow_create" (bool config.allow_create) (
        field "account_id" (str config.pins.account_id) (
          field "account_sign_in_address" (str config.sign_in_address) (
            field "authorized_user_uuids" (list (str_items config.pins.authorized_user_uuids)) (
              field "category" (str "Password") (
                field "cli_path" (str config.cli_path) (
                  field "cli_sha256" (str config.cli_sha256) (
                    field "cli_version" (str config.pins.cli_version) (
                      field "field_id" (str "password") (
                        field "item_id" (str config.item_id) (
                          field "item_title" (str config.item_title) (
                            field "item_version" (int (pos config.item_version)) (
                              field "password_length" (int (pos config.password_length)) (
                                field "password_recipe" (str config.password_recipe) (
                                  field "schema_version" (int (pos 1)) (
                                    field "subject" (str config.subject) (
                                      field "tags" (list (str_items config.tags)) (
                                        field "vault_id" (str config.pins.vault_id)
                                          end)))))))))))))))))))

module _ {S : Type 0} (py : Stdlib) (desktop : Desktop S) where
  open desktop use {lower, normpath}

  unfoldable pub check_secret : Fields → Result Item
  check_secret args = do
    (check_known secret_args args)
    operation ← (parse_operation (get args "operation"))
    cli_path ← (parse_cli_path normpath (get args "cli_path"))
    cli_version ←
        (exact is_version (get args "cli_version") "cli_version must be an exact semantic version.")
    cli_sha256 ← (normalize_sha256 (get args "cli_sha256") "cli_sha256")
    users ← (normalize_user_uuid_list (get args "authorized_user_uuids") "authorized_user_uuids")
    version ← (normalize_integer (get_or args "item_version" (int (pos 0))) "item_version")
    account_id ←
        (exact is_user_uuid (get args "account_id")
          "account_id must be an exact 1Password account UUID.")
    vault_id ←
        (exact is_object_id (get args "vault_id") "vault_id must be an exact 1Password vault ID.")
    item_id ←
        (exact (λ s. is_empty_text s || is_object_id s) (some (get_or args "item_id" (str "")))
          "item_id must be empty or an exact 1Password object ID.")
    item_version ← (natural version "item_version must be zero or a positive integer.")
    (check_pins item_id item_version)
    address ←
        (exact is_host (get args "account_sign_in_address")
          "account_sign_in_address must be an exact host name.")
    title ←
        (exact is_item_title (get args "item_title")
          "item_title must be a safe non-empty exact title.")
    (exact (λ s. s == "password") (some (get_or args "field_id" (str "password")))
        "field_id must be exactly password.")
    (exact (λ s. s == "Password") (some (get_or args "category" (str "Password")))
        "category must be exactly Password.")
    tags ← (parse_tags (get_or args "tags" (list nil)))
    subject ←
        (exact is_secret_subject (get args "subject")
          "subject must be a safe non-empty exact identity.")
    schema ← (normalize_integer (get_or args "schema_version" (int (pos 1))) "schema_version")
    refuse (not (int_eq schema (pos 1))) "schema_version must be exactly 1."
    given ← (normalize_integer (get_or args "password_length" null) "password_length")
    password_length ← (natural given "password_length must be between 1 and 64.")
    refuse (not (leb 1 password_length) || not (leb password_length 64))
        "password_length must be between 1 and 64."
    let recipe = "letters,digits,symbols," <> Stdlib.decimal py password_length
    (exact (λ s. s == recipe) (get args "password_recipe")
        "password_recipe must match the approved 1Password internal generator.")
    allow_create ← (normalize_boolean (get_or args "allow_create" (bool false)) "allow_create")
    (check_creation operation item_id item_version allow_create)
    ok (record {
      operation = operation;
      cli_path = cli_path;
      cli_sha256 = cli_sha256;
      pins = record {
        cli_version = cli_version;
        account_id = account_id;
        address = lower address;
        authorized_user_uuids = users;
        vault_id = vault_id;
      };
      sign_in_address = address;
      item_id = item_id;
      item_version = item_version;
      item_title = title;
      tags = tags;
      subject = subject;
      password_recipe = recipe;
      password_length = password_length;
      allow_create = allow_create;
    })
