-- ===== src/OnePassword/Secret/Tests.antt =====
-- An account whose vault gains the item with its creation.
use ansible_collection_found.Base.{
  ℕ, zero, suc, String, Bool, true, false, ◌&&◌, ◌==◌, nat_eq, is_empty_text, List, [], ◌∷◌, Bytes,
  some, ◌≡◌, refl, if◌then◌else◌, head_tail, is_digest, repeat_match, is_space, strip, lstrip_of,
  rstrip_of, without_prefix, drop_text,
}
use ansible_collection_found.Base.Result.{Result, ok}
use ansible_collection_found.Base.Exec.{Relates, lift, pure, raise, ◌>>=◌}
use ansible_collection_found.Base.Value.{
  Value, Fields, str, bool, list, dict, nil, cons, end, field, pos, int, value_eq,
}
use ansible_collection_found.Approval.Claim.Apart.{Apart}
use ansible_collection_found.Firewall.Order.{insert, sort}
use ansible_collection_found.Approval.Checks.{
  normalize_sha256, is_user_uuid, is_uuid_list, normalize_user_uuid_list,
}
use ansible_collection_found.Approval.Claim.{
  utc_timestamp, not_yet, check_window, safe_owner, check_directory, evidence, closing,
  open_or_fail, write_all, create_marker, record_evidence, claim_in, claim_approval,
}
use ansible_collection_found.Approval.Normalize.{
  is_execution, is_repository, is_commit, are_commits, sorted_fields, is_armored, is_bounded,
  check_signature, is_canonical, normalize_approval_fields, safe_approval_metadata,
}
use ansible_collection_found.Approval.Validate.{
  is_identity, is_fingerprint, public_authority, approval_payload, replay_identity,
  normalize_approval_authority, check_binding, check_unused, normalize_approval,
}
use ansible_collection_found.Document.Config.{is_object_id, split_dots, is_version}
use ansible_collection_found.Document.Native.{inherited}
use ansible_collection_found.Stdlib.{Stdlib}
use ansible_collection_found.Approval.Validate.Keeps.{Keeps}
use ansible_collection_found.Approval.Tests.{
  python, digest_text, files_over, given, settings, accepted,
}
use ansible_collection_found.Document.Tests.{machine, clock, user, object}
use ansible_collection_found.OnePassword.Arguments.{
  framed, is_host, check_known, normalize_boolean, normalize_integer, parse_operation,
  parse_cli_path, exact, plan, apply,
}
use ansible_collection_found.OnePassword.Environment.{minimal_environment}
use ansible_collection_found.OnePassword.Account.{
  Pins, normalize_sign_in_address, check_version, check_operator, check_vault,
}
use ansible_collection_found.OnePassword.Client.{
  Desktop, Client, exited, onepassword_cli, finish, run_cli, run_metadata, run_discard,
}
use ansible_collection_found.OnePassword.Quiet.{SameStored, IsQuiet, is_read}
use ansible_collection_found.OnePassword.Claimed.{claimed_then}
use ansible_collection_found.OnePassword.Secret.Config.{
  Item, is_secret_subject, is_tag, is_item_title, parse_tags, check_pins, check_creation,
  secret_binding, check_secret,
}
use ansible_collection_found.OnePassword.Secret.Authorized.{secret_approval, normalize_secret}
use ansible_collection_found.OnePassword.Secret.Inspect.{
  Seen, rows_with, same_tags, add_values, check_item, assert_current_version, check_contract,
  inspect_item,
}
use ansible_collection_found.OnePassword.Secret.{
  Created, creation_result, creation_arguments, create_item, run_item, secret_item,
}
use ansible_collection_found.OnePassword.Secret.Approved.{ApprovedRun, secret_item-Approved}
use ansible_collection_found.OnePassword.Secret.Exact.{
  IsExact, inspect_item-IsExact, IsCreated, secret_item-IsCreated,
}

abbrev item_row : Value
item_row = dict (
    field "id" (str object) (
      field "title" (str "recovery") (
        field "version" (int (pos 1))
          (field "category" (str "PASSWORD") (field "tags" (list (cons (str "luks") nil)) end)))))

abbrev labelled : String → Value → Value
labelled label value = dict (field "label" (str label) (field "value" value end))

abbrev reply : Bytes → Result Value
reply (zero ∷ _) = ok (
    dict (
      field "account_uuid" (str user)
        (field "user_uuid" (str user) (field "url" (str "https://my.1password.com/") end))))
reply (suc zero ∷ _) = ok (dict (field "id" (str object) end))
reply (suc (suc zero) ∷ _) = ok (
    list (
      cons (labelled "subject" (str "host01")) (
        cons (labelled "schema_version" (int (pos 1)))
          (cons (labelled "expected_length" (int (pos 64))) nil))))
reply (suc (suc (suc zero)) ∷ _) = ok (list nil)
reply _ = ok (list (cons item_row nil))

abbrev answer : List String → Bool → Bytes
answer (a ∷ b ∷ _) here =
    if a == "whoami"
    then 0 ∷ []
    else if a == "item" && b == "get"
    then 2 ∷ []
    else if b == "get"
    then 1 ∷ []
    else if here
    then 4 ∷ []
    else 3 ∷ []
answer _ here = []

abbrev after : Bool → Bool → Bool
after false here = true
after true here = here

-- Whether the item is there.
abbrev account : Desktop Bool
account = record {
  spawn = λ _ arguments _ _ here.
      (exited (pos 0) (answer arguments here), after (is_read arguments) here);
  decode_ascii = λ _. ok " 2.30.0";
  parse = reply;
  text_of = text;
  lower = λ s. if s == "PASSWORD" then "password" else if s == "Password" then "password" else s;
  normpath = λ s. s;
  environ = ("HOME", "/root") ∷ [];
  Store = Bool;
  stored = λ here. here;
}
  where
    text : Value → String
    text (str s) = s
    text (int (pos (suc zero))) = "1"
    text _ = "64"

after-same : (b here : Bool) → b ≡ true → after b here ≡ here
after-same false here h = absurd (cc (h))
after-same true here h = refl

account-IsQuiet : IsQuiet account
account-IsQuiet = record {
  stored-spawn = λ binary arguments environment discard s h. after-same (is_read arguments) s h;
}

files-Keeps : Keeps (files_over Bool) (SameStored account)
files-Keeps = record {
  keeps-directory = λ path name. record { at = λ s. refl };
  keeps-file = λ path sha name maximum. record { at = λ s. refl };
  keeps-executable = λ path sha name. record { at = λ s. refl };
  keeps-signature = λ authority signature payload. record { at = λ s. refl };
  keeps-lexists = λ path. record { at = λ s. refl };
}

machine-Apart : Apart machine (SameStored account)
machine-Apart = record {
  apart-open = λ path. record { at = λ s. refl };
  apart-fstat = λ fd. record { at = λ s. refl };
  apart-create = λ fd name s. refl;
  apart-write = λ fd b. record { at = λ s. refl };
  apart-fsync = λ fd. record { at = λ s. refl };
  apart-close = λ fd s. refl;
}

abbrev args : Fields
args = field "operation" (str "apply") (
    field "cli_path" (str "/usr/bin/op") (
      field "cli_sha256" (str digest_text) (
        field "cli_version" (str "2.30.0") (
          field "account_id" (str user) (
            field "account_sign_in_address" (str "my.1password.com") (
              field "authorized_user_uuids" (list (cons (str user) nil)) (
                field "vault_id" (str object) (
                  field "item_title" (str "recovery") (
                    field "tags" (list (cons (str "luks") nil)) (
                      field "subject" (str "host01") (
                        field "password_recipe" (str "letters,digits,symbols,64") (
                          field "password_length" (int (pos 64)) (
                            field "allow_create" (bool true) (
                              field "approval_authority" settings
                                (field "approval" given end)))))))))))))))

abbrev numbered : Stdlib
numbered = record python { decimal = λ n. if nat_eq n 1 then "1" else "64" }

clock-Same : Relates (SameStored account) clock
clock-Same = record { at = λ s. refl }

secret_item-Approved_example :
    ApprovedRun numbered account-IsQuiet files-Keeps machine-Apart clock-Same args false false
      (secret_item numbered machine account (files_over Bool) clock args false false).1
secret_item-Approved_example =
    secret_item-Approved numbered account-IsQuiet files-Keeps machine-Apart clock-Same args false
      false

abbrev pins : Pins
pins = record {
  cli_version = "2.30.0";
  account_id = user;
  address = "my.1password.com";
  authorized_user_uuids = user ∷ [];
  vault_id = object;
}

abbrev config : Item
config = record {
  operation = apply;
  cli_path = "/usr/bin/op";
  cli_sha256 = digest_text;
  pins = pins;
  sign_in_address = "my.1password.com";
  item_id = "";
  item_version = 0;
  item_title = "recovery";
  tags = "luks" ∷ [];
  subject = "host01";
  password_recipe = "letters,digits,symbols,64";
  password_length = 64;
  allow_create = true;
}

abbrev pinned : Item
pinned = record config {
  operation = plan;
  item_id = object;
  item_version = 1;
  allow_create = false;
}

abbrev client : Client
client = record {
  requested_binary = "/usr/bin/op";
  binary_sha256 = digest_text;
  account_id = user;
  environment = [];
}

abbrev seen : Seen
seen = record { found = some (object, 1); operator_user_uuid = user }

inspects : (inspect_item account numbered (files_over Bool) client pinned true).0 ≡ ok seen
unfolding ◌>>=◌ lift pure raise exact is_user_uuid is_object_id repeat_match check_version
    check_operator check_vault run_cli finish run_metadata strip lstrip_of rstrip_of is_space
    normalize_sign_in_address without_prefix drop_text inspect_item rows_with check_item same_tags
    add_values check_contract assert_current_version value_eq insert sort
inspects = refl

inspect_item-IsExact_example :
    ((found : String × ℕ) → some (object, 1) ≡ some found → IsExact pinned found)
    × (is_empty_text object ≡ false → true ≡ true)
inspect_item-IsExact_example =
    inspect_item-IsExact numbered account (files_over Bool) client pinned seen true inspects

accepts :
    (normalize_secret numbered account (files_over Bool) clock args false).0
    ≡ ok (config, some accepted)
unfolding ◌>>=◌ lift pure raise normalize_secret check_secret check_known parse_operation
    parse_cli_path exact is_version split_dots normalize_sha256 is_digest repeat_match
    normalize_user_uuid_list is_uuid_list is_user_uuid is_object_id is_host framed normalize_boolean
    normalize_integer check_creation check_pins is_secret_subject is_tag is_item_title parse_tags
    secret_approval secret_binding normalize_approval normalize_approval_fields value_eq
    is_execution is_repository is_commit are_commits sorted_fields is_armored is_bounded
    check_signature is_canonical is_identity is_fingerprint public_authority approval_payload
    replay_identity normalize_approval_authority check_binding check_unused utc_timestamp not_yet
    insert sort head_tail
accepts = refl

abbrev report : Created
report = record {
  changed = true;
  created = true;
  planned = false;
  seen = seen;
  approval = some (safe_approval_metadata accepted);
}

creates :
    (secret_item numbered machine account (files_over Bool) clock args false false).0 ≡ ok report
unfolding secret_item ◌>>=◌ lift pure raise normalize_secret check_secret check_known
    parse_operation parse_cli_path exact is_version split_dots normalize_sha256 is_digest
    repeat_match normalize_user_uuid_list is_uuid_list is_user_uuid is_object_id is_host framed
    normalize_boolean normalize_integer check_creation check_pins is_secret_subject is_tag
    is_item_title parse_tags secret_approval secret_binding normalize_approval
    normalize_approval_fields value_eq is_execution is_repository is_commit are_commits
    sorted_fields is_armored is_bounded check_signature is_canonical is_identity is_fingerprint
    public_authority approval_payload replay_identity normalize_approval_authority check_binding
    check_unused utc_timestamp not_yet insert sort head_tail onepassword_cli minimal_environment
    inherited run_item check_version check_operator check_vault run_cli finish run_metadata strip
    lstrip_of rstrip_of is_space normalize_sign_in_address without_prefix drop_text inspect_item
    rows_with check_item same_tags add_values check_contract assert_current_version create_item
    claimed_then run_discard creation_result creation_arguments claim_approval check_window claim_in
    open_or_fail check_directory create_marker closing record_evidence write_all evidence safe_owner
creates = refl

secret_item-IsCreated_example :
    IsCreated numbered machine account (files_over Bool) clock config report
secret_item-IsCreated_example =
    secret_item-IsCreated numbered machine account (files_over Bool) clock args config
      (some accepted) false report accepts refl creates
