-- ===== src/OnePassword/Manager/Tests.antt =====
-- An account whose vault gains the permissions with the grant.
use ansible_collection_found.Base.{
  Option, zero, suc, String, Bool, true, false, ◌==◌, List, [], ◌∷◌, Bytes, some, ◌≡◌, refl,
  if◌then◌else◌, head_tail, is_digest, repeat_match, is_space, split_at, strip, lstrip_of,
  rstrip_of, without_prefix, drop_text,
}
use ansible_collection_found.Base.Result.{Result, ok}
use ansible_collection_found.Base.Exec.{Relates, lift, pure, raise, ◌>>=◌}
use ansible_collection_found.Base.Value.{
  Value, Fields, Items, str, bool, list, dict, nil, cons, end, field, pos, value_eq,
}
use ansible_collection_found.Approval.Claim.{Approval}
use ansible_collection_found.Approval.Claim.Apart.{Apart}
use ansible_collection_found.Firewall.Order.{insert, sort}
use ansible_collection_found.Approval.Checks.{
  normalize_sha256, is_user_uuid, is_uuid_list, normalize_user_uuid_list,
}
use ansible_collection_found.Approval.Claim.{
  utc_timestamp, not_yet, check_window, safe_owner, check_directory, evidence, closing,
  open_or_fail, write_all, create_marker, record_evidence, claim_in, claim_approval,
}
use ansible_collection_found.Approval.Normalize.{
  is_execution, is_repository, is_commit, are_commits, sorted_fields, is_armored, is_bounded,
  check_signature, is_canonical, normalize_approval_fields, safe_approval_metadata,
}
use ansible_collection_found.Approval.Validate.{
  is_identity, is_fingerprint, public_authority, approval_payload, replay_identity,
  normalize_approval_authority, check_binding, check_unused, normalize_approval,
}
use ansible_collection_found.Document.Config.{is_object_id, split_dots, is_version}
use ansible_collection_found.Document.Native.{inherited}
use ansible_collection_found.OnePassword.Arguments.{
  framed, is_host, is_email, check_known, normalize_boolean, parse_operation, parse_cli_path, exact,
}
use ansible_collection_found.OnePassword.Environment.{minimal_environment}
use ansible_collection_found.OnePassword.Account.{
  normalize_sign_in_address, check_version, check_operator, check_vault,
}
use ansible_collection_found.OnePassword.Claimed.{claimed_then}
use ansible_collection_found.OnePassword.Manager.Config.{
  Grant, approval_binding, check_allowed, check_arguments, approval_of, normalize_arguments,
}
use ansible_collection_found.OnePassword.Manager.Inspect.{
  row_uuid, is_permission, row_permissions, missing_of, matching, row_email, check_user,
  check_member, membership, inspect,
}
use ansible_collection_found.Approval.Validate.Keeps.{Keeps}
use ansible_collection_found.Approval.Tests.{
  python, digest_text, files_over, given, settings, accepted,
}
use ansible_collection_found.Document.Tests.{machine, clock, user, object}
use ansible_collection_found.OnePassword.Client.{
  Desktop, exited, onepassword_cli, finish, run_cli, run_metadata, run_discard,
}
use ansible_collection_found.OnePassword.Quiet.{SameStored, IsQuiet, is_read}
use ansible_collection_found.OnePassword.Manager.{
  vault_co_manager, Report, result, grant, apply_grant, run_store,
}
use ansible_collection_found.OnePassword.Manager.Approved.{ApprovedRun, vault_co_manager-Approved}
use ansible_collection_found.OnePassword.Manager.Complete.{IsComplete, vault_co_manager-IsComplete}

abbrev member : Bool → Value
member granted = dict (
    field "uuid" (str user) (
      field "email" (str "ops@example.test") (
        field "state" (str "ACTIVE")
          (field "permissions" (list (cons (str "allow_viewing") (more granted))) end))))
  where
    more : Bool → Items
    more true = cons (str "allow_editing") (cons (str "allow_managing") nil)
    more false = nil

abbrev reply : Bytes → Result Value
reply (zero ∷ _) = ok (
    dict (
      field "account_uuid" (str user)
        (field "user_uuid" (str user) (field "url" (str "https://my.1password.com/") end))))
reply (suc zero ∷ _) = ok (dict (field "id" (str object) end))
reply (suc (suc zero) ∷ _) = ok (member false)
reply (suc (suc (suc zero)) ∷ _) = ok (list (cons (member false) nil))
reply _ = ok (list (cons (member true) nil))

abbrev answer : List String → Bool → Bytes
answer (a ∷ b ∷ _) granted =
    if a == "whoami"
    then 0 ∷ []
    else if a == "user"
    then 2 ∷ []
    else if b == "get"
    then 1 ∷ []
    else if granted
    then 4 ∷ []
    else 3 ∷ []
answer _ granted = []

abbrev after : Bool → Bool → Bool
after false granted = true
after true granted = granted

-- Whether the permissions are granted.
abbrev account : Desktop Bool
account = record {
  spawn = λ _ arguments _ _ granted.
      (exited (pos 0) (answer arguments granted), after (is_read arguments) granted);
  decode_ascii = λ _. ok " 2.30.0";
  parse = reply;
  text_of = text;
  lower = λ s. s;
  normpath = λ s. s;
  environ = ("HOME", "/root") ∷ [];
  Store = Bool;
  stored = λ granted. granted;
}
  where
    text : Value → String
    text (str s) = s
    text _ = ""

after-same : (b granted : Bool) → b ≡ true → after b granted ≡ granted
after-same false granted h = absurd (cc (h))
after-same true granted h = refl

account-IsQuiet : IsQuiet account
account-IsQuiet = record {
  stored-spawn = λ binary arguments environment discard s h. after-same (is_read arguments) s h;
}

files-Keeps : Keeps (files_over Bool) (SameStored account)
files-Keeps = record {
  keeps-directory = λ path name. record { at = λ s. refl };
  keeps-file = λ path sha name maximum. record { at = λ s. refl };
  keeps-executable = λ path sha name. record { at = λ s. refl };
  keeps-signature = λ authority signature payload. record { at = λ s. refl };
  keeps-lexists = λ path. record { at = λ s. refl };
}

machine-Apart : Apart machine (SameStored account)
machine-Apart = record {
  apart-open = λ path. record { at = λ s. refl };
  apart-fstat = λ fd. record { at = λ s. refl };
  apart-create = λ fd name s. refl;
  apart-write = λ fd b. record { at = λ s. refl };
  apart-fsync = λ fd. record { at = λ s. refl };
  apart-close = λ fd s. refl;
}

abbrev args : Fields
args = field "operation" (str "apply") (
    field "cli_path" (str "/usr/bin/op") (
      field "cli_sha256" (str digest_text) (
        field "cli_version" (str "2.30.0") (
          field "account_id" (str user) (
            field "account_sign_in_address" (str "my.1password.com") (
              field "authorized_user_uuids" (list (cons (str user) nil)) (
                field "vault_id" (str object) (
                  field "user_uuid" (str user) (
                    field "user_email" (str "ops@example.test") (
                      field "allow_grant" (bool true)
                        (field "approval_authority" settings (field "approval" given end))))))))))))

clock-Same : Relates (SameStored account) clock
clock-Same = record { at = λ s. refl }

vault_co_manager-Approved_example :
    ApprovedRun python account-IsQuiet files-Keeps machine-Apart clock-Same args false false
      (vault_co_manager python machine account (files_over Bool) clock args false false).1
vault_co_manager-Approved_example =
    vault_co_manager-Approved python account-IsQuiet files-Keeps machine-Apart clock-Same args false
      false

abbrev all_permissions : List String
all_permissions = "allow_editing" ∷ "allow_managing" ∷ "allow_viewing" ∷ []

abbrev report : Report
report = record {
  changed = true;
  planned = false;
  observed = record {
    exists = true;
    missing_permissions = [];
    observed_permissions = all_permissions;
    operator_user_uuid = user;
    user_uuid = user;
  };
  required = "allow_viewing" ∷ "allow_editing" ∷ "allow_managing" ∷ [];
  approval = some (safe_approval_metadata accepted);
}

grants :
    (vault_co_manager python machine account (files_over Bool) clock args false false).0 ≡ ok report
unfolding vault_co_manager ◌>>=◌ lift pure raise normalize_arguments check_arguments check_known
    parse_operation parse_cli_path exact is_version split_dots normalize_sha256 is_digest
    repeat_match normalize_user_uuid_list is_uuid_list is_user_uuid is_object_id is_host framed
    is_email split_at normalize_boolean check_allowed approval_of approval_binding
    normalize_approval normalize_approval_fields value_eq is_execution is_repository is_commit
    are_commits sorted_fields is_armored is_bounded check_signature is_canonical is_identity
    is_fingerprint public_authority approval_payload replay_identity normalize_approval_authority
    check_binding check_unused utc_timestamp not_yet insert sort head_tail onepassword_cli
    minimal_environment inherited run_store inspect check_version check_operator check_vault run_cli
    finish run_metadata strip lstrip_of rstrip_of is_space normalize_sign_in_address without_prefix
    drop_text row_uuid row_email check_user check_member row_permissions is_permission missing_of
    membership matching apply_grant claimed_then grant run_discard result claim_approval
    check_window claim_in open_or_fail check_directory create_marker closing record_evidence
    write_all evidence safe_owner
grants = refl

vault_co_manager-IsComplete_example :
    (config : Grant) × (approval : Option Approval) × ((normalize_arguments account python
        (files_over Bool)
        clock
        args
        false).0
      ≡ ok (config, approval))
    × IsComplete account (files_over Bool) config (Report.observed report)
vault_co_manager-IsComplete_example =
    vault_co_manager-IsComplete python machine account (files_over Bool) clock args false report
      refl grants
