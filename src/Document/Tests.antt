-- ===== src/Document/Tests.antt =====
-- A service that holds one document or none, and the theorems at it.
use ansible_collection_found.Base.{
  ℕ, zero, suc, String, Bool, true, false, ◌==◌, List, [], ◌∷◌, Bytes, ◌≡◌, refl, if◌then◌else◌,
  is_digest, is_trimmed, head_tail, is_blank,
}
use ansible_collection_found.Base.Result.{Result, ok}
use ansible_collection_found.Base.Exec.{Exec, pure, raise, lift, ◌>>=◌}
use ansible_collection_found.Base.Value.{
  Value, null, str, int, pos, dict, list, nil, cons, end, field, value_eq,
}
use ansible_collection_found.Stdlib.{Stdlib}
use ansible_collection_found.Custody.Package.{
  validate_package, validate_manifest, validate_ciphertext, is_subject, is_machine_id, is_metadata,
  check_uuid, encode_ascii, max_cipher, max_package,
}
use ansible_collection_found.Custody.Receipt.{validate_read_pins, verify_download}
use ansible_collection_found.Custody.Tests.Sample.{python, sample, pins, bytes, digest_text}
use ansible_collection_found.Approval.Checks.{is_user_uuid}
use ansible_collection_found.Approval.Os.{Os, descriptor}
use ansible_collection_found.Approval.Claim.{Approval, Moment}
use ansible_collection_found.Firewall.Order.{insert, sort}
use ansible_collection_found.Document.Config.{
  Config, validate_config, check_client, is_object_id, is_version, is_address, is_title, split_dots,
  parse_users, parse_item,
}
use ansible_collection_found.Document.Cli.{Cli, IsQuiet, is_read, metadata}
use ansible_collection_found.Document.Inspect.{
  inspect, as_rows, matches, is_tagged, keeps_pins, check_row, select_row, host_of, check_identity,
}
use ansible_collection_found.Document.Transfer.{
  Retrieved, retrieve, onepassword_read_custody, onepassword_custody,
}
use ansible_collection_found.Document.Quiet.{onepassword_custody-readonly}
use ansible_collection_found.Document.Pinned.{HandsOver, onepassword_read_custody-HandsOver}
use ansible_collection_found.Document.Approved.{
  IsApart, OnlyClaimed, onepassword_custody-OnlyClaimed,
}

abbrev pub user : String
user = "ABCDEFGHIJKLMNOPQRSTUVWXYZ"

abbrev pub object : String
object = "abcdefghijklmnopqrstuvwxyz"

abbrev pub settings : Value → ℕ → Value
settings item version = dict (
    field "cli_path" (str "/usr/bin/op") (
      field "cli_sha256" (str digest_text) (
        field "cli_version" (str "2.30.0") (
          field "account_id" (str user) (
            field "account_sign_in_address" (str "my.1password.com") (
              field "authorized_user_uuids" (list (cons (str user) nil)) (
                field "vault_id" (str object) (
                  field "item_title" (str "header") (
                    field "item_id" item (
                      field "item_version" (int (pos version)) (
                        field "executor_uid" (int (pos 501))
                          (field "executor_node" (str "node") end))))))))))))

abbrev listing : Bool → Value
listing false = list nil
listing true = list (
    cons
      (dict (
        field "id" (str object) (
          field "title" (str "header") (
            field "category" (str "DOCUMENT") (
              field "version" (int (pos 3)) (
                field "tags" (list (cons (str digest_text) (cons (str "luks-header-custody") nil)))
                  end))))))
      nil)

-- The replies by number.
abbrev reply : Bytes → Result Value
reply (zero ∷ _) = ok (
    dict (
      field "account_uuid" (str user)
        (field "user_uuid" (str user) (field "url" (str "https://my.1password.com") end))))
reply (suc zero ∷ _) = ok (dict (field "id" (str object) end))
reply (suc (suc zero) ∷ _) = ok (listing false)
reply _ = ok (listing true)

abbrev answer : List String → Bool → Bytes
answer (a ∷ _) here =
    if a == "whoami"
    then 0 ∷ []
    else if a == "vault"
    then 1 ∷ []
    else if a == "item"
    then (if here then 3 ∷ [] else 2 ∷ [])
    else bytes
answer [] here = []

abbrev stored : Bool → Bool → Bool
stored false here = true
stored true here = here

-- Whether the document is there.
abbrev pub service : Cli Bool
service = record {
  run = λ arguments _ _ here. (ok (answer arguments here), stored (is_read arguments) here);
  parse = reply;
  line = λ _. ok "2.30.0";
  lower = λ s. s;
  rstrip_slash = λ s. s;
  Store = Bool;
  documents = λ here. here;
}

stored-quiet : (b : Bool) (here : Bool) → b ≡ true → stored b here ≡ here
stored-quiet false here h = cc
stored-quiet true here h = refl

pub service-IsQuiet : IsQuiet service
service-IsQuiet = record {
  documents-run = λ arguments payload limit s h. stored-quiet (is_read arguments) s h;
}

abbrev pub machine : Os
machine = record {
  State = Bool;
  getuid = 501;
  open_directory = λ _ s. (ok 3, s);
  fstat = λ _ s. (ok (record { mode = 16832; uid = 501; device = 1; inode = 7 }), s);
  create_exclusive = λ _ _ s. (descriptor 4, s);
  write = λ _ b s. (ok 2, s);
  fsync = λ _ s. (ok tt, s);
  close = λ _ s. s;
  device_of = λ _ _. 1;
  inode_of = λ _ _. 7;
  holds = λ _ _ _ _. false;
}

pub machine-IsApart : IsApart machine service
machine-IsApart = record {
  calls = record {
    apart-open = λ path. record { at = λ s. refl };
    apart-fstat = λ fd. record { at = λ s. refl };
    apart-create = λ fd name s. refl;
    apart-write = λ fd b. record { at = λ s. refl };
    apart-fsync = λ fd. record { at = λ s. refl };
    apart-close = λ fd s. refl;
  };
}

abbrev pub approval : Approval
approval = record {
  execution_id = "run-1";
  commit_shas = end;
  issued_at = "2026-01-01T00:00:00Z";
  expires_at = "2026-01-01T00:15:00Z";
  approval_digest = digest_text;
  replay_digest = digest_text;
  authority_identity = "ops";
  authority_namespace = "lit-onepassword-approval-v1";
  authority_fingerprint = "SHA256:";
  replay_directory = "/replay";
  replay_directory_device = 1;
  replay_directory_inode = 7;
}

abbrev normalize : String → Value → Value → Exec Bool Approval
normalize operation target binding s = (ok approval, s)

abbrev pub clock : Exec Bool Moment
clock s = (ok (record { aware = true; micros = 5 }), s)

-- Both timestamps of the approval, in microseconds.
abbrev pub dated : Stdlib
dated = record python { strptime = λ t. if t == "2026-01-01T00:00:00Z" then ok 0 else ok 900000000 }

abbrev handed_over : Retrieved
handed_over = record {
  changed = false;
  verified = true;
  contents = dict sample;
  package_sha256 = digest_text;
  item_id = object;
  item_version = 3;
}

retrieved :
    (onepassword_read_custody python service (settings (str object) 3) (dict pins) true).0
    ≡ ok handed_over
unfolding onepassword_read_custody retrieve ◌>>=◌ validate_config check_client is_user_uuid
    is_object_id is_digest is_version is_address parse_users is_title parse_item validate_read_pins
    is_machine_id is_subject check_uuid inspect metadata head_tail is_blank is_trimmed lift pure
    raise value_eq encode_ascii is_metadata max_cipher max_package validate_ciphertext
    validate_manifest validate_package verify_download split_dots as_rows check_identity check_row
    host_of is_tagged keeps_pins matches select_row insert sort
retrieved = refl

onepassword_read_custody-HandsOver_example :
    (config : Config) × (validate_config (settings (str object) 3) ≡ ok config)
    × HandsOver python service config (dict pins) handed_over
onepassword_read_custody-HandsOver_example =
    onepassword_read_custody-HandsOver python service (settings (str object) 3) (dict pins) true
      handed_over retrieved

onepassword_custody-readonly_example :
    (onepassword_custody python machine service normalize clock
      (settings null 0)
      (dict sample)
      "apply"
      false
      false
      false).1
    ≡ false
onepassword_custody-readonly_example =
    onepassword_custody-readonly python machine service normalize clock service-IsQuiet
      (settings null 0) (dict sample) "apply" false false false refl

onepassword_custody-OnlyClaimed_example :
    OnlyClaimed dated machine-IsApart normalize clock service-IsQuiet
      (λ operation target binding. record { at = λ s. refl })
      (record { at = λ s. refl })
      (settings null 0)
      (dict sample)
      false
      (onepassword_custody dated machine service normalize clock
        (settings null 0)
        (dict sample)
        "apply"
        false
        true
        false).1
onepassword_custody-OnlyClaimed_example =
    onepassword_custody-OnlyClaimed dated machine-IsApart normalize clock service-IsQuiet
      (λ operation target binding. record { at = λ s. refl }) (record { at = λ s. refl })
      (settings null 0) (dict sample) "apply" false true false
