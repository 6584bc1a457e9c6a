-- ===== src/Approval/Tests.antt =====
-- A machine whose files are all trusted, and one signed approval.
use ansible_collection_found.Base.{
  String, ◌<>◌, true, false, ◌==◌, [], ◌∷◌, ◌≡◌, refl, if◌then◌else◌, is_digest, repeat_match,
  head_tail,
}
use ansible_collection_found.Base.Result.{ok, err}
use ansible_collection_found.Base.Exec.{Exec, lift, pure, raise, ◌>>=◌}
use ansible_collection_found.Base.Value.{Value, int, pos, str, dict, end, field, value_eq}
use ansible_collection_found.Stdlib.{Stdlib}
use ansible_collection_found.Firewall.Order.{insert, sort}
use ansible_collection_found.Approval.Os.{Status}
use ansible_collection_found.Approval.Checks.{normalize_sha256}
use ansible_collection_found.Approval.Claim.{Approval, Moment, utc_timestamp, not_yet}
use ansible_collection_found.Approval.Normalize.{
  Trusted, is_execution, is_repository, is_commit, are_commits, sorted_fields, is_armored,
  is_bounded, check_signature, is_canonical, normalize_approval_fields,
}
use ansible_collection_found.Approval.Validate.{
  is_identity, is_fingerprint, public_authority, approval_payload, replay_identity,
  normalize_approval_authority, check_binding, check_unused, normalize_approval,
}
use ansible_collection_found.Approval.Signed.{Signed, normalize_approval-Signed}

abbrev pub digest_text : String
digest_text = "bbbbbbbbbbbbbbbbbbbbbbbbbbbbbbbbbbbbbbbbbbbbbbbbbbbbbbbbbbbbbbbb"

abbrev pub python : Stdlib
python = record {
  sha256 = λ _. digest_text;
  dumps = λ _. b'{' ∷ b'}' ∷ [];
  loads = λ _ _. err "ValueError";
  b64encode = λ _. "";
  b64decode = λ _. err "ValueError";
  uuid = ok;
  decimal = λ _. "";
  strptime = λ t. if t == "2026-01-01T00:00:00Z" then ok 0 else ok 900000000;
}

abbrev pub status : Status
status = record { mode = 16832; uid = 501; device = 1; inode = 7 }

abbrev pub files_over : (S : Type 0) → Trusted S
files_over S = record {
  replay_directory = λ _ _ s. (ok ("/replay", status), s);
  pinned_file = λ _ _ _ _ s. (ok ("/signers", []), s);
  executable = λ _ _ _ s. (ok "/usr/bin/ssh-keygen", s);
  signer_entry = λ _ _ _. ok digest_text;
  verify_signature = λ _ _ _ s. (ok tt, s);
  lexists = λ _ s. (ok false, s);
  join = λ a b. a <> ("/" <> b);
}

abbrev pub files : Trusted (Unit {0})
files = files_over (Unit {0})

abbrev armored : String
armored = "-----BEGIN SSH SIGNATURE-----\n-----END SSH SIGNATURE-----\n"

abbrev pub given : Value
given = dict (
    field "schema_version" (int (pos 1)) (
      field "execution_id" (str "run-1") (
        field "commit_shas"
          (dict (field "repo" (str "0123456789012345678901234567890123456789") end))
          (field "nonce" (str digest_text) (
            field "issued_at" (str "2026-01-01T00:00:00Z") (
              field "expires_at" (str "2026-01-01T00:15:00Z") (
                field "replay_directory" (str "/replay")
                  (field "signature" (str armored) end))))))))

abbrev pub settings : Value
settings = dict (
    field "schema_version" (int (pos 1)) (
      field "identity" (str "ops") (
        field "namespace" (str "lit-onepassword-approval-v1") (
          field "fingerprint" (str "SHA256:AAAAAAAAAAAAAAAAAAAAAAAAAAAAAAAAAAAAAAAAAAA") (
            field "allowed_signers_path" (str "/signers") (
              field "allowed_signers_sha256" (str digest_text) (
                field "ssh_keygen_path" (str "/usr/bin/ssh-keygen") (
                  field "ssh_keygen_sha256" (str digest_text)
                    (field "replay_directory" (str "/replay") end)))))))))

abbrev clock : Exec (Unit {0}) Moment
clock s = (ok (record { aware = true; micros = 5 }), s)

abbrev pub accepted : Approval
accepted = record {
  execution_id = "run-1";
  commit_shas = field "repo" (str "0123456789012345678901234567890123456789") end;
  issued_at = "2026-01-01T00:00:00Z";
  expires_at = "2026-01-01T00:15:00Z";
  approval_digest = digest_text;
  replay_digest = digest_text;
  authority_identity = "ops";
  authority_namespace = "lit-onepassword-approval-v1";
  authority_fingerprint = "SHA256:AAAAAAAAAAAAAAAAAAAAAAAAAAAAAAAAAAAAAAAAAAA";
  replay_directory = "/replay";
  replay_directory_device = 1;
  replay_directory_inode = 7;
}

accepts :
    (normalize_approval python files given settings "create" "host01" (dict end) clock tt).0
    ≡ ok accepted
unfolding normalize_approval ◌>>=◌ lift pure raise normalize_approval_fields value_eq is_execution
    is_repository is_commit are_commits sorted_fields is_armored is_bounded check_signature
    is_canonical is_identity is_fingerprint public_authority approval_payload replay_identity
    normalize_approval_authority check_binding check_unused normalize_sha256 utc_timestamp not_yet
    insert sort is_digest repeat_match head_tail
accepts = refl

normalize_approval-Signed_example :
    Signed python files given settings "create" "host01" (dict end) clock tt accepted
normalize_approval-Signed_example =
    normalize_approval-Signed python files given settings "create" "host01" (dict end) clock tt
      accepted accepts
