-- ===== src/Approval/Validate.antt =====
-- `normalize_approval_authority`, `approval_signing_payload` and `normalize_approval`.
pub mod Keeps
use ansible_collection_found.Base.{
  String, ◌<>◌, Bool, true, false, not, ◌&&◌, ◌||◌, ◌==◌, some, none, [], ◌∷◌, Bytes, drop, codes,
  leb, nat_eq, if◌then◌else◌, is_alnum, alnum_or, repeat_match, head_tail,
}
use ansible_collection_found.Base.Result.{Result, ok, err}
use ansible_collection_found.Base.Exec.{Exec, pure, lift, check, ◌>>=◌, ◌>>◌}
use ansible_collection_found.Base.Value.{
  index, value_eq, Value, Fields, int, str, dict, pos, end, field, get, has_keys, is_str, as_dict,
  as_str,
}
use ansible_collection_found.Stdlib.{Stdlib}
use ansible_collection_found.Approval.Os.{Status}
use ansible_collection_found.Approval.Claim.{Approval, Moment, not_yet}
use ansible_collection_found.Approval.Checks.{normalize_sha256}
use ansible_collection_found.Approval.Normalize.{
  Trusted, Normalized, Authority, authority_keys, is_one, is_empty, is_canonical, begins,
  normalize_approval_fields,
}

-- `[A-Za-z0-9][A-Za-z0-9._@+-]{0,127}`
unfoldable pub is_identity : String → Bool
unfolding head_tail
is_identity s = head_tail is_alnum (alnum_or (b'.' ∷ b'_' ∷ b'@' ∷ b'+' ∷ b'-' ∷ [])) 127 (codes s)

-- `SHA256:[A-Za-z0-9+/]{43}`
unfoldable pub is_fingerprint : String → Bool
unfolding repeat_match
is_fingerprint s =
    begins (codes s) (codes "SHA256:")
    && repeat_match (alnum_or (b'+' ∷ b'/' ∷ [])) 43 43 (drop 7 (codes s))

abbrev pub approval_namespace : String
approval_namespace = "lit-onepassword-approval-v1"

unfoldable pub public_authority : Authority → Value
public_authority a = dict (
    field "schema_version" (int (pos 1)) (
      field "identity" (str a.identity) (
        field "namespace" (str a.namespace) (
          field "fingerprint" (str a.fingerprint) (
            field "allowed_signers_path" (str a.allowed_signers_path) (
              field "allowed_signers_sha256" (str a.allowed_signers_sha256) (
                field "allowed_signers_entry_sha256" (str a.entry_sha256) (
                  field "ssh_keygen_path" (str a.ssh_keygen_path) (
                    field "ssh_keygen_sha256" (str a.ssh_keygen_sha256)
                      (field "replay_directory" (str a.replay_directory) end))))))))))

unfoldable pub approval_payload : Normalized → Authority → String → String → Value → Result Value
approval_payload n authority operation target binding =
    if is_canonical binding
    then ok (
        dict (
          field "schema_version" (int (pos 1)) (
            field "authority" (public_authority authority) (
              field "execution_id" (str n.execution_id) (
                field "commit_shas" (dict n.commit_shas) (
                  field "nonce" (str n.nonce) (
                    field "issued_at" (str n.issued_at_text) (
                      field "expires_at" (str n.expires_at_text) (
                        field "replay_directory" (str n.replay_directory) (
                          field "operation" (str operation)
                            (field "target" (str target) (field "binding" binding end))))))))))))
    else err "approval binding contains an invalid mapping key."

-- What a nonce is consumed for.
unfoldable pub replay_identity : Normalized → Authority → Value
replay_identity n a = dict (
    field "schema_version" (int (pos 1)) (
      field "authority_identity" (str a.identity) (
        field "authority_namespace" (str a.namespace) (
          field "authority_fingerprint" (str a.fingerprint)
            (field "execution_id" (str n.execution_id) (field "nonce" (str n.nonce) end))))))

-- `candidate.setdefault("signature", "")`
abbrev pub with_signature : Fields → Fields
with_signature fs = elim (get fs "signature") [ none ↦ field "signature" (str "") fs | some _ ↦ fs ]

abbrev pub same_directory : Normalized → Authority → Bool
same_directory n a =
    nat_eq (Status.device n.replay_status) (Status.device a.replay_status)
    && nat_eq (Status.inode n.replay_status) (Status.inode a.replay_status)

module _ {S : Type 0} (py : Stdlib) (trusted : Trusted S) where
  unfoldable pub normalize_approval_authority : Value → Exec S Authority
  normalize_approval_authority settings = do
    a ← lift (
        as_dict (some settings)
          "approval_authority must contain exactly the documented pin fields.")
    check (not (has_keys a authority_keys))
        "approval_authority must contain exactly the documented pin fields."
    check (not (is_one (get a "schema_version")))
        "approval_authority.schema_version must be exactly 1."
    identity ← lift (as_str (get a "identity") "approval_authority.identity is invalid.")
    check (not (is_identity identity)) "approval_authority.identity is invalid."
    check (not (is_str approval_namespace (get a "namespace")))
        ("approval_authority.namespace must be exactly " <> (approval_namespace <> "."))
    fingerprint ← lift (
        as_str (get a "fingerprint")
          "approval_authority.fingerprint must be an exact SHA-256 fingerprint.")
    check (not (is_fingerprint fingerprint))
        "approval_authority.fingerprint must be an exact SHA-256 fingerprint."
    signers_sha ← lift (normalize_sha256 (get a "allowed_signers_sha256") "allowed_signers_sha256")
    keygen_sha ← lift (normalize_sha256 (get a "ssh_keygen_sha256") "approval_ssh_keygen_sha256")
    directory ←
        Trusted.replay_directory trusted (get a "replay_directory")
          "approval_authority.replay_directory"
    signers ←
        Trusted.pinned_file trusted (get a "allowed_signers_path") signers_sha
          "approval_allowed_signers_path" 65536
    entry ← lift (Trusted.signer_entry trusted signers.1 identity fingerprint)
    keygen ←
        Trusted.executable trusted (get a "ssh_keygen_path") keygen_sha "approval_ssh_keygen_path"
    given_signers ← lift (index a "allowed_signers_path")
    given_keygen ← lift (index a "ssh_keygen_path")
    pure (record {
      identity = identity;
      namespace = approval_namespace;
      fingerprint = fingerprint;
      allowed_signers_path = signers.0;
      allowed_signers_sha256 = signers_sha;
      entry_sha256 = entry;
      ssh_keygen_path = keygen;
      ssh_keygen_sha256 = keygen_sha;
      replay_directory = directory.0;
      signers = signers.1;
      requested_signers = given_signers;
      requested_keygen = given_keygen;
      replay_status = directory.1;
    })

  -- The authority's settings, as they were given.
  abbrev pub settings_of : Authority → Value
  settings_of a = dict (
      field "schema_version" (int (pos 1)) (
        field "identity" (str a.identity) (
          field "namespace" (str a.namespace) (
            field "fingerprint" (str a.fingerprint) (
              field "allowed_signers_path" a.requested_signers (
                field "allowed_signers_sha256" (str a.allowed_signers_sha256) (
                  field "ssh_keygen_path" a.requested_keygen (
                    field "ssh_keygen_sha256" (str a.ssh_keygen_sha256)
                      (field "replay_directory" (str a.replay_directory) end)))))))))

  unfoldable pub revalidate_authority : Authority → Exec S Authority
  revalidate_authority authority = do
    observed ← normalize_approval_authority (settings_of authority)
    check (not (value_eq (public_authority observed) (public_authority authority)))
        "Approval Authority pins changed during verification."
    check
        (not (nat_eq (Status.device observed.replay_status) (Status.device authority.replay_status))
          || not
              (nat_eq (Status.inode observed.replay_status) (Status.inode authority.replay_status)))
        "Approval Authority replay-directory identity changed."
    pure observed

  unfoldable pub approval_signing_payload : Value → Value → String → String → Value → Exec S Bytes
  approval_signing_payload approval settings operation target binding = do
    a ← lift (as_dict (some approval) "approval must be a mapping.")
    n ← normalize_approval_fields py trusted (dict (with_signature a)) false
    authority ← normalize_approval_authority settings
    check (is_empty operation) "approval operation binding is invalid."
    check (is_empty target) "approval target binding is invalid."
    payload ← lift (approval_payload n authority operation target binding)
    pure (Stdlib.dumps py payload)

  -- The checks of the replay directory, the bindings and the time.
  unfoldable pub check_binding :
      Normalized → Authority → String → String → Moment → Exec S (Unit {0})
  check_binding n authority operation target now = do
    check (not (n.replay_directory == authority.replay_directory))
        "approval.replay_directory must exactly match the independently pinned Approval Authority replay directory."
    check (not (same_directory n authority)) "Approval Authority replay-directory identity changed."
    check (is_empty operation) "approval operation binding is invalid."
    check (is_empty target) "approval target binding is invalid."
    check (not now.aware) "approval validation time must be timezone-aware."
    check (not_yet now.micros n.issued_at) "approval is not yet valid."
    check (leb n.expires_at now.micros) "approval has expired."

  unfoldable pub check_unused : Authority → String → Exec S (Unit {0})
  check_unused authority replay_digest = do
    used ←
        Trusted.lexists trusted
          (Trusted.join trusted authority.replay_directory (replay_digest <> ".used"))
    check used "approval nonce has already been consumed."

  -- `clock` is `datetime.now`.
  unfoldable pub normalize_approval :
      Value → Value → String → String → Value → Exec S Moment → Exec S Approval
  normalize_approval approval settings operation target binding clock = do
    n ← normalize_approval_fields py trusted approval true
    authority ← normalize_approval_authority settings
    now ← clock
    check_binding n authority operation target now
    payload ← lift (approval_payload n authority operation target binding)
    let raw = Stdlib.dumps py payload
    Trusted.verify_signature trusted authority n.signature raw
    let replay_digest = Stdlib.sha256 py (Stdlib.dumps py (replay_identity n authority))
    check_unused authority replay_digest
    pure (record {
      execution_id = n.execution_id;
      commit_shas = n.commit_shas;
      issued_at = n.issued_at_text;
      expires_at = n.expires_at_text;
      approval_digest = Stdlib.sha256 py raw;
      replay_digest = replay_digest;
      authority_identity = authority.identity;
      authority_namespace = authority.namespace;
      authority_fingerprint = authority.fingerprint;
      replay_directory = authority.replay_directory;
      replay_directory_device = Status.device authority.replay_status;
      replay_directory_inode = Status.inode authority.replay_status;
    })
