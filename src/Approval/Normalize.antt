-- ===== src/Approval/Normalize.antt =====
-- `normalize_approval`: an expiring approval is validated before it is claimed.
use ansible_collection_found.Base.{
  ℕ, ◌-◌, String, Bool, true, false, not, ◌&&◌, ◌||◌, Option, some, none, List, [], ◌∷◌, ◌++◌,
  Bytes, length, drop, take, codes, len, any, all, ltb, leb, nat_eq, is_alnum, is_hex, alnum_or,
  repeat_match, head_tail, is_digest, bytes_eq,
}
use ansible_collection_found.Base.Result
use ansible_collection_found.Base.Result.{Result, ok, err, refuse}
use ansible_collection_found.Base.Exec.{Exec, pure, lift, check, ◌>>=◌, ◌>>◌}
use ansible_collection_found.Base.Value.{
  str, Value, Fields, Items, int, list, dict, nil, cons, pos, end, field, get, has_keys, str_and,
  as_dict, as_str, value_eq,
}
use ansible_collection_found.Stdlib.{Stdlib}
use ansible_collection_found.Approval.Os.{Status}
use ansible_collection_found.Approval.Claim.{Approval, utc_timestamp}
use ansible_collection_found.Firewall.Order.{sort, text_le}

-- The checked pins of the Approval Authority.
pub record Authority : Type 0 where
  pub identity : String
  pub namespace : String
  pub fingerprint : String
  pub allowed_signers_path : String
  pub allowed_signers_sha256 : String
  pub entry_sha256 : String
  pub ssh_keygen_path : String
  pub ssh_keygen_sha256 : String
  pub replay_directory : String
  pub signers : Bytes
  -- the paths as they were given
  pub requested_signers : Value
  pub requested_keygen : Value
  pub replay_status : Status

-- The checks of files and of signatures, which read the machine.
pub record Trusted (S : Type 0) : Type 0 where
  -- `trusted_replay_directory(path, name)`
  pub replay_directory : Option Value → String → Exec S (String × Status)
  -- `trusted_pinned_regular_file(path, sha256, name, maximum_size)`
  pub pinned_file : Option Value → String → String → ℕ → Exec S (String × Bytes)
  -- `trusted_executable(path, sha256, name)`
  pub executable : Option Value → String → String → Exec S String
  -- the digest of the one entry that `_parse_allowed_signers(payload, identity, fingerprint)` accepts
  pub signer_entry : Bytes → String → String → Result String
  -- `_verify_approval_signature`, of a signature and the bytes that it signs
  pub verify_signature : Authority → String → Bytes → Exec S (Unit {0})
  -- `os.path.lexists(path)` and `os.path.join(directory, name)`
  pub lexists : String → Exec S Bool
  pub join : String → String → String

abbrev pub approval_keys : List String
approval_keys =
    "schema_version" ∷ "execution_id" ∷ "commit_shas" ∷ "nonce" ∷ "issued_at" ∷ "expires_at"
    ∷ "replay_directory" ∷ "signature" ∷ []

abbrev pub authority_keys : List String
authority_keys =
    "schema_version" ∷ "identity" ∷ "namespace" ∷ "fingerprint" ∷ "allowed_signers_path"
    ∷ "allowed_signers_sha256" ∷ "ssh_keygen_path" ∷ "ssh_keygen_sha256" ∷ "replay_directory" ∷ []

-- Both of Python's `==` with 1, so `True` passes too.
abbrev pub is_one : Option Value → Bool
is_one none = false
is_one (some v) = value_eq v (int (pos 1))

-- `[A-Za-z0-9][A-Za-z0-9._:-]{0,127}`
unfoldable pub is_execution : String → Bool
unfolding head_tail
is_execution s = head_tail is_alnum (alnum_or (b'.' ∷ b'_' ∷ b':' ∷ b'-' ∷ [])) 127 (codes s)

-- `[A-Za-z0-9][A-Za-z0-9._/-]{0,127}`
unfoldable pub is_repository : String → Bool
unfolding head_tail
is_repository s = head_tail is_alnum (alnum_or (b'.' ∷ b'_' ∷ b'/' ∷ b'-' ∷ [])) 127 (codes s)

-- 40 or 64 lowercase hexadecimal digits.
unfoldable pub is_commit : String → Bool
unfolding repeat_match
is_commit s = repeat_match is_hex 40 40 (codes s) || repeat_match is_hex 64 64 (codes s)

abbrev pub pairs : Fields → List (String × Value)
pairs end = []
pairs (field k v fs) = (k, v) ∷ pairs fs

abbrev pub of_pairs : List (String × Value) → Fields
of_pairs [] = end
of_pairs ((k, v) ∷ ps) = field k v (of_pairs ps)

-- `dict(sorted(commit_shas.items()))`; the keys differ.
unfoldable pub sorted_fields : Fields → Fields
sorted_fields fs = of_pairs (sort (λ a b. text_le a.0 b.0) (pairs fs))

unfoldable pub are_commits : Fields → Bool
unfolding is_repository is_commit
are_commits fs =
    leb 1 (length (pairs fs))
    && leb (length (pairs fs)) 32
    && all (λ p. is_repository p.0 && str_and is_commit (some p.1)) (pairs fs)

abbrev pub begins : List ℕ → List ℕ → Bool
begins text start = bytes_eq (take (length start) text) start

abbrev pub finishes : List ℕ → List ℕ → Bool
finishes text finish =
    leb (length finish) (length text) && bytes_eq (drop (length text - length finish) text) finish

-- An armored SSH signature, each line ending with a line feed.
unfoldable pub is_armored : String → Bool
is_armored s =
    begins (codes s) (codes "-----BEGIN SSH SIGNATURE-----" ++ 10 ∷ [])
    && finishes (codes s) (codes "-----END SSH SIGNATURE-----" ++ 10 ∷ [])

-- ASCII, at most 16384 characters, and no NUL.
unfoldable pub is_bounded : String → Bool
is_bounded s = all (λ c. ltb c 128) (codes s) && leb (len s) 16384 && not (any (nat_eq 0) (codes s))

abbrev pub is_empty : String → Bool
is_empty s = nat_eq (len s) 0

unfoldable pub check_signature : Bool → Option Value → Result String
check_signature required value =
    Result.◌>>=◌ (as_str value "approval.signature must be one bounded ASCII SSH signature.")
      λ signature.
        Result.◌>>◌
          (refuse (not (is_bounded signature) || required && is_empty signature)
            "approval.signature must be one bounded ASCII SSH signature.")
          (Result.◌>>◌
            (refuse (not (is_empty signature) && not (is_armored signature))
              "approval.signature is not an armored SSH signature.")
            (ok signature))

-- `_canonical_json_value`: no mapping has an empty key.
unfoldable mutual
  pub is_canonical : Value → Bool
  is_canonical (list vs) = are_canonical vs
  is_canonical (dict fs) = have_keys fs
  is_canonical _ = true

  pub are_canonical : Items → Bool
  are_canonical nil = true
  are_canonical (cons v vs) = is_canonical v && are_canonical vs

  pub have_keys : Fields → Bool
  have_keys end = true
  have_keys (field k v fs) = not (is_empty k) && is_canonical v && have_keys fs

-- The fields of an approval that were checked.
pub record Normalized : Type 0 where
  pub execution_id : String
  pub commit_shas : Fields
  pub nonce : String
  pub issued_at : ℕ
  pub issued_at_text : String
  pub expires_at : ℕ
  pub expires_at_text : String
  pub replay_directory : String
  pub replay_status : Status
  pub signature : String

module _ {S : Type 0} (py : Stdlib) (trusted : Trusted S) where
  unfoldable pub normalize_approval_fields : Value → Bool → Exec S Normalized
  normalize_approval_fields approval required = do
    a ← lift (
        as_dict (some approval)
          "approval must contain exactly the documented one-time authorization fields.")
    check (not (has_keys a approval_keys))
        "approval must contain exactly the documented one-time authorization fields."
    check (not (is_one (get a "schema_version"))) "approval.schema_version must be exactly 1."
    execution ← lift (as_str (get a "execution_id") "approval.execution_id is invalid.")
    check (not (is_execution execution)) "approval.execution_id is invalid."
    commits ← lift (
        as_dict (get a "commit_shas")
          "approval.commit_shas must pin one or more repositories to full lowercase Git SHAs.")
    check (not (are_commits commits))
        "approval.commit_shas must pin one or more repositories to full lowercase Git SHAs."
    nonce ← lift (
        as_str (get a "nonce")
          "approval.nonce must be 32 random bytes encoded as lowercase hexadecimal.")
    check (not (is_digest nonce))
        "approval.nonce must be 32 random bytes encoded as lowercase hexadecimal."
    issued_text ←
        lift (as_str (get a "issued_at") "approval.issued_at must be an exact UTC timestamp.")
    issued ← lift (utc_timestamp py issued_text "approval.issued_at")
    expires_text ←
        lift (as_str (get a "expires_at") "approval.expires_at must be an exact UTC timestamp.")
    expires ← lift (utc_timestamp py expires_text "approval.expires_at")
    check (leb expires issued || ltb 900000000 (expires - issued))
        "approval lifetime must be greater than zero and no longer than 15 minutes."
    directory ←
        Trusted.replay_directory trusted (get a "replay_directory") "approval.replay_directory"
    signature ← lift (check_signature required (get a "signature"))
    pure (record {
      execution_id = execution;
      commit_shas = sorted_fields commits;
      nonce = nonce;
      issued_at = issued;
      issued_at_text = issued_text;
      expires_at = expires;
      expires_at_text = expires_text;
      replay_directory = directory.0;
      replay_status = directory.1;
      signature = signature;
    })

-- The evidence of an approval that is neither secret nor replayable.
unfoldable pub safe_approval_metadata : Approval → Value
safe_approval_metadata a = dict (
    field "execution_id" (str a.execution_id) (
      field "commit_shas" (dict a.commit_shas) (
        field "issued_at" (str a.issued_at) (
          field "expires_at" (str a.expires_at) (
            field "approval_digest" (str a.approval_digest) (
              field "replay_digest" (str a.replay_digest) (
                field "authority_identity" (str a.authority_identity) (
                  field "authority_namespace" (str a.authority_namespace)
                    (field "authority_fingerprint" (str a.authority_fingerprint) end)))))))))
