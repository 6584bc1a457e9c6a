-- ===== src/Custody/Package.antt =====
-- The encrypted header package: its strict schema and its exact bytes.
use ansible_collection_found.Base.{
  ℕ, String, Bool, not, ◌&&◌, ◌||◌, ◌==◌, Option, List, [], ◌∷◌, Bytes, length, any, all, contains,
  codes, len, ltb, leb, nat_eq, if◌then◌else◌, is_alnum, alnum_or, is_hex, repeat_match, head_tail,
  is_digest, is_blank, bytes_eq, starts_with,
}
use ansible_collection_found.Base.Result.{Result, ok, err, ◌>>=◌, ◌>>◌, refuse}
use ansible_collection_found.Base.Value.{
  Value, Fields, dict, str, end, field, get, index, has_keys, key_names, str_and, int_and, as_dict,
  as_str, value_eq,
}
use ansible_collection_found.Stdlib.{Stdlib}

-- 128 MiB, and 4 MiB more.
unfoldable pub max_cipher : ℕ
max_cipher = 134217728

unfoldable pub max_package : ℕ
max_package = 138412032

abbrev pub manifest_fields : List String
manifest_fields =
    "schema_version" ∷ "subject" ∷ "source_machine_id" ∷ "luks_uuid" ∷ "luks_header_sha256_raw"
    ∷ "luks_header_raw_size_bytes" ∷ "ciphertext_sha256" ∷ "owner" ∷ "retention"
    ∷ "key_retrieval_reference" ∷ []

-- `[A-Za-z0-9][A-Za-z0-9._-]{0,252}`
unfoldable pub is_subject : String → Bool
unfolding head_tail
is_subject s = head_tail is_alnum (alnum_or (b'.' ∷ b'_' ∷ b'-' ∷ [])) 252 (codes s)

-- `[0-9a-f]{32}`
unfoldable pub is_machine_id : String → Bool
unfolding repeat_match
is_machine_id s = repeat_match is_hex 32 32 (codes s)

-- The custody metadata: not blank, at most 2048 characters, no control character.
unfoldable pub is_metadata : String → Bool
unfolding is_blank
is_metadata s = not (is_blank s) && leb (len s) 2048 && not (any (λ c. ltb c 32) (codes s))

-- `s.encode("ascii")`
unfoldable pub encode_ascii : String → Result Bytes
encode_ascii s = if all (λ c. ltb c 128) (codes s) then ok (codes s) else err "UnicodeEncodeError"

-- `result[key] = value` at a new key.
abbrev pub append_field : Fields → String → Value → Fields
append_field end k v = field k v end
append_field (field j w fs) k v = field j w (append_field fs k v)

-- The duplicate check of `json.loads`: the fields so far and the pairs that remain.
unfoldable pub unique_from : Fields → Fields → Result Value
unique_from seen end = ok (dict seen)
unique_from seen (field k v rest) =
    let more = unique_from (append_field seen k v) rest in
    if contains (key_names seen) k then err "Duplicate package field." else more

unfoldable pub unique_object : Fields → Result Value
unfolding unique_from
unique_object pairs = unique_from end pairs

module _ (py : Stdlib) where
  open py use {sha256, dumps, loads, uuid}

  -- `str(uuid.UUID(v)) != v`
  unfoldable pub check_uuid : Option Value → String → Result (Unit {0})
  check_uuid v message = do
    text ← as_str v message
    canonical ← uuid text
    refuse (not (canonical == text)) message

  -- The manifest of a package.
  unfoldable pub validate_manifest : Fields → Result (Unit {0})
  validate_manifest m = do
    refuse (not (has_keys m manifest_fields)) "Invalid header manifest."
    refuse (not (int_and (λ n. nat_eq n 1) (get m "schema_version")))
        "Invalid header schema version."
    refuse (not (str_and is_subject (get m "subject"))) "Invalid header subject."
    refuse (not (str_and is_machine_id (get m "source_machine_id"))) "Invalid source identity."
    check_uuid (get m "luks_uuid") "Invalid source disk identity."
    refuse
        (not (str_and is_digest (get m "ciphertext_sha256"))
          || not (str_and is_digest (get m "luks_header_sha256_raw")))
        "Invalid header checksum."
    refuse (not (int_and (λ n. ltb 0 n && leb n 20971520) (get m "luks_header_raw_size_bytes")))
        "Invalid raw header size."
    refuse
        (not (str_and is_metadata (get m "owner"))
          || not (str_and is_metadata (get m "retention"))
          || not (str_and is_metadata (get m "key_retrieval_reference")))
        "Explicit bounded custody metadata is required."

  -- The ciphertext, against the checksum in the manifest.
  unfoldable pub validate_ciphertext : Fields → String → Result (Unit {0})
  validate_ciphertext m text = do
    refuse (not (starts_with text "$ANSIBLE_VAULT;1."))
        "Only Ansible Vault ciphertext can enter provider custody."
    raw ← encode_ascii text
    sum ← index m "ciphertext_sha256"
    refuse
        (not (ltb 0 (length raw) && leb (length raw) max_cipher)
          || not (value_eq (str (sha256 raw)) sum))
        "Ciphertext checksum or size mismatch."

  unfoldable pub validate_fields : Fields → Result Bytes
  validate_fields p = do
    refuse (not (has_keys p ("manifest" ∷ "ciphertext" ∷ []))) "Invalid encrypted header package."
    m ← as_dict (get p "manifest") "Invalid header manifest."
    validate_manifest m
    text ← as_str (get p "ciphertext") "Only Ansible Vault ciphertext can enter provider custody."
    validate_ciphertext m text
    refuse (ltb max_package (length (dumps (dict p)))) "Header package exceeds its bound."
    ok (dumps (dict p))

  unfoldable pub validate_package : Value → Result Bytes
  unfolding validate_fields
  validate_package (dict p) = validate_fields p
  validate_package _ = err "Invalid encrypted header package."

  unfoldable pub decode_package : Bytes → Bytes → Result Value
  decode_package payload expected = do
    refuse (not (ltb 0 (length payload) && leb (length payload) max_package))
        "Invalid provider package size."
    value ← loads unique_object payload
    raw ← validate_package value
    refuse (not (bytes_eq raw payload) || not (bytes_eq payload expected))
        "Provider readback does not match the exact header package."
    ok value
