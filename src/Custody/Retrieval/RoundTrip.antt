-- ===== src/Custody/Retrieval/RoundTrip.antt =====
-- A package that was published is retrieved as it was.
use text.Mathlib.TextPositions.{eq_refl}
use ansible_collection_found.Base.{
  ℕ, suc, ◌+◌, ◌*◌, ◌/◌, ◌<◌, ◌≤◌, String, ◌<>◌, true, false, not, ◌||◌, some, List, [], ◌∷◌, Bytes,
  ◌≡◌, refl, ap, ◌∙◌, arith, length, len, any, flatten, leb, nat_eq,
}
use ansible_collection_found.Base.Result.{ok, refuse-pass}
use ansible_collection_found.Base.Exec.{pure, bind-of_ok, lift-of_ok}
use ansible_collection_found.Base.Value.{Value, Fields, dict, str, get, index, value_eq}
use ansible_collection_found.Stdlib.{Stdlib}
use ansible_collection_found.Custody.Package.{validate_package, unique_object}
use ansible_collection_found.Custody.Chunks.{chunk_size, chunks}
use ansible_collection_found.Custody.Chunks.Laws.{
  AllBounded, chunks-AllBounded, flatten-chunks, length-chunks,
}
use ansible_collection_found.Custody.Client.{Client, Row, IsReliable}
use ansible_collection_found.Custody.Receipt.{safe_path, validate_read_pins, differs}
use ansible_collection_found.Custody.Retrieval.Receipts.{
  validate_package-bytes, verify_download-match,
}
use ansible_collection_found.Custody.Vault.{
  chunk_path, chunk_record, chunk_entries, manifest_data, manifest_record,
}
use ansible_collection_found.Custody.Vault.Entries.{IsInjective, manifest_record-eq_self}
use ansible_collection_found.Custody.Vault.Success.{AllExact}
use ansible_collection_found.Custody.Retrieval.{
  same_row, check_bounds, chunk_fields, chunk_bytes, read_chunks, retrieve, vault_read_custody,
}

-- What is relied on of `base64`, for the given chunks: decoding undoes encoding, and three bytes are
-- encoded as four characters.
abbrev pub IsBase64 : Stdlib → List Bytes → Type 0
IsBase64 py [] = Unit
IsBase64 py (b ∷ bs) =
    (Stdlib.b64decode py (Stdlib.b64encode py b) ≡ ok b)
    × (len (Stdlib.b64encode py b) ≡ (length b + 2) / 3 * 4)
    × IsBase64 py bs

module _ (py : Stdlib) (injective : IsInjective (Stdlib.decimal py)) where
  payload_fits :
      (n k : ℕ) → n ≤ chunk_size → k ≡ (n + 2) / 3 * 4 → leb k ((chunk_size + 2) / 3 * 4) ≡ true
  unfolding chunk_size
  payload_fits n k h e = ground arith

  pub chunk_bytes-record :
      (i n : ℕ) (b : Bytes)
      → length b ≤ chunk_size
      → Stdlib.b64decode py (Stdlib.b64encode py b) ≡ ok b
      → len (Stdlib.b64encode py b) ≡ (length b + 2) / 3 * 4
      → chunk_bytes py i (some (record { payload = chunk_record py i b; version = n })) ≡ ok b
  unfolding chunk_bytes chunk_fields chunk_record value_eq
  chunk_bytes-record i n b h decodes longer = ground (
    arith,
    payload_fits (length b) (len (Stdlib.b64encode py b)) h longer,
    eq_refl (Stdlib.sha256 py b),
  )

  module _ {c : Client} (reliable : IsReliable c) (mount root : String) where
    pub read_chunks-exact :
        (i : ℕ) (bs : List Bytes) (t : Client.State c)
        → AllBounded chunk_size bs
        → IsBase64 py bs
        → AllExact py reliable mount t (chunk_entries py root i bs)
        → read_chunks py c mount root i (length bs) t ≡ (ok (flatten bs), t)
    unfolding read_chunks chunk_entries pure
    read_chunks-exact i [] t small base64 exact = refl
    read_chunks-exact i (b ∷ bs) t small base64 ((n, here), exact) =
        bind-of_ok (Client.read c mount (chunk_path py root i)) _ t _ t
          (reliable.read-eq mount (chunk_path py root i) t ∙ ap (λ r. (ok r, t)) here)
        ∙ lift-of_ok (chunk_bytes py i _) _ t b (chunk_bytes-record i n b small.0 base64.0 base64.1)
        ∙ bind-of_ok (read_chunks py c mount root (suc i) (length bs)) _ t (flatten bs) t
            (read_chunks-exact (suc i) bs t small.1 base64.2 exact)

  -- The state holds exactly the objects of the package.
  module _ {c : Client} (reliable : IsReliable c) (mount prefix : String) (p m : Fields)
      (raw : Bytes) (valid : validate_package py (dict p) ≡ ok raw) (some_bytes : 0 < length raw)
      (parsed : Stdlib.loads py unique_object raw ≡ ok (dict p))
      (present : get p "manifest" ≡ some (dict m)) (own : value_eq (dict m) (dict m) ≡ true)
      (base64 : IsBase64 py (chunks chunk_size raw)) where
    abbrev root : String
    root = prefix <> ("/" <> Stdlib.sha256 py raw)

    abbrev committed : Value
    committed =
        manifest_record py (Stdlib.sha256 py raw) (length raw) (length (chunks chunk_size raw))
          (dict m)

    abbrev row : ℕ → Row
    row n = record { payload = committed; version = n }

    check_bounds_self :
        check_bounds
          (manifest_data py
            (Stdlib.sha256 py raw)
            (length raw)
            (length (chunks chunk_size raw))
            (dict m))
          (Stdlib.sha256 py raw)
          (length raw)
          (length (chunks chunk_size raw))
        ≡ ok tt
    unfolding check_bounds manifest_data
    check_bounds_self = ground (
      arith,
      eq_refl (Stdlib.sha256 py raw),
      length-chunks raw,
      validate_package-bytes py p raw valid,
    )

    unchanged :
        (n : ℕ)
        → (not (nat_eq (length raw) (length raw)) || not (same_row (some (row n)) (row n))) ≡ false
    unchanged n = ground (
      arith,
      manifest_record-eq_self py injective root (Stdlib.sha256 py raw) (length raw)
          (length (chunks chunk_size raw)) (dict m) own,
    )

    -- From the committed manifest on, for a receipt that names the package and its source.
    pub retrieve-exact :
        (receipt : Value) (pins : Fields) (n : ℕ) (t : Client.State c)
        → validate_read_pins py receipt ≡ ok pins
        → get pins "package_sha256" ≡ some (str (Stdlib.sha256 py raw))
        → any (differs py m pins) ("subject" ∷ "source_machine_id" ∷ "luks_uuid" ∷ []) ≡ false
        → Client.stored c t mount (root <> "/manifest") ≡ some (row n)
        → AllExact py reliable mount t (chunk_entries py root 0 (chunks chunk_size raw))
        → retrieve py c mount root (Stdlib.sha256 py raw) receipt (row n) t ≡ (
          ok (record {
            changed = false;
            verified = true;
            contents = dict p;
            package_sha256 = Stdlib.sha256 py raw;
            manifest_path = root <> "/manifest";
            manifest_version = n;
          }),
          t,
        )
    unfolding retrieve manifest_record pure chunk_size
    retrieve-exact receipt pins n t well pinned same here exact =
        lift-of_ok _ _ t _ refl
        ∙ lift-of_ok _ _ t (length raw) refl
        ∙ lift-of_ok _ _ t (length (chunks chunk_size raw)) refl
        ∙ lift-of_ok _ _ t tt check_bounds_self
        ∙ bind-of_ok (read_chunks py c mount root 0 (length (chunks chunk_size raw))) _ t raw t (
            read_chunks-exact reliable mount root 0 (chunks chunk_size raw) t
              (chunks-AllBounded chunk_size raw) base64 exact
            ∙ ap (λ b. (ok b, t)) (flatten-chunks chunk_size positive raw))
        ∙ bind-of_ok (Client.read c mount (root <> "/manifest")) _ t _ t
            (reliable.read-eq mount (root <> "/manifest") t ∙ ap (λ r. (ok r, t)) here)
        ∙ lift-of_ok _ _ t tt (refuse-pass _ _ (unchanged n))
        ∙ lift-of_ok _ _ t (dict p) (
            verify_download-match py p m raw (dict m) valid some_bytes parsed receipt pins present
              well pinned same)
        ∙ lift-of_ok _ _ t p refl
        ∙ lift-of_ok _ _ t (dict m) (rw (index, present))
        ∙ lift-of_ok _ _ t (dict m) refl
        ∙ lift-of_ok _ _ t tt (refuse-pass _ _ (rw own))
      where
        positive : 0 < chunk_size
        positive = omega arith

    -- The whole retrieval.
    pub vault_read_custody-exact :
        (receipt : Value) (pins : Fields) (n : ℕ) (t : Client.State c)
        → safe_path mount ≡ ok mount
        → safe_path prefix ≡ ok prefix
        → validate_read_pins py receipt ≡ ok pins
        → get pins "package_sha256" ≡ some (str (Stdlib.sha256 py raw))
        → any (differs py m pins) ("subject" ∷ "source_machine_id" ∷ "luks_uuid" ∷ []) ≡ false
        → Client.stored c t mount (root <> "/manifest") ≡ some (row n)
        → AllExact py reliable mount t (chunk_entries py root 0 (chunks chunk_size raw))
        → vault_read_custody py c mount prefix receipt t ≡ (
          ok (record {
            changed = false;
            verified = true;
            contents = dict p;
            package_sha256 = Stdlib.sha256 py raw;
            manifest_path = root <> "/manifest";
            manifest_version = n;
          }),
          t,
        )
    unfolding vault_read_custody
    vault_read_custody-exact receipt pins n t safe_mount safe_prefix well pinned same here exact =
        lift-of_ok _ _ t pins well
        ∙ lift-of_ok _ _ t mount safe_mount
        ∙ lift-of_ok _ _ t prefix safe_prefix
        ∙ lift-of_ok _ _ t (Stdlib.sha256 py raw) (rw pinned)
        ∙ bind-of_ok (Client.read c mount (root <> "/manifest")) _ t _ t
            (reliable.read-eq mount (root <> "/manifest") t ∙ ap (λ r. (ok r, t)) here)
        ∙ lift-of_ok _ _ t (row n) refl
        ∙ retrieve-exact receipt pins n t well pinned same here exact
