-- ===== src/Custody/Retrieval/Receipts.antt =====
-- Valid packages pass the checks of a readback and of a download.
use text.Mathlib.TextPositions.{eq_refl}
use ansible_collection_found.Base.{
  ◌<◌, false, some, [], ◌∷◌, Bytes, ◌≡◌, arith, length, any, ltb, bytes_eq_refl,
}
use ansible_collection_found.Base.Result.{ok}
use ansible_collection_found.Base.Value.{Value, Fields, dict, str, get, value_eq}
use ansible_collection_found.Stdlib.{Stdlib}
use ansible_collection_found.Custody.Package.{
  max_package, validate_package, decode_package, unique_object,
}
use ansible_collection_found.Custody.Receipt.{validate_read_pins, verify_download, differs}

module _ (py : Stdlib) where
  -- What a valid package says of its bytes.
  pub validate_package-bytes :
      (p : Fields) (raw : Bytes)
      → validate_package py (dict p) ≡ ok raw
      → (Stdlib.dumps py (dict p) ≡ raw) × (ltb max_package (length raw) ≡ false)
  unfolding validate_package
  validate_package-bytes p raw valid = ground arith

  module _ (p m : Fields) (raw : Bytes) (manifest : Value)
      (valid : validate_package py (dict p) ≡ ok raw) (some_bytes : 0 < length raw)
      (parsed : Stdlib.loads py unique_object raw ≡ ok (dict p)) where
    pub decode_package_self : decode_package py raw raw ≡ ok (dict p)
    unfolding decode_package
    decode_package_self =
        rw (parsed, valid, bytes_eq_refl raw) (ground (arith, validate_package-bytes p raw valid))

    -- A receipt that names the digest of the bytes and the identity in the manifest.
    pub verify_download-match :
        (receipt : Value) (pins : Fields)
        → get p "manifest" ≡ some (dict m)
        → validate_read_pins py receipt ≡ ok pins
        → get pins "package_sha256" ≡ some (str (Stdlib.sha256 py raw))
        → any (differs py m pins) ("subject" ∷ "source_machine_id" ∷ "luks_uuid" ∷ []) ≡ false
        → verify_download py raw receipt ≡ ok (dict p)
    unfolding verify_download value_eq
    verify_download-match receipt pins present well pinned same = ground (
      arith,
      validate_package-bytes p raw valid,
      bytes_eq_refl raw,
      eq_refl (Stdlib.sha256 py raw),
    )
