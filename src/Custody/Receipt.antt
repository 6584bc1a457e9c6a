-- ===== src/Custody/Receipt.antt =====
-- Provider paths, the independent retrieval receipt, and the check of a download against it.
use ansible_collection_found.Base.{
  ℕ, String, Bool, true, false, not, ◌&&◌, ◌||◌, none, some, List, [], ◌∷◌, Bytes, length, any,
  codes, ltb, leb, nat_eq, is_alnum, alnum_or, head_tail, is_digest, if◌then◌else◌,
}
use ansible_collection_found.Base.Result.{Result, ok, err, ◌>>=◌, ◌>>◌, refuse}
use ansible_collection_found.Base.Value.{
  Value, Fields, dict, str, get, index, has_keys, str_and, as_dict, value_eq,
}
use ansible_collection_found.Stdlib.{Stdlib}
use ansible_collection_found.Custody.Package.{
  max_package, is_subject, is_machine_id, check_uuid, unique_object, validate_package,
}
use ansible_collection_found.Base.{bytes_eq}

abbrev pub onto : ℕ → List (List ℕ) → List (List ℕ)
onto c [] = (c ∷ []) ∷ []
onto c (p ∷ ps) = (c ∷ p) ∷ ps

-- `path.split("/")`, by code points.
unfoldable pub split_path : List ℕ → List (List ℕ)
split_path [] = [] ∷ []
split_path (c ∷ cs) =
    let parts = split_path cs in if nat_eq c b'/' then [] ∷ parts else onto c parts

-- `part in ("", ".", "..")`
abbrev pub is_relative : List ℕ → Bool
is_relative [] = true
is_relative (a ∷ []) = nat_eq a b'.'
is_relative (a ∷ b ∷ []) = nat_eq a b'.' && nat_eq b b'.'
is_relative _ = false

unfoldable pub is_safe_path : String → Bool
unfolding head_tail split_path
is_safe_path path =
    head_tail is_alnum (alnum_or (b'.' ∷ b'_' ∷ b'/' ∷ b'-' ∷ [])) 511 (codes path)
    && not (any is_relative (split_path (codes path)))

unfoldable pub safe_path : String → Result String
unfolding is_safe_path
safe_path path = do
  refuse (not (is_safe_path path)) "An exact normalized provider path is required."
  ok path

module _ (py : Stdlib) where
  open py use {sha256, loads}

  unfoldable pub validate_read_pins : Value → Result Fields
  validate_read_pins (dict pins) = do
    refuse
        (not
          (has_keys pins ("package_sha256" ∷ "subject" ∷ "source_machine_id" ∷ "luks_uuid" ∷ [])))
        "A complete independent retrieval receipt is required."
    refuse
        (not (str_and is_digest (get pins "package_sha256"))
          || not (str_and is_machine_id (get pins "source_machine_id"))
          || not (str_and is_subject (get pins "subject")))
        "Invalid independent source/package receipt."
    check_uuid py (get pins "luks_uuid") "Invalid independent source/package receipt."
    ok pins
  validate_read_pins _ = err "A complete independent retrieval receipt is required."

  -- `package["manifest"][key] != pins[key]`
  abbrev pub differs : Fields → Fields → String → Bool
  differs m pins key = not (elim (get m key) [
    | none ↦ false
    | some v ↦ elim (get pins key) [ none ↦ false | some w ↦ value_eq v w ]
  ])

  unfoldable pub verify_download : Bytes → Value → Result Value
  verify_download payload receipt = do
    pins ← validate_read_pins receipt
    pinned ← index pins "package_sha256"
    refuse
        (not (ltb 0 (length payload) && leb (length payload) max_package)
          || not (value_eq (str (sha256 payload)) pinned))
        "Downloaded package differs from the independent receipt."
    pack ← loads (unique_object) payload
    raw ← validate_package py pack
    p ← as_dict (some pack) "TypeError"
    m ← as_dict (get p "manifest") "TypeError"
    refuse
        (not (bytes_eq raw payload)
          || any (differs m pins) ("subject" ∷ "source_machine_id" ∷ "luks_uuid" ∷ []))
        "Downloaded package source/schema is incorrect."
    ok pack
