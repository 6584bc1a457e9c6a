-- ===== src/Custody/Retrieval.antt =====
-- `vault_read_custody`: the retrieval of a package by an independent receipt.
pub mod Receipts
pub mod RoundTrip
use ansible_collection_found.Base.{
  ℕ, zero, suc, ◌+◌, ◌-◌, ◌*◌, ◌/◌, String, ◌<>◌, Bool, true, false, not, ◌&&◌, ◌||◌, Option, none,
  some, List, [], ◌∷◌, ◌++◌, Bytes, length, len, ltb, leb, nat_eq,
}
use ansible_collection_found.Base.Result
use ansible_collection_found.Base.Result.{Result, ok, err, refuse}
use ansible_collection_found.Base.Exec.{Exec, pure, lift, check, ◌>>=◌, ◌>>◌}
use ansible_collection_found.Base.Value.{
  Value, Fields, dict, str, get, index, has_keys, is_str, int_and, str_and, as_dict, as_str, as_nat,
  value_eq,
}
use ansible_collection_found.Stdlib.{Stdlib}
use ansible_collection_found.Custody.Package.{max_package}
use ansible_collection_found.Custody.Chunks.{chunk_size}
use ansible_collection_found.Custody.Receipt.{safe_path, validate_read_pins, verify_download}
use ansible_collection_found.Custody.Client.{Client, Row}
use ansible_collection_found.Custody.Vault.{chunk_path}

pub record Retrieved : Type 0 where
  pub changed : Bool
  pub verified : Bool
  pub contents : Value
  pub package_sha256 : String
  pub manifest_path : String
  pub manifest_version : ℕ

abbrev pub present : Option Row → String → Result Row
present none e = err e
present (some row) e = ok row

-- `client.read(...) == manifest`
abbrev pub same_row : Option Row → Row → Bool
same_row none row = false
same_row (some r) row = value_eq r.payload row.payload && nat_eq r.version row.version

-- The bounds that the manifest commits to: the size of the package and the count of its chunks.
unfoldable pub check_bounds : Fields → String → ℕ → ℕ → Result (Unit {0})
check_bounds m pinned size count =
    refuse
      (not (is_str "luks-header-custody-v1" (get m "format"))
        || not (is_str pinned (get m "package_sha256"))
        || not (ltb 0 size && leb size max_package)
        || not (nat_eq count ((size + chunk_size - 1) / chunk_size)))
      "Invalid committed Vault header bounds."

module _ (py : Stdlib) where
  open py use {sha256, b64decode}

  -- One chunk, at its index.
  unfoldable pub chunk_fields : ℕ → Fields → Result Bytes
  chunk_fields i chunk =
      Result.◌>>◌
        (refuse
          (not (has_keys chunk ("index" ∷ "payload_b64" ∷ "sha256" ∷ []))
            || not (int_and (nat_eq i) (get chunk "index"))
            || not
                (str_and (λ t. leb (len t) ((chunk_size + 2) / 3 * 4)) (get chunk "payload_b64")))
          "Invalid Vault header chunk.")
        (Result.◌>>=◌ (as_str (get chunk "payload_b64") "TypeError") λ text.
          Result.◌>>=◌ (b64decode text) λ raw. Result.◌>>=◌ (index chunk "sha256") λ sum.
            Result.◌>>◌
              (refuse (not (value_eq (str (sha256 raw)) sum))
                "Vault header chunk checksum mismatch.")
              (ok raw))

  unfoldable pub chunk_bytes : ℕ → Option Row → Result Bytes
  chunk_bytes i none = err "Vault header chunk is missing."
  chunk_bytes i (some row) =
      Result.◌>>=◌ (as_dict (some row.payload) "Vault header chunk is missing.") (chunk_fields i)

module _ (py : Stdlib) (client : Client) (mount : String) where
  open client use {State, read}

  -- `for index in range(count)`, joined.
  unfoldable pub read_chunks : String → ℕ → ℕ → Exec State Bytes
  read_chunks root i zero = pure []
  read_chunks root i (suc count) = do
    row ← read mount (chunk_path py root i)
    raw ← lift (chunk_bytes py i row)
    rest ← read_chunks root (suc i) count
    pure (raw ++ rest)

  -- From the committed manifest on.
  unfoldable pub retrieve : String → String → Value → Row → Exec State Retrieved
  retrieve root pinned receipt manifest = do
    m ← lift (as_dict (some manifest.payload) "AttributeError")
    size ← lift (as_nat (get m "package_size_bytes") "Invalid committed Vault header bounds.")
    count ← lift (as_nat (get m "chunk_count") "Invalid committed Vault header bounds.")
    lift (check_bounds m pinned size count)
    raw ← read_chunks root 0 count
    again ← read mount (root <> "/manifest")
    check (not (nat_eq (length raw) size) || not (same_row again manifest))
        "Vault header changed during retrieval."
    pack ← lift (verify_download py raw receipt)
    p ← lift (as_dict (some pack) "TypeError")
    committed ← lift (index p "manifest")
    recorded ← lift (index m "manifest")
    check (not (value_eq committed recorded))
        "Vault manifest source metadata differs from its package."
    pure (record {
      changed = false;
      verified = true;
      contents = pack;
      package_sha256 = pinned;
      manifest_path = root <> "/manifest";
      manifest_version = manifest.version;
    })

  unfoldable pub vault_read_custody : String → Value → Exec State Retrieved
  vault_read_custody prefix receipt = do
    pins ← lift (validate_read_pins py receipt)
    lift (safe_path mount)
    lift (safe_path prefix)
    pinned ← lift (as_str (get pins "package_sha256") "TypeError")
    let root = prefix <> ("/" <> pinned)
    found ← read mount (root <> "/manifest")
    manifest ← lift (present found "Committed Vault header manifest is absent.")
    retrieve root pinned receipt manifest
