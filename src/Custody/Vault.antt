-- ===== src/Custody/Vault.antt =====
-- `vault_custody` and `vault_read_custody`: a package is published as create-only chunks with the
-- manifest last, and is retrieved by an independent receipt.
pub mod Store
pub mod Readonly
pub mod Publish
pub mod Preserves
pub mod Commit
pub mod Entries
pub mod Success
use ansible_collection_found.Base.{
  ℕ, zero, suc, ◌+◌, ◌-◌, ◌*◌, ◌/◌, String, ◌<>◌, Bool, true, false, not, ◌&&◌, ◌||◌, ◌==◌, Option,
  none, some, List, [], ◌∷◌, ◌++◌, Bytes, length, any, all, contains, ltb, leb, nat_eq,
  if◌then◌else◌, bytes_eq,
}
use ansible_collection_found.Base.Result
use ansible_collection_found.Base.Result.{Result, ok, err, refuse}
use ansible_collection_found.Base.Exec.{Exec, pure, raise, lift, check, ◌>>=◌, ◌>>◌}
use ansible_collection_found.Base.Value.{
  Value, Fields, dict, str, int, pos, end, field, get, index, has_keys, is_str, int_and, str_and,
  as_dict, as_str, as_nat, value_eq,
}
use ansible_collection_found.Stdlib.{Stdlib}
use ansible_collection_found.Custody.Package.{max_package, validate_package, decode_package}
use ansible_collection_found.Custody.Chunks.{chunk_size, chunks}
use ansible_collection_found.Custody.Receipt.{safe_path, validate_read_pins, verify_download}
use ansible_collection_found.Custody.Client.{Client, Row}

-- One object of the publication: its path and its data.
abbrev pub Entry : Type 0
Entry = String × Value

pub record Outcome : Type 0 where
  pub changed : Bool
  pub verified : Bool
  pub planned : Bool
  pub package_sha256 : String
  pub manifest_path : String
  pub manifest_version : Option ℕ

module _ (py : Stdlib) where
  open py use {sha256, b64encode, b64decode, decimal}

  unfoldable pub chunk_path : String → ℕ → String
  chunk_path root i = root <> ("/chunk-" <> decimal i)

  unfoldable pub chunk_record : ℕ → Bytes → Value
  chunk_record i chunk = dict (
      field "index" (int (pos i))
        (field "sha256" (str (sha256 chunk)) (field "payload_b64" (str (b64encode chunk)) end)))

  unfoldable pub chunk_entries : String → ℕ → List Bytes → List Entry
  unfolding chunk_path chunk_record
  chunk_entries root i [] = []
  chunk_entries root i (chunk ∷ rest) =
      (chunk_path root i, chunk_record i chunk) ∷ chunk_entries root (suc i) rest

  unfoldable pub manifest_data : String → ℕ → ℕ → Value → Fields
  manifest_data sha size count manifest = field "format" (str "luks-header-custody-v1") (
      field "package_sha256" (str sha) (
        field "package_size_bytes" (int (pos size))
          (field "chunk_count" (int (pos count)) (field "manifest" manifest end))))

  unfoldable pub manifest_record : String → ℕ → ℕ → Value → Value
  unfolding manifest_data
  manifest_record sha size count manifest = dict (manifest_data sha size count manifest)

  -- All objects of a package, the manifest last.
  unfoldable pub entries : String → String → Bytes → Value → List Entry
  unfolding chunk_entries manifest_record chunks chunk_size
  entries root sha raw manifest =
      chunk_entries root 0 (chunks chunk_size raw)
      ++ ((
        root <> "/manifest",
        manifest_record sha (length raw) (length (chunks chunk_size raw)) manifest,
      )
          ∷ [])

  -- `current is not None and current["data"] != value`
  unfoldable pub conflicts : Option Row → Value → Bool
  conflicts none value = false
  conflicts (some row) value = not (value_eq row.payload value)

  -- The payloads of the chunks, `verified[:-1]`.
  unfoldable pub assemble : List (Option Row) → Result Bytes
  assemble [] = ok []
  assemble (row ∷ []) = ok []
  assemble (none ∷ rest) = err "TypeError"
  assemble (some row ∷ rest) = Result.◌>>=◌ (as_dict (some row.payload) "TypeError") λ d.
      Result.◌>>=◌ (index d "payload_b64") λ v. Result.◌>>=◌ (as_str (some v) "TypeError") λ text.
        Result.◌>>=◌ (b64decode text)
          λ bytes. Result.◌>>=◌ (assemble rest) λ more. ok (bytes ++ more)

  -- `for (_, value), row in zip(objects, verified): if row["data"] != value: raise`
  unfoldable pub changed_since : List Entry → List (Option Row) → Bool
  changed_since ((path, value) ∷ objects) (some row ∷ rows) =
      not (value_eq row.payload value) || changed_since objects rows
  changed_since _ _ = false

  abbrev pub is_present : Option Row → Bool
  is_present none = false
  is_present (some _) = true

  -- `verified[-1]["version"]`
  abbrev pub last_version : List (Option Row) → Option ℕ
  last_version [] = none
  last_version (none ∷ []) = none
  last_version (some row ∷ []) = some row.version
  last_version (_ ∷ rows) = last_version rows

  -- The check of a complete readback.
  unfoldable pub confirm : List Entry → List (Option Row) → Bytes → Result (Unit {0})
  unfolding assemble changed_since
  confirm objects rows raw =
      Result.◌>>◌ (refuse (changed_since objects rows) "Vault custody changed during readback.") (
        Result.◌>>=◌ (assemble rows)
          λ assembled. Result.◌>>=◌ (decode_package py assembled raw) λ _. ok tt)

module _ (py : Stdlib) (client : Client) (mount : String) where
  open client use {State, read, create}

  -- The observation of every object, before anything is written.
  unfoldable pub preflight : List Entry → Exec State (List (Option Row))
  unfolding conflicts
  preflight [] = pure []
  preflight ((path, value) ∷ rest) = do
    current ← read mount path
    check (conflicts py current value) "Existing Vault custody conflicts; no overwrite is allowed."
    more ← preflight rest
    pure (current ∷ more)

  -- The creation of what was missing; whether anything was.
  unfoldable pub publish : List Entry → List (Option Row) → Exec State Bool
  publish ((path, value) ∷ rest) (none ∷ observed) = do
    create mount path value
    publish rest observed
    pure true
  publish (_ ∷ rest) (some _ ∷ observed) = publish rest observed
  publish _ _ = pure false

  unfoldable pub readback : List Entry → Exec State (List (Option Row))
  readback [] = pure []
  readback ((path, _) ∷ rest) = do row ← read mount path; more ← readback rest; pure (row ∷ more)

  abbrev pub report : Bool → Bool → List (Option Row) → String → String → Outcome
  report changed missing verified sha root =
      let complete = all (is_present py) verified in
      record {
        changed = changed;
        verified = complete;
        planned = missing && not changed;
        package_sha256 = sha;
        manifest_path = root <> "/manifest";
        manifest_version = if complete then last_version py verified else none;
      }

  -- The transaction on prepared objects.
  unfoldable pub transact :
      List Entry → Bytes → String → String → String → Bool → Exec State Outcome
  transact objects raw sha root operation check_mode = do
    observed ← preflight objects
    check (not (all (is_present py) observed) && operation == "verify")
        "Vault custody is incomplete."
    changed ←
        (if operation == "apply" && not check_mode then publish objects observed else pure false)
    verified ← (if operation == "apply" && not check_mode then readback objects else pure observed)
    lift (if all (is_present py) verified then confirm py objects verified raw else ok tt)
    pure (report changed (not (all (is_present py) observed)) verified sha root)

  unfoldable pub vault_custody : String → Value → String → Bool → Exec State Outcome
  vault_custody prefix pack operation check_mode = do
    lift (safe_path mount)
    lift (safe_path prefix)
    check (not (contains ("plan" ∷ "apply" ∷ "verify" ∷ []) operation)) "Invalid custody operation."
    raw ← lift (validate_package py pack)
    p ← lift (as_dict (some pack) "TypeError")
    manifest ← lift (index p "manifest")
    let sha = Stdlib.sha256 py raw
    let root = prefix <> ("/" <> sha)
    transact (entries py root sha raw manifest) raw sha root operation check_mode
