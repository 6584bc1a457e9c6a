-- ===== src/Custody/Tests/Runs.antt =====
-- The theorems on publication and retrieval, at the sample package.
use ansible_collection_found.Base.{
  String, ◌<>◌, ◌≡◌, refl, true, false, none, some, [], arith, any, length, ◌+◌, ◌-◌, ◌/◌, ◌∷◌,
  is_digest,
}
use ansible_collection_found.Base.Result.{ok}
use ansible_collection_found.Base.Exec.{◌>>=◌}
use ansible_collection_found.Base.Value.{dict, value_eq}
use ansible_collection_found.Custody.Package.{
  validate_package, validate_manifest, validate_ciphertext, is_subject, is_machine_id, is_metadata,
  check_uuid, decode_package, encode_ascii, max_cipher, max_package,
}
use ansible_collection_found.Custody.Receipt.{safe_path, validate_read_pins, differs}
use ansible_collection_found.Custody.Chunks.{chunk_size, chunks}
use ansible_collection_found.Custody.Chunks.Laws.{length-chunks}
use ansible_collection_found.Custody.Client.{Row}
use ansible_collection_found.Custody.Vault.{
  Outcome, transact, preflight, conflicts, publish, readback, confirm, entries, chunk_entries,
  manifest_record, vault_custody,
}
use ansible_collection_found.Custody.Retrieval.{Retrieved, vault_read_custody}
use ansible_collection_found.Custody.Publication.{vault_custody-then-vault_read_custody}
use ansible_collection_found.Custody.Vault.Commit.{AllStored}
use ansible_collection_found.Custody.Vault.Entries.{vault_custody-commit}
use ansible_collection_found.Custody.Vault.Readonly.{vault_custody-readonly}
use ansible_collection_found.Custody.Vault.Preserves.{vault_custody-no_overwrite}
use ansible_collection_found.Custody.Tests.Memory.{Table, memory, memory-IsReliable, put}
use ansible_collection_found.Custody.Tests.Sample.{
  unary, python, sample, header, pins, bytes, unary-IsInjective, digest_text,
}

abbrev empty : Table
empty m p = none

valid : validate_package python (dict sample) ≡ ok bytes
unfolding validate_package validate_manifest is_subject is_machine_id check_uuid is_digest
    is_metadata validate_ciphertext encode_ascii max_cipher value_eq max_package
valid = refl

well : validate_read_pins python (dict pins) ≡ ok pins
unfolding validate_read_pins is_digest is_machine_id is_subject check_uuid
well = refl

safe_kv : safe_path "kv" ≡ ok "kv"
unfolding safe_path
safe_kv = refl

safe_luks : safe_path "luks/host01" ≡ ok "luks/host01"
unfolding safe_path
safe_luks = refl

same_identity :
    any (differs python header pins) ("subject" ∷ "source_machine_id" ∷ "luks_uuid" ∷ []) ≡ false
unfolding value_eq
same_identity = refl

-- An empty provider: publication, then retrieval.
vault_custody-then-vault_read_custody_example :
    (t : Table) × (o : Outcome) × (r : Retrieved) × (vault_custody python memory "kv" "luks/host01"
        (dict sample)
        "apply"
        false
        empty
      ≡ (ok o, t))
    × (o.changed ≡ true)
    × (o.verified ≡ true)
    × (vault_read_custody python memory "kv" "luks/host01" (dict pins) t ≡ (ok r, t))
    × (r.contents ≡ dict sample)
unfolding value_eq chunks chunk_size entries
vault_custody-then-vault_read_custody_example =
    vault_custody-then-vault_read_custody python unary-IsInjective memory-IsReliable "kv"
      "luks/host01" sample header bytes (dict pins) pins safe_kv safe_luks valid (omega arith) refl
      refl refl (refl, refl, tt) empty refl well same_identity (refl, (refl, tt))

abbrev occupied : Table
occupied = put "kv" "other" (dict sample) empty

vault_custody-no_overwrite_example :
    (vault_custody python memory "kv" "luks/host01" (dict sample) "apply" false occupied).1 "kv"
      "other"
    ≡ some (record { payload = dict sample; version = 1 })
vault_custody-no_overwrite_example =
    vault_custody-no_overwrite python memory-IsReliable.faithful "kv" "kv" "other"
      (record { payload = dict sample; version = 1 }) "luks/host01" (dict sample) "apply" false
      occupied refl

vault_custody-readonly_example :
    (vault_custody python memory "kv" "luks/host01" (dict sample) "plan" false occupied).1 "kv"
      "other"
    ≡ occupied "kv" "other"
vault_custody-readonly_example =
    vault_custody-readonly python memory-IsReliable.faithful "kv" "luks/host01" (dict sample) "plan"
      false occupied "kv" "other" refl

length-chunks_example :
    length (chunks chunk_size bytes) ≡ (length bytes + chunk_size - 1) / chunk_size
length-chunks_example = length-chunks bytes

abbrev manifest_row : Row
manifest_row = record {
  payload = manifest_record python digest_text 2 1 (dict header);
  version = 1;
}

abbrev manifest_path : String
manifest_path = "luks/host01" <> ("/" <> digest_text) <> "/manifest"

committed :
    (vault_custody python memory "kv" "luks/host01" (dict sample) "apply" false empty).1 "kv"
      manifest_path
    ≡ some manifest_row
unfolding vault_custody ◌>>=◌ valid safe_path transact preflight conflicts entries chunks publish
    readback confirm decode_package unary
committed = refl

vault_custody-commit_example :
    AllStored python memory-IsReliable.faithful "kv"
      (vault_custody python memory "kv" "luks/host01" (dict sample) "apply" false empty).1
      (chunk_entries python ("luks/host01" <> ("/" <> digest_text)) 0 (chunks chunk_size bytes))
vault_custody-commit_example =
    vault_custody-commit python unary-IsInjective memory-IsReliable.faithful "kv" "luks/host01"
      sample bytes (dict header) valid refl "apply" false empty manifest_row refl committed
