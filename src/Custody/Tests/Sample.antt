-- ===== src/Custody/Tests/Sample.antt =====
-- One package with its receipt, and stand-ins for the library functions that serve it.
use ansible_collection_found.Base.{ℕ, zero, suc, String, ◌≡◌, refl, [], ◌∷◌, Bytes, arith, len, ap}
use ansible_collection_found.Base.Result.{ok}
use ansible_collection_found.Base.Value.{Fields, dict, str, int, pos, end, field}
use ansible_collection_found.Stdlib.{Stdlib}
use ansible_collection_found.Custody.Vault.Entries.{IsInjective}

abbrev pub digest_text : String
digest_text = "aaaaaaaaaaaaaaaaaaaaaaaaaaaaaaaaaaaaaaaaaaaaaaaaaaaaaaaaaaaaaaaa"

abbrev pub machine : String
machine = "0123456789abcdef0123456789abcdef"

abbrev pub disk : String
disk = "f81d4fae-7dec-11d0-a765-00a0c91e6bf6"

abbrev pub header : Fields
header = field "schema_version" (int (pos 1)) (
    field "subject" (str "host01") (
      field "source_machine_id" (str machine) (
        field "luks_uuid" (str disk) (
          field "luks_header_sha256_raw" (str digest_text) (
            field "luks_header_raw_size_bytes" (int (pos 16777216)) (
              field "ciphertext_sha256" (str digest_text) (
                field "owner" (str "ops") (
                  field "retention" (str "10y")
                    (field "key_retrieval_reference" (str "runbook") end)))))))))

abbrev pub sample : Fields
sample = field "manifest" (dict header) (field "ciphertext" (str "$ANSIBLE_VAULT;1.1") end)

abbrev pub pins : Fields
pins = field "package_sha256" (str digest_text) (
    field "subject" (str "host01")
      (field "source_machine_id" (str machine) (field "luks_uuid" (str disk) end)))

abbrev pub bytes : Bytes
bytes = b'{' ∷ b'}' ∷ []

-- `n` in unary.
unfoldable pub unary : ℕ → String
unary zero = ""
unary (suc n) = String.◌∷◌ "1" (unary n)

len-unary : (n : ℕ) → len (unary n) ≡ n
unfolding unary
len-unary zero = refl
len-unary (suc n) = ap suc (len-unary n)

pub unary-IsInjective : IsInjective unary
unary-IsInjective a b h = omega (arith, len-unary a, len-unary b, ap len h)

abbrev pub python : Stdlib
python = record {
  sha256 = λ _. digest_text;
  dumps = λ _. bytes;
  loads = λ _ _. ok (dict sample);
  b64encode = λ _. "e30=";
  b64decode = λ _. ok bytes;
  uuid = ok;
  decimal = unary;
  strptime = λ _. ok 0;
}
