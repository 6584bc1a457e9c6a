-- ===== src/Approval/Signers.antt =====
-- `_ed25519_fingerprint` and `_parse_allowed_signers`: the one signer of an allowed-signers file.
pub mod Wire
pub mod Blob
use ansible_collection_found.Base.{
  ℕ, ◌+◌, ◌*◌, String, ◌<>◌, Bool, true, false, not, ◌&&◌, ◌||◌, ◌==◌, Option, some, none, List, [],
  ◌∷◌, Bytes, length, take, drop, codes, any, select, nat_eq, bytes_eq, if◌then◌else◌,
  is_empty_text, is_space, lstrip_of, rstrip_of, strip, words, lines, starts_with,
}
use ansible_collection_found.Base.Result.{or_else, Result, ok, err, ◌>>=◌, ◌>>◌, refuse}
use ansible_collection_found.Stdlib.{Stdlib}
use ansible_collection_found.Approval.Signers.Wire.{check_blob}

-- The conversions between texts and bytes.
pub record Codec : Type 0 where
  -- `payload.decode("ascii", errors="strict")`
  pub decode_ascii : Bytes → Result String
  -- `s.encode("ascii")` of an ASCII text
  pub encode : String → Bytes
  -- `hashlib.sha256(data).digest()`
  pub digest : Bytes → Bytes

abbrev pub pair_of : List String → String → Result (String × String)
pair_of (a ∷ b ∷ []) e = ok (a, b)
pair_of _ e = err e

abbrev pub one_of : List String → String → Result String
one_of (a ∷ []) e = ok a
one_of _ e = err e

pub record Signer : Type 0 where
  pub identity : String
  pub key_type : String
  pub fingerprint : String
  pub entry_sha256 : String

-- The principal, the type and the key of an entry with at most a comment.
abbrev pub entry_fields : List String → Result (String × String × String)
entry_fields (principal ∷ kind ∷ key ∷ []) = ok (principal, kind, key)
entry_fields (principal ∷ kind ∷ key ∷ _ ∷ []) = ok (principal, kind, key)
entry_fields _ = err "Approval Authority signer entry is invalid or contains options."

module _ (py : Stdlib) (codec : Codec) where
  unfoldable pub ed25519_fingerprint : String → Result String
  ed25519_fingerprint public_key = do
    fields ←
        pair_of (words public_key) "Approval Authority must use exactly one Ed25519 public key."
    refuse (not (fields.0 == "ssh-ed25519"))
        "Approval Authority must use exactly one Ed25519 public key."
    blob ←
        or_else (Stdlib.b64decode py fields.1) "Approval Authority public-key encoding is invalid."
    check_blob blob
    ok ("SHA256:" <> rstrip_of (nat_eq b'=') (Stdlib.b64encode py (Codec.digest codec blob)))

  -- The lines that are neither blank nor comments, stripped.
  unfoldable pub entries_of : List String → List String
  entries_of [] = []
  entries_of (row ∷ rows) =
      let rest = entries_of rows in
      if is_empty_text (strip row) || starts_with (lstrip_of is_space row) "#"
      then rest
      else strip row ∷ rest

  unfoldable pub parse_allowed_signers : Bytes → String → String → Result Signer
  parse_allowed_signers payload identity expected = do
    text ←
        or_else (Codec.decode_ascii codec payload)
          "Approval Authority allowed-signers data must be ASCII."
    entry ←
        one_of (entries_of (lines text))
          "Approval Authority file must contain exactly one signer entry."
    fields ← entry_fields (words entry)
    refuse (not (fields.0 == identity) || any wildcard (codes fields.0))
        "Approval Authority principal does not match the pinned identity."
    refuse (not (fields.1 == "ssh-ed25519")) "Approval Authority key must be Ed25519."
    fingerprint ← ed25519_fingerprint ("ssh-ed25519 " <> fields.2)
    refuse (not (fingerprint == expected))
        "Approval Authority key does not match the pinned fingerprint."
    ok (record {
      identity = identity;
      key_type = fields.1;
      fingerprint = fingerprint;
      entry_sha256 = Stdlib.sha256 py (Codec.encode codec entry);
    })
    where
      wildcard : ℕ → Bool
      wildcard c = nat_eq c b'*' || nat_eq c b',' || nat_eq c b'!'
