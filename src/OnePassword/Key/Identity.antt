-- ===== src/OnePassword/Key/Identity.antt =====
-- `_public_identity`: a public key and its fingerprint.
use ansible_collection_found.Base.{
  String, ◌<>◌, true, false, ◌||◌, ◌==◌, Option, List, [], ◌∷◌, Bytes, any, codes, len, leb, ltb,
  nat_eq, join, words, rstrip_of,
}
use ansible_collection_found.Base.Result.{or_else, Result, ok, err, refuse, ◌>>=◌, ◌>>◌}
use ansible_collection_found.Base.Value.{Value, as_str}
use ansible_collection_found.Stdlib.{Stdlib}
use ansible_collection_found.Approval.Signers.Wire.{check_blob}
use ansible_collection_found.Approval.Signers.{Codec}

-- The key of `ssh-ed25519 <key> [comment]`.
abbrev pub encoded_key : List String → Result String
encoded_key (kind ∷ key ∷ []) = elim (kind == "ssh-ed25519") [
  | true ↦ ok key
  | false ↦ err "1Password did not return an Ed25519 OpenSSH public key."
]
encoded_key (kind ∷ key ∷ _ ∷ []) = elim (kind == "ssh-ed25519") [
  | true ↦ ok key
  | false ↦ err "1Password did not return an Ed25519 OpenSSH public key."
]
encoded_key _ = err "1Password did not return an Ed25519 OpenSSH public key."

abbrev pub bad_key : String
bad_key = "1Password returned an invalid SSH public key."

module _ (py : Stdlib) (codec : Codec) where
  unfoldable pub fingerprint_of : Bytes → String
  fingerprint_of blob =
      "SHA256:" <> rstrip_of (nat_eq b'=') (Stdlib.b64encode py (Codec.digest codec blob))

  unfoldable pub public_identity : Option Value → Result (String × String)
  public_identity value = do
    public_key ← as_str value bad_key
    refuse (any (λ c. leb 128 c) (codes public_key) || ltb 1024 (len public_key)) bad_key
    refuse (any (λ c. nat_eq c 13 || nat_eq c 10 || nat_eq c 0) (codes public_key)) bad_key
    key ← encoded_key (words public_key)
    blob ←
        or_else (Stdlib.b64decode py key) "1Password returned an invalid SSH public-key encoding."
    or_else (check_blob blob) "1Password returned an invalid Ed25519 public-key blob."
    ok (join " " (words public_key), fingerprint_of blob)
