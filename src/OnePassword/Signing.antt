-- ===== src/OnePassword/Signing.antt =====
-- plugins/action/onepassword_approval.py: the key that signs an approval.
pub mod Chosen
mod Tests
use ansible_collection_found.Base.{
  ℕ, String, ◌<>◌, Bool, false, true, not, ◌==◌, some, none, List, [], ◌∷◌, Bytes, ◌≡◌, refl, sym,
  ap, ◌∙◌, length, take, ltb, nat_eq, select, words, lines, strip, join, if◌then◌else◌, eq_iff,
}
use ansible_collection_found.Base.Result
use ansible_collection_found.Base.Result.{
  or_else, Result, ok, err, refuse, >>=-ok, refuse_unless, refuse-ok, ok_same,
}
use ansible_collection_found.Base.Exec.{Exec, pure, lift, check, ◌>>=◌, ◌>>◌, bind-elim}
use ansible_collection_found.Base.Value.{Value, Fields, pos, as_dict, int_eq}
use ansible_collection_found.Stdlib.{Stdlib}
use ansible_collection_found.Approval.Normalize.{Trusted, are_commits, sorted_fields}
use ansible_collection_found.Approval.Signers.{
  Codec, Signer, one_of, entry_fields, entries_of, ed25519_fingerprint, parse_allowed_signers,
}
use ansible_collection_found.OnePassword.Client.{Ran, not_run, exited}
use ansible_collection_found.OnePassword.Key.Proof.{Agent, digest_of}

unfoldable pub normalize_commit_shas : Value → Result Fields
normalize_commit_shas value =
    Result.◌>>=◌
      (as_dict (some value) "commit_shas must contain exact repository names and full Git SHAs.")
      λ fs.
        if are_commits fs
        then ok (sorted_fields fs)
        else err "commit_shas must contain exact repository names and full Git SHAs."

-- What the listing of the agent's keys printed.
abbrev pub inspected : Ran → Result Bytes
inspected not_run = err "The approved signing SSH Agent could not be inspected safely."
inspected (exited code output) =
    if not (int_eq code (pos 0))
    then err "The approved signing SSH Agent is unavailable or locked."
    else if ltb 65536 (length output)
    then err "The approved signing SSH Agent is unavailable or locked."
    else ok output

-- The type and the key of a row, without its comment.
abbrev pub row_key : String → String
row_key row = join " " (take 2 (words (strip row)))

-- The rows of a listing that are the key.
abbrev pub key_rows : String → String → List String
key_rows public_key text = select (λ row. row_key row == public_key) (lines text)

module _ (py : Stdlib) (codec : Codec) where
  unfoldable pub authority_public_key : Bytes → Result String
  authority_public_key payload =
      Result.◌>>=◌
        (or_else (Codec.decode_ascii codec payload)
          "Approval Authority public-key material is invalid.")
        λ text.
          Result.◌>>=◌
            (one_of (entries_of py codec (lines text))
              "Approval Authority must contain exactly one signer entry.")
            λ entry.
              Result.◌>>=◌
                (or_else (entry_fields (words entry)) "Approval Authority signer entry is invalid.")
                λ fields. ok (fields.1 <> (" " <> fields.2))

-- The settings of the signing agent. A digest that is not a text is refused, as an empty one is.
pub record Settings : Type 0 where
  pub ssh_add_path : Value
  pub ssh_add_sha256 : Value
  pub agent_socket_path : Value
  pub public_key : String

module _ {S : Type 0} (codec : Codec) (trusted : Trusted S) (agent : Agent S) where
  unfoldable pub list_keys : String → String → Exec S Bytes
  list_keys ssh_add socket s =
      let ran =
        Agent.run_program agent (ssh_add ∷ "-L" ∷ [])
          (("LANG", "C") ∷ ("LC_ALL", "C") ∷ ("SSH_AUTH_SOCK", socket) ∷ []) [] s in
      (inspected ran.0, ran.1)

  unfoldable pub verified_agent_signer : Settings → Exec S String
  verified_agent_signer config = do
    ssh_add ←
        Trusted.executable trusted (some config.ssh_add_path) (digest_of config.ssh_add_sha256)
          "signing_ssh_add_path"
    socket ← Agent.socket agent config.agent_socket_path
    output ← list_keys ssh_add socket
    text ← lift (
        or_else (Codec.decode_ascii codec output)
          "The approved signing SSH Agent returned invalid public metadata.")
    check (not (nat_eq (length (key_rows config.public_key text)) 1))
        "The exact Approval Authority key is not uniquely available from the approved signing SSH Agent."
    pure socket
