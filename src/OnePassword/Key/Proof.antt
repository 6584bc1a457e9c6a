-- ===== src/OnePassword/Key/Proof.antt =====
-- `verify_agent`: the agent holds the exact key, and proves it on a fresh challenge.
use ansible_collection_found.Base.{
  ℕ, String, ◌<>◌, Bool, not, ◌&&◌, ◌||◌, ◌==◌, ◌-◌, none, some, List, [], ◌∷◌, Bytes, length, drop,
  take, codes, leb, ltb, nat_eq, between, bytes_eq, select, split_at, strip, is_empty_text,
  if◌then◌else◌,
}
use ansible_collection_found.Base.Result.{or_else, Result, ok, err}
use ansible_collection_found.Base.Exec.{Exec, pure, lift, check, ◌>>=◌, ◌>>◌}
use ansible_collection_found.Base.Value.{Value, ℤ, pos, str, int_eq}
use ansible_collection_found.Stdlib.{Stdlib}
use ansible_collection_found.Approval.Normalize.{Trusted}
use ansible_collection_found.Approval.Signers.{Codec}
use ansible_collection_found.Approval.Trust.{Scratch, closed_after, remove_if_there, finally_do}
use ansible_collection_found.Document.Native.{lookup, inherited}
use ansible_collection_found.OnePassword.Client.{Ran, not_run, exited}
use ansible_collection_found.OnePassword.Key.Config.{Tools}
use ansible_collection_found.OnePassword.Key.Identity.{public_identity}

-- The calls of the proof beside those of `Scratch`.
pub record Agent (S : Type 0) : Type 0 where
  -- `os.environ`
  pub variables : List (String × String)
  -- `trusted_agent_socket(path)`
  pub socket : Value → Exec S String
  -- `subprocess.run(arguments, input=payload, env=environment)`
  pub run_program : List String → List (String × String) → Bytes → S → Ran × S
  -- `payload.decode("utf-8", errors="strict")`
  pub decode_utf8 : Bytes → Result String
  -- `os.urandom(32)`
  pub challenge : Exec S Bytes
  -- `stream.write(payload); stream.flush()`, on a stream over the descriptor
  pub write_stream : ℕ → Bytes → Exec S (Unit {0})

abbrev pub proof_namespace : String
proof_namespace = "agent-proof@l-it.io"

abbrev pub proof_principal : String
proof_principal = "onepassword-agent@l-it.io"

-- `os.environ.get(name, "")`
abbrev pub value_or_empty : List (String × String) → String → String
value_or_empty environ name = elim (lookup environ name) [ none ↦ "" | some value ↦ value ]

-- A checked digest; there is no other value where one is used.
abbrev pub digest_of : Value → String
digest_of (str sha) = sha
digest_of _ = ""

-- `text.splitlines()`, but for empty lines.
unfoldable pub public_rows : String → List String
public_rows text =
    select (λ row. not (is_empty_text (strip row)))
      (split_at
        (λ c. between 10 13 c || between 28 30 c || nat_eq c 133 || nat_eq c 8232 || nat_eq c 8233)
        text)

abbrev pub starts_bytes : Bytes → Bytes → Bool
starts_bytes payload prefix = bytes_eq (take (length prefix) payload) prefix

abbrev pub ends_bytes : Bytes → Bytes → Bool
ends_bytes payload suffix =
    leb (length suffix) (length payload)
    && bytes_eq (drop (length payload - length suffix) payload) suffix

-- A signature in its armor, of at most 64 KiB.
unfoldable pub is_signature : ℤ → Bytes → Bool
is_signature code output =
    int_eq code (pos 0)
    && starts_bytes output (codes "-----BEGIN SSH SIGNATURE-----\n")
    && ends_bytes output (codes "-----END SSH SIGNATURE-----\n")
    && leb (length output) 65536

-- The output of the list of keys.
abbrev pub listed : Ran → Result Bytes
listed not_run = err "The approved 1Password SSH Agent could not be inspected safely."
listed (exited code output) =
    if not (int_eq code (pos 0))
    then err "The approved 1Password SSH Agent is unavailable or locked."
    else if ltb 65536 (length output)
    then err "The approved 1Password SSH Agent returned excessive public metadata."
    else ok output

abbrev pub signed : Ran → Result Bytes
signed not_run = err "The approved SSH Agent signing challenge could not be executed safely."
signed (exited code output) =
    if is_signature code output
    then ok output
    else err "The approved SSH Agent did not produce a valid signing challenge response."

abbrev pub verified : Ran → Result (Unit {0})
verified not_run = err "The approved SSH Agent signing challenge could not be verified safely."
verified (exited code output) =
    if int_eq code (pos 0)
    then ok tt
    else err "The approved SSH Agent failed the exact-key signing challenge."

abbrev pub sign_arguments : String → String → List String
sign_arguments program key_path =
    program ∷ "-Y" ∷ "sign" ∷ "-f" ∷ key_path ∷ "-n" ∷ proof_namespace ∷ "-O" ∷ "hashalg=sha256"
    ∷ []

abbrev pub verify_arguments : String → String → String → List String
verify_arguments program signers_path signature_path =
    program ∷ "-Y" ∷ "verify" ∷ "-f" ∷ signers_path ∷ "-I" ∷ proof_principal ∷ "-n"
    ∷ proof_namespace ∷ "-s" ∷ signature_path ∷ []

module _ {S : Type 0} (py : Stdlib) (codec : Codec) (trusted : Trusted S) (scratch : Scratch S)
    (agent : Agent S) where
  unfoldable pub agent_environment : Result (List (String × String))
  agent_environment =
      if is_empty_text (value_or_empty (Agent.variables agent) "HOME")
      then err "HOME is required for 1Password SSH Agent verification."
      else ok (
          ("HOME", value_or_empty (Agent.variables agent) "HOME")
          ∷ ("PATH", value_or_empty (Agent.variables agent) "PATH")
          ∷ inherited (Agent.variables agent) ("LANG" ∷ "LC_ALL" ∷ []))

  unfoldable pub run_judged :
      {A : Type 0} → (Ran → Result A) → List String → List (String × String) → Bytes → Exec S A
  run_judged judge arguments environment payload s = (
    judge (Agent.run_program agent arguments environment payload s).0,
    (Agent.run_program agent arguments environment payload s).1,
  )

  -- The rows of the agent that are a key of the fingerprint.
  unfoldable pub matching_rows : String → List String → List String
  matching_rows fingerprint [] = []
  matching_rows fingerprint (row ∷ rows) =
      let rest = matching_rows fingerprint rows in
      elim (public_identity py codec (some (str (strip row)))) [
        | err _ ↦ rest
        | ok identity ↦ if identity.1 == fingerprint then row ∷ rest else rest
      ]

  unfoldable pub write_controller_file : String → Bytes → Exec S (Unit {0})
  write_controller_file path payload = do
    fd ← Scratch.create_file scratch path
    closed_after py scratch fd (Agent.write_stream agent fd payload)

  -- A tool of the agent, checked again, with the environment that names the socket.
  unfoldable pub with_socket :
      Value
      → Value
      → String
      → Value
      → List (String × String)
      → Exec S (String × List (String × String))
  with_socket path sha name socket environment = do
    program ← Trusted.executable trusted (some path) (digest_of sha) name
    at ← Agent.socket agent socket
    pure (program, ("SSH_AUTH_SOCK", at) ∷ environment)

  -- The agent lists the key exactly once.
  unfoldable pub check_listed : Tools → String → List (String × String) → Exec S (Unit {0})
  check_listed tools fingerprint environment = do
    ready ←
        with_socket tools.ssh_add_path tools.ssh_add_sha256 "ssh_add_path" tools.agent_socket_path
          environment
    output ← run_judged listed (ready.0 ∷ "-L" ∷ []) ready.1 []
    text ← lift (
        or_else (Agent.decode_utf8 agent output)
          "The approved 1Password SSH Agent returned invalid public metadata.")
    check (not (nat_eq (length (matching_rows fingerprint (public_rows text))) 1))
        "The exact pinned SSH key is not uniquely available from the approved SSH Agent socket."

  -- The challenge is signed by the agent and verified against the exact key.
  unfoldable pub prove :
      Tools → String → Bytes → List (String × String) → String → String → String → Exec S (Unit {0})
  prove tools public_key challenge environment key_path signers_path signature_path = do
    write_controller_file key_path (codes (public_key <> "\n"))
    write_controller_file signers_path (codes (proof_principal <> (" " <> (public_key <> "\n"))))
    signer ←
        with_socket tools.ssh_keygen_path tools.ssh_keygen_sha256 "ssh_keygen_path"
          tools.agent_socket_path environment
    signature ← run_judged signed (sign_arguments signer.0 key_path) signer.1 challenge
    write_controller_file signature_path signature
    verifier ←
        with_socket tools.ssh_keygen_path tools.ssh_keygen_sha256 "ssh_keygen_path"
          tools.agent_socket_path environment
    run_judged verified (verify_arguments verifier.0 signers_path signature_path) verifier.1
        challenge

  unfoldable pub remove_proof : String → String → String → String → Exec S (Unit {0})
  remove_proof root signature_path signers_path key_path = do
    remove_if_there py scratch signature_path
    remove_if_there py scratch signers_path
    remove_if_there py scratch key_path
    Scratch.rmdir scratch root

  unfoldable pub verify_agent_key : Tools → String × String → Exec S (Unit {0})
  verify_agent_key tools identity = do
    environment ← lift agent_environment
    check_listed tools identity.1 environment
    challenge ← Agent.challenge agent
    root ← Scratch.mkdtemp scratch "lit-onepassword-agent-proof-"
    Scratch.chmod_private scratch root
    let key_path = Scratch.join_path scratch root "identity.pub"
    let signers_path = Scratch.join_path scratch root "allowed_signers"
    let signature_path = Scratch.join_path scratch root "challenge.sig"
    finally_do py scratch
        (prove tools identity.0 challenge environment key_path signers_path signature_path)
        (remove_proof root signature_path signers_path key_path)
