-- ===== src/OnePassword/Client.antt =====
-- `_OnePasswordCLI`: commands of the controller's 1Password client.
use ansible_collection_found.Base.{
  String, ◌<>◌, Bool, true, false, some, List, [], Bytes, if◌then◌else◌,
}
use ansible_collection_found.Base.Result.{Result, ok, err}
use ansible_collection_found.Base.Exec.{Exec, pure, lift, ◌>>=◌}
use ansible_collection_found.Base.Value.{Value, ℤ, str, int, int_eq, pos}
use ansible_collection_found.Approval.Normalize.{Trusted}
use ansible_collection_found.OnePassword.Environment.{minimal_environment}

-- How a child process went: it did not run or timed out, or it exited, with its code and output.
pub data Ran : Type 0 where
  not_run : Ran
  exited : ℤ → Bytes → Ran

-- The controller's machine as the client uses it.
pub record Desktop (S : Type 0) : Type 1 where
  -- `subprocess.run([binary] + arguments, env=environment)`, whose output is discarded or kept
  pub spawn : String → List String → List (String × String) → Bool → S → Ran × S
  -- `payload.decode("ascii", errors="strict")`
  pub decode_ascii : Bytes → Result String
  -- `json.loads(payload.decode("utf-8", errors="strict"))`
  pub parse : Bytes → Result Value
  -- `str(value)`
  pub text_of : Value → String
  -- `s.lower()` and `os.path.normpath(path)`
  pub lower : String → String
  pub normpath : String → String
  -- `os.environ`
  pub environ : List (String × String)
  -- What the account stores.
  pub Store : Type 0
  pub stored : S → Store

pub record Client : Type 0 where
  pub requested_binary : String
  pub binary_sha256 : String
  pub account_id : String
  pub environment : List (String × String)

-- What is left of a finished command.
abbrev pub output_of : {S : Type 0} → Desktop S → String → Bool → Ran → Result Bytes
output_of desktop operation discard not_run =
    err ("1Password " <> (operation <> " could not be executed safely."))
output_of desktop operation discard (exited code output) =
    if int_eq code (pos 0)
    then ok (if discard then [] else output)
    else err (
        "1Password "
        <> (operation
            <> (" failed closed with exit code " <> (Desktop.text_of desktop (int code) <> "."))))

-- The metadata of a command's output.
abbrev pub metadata_of : String → Result Value → Result Value
metadata_of operation (ok value) = ok value
metadata_of operation (err _) =
    err ("1Password returned invalid non-sensitive metadata for " <> (operation <> "."))

module _ {S : Type 0} (desktop : Desktop S) (trusted : Trusted S) where
  -- `_OnePasswordCLI(binary, binary_sha256, account_id)`
  unfoldable pub onepassword_cli : String → String → String → Exec S Client
  onepassword_cli binary binary_sha256 account_id = do
    found ← Trusted.executable trusted (some (str binary)) binary_sha256 "cli_path"
    environment ← lift (minimal_environment (Desktop.environ desktop))
    pure (record {
      requested_binary = binary;
      binary_sha256 = binary_sha256;
      account_id = account_id;
      environment = environment;
    })

  unfoldable pub finish : Client → String → List String → String → Bool → Exec S Bytes
  finish client binary arguments operation discard s = (
    output_of desktop operation discard
        (Desktop.spawn desktop binary arguments client.environment discard s).0,
    (Desktop.spawn desktop binary arguments client.environment discard s).1,
  )

  -- `_run(arguments, operation, discard_stdout)`: the executable is checked again before each command.
  unfoldable pub run_cli : Client → List String → String → Bool → Exec S Bytes
  run_cli client arguments operation discard = do
    binary ←
        Trusted.executable trusted (some (str client.requested_binary)) client.binary_sha256
          "cli_path"
    finish client binary arguments operation discard

  unfoldable pub run_metadata : Client → List String → String → Exec S Value
  run_metadata client arguments operation = do
    output ← run_cli client arguments operation false
    lift (metadata_of operation (Desktop.parse desktop output))

  unfoldable pub run_discard : Client → List String → String → Exec S (Unit {0})
  run_discard client arguments operation = do
    output ← run_cli client arguments operation true
    pure tt
