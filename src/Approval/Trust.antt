-- ===== src/Approval/Trust.antt =====
-- The checks of approvals over the controller's files: `_verify_approval_signature` runs in a private directory.
pub mod Verified
pub mod Tests
use ansible_collection_found.Base.{
  ℕ, zero, suc, String, ◌<>◌, Bool, true, false, not, ◌==◌, Option, some, none, List, [], ◌∷◌,
  Bytes, length, drop, nat_eq, codes, if◌then◌else◌,
}
use ansible_collection_found.Base.Result.{Result, ok, err}
use ansible_collection_found.Base.Exec.{Exec, pure, raise, lift, check, ◌>>=◌, ◌>>◌}
use ansible_collection_found.Base.Value.{Value, str}
use ansible_collection_found.Stdlib.{Stdlib}
use ansible_collection_found.Approval.Disk.{Disk}
use ansible_collection_found.Approval.Files.{
  trusted_executable, trusted_pinned_regular_file, trusted_replay_directory,
}
use ansible_collection_found.Approval.Signers.{Codec, Signer, parse_allowed_signers}
use ansible_collection_found.Approval.Normalize.{Trusted, Authority}
use ansible_collection_found.Approval.Validate.{revalidate_authority}

-- The calls that the verification of a signature makes beside those of `Disk`.
pub record Scratch (S : Type 0) : Type 0 where
  -- `tempfile.mkdtemp(prefix=...)` and `os.chmod(path, 0o700)`
  pub mkdtemp : String → Exec S String
  pub chmod_private : String → Exec S (Unit {0})
  -- `os.path.join(directory, name)`
  pub join_path : String → String → String
  -- `os.open(path, O_WRONLY | O_CREAT | O_EXCL, 0o600)`
  pub create_file : String → Exec S ℕ
  pub write : ℕ → Bytes → Exec S ℕ
  pub fsync : ℕ → Exec S (Unit {0})
  pub close : ℕ → S → S
  pub lexists : String → Exec S Bool
  pub unlink : String → Exec S (Unit {0})
  pub rmdir : String → Exec S (Unit {0})
  -- `subprocess.run(arguments, input=payload)` with the fixed environment: the exit code, or no run
  pub spawn : List String → Bytes → S → Option ℕ × S

-- What the exit of `ssh-keygen` means.
abbrev pub judge : Option ℕ → Result (Unit {0})
judge (some zero) = ok tt
judge (some (suc _)) = err "Approval Authority signature verification failed closed."
judge none = err "Approval Authority signature verification could not be executed."

abbrev pub keygen_arguments : String → String → String → String → String → List String
keygen_arguments program signers_path identity namespace signature_path =
    program ∷ "-Y" ∷ "verify" ∷ "-f" ∷ signers_path ∷ "-I" ∷ identity ∷ "-n" ∷ namespace ∷ "-s"
    ∷ signature_path ∷ []

module _ {S : Type 0} (py : Stdlib) (scratch : Scratch S) where
  open scratch use {
    mkdtemp, chmod_private, join_path, create_file, write, fsync, close, lexists, unlink, rmdir,
    spawn,
  }

  -- `while offset < len(view)`: as many rounds as there are bytes.
  unfoldable pub write_bytes : ℕ → ℕ → Bytes → Exec S (Unit {0})
  write_bytes rounds fd [] = pure tt
  write_bytes zero fd (_ ∷ _) = raise "out of rounds"
  write_bytes (suc rounds) fd (b ∷ bs) = do
    written ← write fd (b ∷ bs)
    check (nat_eq written 0) "Approval verification file could not be written completely."
    write_bytes rounds fd (drop written (b ∷ bs))

  unfoldable pub write_and_sync : ℕ → Bytes → Exec S (Unit {0})
  write_and_sync fd payload = do write_bytes (length payload) fd payload; fsync fd

  -- `try: m finally: os.close(fd)`
  unfoldable pub closed_after : ℕ → Exec S (Unit {0}) → Exec S (Unit {0})
  closed_after fd m s = ((m s).0, close fd (m s).1)

  unfoldable pub write_private_file : String → Bytes → Exec S (Unit {0})
  write_private_file path payload = do
    fd ← create_file path
    closed_after fd (write_and_sync fd payload)

  unfoldable pub run_keygen : List String → Bytes → Exec S (Unit {0})
  run_keygen arguments payload s =
      (judge (spawn arguments payload s).0, (spawn arguments payload s).1)

  unfoldable pub remove_if_there : String → Exec S (Unit {0})
  remove_if_there path = do there ← lexists path; if there then unlink path else pure tt

  unfoldable pub remove_scratch : String → String → String → Exec S (Unit {0})
  remove_scratch root signature_path signers_path = do
    remove_if_there signature_path
    remove_if_there signers_path
    rmdir root

  -- `try: m finally: c`: an error of `c` takes the place of the block's outcome.
  unfoldable pub finally_do : {A : Type 0} → Exec S A → Exec S (Unit {0}) → Exec S A
  finally_do m c s = elim (c (m s).1).0 [
    | ok _ ↦ ((m s).0, (c (m s).1).1)
    | err e ↦ (err e, (c (m s).1).1)
  ]

  module _ (trusted : Trusted S) where
    unfoldable pub check_signed : Authority → String → Bytes → String → String → Exec S (Unit {0})
    check_signed authority signature payload signers_path signature_path = do
      write_private_file signers_path authority.signers
      write_private_file signature_path (codes signature)
      program ←
          Trusted.executable trusted (some authority.requested_keygen) authority.ssh_keygen_sha256
            "approval_ssh_keygen_path"
      run_keygen
          (keygen_arguments program signers_path authority.identity authority.namespace
            signature_path)
          payload

    unfoldable pub verify_approval_signature : Authority → String → Bytes → Exec S (Unit {0})
    verify_approval_signature pinned signature payload = do
      authority ← revalidate_authority py trusted pinned
      root ← mkdtemp "lit-onepassword-approval-"
      chmod_private root
      let signers_path = join_path root "allowed_signers"
      let signature_path = join_path root "approval.sig"
      finally_do (check_signed authority signature payload signers_path signature_path)
          (remove_scratch root signature_path signers_path)

-- The entry that the authority's settings pin.
abbrev pub entry_of : Result Signer → Result String
entry_of (ok signer) = ok signer.entry_sha256
entry_of (err e) = err e

-- The boundary's own checks, over the files of the controller. Executables are read in at most `rounds` chunks.
module _ {S : Type 0} (py : Stdlib) (codec : Codec) (disk : Disk S) (scratch : Scratch S)
    (rounds : ℕ) where
  -- What `normalize_approval_authority` needs, which never verifies a signature.
  unfoldable pub files_of : Trusted S
  files_of = record {
    replay_directory = trusted_replay_directory py disk;
    pinned_file = trusted_pinned_regular_file py disk;
    executable = trusted_executable py disk rounds;
    signer_entry = λ payload identity expected.
        entry_of (parse_allowed_signers py codec payload identity expected);
    verify_signature = λ _ _ _. raise "RuntimeError";
    lexists = Scratch.lexists scratch;
    join = Scratch.join_path scratch;
  }

  unfoldable pub trusted_files : Trusted S
  unfolding files_of
  trusted_files = record {
    replay_directory = trusted_replay_directory py disk;
    pinned_file = trusted_pinned_regular_file py disk;
    executable = trusted_executable py disk rounds;
    signer_entry = λ payload identity expected.
        entry_of (parse_allowed_signers py codec payload identity expected);
    verify_signature = verify_approval_signature py scratch files_of;
    lexists = Scratch.lexists scratch;
    join = Scratch.join_path scratch;
  }
