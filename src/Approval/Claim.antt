-- ===== src/Approval/Claim.antt =====
-- `claim_approval`: the atomic consumption of one approval, before a mutation.
pub mod Once
pub mod Window
pub mod Apart
pub mod Turns
pub mod Histories
mod Tests
use ansible_collection_found.Base.{
  ℕ, zero, suc, ◌+◌, ◌-◌, ◌/◌, ◌%◌, String, ◌<>◌, Bool, true, false, not, ◌&&◌, ◌||◌, Option, none,
  some, List, [], ◌∷◌, Bytes, length, drop, ltb, leb, nat_eq, if◌then◌else◌,
}
use ansible_collection_found.Base.Result
use ansible_collection_found.Base.Result.{Result, ok, err, refuse}
use ansible_collection_found.Base.Exec.{Exec, pure, raise, lift, check, ◌>>=◌, ◌>>◌}
use ansible_collection_found.Base.Value.{Value, Fields, dict, str, int, pos, end, field}
use ansible_collection_found.Stdlib.{Stdlib}
use ansible_collection_found.Approval.Checks.{normalize_sha256}
use ansible_collection_found.Approval.Os.{
  Os, Status, Created, descriptor, already_there, not_created,
}

-- What `normalize_approval` returns.
pub record Approval : Type 0 where
  pub execution_id : String
  pub commit_shas : Fields
  pub issued_at : String
  pub expires_at : String
  pub approval_digest : String
  pub replay_digest : String
  pub authority_identity : String
  pub authority_namespace : String
  pub authority_fingerprint : String
  pub replay_directory : String
  pub replay_directory_device : ℕ
  pub replay_directory_inode : ℕ

-- A `datetime`: whether it knows its time zone, and its microseconds.
pub record Moment : Type 0 where
  pub aware : Bool
  pub micros : ℕ

-- `_utc_timestamp` of a text.
unfoldable pub utc_timestamp : Stdlib → String → String → Result ℕ
utc_timestamp py value name = elim (Stdlib.strptime py value) [
  | ok t ↦ ok t
  | err _ ↦ err (name <> " must use YYYY-MM-DDTHH:MM:SSZ.")
]

-- 60 seconds of clock skew are tolerated.
unfoldable pub not_yet : ℕ → ℕ → Bool
not_yet now issued = ltb now issued && ltb 60000000 (issued - now)

-- The checks of the approval's validity at the time of the claim.
unfoldable pub check_window : Stdlib → Approval → Moment → Result (Unit {0})
unfolding utc_timestamp not_yet
check_window py a now = Result.◌>>=◌ (utc_timestamp py a.issued_at "approval.issued_at") λ issued.
    Result.◌>>=◌ (utc_timestamp py a.expires_at "approval.expires_at") λ expires.
      Result.◌>>◌ (refuse (not now.aware) "approval validation time must be timezone-aware.") (
        Result.◌>>◌ (refuse (not_yet now.micros issued) "approval is not yet valid at claim time.")
          (refuse (leb expires now.micros) "approval expired before it could be consumed."))

-- `mode & 0o022` and `mode & 0o077`
abbrev pub others_write : ℕ → Bool
others_write mode = nat_eq (mode / 2 % 2) 1 || nat_eq (mode / 16 % 2) 1

abbrev pub others_access : ℕ → Bool
others_access mode = not (nat_eq (mode % 64) 0)

-- `_safe_owner` with `controller_only=True`
unfoldable pub safe_owner : ℕ → Status → String → Result (Unit {0})
safe_owner uid status name =
    Result.◌>>◌ (refuse (not (nat_eq status.uid uid)) (name <> " has an untrusted owner."))
      (refuse (others_write status.mode) (name <> " must not be group- or world-writable."))

-- The directory is still private, and is the one that was approved.
unfoldable pub check_directory : ℕ → Approval → Status → Result (Unit {0})
unfolding safe_owner
check_directory uid a status = Result.◌>>◌ (safe_owner uid status "approval.replay_directory") (
    Result.◌>>◌
      (refuse (others_access status.mode)
        "approval.replay_directory permissions changed before claim.")
      (refuse
        (not (nat_eq status.device a.replay_directory_device)
          || not (nat_eq status.inode a.replay_directory_inode))
        "approval.replay_directory identity changed before claim."))

unfoldable pub claimed : Created → Result ℕ
claimed (descriptor fd) = ok fd
claimed already_there = err "approval nonce has already been consumed."
claimed not_created = err "approval nonce could not be claimed atomically."

-- The evidence that is written into the marker.
unfoldable pub evidence : Stdlib → Approval → Bytes
evidence py a = Stdlib.dumps py (
    dict (
      field "schema_version" (int (pos 1)) (
        field "execution_id" (str a.execution_id) (
          field "commit_shas" (dict a.commit_shas) (
            field "issued_at" (str a.issued_at) (
              field "expires_at" (str a.expires_at) (
                field "approval_digest" (str a.approval_digest) (
                  field "replay_digest" (str a.replay_digest) (
                    field "authority_identity" (str a.authority_identity) (
                      field "authority_namespace" (str a.authority_namespace)
                        (field "authority_fingerprint" (str a.authority_fingerprint) end)))))))))))

abbrev pub marker_name : Approval → String
marker_name a = a.replay_digest <> ".used"

module _ (py : Stdlib) (os : Os) where
  open os use {State, getuid, open_directory, fstat, create_exclusive, write, fsync, close}

  -- `try: m finally: os.close(fd)`
  unfoldable pub closing {ℓ} : {A : Type ℓ} → ℕ → Exec State A → Exec State A
  closing fd m s = ((m s).0, close fd (m s).1)

  unfoldable pub open_or_fail : String → Exec State ℕ
  open_or_fail path s = elim (open_directory path s).0 [
    | ok fd ↦ (ok fd, (open_directory path s).1)
    | err _ ↦
        (err "approval replay directory could not be opened safely.", (open_directory path s).1)
  ]

  -- `while offset < len(evidence)`: each round writes at least a byte or fails, so as many rounds as
  -- there are bytes are enough.
  unfoldable pub write_all : ℕ → ℕ → Bytes → Exec State (Unit {0})
  write_all rounds fd [] = pure tt
  write_all zero fd (_ ∷ _) = raise "out of rounds"
  write_all (suc rounds) fd (b ∷ bs) = do
    written ← write fd (b ∷ bs)
    check (nat_eq written 0) "approval replay evidence could not be written completely."
    write_all rounds fd (drop written (b ∷ bs))

  unfoldable pub create_marker : ℕ → String → Exec State ℕ
  unfolding claimed
  create_marker directory name s =
      (claimed (create_exclusive directory name s).0, (create_exclusive directory name s).1)

  unfoldable pub record_evidence : ℕ → ℕ → Approval → Exec State (Unit {0})
  record_evidence directory marker a = do
    write_all (length (evidence py a)) marker (evidence py a)
    fsync marker
    fsync directory

  unfoldable pub claim_in : ℕ → Approval → Exec State (Unit {0})
  claim_in directory a = do
    status ← fstat directory
    lift (check_directory getuid a status)
    marker ← create_marker directory (marker_name a)
    closing marker (record_evidence directory marker a)

  unfoldable pub claim_approval : Approval → Moment → Exec State (Unit {0})
  claim_approval a now = do
    lift (check_window py a now)
    lift (normalize_sha256 (some (str a.approval_digest)) "approval_digest")
    lift (normalize_sha256 (some (str a.replay_digest)) "replay_digest")
    directory ← open_or_fail a.replay_directory
    closing directory (claim_in directory a)
