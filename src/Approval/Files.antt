-- ===== src/Approval/Files.antt =====
-- The executables, files, sockets and directories that the boundary trusts.
pub mod Closed
pub mod Bounded
pub mod Pinned
mod Tests
use ansible_collection_found.Base.{
  ℕ, zero, suc, ◌-◌, ◌+◌, String, ◌<>◌, Bool, true, false, not, ◌&&◌, ◌||◌, ◌==◌, Option, some,
  none, List, [], ◌∷◌, ◌++◌, Bytes, length, codes, any, contains, ltb, leb, nat_eq, if◌then◌else◌,
  is_empty_text, starts_with,
}
use ansible_collection_found.Base.Result
use ansible_collection_found.Base.Result.{Result, ok, err, refuse}
use ansible_collection_found.Base.Exec.{Exec, pure, raise, lift, check, ◌>>=◌, ◌>>◌}
use ansible_collection_found.Base.Value.{Value, str, as_str}
use ansible_collection_found.Stdlib.{Stdlib}
use ansible_collection_found.Approval.Checks.{normalize_sha256}
use ansible_collection_found.Approval.Os.{Status}
use ansible_collection_found.Approval.Disk.{
  Disk, FileStatus, is_directory, is_regular, is_socket, writable_by_others, open_to_others,
  is_executable, is_sticky,
}

abbrev pub smaller : ℕ → ℕ → ℕ
smaller a b = if leb a b then a else b

-- The parts of a status that tell whether a file changed.
abbrev pub same_file : FileStatus → FileStatus → Bool
same_file a b =
    nat_eq a.device b.device
    && nat_eq a.inode b.inode
    && nat_eq a.size b.size
    && nat_eq a.mtime_ns b.mtime_ns
    && nat_eq a.ctime_ns b.ctime_ns

-- The path: a text that is absolute, normalized, and on one line.
unfoldable pub check_path : (String → String) → Option Value → String → Result String
check_path normpath (some (str path)) name =
    Result.◌>>◌
      (refuse (not (starts_with path "/")) (name <> " must be a non-empty absolute path."))
      (Result.◌>>◌
        (refuse (not (normpath path == path) || any (λ c. contains_code c) (codes path))
          (name <> " must be an exact normalized path."))
        (ok path))
  where
    contains_code : ℕ → Bool
    contains_code c = nat_eq c 0 || nat_eq c 10 || nat_eq c 13
check_path normpath _ name = err (name <> " must be a non-empty absolute path.")

-- `_safe_owner`
unfoldable pub check_owner : ℕ → Bool → FileStatus → String → Result (Unit {0})
check_owner uid controller_only status name =
    Result.◌>>◌
      (refuse (not (nat_eq status.uid uid) && (controller_only || not (nat_eq status.uid 0)))
        (name <> " has an untrusted owner."))
      (refuse (writable_by_others status) (name <> " must not be group- or world-writable."))

unfoldable pub check_parent : ℕ → FileStatus → String → Result (Unit {0})
check_parent uid status name =
    Result.◌>>◌
      (refuse (not (is_directory status)) ("A parent of " <> (name <> " is not a directory.")))
      (Result.◌>>◌
        (refuse (not (nat_eq status.uid 0) && not (nat_eq status.uid uid))
          ("A parent of " <> (name <> " has an untrusted owner.")))
        (refuse (writable_by_others status && not (nat_eq status.uid 0 && is_sticky status))
          ("A parent of " <> (name <> " is group- or world-writable."))))

module _ {S : Type 0} (py : Stdlib) (disk : Disk S) where
  open disk use {getuid, normpath, resolve, parents, lstat, open_file, fstat, read, close}

  -- `try: m except OSError: raise`, for a call that raises nothing else
  unfoldable pub or_fail : {A : Type 0} → Exec S A → String → Exec S A
  or_fail m e s = elim (m s).0 [ ok a ↦ (ok a, (m s).1) | err _ ↦ (err e, (m s).1) ]

  -- `try: m finally: os.close(fd)`
  unfoldable pub closing : {A : Type 0} → ℕ → Exec S A → Exec S A
  closing fd m s = ((m s).0, close fd (m s).1)

  unfoldable pub validate_parent_chain : List String → String → Exec S (Unit {0})
  validate_parent_chain [] name = pure tt
  validate_parent_chain (path ∷ paths) name = do
    status ← lstat path
    lift (check_parent getuid status name)
    validate_parent_chain paths name

  -- The resolved path, whose parents are all safe.
  unfoldable pub resolve_safely : String → String → String → Exec S String
  resolve_safely path missing name = do
    resolved ← or_fail (resolve path) missing
    validate_parent_chain (parents resolved) name
    pure resolved

  -- A path that is its own resolution.
  unfoldable pub resolve_canonical : String → String → String → Exec S String
  resolve_canonical path missing name = do
    resolved ← or_fail (resolve path) missing
    check (not (resolved == path)) (name <> " must be canonical and may not be a symbolic link.")
    pure resolved

  -- `while True`: the bytes up to the first empty read. A file that never ends runs out of rounds.
  unfoldable pub read_all : ℕ → ℕ → Exec S Bytes
  read_all zero fd = raise "out of rounds"
  read_all (suc rounds) fd = do
    chunk ← read fd 1048576
    rest ← (if nat_eq (length chunk) 0 then pure [] else read_all rounds fd)
    pure (chunk ++ rest)

  unfoldable pub check_program : FileStatus → String → Result (Unit {0})
  unfolding check_owner
  check_program before name =
      Result.◌>>◌
        (refuse (not (is_regular before) || not (is_executable before))
          (name <> " must resolve to an executable regular file."))
        (Result.◌>>◌ (check_owner getuid false before name) (
          refuse (not (nat_eq before.nlink 1)) (name <> " must have exactly one filesystem link.")))

  unfoldable pub read_program : ℕ → ℕ → String → Exec S Bytes
  read_program rounds fd name = do
    before ← fstat fd
    lift (check_program before name)
    payload ← read_all rounds fd
    after ← fstat fd
    check (not (same_file before after)) (name <> " changed while its digest was verified.")
    pure payload

  unfoldable pub trusted_executable : ℕ → Option Value → String → String → Exec S String
  trusted_executable rounds path expected name = do
    sha ← lift (normalize_sha256 (some (str expected)) (name <> "_sha256"))
    given ← lift (check_path normpath path name)
    resolved ←
        resolve_safely given (name <> " does not resolve to an existing controller file.") name
    fd ←
        or_fail (open_file resolved)
          (name <> " could not be opened without following a final symbolic link.")
    payload ← closing fd (read_program rounds fd name)
    check (not (Stdlib.sha256 py payload == sha))
        (name <> " does not match its approved SHA-256 digest.")
    pure resolved

  unfoldable pub trusted_agent_socket : Option Value → String → Exec S String
  trusted_agent_socket path name = do
    given ← lift (check_path normpath path name)
    resolved ←
        resolve_safely given (name <> " does not resolve to an existing controller socket.") name
    status ← lstat resolved
    check (not (is_socket status)) (name <> " must resolve to a Unix-domain socket.")
    lift (check_owner getuid true status name)
    check (not (nat_eq status.nlink 1)) (name <> " must have exactly one filesystem link.")
    pure resolved

  -- `while len(payload) <= maximum_size`: each round reads a byte at least, or ends the loop.
  unfoldable pub read_bounded : ℕ → ℕ → ℕ → Bytes → Exec S Bytes
  read_bounded zero fd maximum payload = raise "out of rounds"
  read_bounded (suc rounds) fd maximum payload = elim (leb (length payload) maximum) [
    | false ↦ pure payload
    | true ↦ do
      chunk ← read fd (smaller 65536 (maximum + 1 - length payload))
      elim (nat_eq (length chunk) 0) [
        | true ↦ pure payload
        | false ↦ read_bounded rounds fd maximum (payload ++ chunk)
      ]
  ]

  unfoldable pub check_regular : ℕ → FileStatus → String → Result (Unit {0})
  unfolding check_owner
  check_regular maximum before name =
      Result.◌>>◌ (refuse (not (is_regular before)) (name <> " must be a regular file.")) (
        Result.◌>>◌ (check_owner getuid false before name) (
          Result.◌>>◌
            (refuse (not (nat_eq before.nlink 1))
              (name <> " must have exactly one filesystem link."))
            (refuse (ltb before.size 1 || ltb maximum before.size)
              (name <> " size is outside the approved boundary."))))

  unfoldable pub read_regular : ℕ → ℕ → String → Exec S Bytes
  read_regular fd maximum name = do
    before ← fstat fd
    lift (check_regular maximum before name)
    payload ← read_bounded (maximum + 2) fd maximum []
    after ← fstat fd
    check (ltb maximum (length payload)) (name <> " exceeds the approved size boundary.")
    check (not (same_file before after)) (name <> " changed while it was read.")
    pure payload

  unfoldable pub trusted_regular_file : Option Value → String → ℕ → Exec S (String × Bytes)
  trusted_regular_file path name maximum = do
    given ← lift (check_path normpath path name)
    resolved ←
        resolve_canonical given (name <> " does not resolve to an existing controller file.") name
    validate_parent_chain (parents resolved) name
    fd ← or_fail (open_file given) (name <> " could not be opened safely.")
    payload ← closing fd (read_regular fd maximum name)
    pure (resolved, payload)

  unfoldable pub trusted_pinned_regular_file :
      Option Value → String → String → ℕ → Exec S (String × Bytes)
  trusted_pinned_regular_file path expected name maximum = do
    sha ← lift (normalize_sha256 (some (str expected)) (name <> "_sha256"))
    file ← trusted_regular_file path name maximum
    check (not (Stdlib.sha256 py file.1 == sha))
        (name <> " does not match its approved SHA-256 digest.")
    pure file

  abbrev pub directory_status : FileStatus → Status
  directory_status status = record {
    mode = status.mode;
    uid = status.uid;
    device = status.device;
    inode = status.inode;
  }

  unfoldable pub trusted_replay_directory : Option Value → String → Exec S (String × Status)
  trusted_replay_directory path name = do
    given ← lift (check_path normpath path name)
    resolved ← resolve_canonical given (name <> " does not exist.") name
    status ← lstat given
    check (not (is_directory status)) (name <> " must be a directory.")
    lift (check_owner getuid true status name)
    check (open_to_others status) (name <> " must be accessible only by the controller identity.")
    validate_parent_chain (parents resolved) name
    pure (resolved, directory_status status)
