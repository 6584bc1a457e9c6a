-- ===== src/Approval/Files/Tests.antt =====
-- A disk with one readable file everywhere, owned by the controller.
use ansible_collection_found.Base.{
  ℕ, String, Bool, true, false, not, ◌&&◌, nat_eq, if◌then◌else◌, [], ◌∷◌, Bytes, some, ◌≡◌, ◌≤◌,
  refl, arith, length, is_digest, repeat_match,
}
use ansible_collection_found.Base.Result.{Result, ok, err, ok_same}
use ansible_collection_found.Base.Exec.{lift, pure, raise, ◌>>=◌}
use ansible_collection_found.Base.Value.{str}
use ansible_collection_found.Stdlib.{Stdlib}
use ansible_collection_found.Approval.Tests.{python, digest_text}
use ansible_collection_found.Approval.Disk.{Disk, FileStatus, Tracks}
use ansible_collection_found.Approval.Checks.{normalize_sha256}
use ansible_collection_found.Approval.Files.{
  check_path, check_owner, check_parent, or_fail, closing, validate_parent_chain, resolve_canonical,
  read_bounded, check_regular, read_regular, trusted_regular_file, trusted_pinned_regular_file,
  trusted_executable,
}
use ansible_collection_found.Approval.Files.Closed.{
  trusted_executable-SameOpen, trusted_pinned_regular_file-SameOpen,
}
use ansible_collection_found.Approval.Files.Bounded.{read_bounded_enough}
use ansible_collection_found.Approval.Files.Pinned.{trusted_pinned_regular_file-IsPinned}

-- Whether the last descriptor, 3, is open, and what is left to read.
record Machine : Type 0 where
  opened : Bool
  unread : Bytes

abbrev status : FileStatus
status = record {
  mode = 33216;
  uid = 501;
  nlink = 1;
  device = 1;
  inode = 9;
  size = 3;
  mtime_ns = 0;
  ctime_ns = 0;
}

abbrev files : Disk Machine
files = record {
  getuid = 501;
  normpath = λ path. path;
  resolve = λ path s. (ok path, s);
  parents = λ _. [];
  lstat = λ _ s. (ok status, s);
  open_file =
      λ _ s. (if s.opened then err "EMFILE" else ok 3, record { opened = true; unread = s.unread });
  fstat = λ _ s. (ok status, s);
  read = λ _ _ s. (ok s.unread, record { opened = s.opened; unread = [] });
  close = λ fd s. record { opened = s.opened && not (nat_eq fd 3); unread = s.unread };
}

abbrev is_open : Machine → ℕ → Bool
is_open s d = s.opened && nat_eq d 3

files-Tracks : Tracks files is_open
files-Tracks = record {
  open-resolve = λ path s d. refl;
  open-lstat = λ path s d. refl;
  open-fresh = λ path s fd h. fresh s.opened fd h;
  open-others = λ path s fd d h apart. others s.opened fd d h apart;
  open-fails = λ path s e d h. fails s.opened e d h;
  open-fstat = λ fd s d. refl;
  open-read = λ fd n s d. refl;
  closed-close = λ fd s h. ground arith;
  closed-others = λ fd s d apart. ground arith;
}
  where
    tried : Bool → Result ℕ
    tried b = if b then err "EMFILE" else ok 3

    fresh :
        (b : Bool) (fd : ℕ) → tried b ≡ ok fd → ((b && nat_eq fd 3) ≡ false) × (nat_eq fd 3 ≡ true)
    fresh true fd h = absurd (cc (h))
    fresh false fd h = let same : 3 ≡ fd = ok_same h in (refl, ground (arith, same))

    others :
        (b : Bool) (fd d : ℕ)
        → tried b ≡ ok fd
        → nat_eq d fd ≡ false
        → nat_eq d 3 ≡ (b && nat_eq d 3)
    others true fd d h apart = absurd (cc (h))
    others false fd d h apart = let same : 3 ≡ fd = ok_same h in ground (arith, same)

    fails : (b : Bool) (e : String) (d : ℕ) → tried b ≡ err e → nat_eq d 3 ≡ (b && nat_eq d 3)
    fails true e d h = refl
    fails false e d h = absurd (cc (h))

abbrev contents : Bytes
contents = 1 ∷ 2 ∷ 3 ∷ []

abbrev start : Machine
start = record { opened = false; unread = contents }

trusted_executable-SameOpen_example :
    is_open
      (trusted_executable python files 5 (some (str "/usr/bin/op")) digest_text "cli_path" start).1
      3
    ≡ false
trusted_executable-SameOpen_example =
    trusted_executable-SameOpen python files-Tracks 5 (some (str "/usr/bin/op")) digest_text
      "cli_path" start 3

trusted_pinned_regular_file-SameOpen_example :
    is_open
      (trusted_pinned_regular_file python files
        (some (str "/signers"))
        digest_text
        "signers"
        65536
        start).1
      3
    ≡ false
trusted_pinned_regular_file-SameOpen_example =
    trusted_pinned_regular_file-SameOpen python files-Tracks (some (str "/signers")) digest_text
      "signers" 65536 start 3

read_bounded_enough_example :
    read_bounded python files 12 3 10 [] start ≡ read_bounded python files 40 3 10 [] start
read_bounded_enough_example =
    read_bounded_enough python files 3 10 12 40 [] start (omega arith) (omega arith)

reads :
    (trusted_pinned_regular_file python files
      (some (str "/signers"))
      digest_text
      "signers"
      65536
      start).0
    ≡ ok ("/signers", contents)
unfolding trusted_pinned_regular_file trusted_regular_file read_regular check_regular read_bounded
    resolve_canonical validate_parent_chain closing or_fail check_parent check_owner check_path
    normalize_sha256 ◌>>=◌ lift pure raise is_digest repeat_match
reads = refl

trusted_pinned_regular_file-IsPinned_example :
    (some (str "/signers") ≡ some (str "/signers"))
    × (length contents ≤ 65536)
    × (Stdlib.sha256 python contents ≡ digest_text)
trusted_pinned_regular_file-IsPinned_example =
    trusted_pinned_regular_file-IsPinned python files (some (str "/signers")) digest_text "signers"
      65536 ("/signers", contents) start reads
