-- ===== src/Approval/Disk.antt =====
-- The controller's files as the boundary reads them.
use ansible_collection_found.Base.{
  ℕ, String, Bool, true, false, List, Bytes, not, ◌||◌, nat_eq, ◌≡◌, ◌/◌, ◌%◌,
}
use ansible_collection_found.Base.Result.{ok, err}
use ansible_collection_found.Base.Exec.{Exec}

-- What `os.lstat` and `os.fstat` tell.
pub record FileStatus : Type 0 where
  pub mode : ℕ
  pub uid : ℕ
  pub nlink : ℕ
  pub device : ℕ
  pub inode : ℕ
  pub size : ℕ
  pub mtime_ns : ℕ
  pub ctime_ns : ℕ

pub record Disk (S : Type 0) : Type 0 where
  pub getuid : ℕ
  -- `os.path.normpath(path)`
  pub normpath : String → String
  -- `str(Path(path).resolve(strict=True))`
  pub resolve : String → Exec S String
  -- `Path(path).parent` and its parents, up to the root
  pub parents : String → List String
  pub lstat : String → Exec S FileStatus
  -- `os.open(path, flags)` for reading, without following a last link
  pub open_file : String → Exec S ℕ
  pub fstat : ℕ → Exec S FileStatus
  pub read : ℕ → ℕ → Exec S Bytes
  pub close : ℕ → S → S

-- `stat.S_ISDIR`, `stat.S_ISREG` and `stat.S_ISSOCK`
abbrev pub file_type : FileStatus → ℕ
file_type status = status.mode / 4096 % 16

abbrev pub is_directory : FileStatus → Bool
is_directory status = nat_eq (file_type status) 4

abbrev pub is_regular : FileStatus → Bool
is_regular status = nat_eq (file_type status) 8

abbrev pub is_socket : FileStatus → Bool
is_socket status = nat_eq (file_type status) 12

abbrev pub bit : ℕ → ℕ → Bool
bit mode weight = nat_eq (mode / weight % 2) 1

-- `mode & 0o022`, `mode & 0o077`, `mode & 0o111` and `mode & stat.S_ISVTX`
abbrev pub writable_by_others : FileStatus → Bool
writable_by_others status = bit status.mode 2 || bit status.mode 16

abbrev pub open_to_others : FileStatus → Bool
open_to_others status = not (nat_eq (status.mode % 64) 0)

abbrev pub is_executable : FileStatus → Bool
is_executable status = bit status.mode 1 || bit status.mode 8 || bit status.mode 64

abbrev pub is_sticky : FileStatus → Bool
is_sticky status = bit status.mode 512

-- Which descriptors are open: opening gives one that was not, closing an open one takes it away, and nothing else
-- changes any.
pub record Tracks {S : Type 0} (disk : Disk S) (is_open : S → ℕ → Bool) : Type 0 where
  pub open-resolve :
      (path : String) (s : S) (d : ℕ) → is_open (Disk.resolve disk path s).1 d ≡ is_open s d
  pub open-lstat :
      (path : String) (s : S) (d : ℕ) → is_open (Disk.lstat disk path s).1 d ≡ is_open s d
  pub open-fresh :
      (path : String) (s : S) (fd : ℕ)
      → (Disk.open_file disk path s).0 ≡ ok fd
      → (is_open s fd ≡ false) × (is_open (Disk.open_file disk path s).1 fd ≡ true)
  pub open-others :
      (path : String) (s : S) (fd d : ℕ)
      → (Disk.open_file disk path s).0 ≡ ok fd
      → nat_eq d fd ≡ false
      → is_open (Disk.open_file disk path s).1 d ≡ is_open s d
  pub open-fails :
      (path : String) (s : S) (e : String) (d : ℕ)
      → (Disk.open_file disk path s).0 ≡ err e
      → is_open (Disk.open_file disk path s).1 d ≡ is_open s d
  pub open-fstat : (fd : ℕ) (s : S) (d : ℕ) → is_open (Disk.fstat disk fd s).1 d ≡ is_open s d
  pub open-read : (fd n : ℕ) (s : S) (d : ℕ) → is_open (Disk.read disk fd n s).1 d ≡ is_open s d
  pub closed-close :
      (fd : ℕ) (s : S) → is_open s fd ≡ true → is_open (Disk.close disk fd s) fd ≡ false
  pub closed-others :
      (fd : ℕ) (s : S) (d : ℕ)
      → nat_eq d fd ≡ false
      → is_open (Disk.close disk fd s) d ≡ is_open s d
