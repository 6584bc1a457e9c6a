-- ===== src/Approval/Os.antt =====
-- The calls of Python's `os` module that a claim makes, over an unknown machine.
use ansible_collection_found.Base.{ℕ, String, Bytes, Bool, true, false, ◌≡◌}
use ansible_collection_found.Base.Result.{ok}
use ansible_collection_found.Base.Exec.{Exec}

-- What `os.fstat` tells.
pub record Status : Type 0 where
  pub mode : ℕ
  pub uid : ℕ
  pub device : ℕ
  pub inode : ℕ

-- The outcomes of `os.open` with `O_CREAT | O_EXCL`.
pub data Created : Type 0 where
  descriptor : ℕ → Created
  already_there : Created
  not_created : Created

pub record Os : Type 1 where
  pub State : Type 0
  pub getuid : ℕ
  pub open_directory : String → Exec State ℕ
  pub fstat : ℕ → Exec State Status
  pub create_exclusive : ℕ → String → State → Created × State
  -- How many bytes were written.
  pub write : ℕ → Bytes → Exec State ℕ
  pub fsync : ℕ → Exec State (Unit {0})
  pub close : ℕ → State → State
  -- Which directory an open descriptor stands for, and which names a directory holds.
  pub device_of : State → ℕ → ℕ
  pub inode_of : State → ℕ → ℕ
  pub holds : State → ℕ → ℕ → String → Bool

-- No call of a claim removes a name from a directory.
pub record IsGrowing (os : Os) : Type 0 where
  pub holds-open :
      (path : String) (s : Os.State os) (d i : ℕ) (n : String)
      → Os.holds os s d i n ≡ true
      → Os.holds os (Os.open_directory os path s).1 d i n ≡ true
  pub holds-fstat :
      (fd : ℕ) (s : Os.State os) (d i : ℕ) (n : String)
      → Os.holds os s d i n ≡ true
      → Os.holds os (Os.fstat os fd s).1 d i n ≡ true
  pub holds-create :
      (fd : ℕ) (name : String) (s : Os.State os) (d i : ℕ) (n : String)
      → Os.holds os s d i n ≡ true
      → Os.holds os (Os.create_exclusive os fd name s).1 d i n ≡ true
  pub holds-write :
      (fd : ℕ) (b : Bytes) (s : Os.State os) (d i : ℕ) (n : String)
      → Os.holds os s d i n ≡ true
      → Os.holds os (Os.write os fd b s).1 d i n ≡ true
  pub holds-fsync :
      (fd : ℕ) (s : Os.State os) (d i : ℕ) (n : String)
      → Os.holds os s d i n ≡ true
      → Os.holds os (Os.fsync os fd s).1 d i n ≡ true
  pub holds-close :
      (fd : ℕ) (s : Os.State os) (d i : ℕ) (n : String)
      → Os.holds os s d i n ≡ true
      → Os.holds os (Os.close os fd s) d i n ≡ true

-- `os.fstat` tells which directory a descriptor stands for and leaves it there. An exclusive creation
-- succeeds only where the name was absent, and leaves it behind.
pub record IsExclusive (os : Os) : Type 0 where
  pub fstat-device :
      (fd : ℕ) (s : Os.State os) (st : Status)
      → (Os.fstat os fd s).0 ≡ ok st
      → Os.device_of os (Os.fstat os fd s).1 fd ≡ st.device
  pub fstat-inode :
      (fd : ℕ) (s : Os.State os) (st : Status)
      → (Os.fstat os fd s).0 ≡ ok st
      → Os.inode_of os (Os.fstat os fd s).1 fd ≡ st.inode
  pub create-absent :
      (fd : ℕ) (name : String) (s : Os.State os) (new : ℕ)
      → (Os.create_exclusive os fd name s).0 ≡ descriptor new
      → Os.holds os s (Os.device_of os s fd) (Os.inode_of os s fd) name ≡ false
  pub create-present :
      (fd : ℕ) (name : String) (s : Os.State os) (new : ℕ)
      → (Os.create_exclusive os fd name s).0 ≡ descriptor new
      → Os.holds os
          (Os.create_exclusive os fd name s).1
          (Os.device_of os s fd)
          (Os.inode_of os s fd)
          name
        ≡ true
