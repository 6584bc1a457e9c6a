-- ===== src/Approval/Claim/Tests.antt =====
-- A machine with one replay directory, and the theorems at it.
use ansible_collection_found.Base.{
  ℕ, ◌≢◌, String, Bool, true, false, ◌==◌, List, [], ◌∷◌, Bytes, ◌≡◌, refl, arith, length, contains,
  eq_refl, if◌then◌else◌,
}
use ansible_collection_found.Base.Result.{ok, err}
use ansible_collection_found.Base.Value.{end}
use ansible_collection_found.Stdlib.{Stdlib}
use ansible_collection_found.Approval.Os.{
  Os, Status, Created, descriptor, already_there, IsGrowing, IsExclusive,
}
use ansible_collection_found.Base.{is_digest, ◌++◌, take}
use ansible_collection_found.Base.Exec.{◌>>=◌}
use ansible_collection_found.Approval.Checks.{normalize_sha256}
use ansible_collection_found.Approval.Claim.{
  Approval, Moment, marker_name, write_all, claim_approval, check_window, claim_in, open_or_fail,
  check_directory, create_marker, closing, record_evidence, evidence,
}
use ansible_collection_found.Approval.Claim.Once.{Marks, claim_approval-Marks}
use ansible_collection_found.Approval.Claim.Window.{
  InWindow, claim_approval-InWindow, claim_approval-expired, write_all_complete,
}
use ansible_collection_found.Approval.Claim.Turns.{
  ready, ended, enter, mark, turn, next, turns-claim_approval,
}
use ansible_collection_found.Approval.Claim.Histories.{
  Event, turn_of, other, run, succeeded, consumed_at_most_once,
}

abbrev status : Status
status = record { mode = 16832; uid = 501; device = 1; inode = 7 }

abbrev create : Bool → String → List String → Created × List String
create true name names = (already_there, names)
create false name names = (descriptor 4, name ∷ names)

-- The names of the one directory; every write takes all bytes.
abbrev machine : Os
machine = record {
  State = List String;
  getuid = 501;
  open_directory = λ _ s. (ok 3, s);
  fstat = λ _ s. (ok status, s);
  create_exclusive = λ _ name s. create (contains s name) name s;
  write = λ _ b s. (ok (length b), s);
  fsync = λ _ s. (ok tt, s);
  close = λ _ s. s;
  device_of = λ _ _. 1;
  inode_of = λ _ _. 7;
  holds = λ s _ _ name. contains s name;
}

create-keeps :
    (b : Bool) (name : String) (s : List String) (n : String)
    → contains s n ≡ true
    → contains (create b name s).1 n ≡ true
create-keeps true name s n h = h
create-keeps false name s n h = ground arith

create-new :
    (b : Bool) (name : String) (s : List String) (fd : ℕ)
    → (create b name s).0 ≡ descriptor fd
    → b ≡ false
create-new true name s fd h = cc
create-new false name s fd h = refl

create-there :
    (b : Bool) (name : String) (s : List String) (fd : ℕ)
    → (create b name s).0 ≡ descriptor fd
    → contains (create b name s).1 name ≡ true
create-there true name s fd h = cc
create-there false name s fd h = rw (eq_refl name)

machine-IsGrowing : IsGrowing machine
machine-IsGrowing = record {
  holds-open = λ path s d i n h. h;
  holds-fstat = λ fd s d i n h. h;
  holds-create = λ fd name s d i n h. create-keeps (contains s name) name s n h;
  holds-write = λ fd b s d i n h. h;
  holds-fsync = λ fd s d i n h. h;
  holds-close = λ fd s d i n h. h;
}

machine-IsExclusive : IsExclusive machine
machine-IsExclusive = record {
  fstat-device = λ fd s st h. cc;
  fstat-inode = λ fd s st h. cc;
  create-absent = λ fd name s new h. create-new (contains s name) name s new h;
  create-present = λ fd name s new h. create-there (contains s name) name s new h;
}

abbrev python : Stdlib
python = record {
  sha256 = λ _. "";
  dumps = λ _. b'{' ∷ b'}' ∷ [];
  loads = λ _ _. err "ValueError";
  b64encode = λ _. "";
  b64decode = λ _. err "ValueError";
  uuid = ok;
  decimal = λ _. "";
  strptime = λ t. if t == "2026-01-01T00:00:00Z" then ok 1000000000 else ok 1900000000;
}

abbrev digest_text : String
digest_text = "bbbbbbbbbbbbbbbbbbbbbbbbbbbbbbbbbbbbbbbbbbbbbbbbbbbbbbbbbbbbbbbb"

abbrev approval : Approval
approval = record {
  execution_id = "run-1";
  commit_shas = end;
  issued_at = "2026-01-01T00:00:00Z";
  expires_at = "2026-01-01T00:15:00Z";
  approval_digest = digest_text;
  replay_digest = digest_text;
  authority_identity = "ops";
  authority_namespace = "lit-onepassword-approval-v1";
  authority_fingerprint = "SHA256:";
  replay_directory = "/replay";
  replay_directory_device = 1;
  replay_directory_inode = 7;
}

abbrev in_time : Moment
in_time = record { aware = true; micros = 1000000005 }

abbrev too_late : Moment
too_late = record { aware = true; micros = 1900000000 }

first_claim : (claim_approval python machine approval in_time []).0 ≡ ok tt
unfolding claim_approval check_window normalize_sha256 is_digest claim_in open_or_fail
    check_directory create_marker closing record_evidence write_all evidence ◌>>=◌
first_claim = refl

claim_approval-Marks_example :
    Marks python machine-IsGrowing machine-IsExclusive approval []
      (claim_approval python machine approval in_time []).1
claim_approval-Marks_example =
    claim_approval-Marks python machine-IsGrowing machine-IsExclusive approval in_time []
      first_claim

claim_approval-InWindow_example : InWindow python approval in_time
claim_approval-InWindow_example =
    claim_approval-InWindow python approval in_time machine [] first_claim

claim_approval-expired_example :
    ((claim_approval python machine approval too_late []).0 ≢ ok tt)
    × ((claim_approval python machine approval too_late []).1 ≡ [])
claim_approval-expired_example =
    claim_approval-expired python approval too_late machine [] 1900000000 refl (omega arith)

abbrev claims : ℕ → Approval × Moment
claims _ = (approval, in_time)

-- Both claims open the directory before the first one creates the marker.
abbrev history : List (Event (List String))
history = turn_of 0 ∷ turn_of 1 ∷ turn_of 0 ∷ other (λ s. "x" ∷ s) ∷ turn_of 1 ∷ turn_of 0 ∷ []

other_keeps :
    (s : List String)
    → contains s (marker_name approval) ≡ true
    → contains ("x" ∷ s) (marker_name approval) ≡ true
other_keeps s h = ground arith

first_wins :
    succeeded (
      (run python machine-IsGrowing machine-IsExclusive claims approval history (λ _. ready) []).0
        0)
    ≡ true
unfolding turn enter mark check_window normalize_sha256 is_digest open_or_fail check_directory
    create_marker closing record_evidence write_all evidence ◌>>=◌
first_wins = refl

abbrev winner : ℕ
winner = 0

consumed_at_most_once_example : winner ≡ winner
consumed_at_most_once_example =
    consumed_at_most_once python machine-IsGrowing machine-IsExclusive claims approval history []
      winner winner (other_keeps, tt) refl refl first_wins first_wins

turns-claim_approval_example :
    next python machine approval in_time
      (next python machine approval in_time (turn python machine approval in_time ready []))
    ≡ (
      ended (claim_approval python machine approval in_time []).0,
      (claim_approval python machine approval in_time []).1,
    )
turns-claim_approval_example = turns-claim_approval python machine approval in_time []

-- The bytes of the one file; every write takes one byte.
abbrev slow : Os
slow = record {
  State = Bytes;
  getuid = 501;
  open_directory = λ _ s. (ok 3, s);
  fstat = λ _ s. (ok status, s);
  create_exclusive = λ _ _ s. (descriptor 4, s);
  write = λ _ b s. (ok 1, s ++ take 1 b);
  fsync = λ _ s. (ok tt, s);
  close = λ _ s. s;
  device_of = λ _ _. 1;
  inode_of = λ _ _. 7;
  holds = λ _ _ _ _. true;
}

write_all_complete_example :
    ((write_all python slow 2 4 (b'{' ∷ b'}' ∷ []) (0 ∷ [])).0 ≡ ok tt)
    × ((write_all python slow 2 4 (b'{' ∷ b'}' ∷ []) (0 ∷ [])).1 ≡ (0 ∷ []) ++ (b'{' ∷ b'}' ∷ []))
write_all_complete_example =
    write_all_complete python slow 4 (λ s. s) (λ b s h. (1, refl, omega arith, refl)) 2
      (b'{' ∷ b'}' ∷ []) (0 ∷ []) (omega arith)
