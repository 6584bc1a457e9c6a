-- ===== src/Approval/Claim/Turns.antt =====
-- A claim in turns, between which other processes run.
use ansible_collection_found.Base.{ℕ, String, ◌≡◌, refl, sym}
use ansible_collection_found.Base.Result.{Result, ok, err}
use ansible_collection_found.Base.Exec.{Exec, continue, lift, ◌>>=◌, ◌>>◌}
use ansible_collection_found.Base.Value.{str}
use ansible_collection_found.Base.{some}
use ansible_collection_found.Stdlib.{Stdlib}
use ansible_collection_found.Approval.Checks.{normalize_sha256}
use ansible_collection_found.Approval.Os.{Os, Status}
use ansible_collection_found.Approval.Claim.{
  Approval, Moment, check_window, check_directory, marker_name, closing, open_or_fail,
  create_marker, record_evidence, claim_in, claim_approval,
}

-- How far a claim is: not begun, in its open directory, with its marker created, or ended.
pub data Stage : Type 0 where
  ready : Stage
  opened : ℕ → Stage
  marked : ℕ → ℕ → Stage
  ended : Result (Unit {0}) → Stage

module _ (py : Stdlib) (os : Os) where
  open os use {State, getuid, fstat, close}

  -- The checks of the approval, and the opening of its directory.
  unfoldable pub enter : Approval → Moment → Exec State ℕ
  enter a now = do
    lift (check_window py a now)
    lift (normalize_sha256 (some (str a.approval_digest)) "approval_digest")
    lift (normalize_sha256 (some (str a.replay_digest)) "replay_digest")
    open_or_fail py os a.replay_directory

  -- The check of the open directory, and the exclusive creation of the marker there.
  unfoldable pub mark : Approval → ℕ → Exec State ℕ
  mark a directory = do
    status ← fstat directory
    lift (check_directory getuid a status)
    create_marker py os directory (marker_name a)

  abbrev pub after_enter : Result ℕ × State → Stage × State
  after_enter (ok directory, s) = (opened directory, s)
  after_enter (err e, s) = (ended (err e), s)

  abbrev pub after_mark : ℕ → Result ℕ × State → Stage × State
  after_mark directory (ok marker, s) = (marked directory marker, s)
  after_mark directory (err e, s) = (ended (err e), close directory s)

  -- One turn of a claim. What a descriptor stands for is private to its process, so no other process can come
  -- between the check of the directory and the creation.
  unfoldable pub turn : Approval → Moment → Stage → State → Stage × State
  turn a now ready s = after_enter (enter a now s)
  turn a now (opened directory) s = after_mark directory (mark a directory s)
  turn a now (marked directory marker) s = (
    ended (closing py os marker (record_evidence py os directory marker a) s).0,
    close directory (closing py os marker (record_evidence py os directory marker a) s).1,
  )
  turn a now (ended r) s = (ended r, s)

  checked_first :
      {A B : Type 0} (r : Result (Unit {0})) (m : Exec State A) (f : A → Exec State B) (s : State)
      → ((lift r >> m) >>= f) s ≡ (lift r >>= λ _. m >>= f) s
  unfolding ◌>>=◌ lift
  checked_first (ok _) m f s = refl
  checked_first (err e) m f s = refl

  entered_first :
      {B : Type 0} (p : Result (Unit {0})) (q r : Result String) (m : Exec State ℕ)
      (f : ℕ → Exec State B) (s : State)
      → ((lift p >> (lift q >> (lift r >> m))) >>= f) s
        ≡ (lift p >> (lift q >> (lift r >> (m >>= f)))) s
  unfolding ◌>>=◌ lift
  entered_first (ok _) (ok _) (ok _) m f s = refl
  entered_first (ok _) (ok _) (err e) m f s = refl
  entered_first (ok _) (err e) r m f s = refl
  entered_first (err e) q r m f s = refl

  claim-enter :
      (a : Approval) (now : Moment) (s : State)
      → claim_approval py os a now s
        ≡ (enter a now >>= λ directory. closing py os directory (claim_in py os directory a)) s
  unfolding claim_approval enter
  claim-enter a now s = sym (
      entered_first (check_window py a now)
        (normalize_sha256 (some (str a.approval_digest)) "approval_digest")
        (normalize_sha256 (some (str a.replay_digest)) "replay_digest")
        (open_or_fail py os a.replay_directory)
        (λ directory. closing py os directory (claim_in py os directory a)) s)

  claim_in-mark :
      (directory : ℕ) (a : Approval) (s : State)
      → claim_in py os directory a s
        ≡ (mark a directory >>= λ marker.
              closing py os marker (record_evidence py os directory marker a))
            s
  unfolding claim_in mark ◌>>=◌
  claim_in-mark directory a s = after_status (fstat directory s).0 (fstat directory s).1
    where
      made : Exec State ℕ
      made = create_marker py os directory (marker_name a)

      recorded : ℕ → Exec State (Unit {0})
      recorded marker = closing py os marker (record_evidence py os directory marker a)

      after_status :
          (r : Result Status) (u : State)
          → continue r
              (λ status. lift (check_directory getuid a status) >>= λ _. made >>= recorded)
              u
            ≡ continue
                (continue r (λ status. lift (check_directory getuid a status) >>= λ _. made) u).0
                recorded
                (continue r (λ status. lift (check_directory getuid a status) >>= λ _. made) u).1
      after_status (ok status) u =
          sym (checked_first (check_directory getuid a status) made recorded u)
      after_status (err e) u = refl

  -- The last two turns of a claim whose directory is open.
  finishes :
      (a : Approval) (now : Moment) (directory : ℕ) (q : Result ℕ × State)
      → let v = after_mark directory q in
        let k : ℕ → Exec State (Unit {0}) =
          λ (marker : ℕ). closing py os marker (record_evidence py os directory marker a) in
        turn a now v.0 v.1 ≡ (ended (continue q.0 k q.1).0, close directory (continue q.0 k q.1).1)
  unfolding turn
  finishes a now directory (ok marker, s) = refl
  finishes a now directory (err e, s) = refl

  abbrev pub next : Approval → Moment → Stage × State → Stage × State
  next a now p = turn a now p.0 p.1

  pub turns-claim_approval :
      (a : Approval) (now : Moment) (s : State)
      → next a now (next a now (turn a now ready s))
        ≡ (ended (claim_approval py os a now s).0, (claim_approval py os a now s).1)
  unfolding turn ◌>>=◌ closing
  turns-claim_approval a now s =
      rw (claim-enter a now s) (after (enter a now s).0 (enter a now s).1)
    where
      k : ℕ → Exec State (Unit {0})
      k directory = closing py os directory (claim_in py os directory a)

      after :
          (r : Result ℕ) (u : State)
          → next a now (next a now (after_enter (r, u)))
            ≡ (ended (continue r k u).0, (continue r k u).1)
      after (ok directory) u =
          rw (claim_in-mark directory a u) (finishes a now directory (mark a directory u))
      after (err e) u = refl
