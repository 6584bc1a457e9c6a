-- ===== src/Approval/Claim/Histories.antt =====
-- Claims of any number of processes on one machine, in any interleaving of their turns.
use ansible_collection_found.Base.{
  ℕ, String, Bool, true, false, ◌&&◌, ◌==◌, List, [], ◌∷◌, ◌≡◌, refl, sym, ap, ◌∙◌, ◌⊎◌, arith,
  nat_eq, if◌then◌else◌, inl, inr, eq_iff, ◌<>◌,
}
use ansible_collection_found.Base.Result.{Result, ok, err}
use ansible_collection_found.Base.Exec.{lift, Relates, Relates-lift, Relates-bind, bind-run}
use ansible_collection_found.Stdlib.{Stdlib}
use ansible_collection_found.Approval.Os.{Os, IsGrowing, IsExclusive}
use ansible_collection_found.Approval.Claim.{Approval, Moment, marker_name, create_marker}
use ansible_collection_found.Approval.Claim.Once.{
  used, Marks, Grows, Grows-IsPreorder, closing-Grows, open_or_fail-Grows, fstat-Grows,
  create_marker-Grows, record_evidence-Grows, check_directory-same, claimed-descriptor,
  absent_before,
}
use ansible_collection_found.Approval.Claim.Turns.{
  Stage, ready, opened, marked, ended, enter, mark, after_enter, after_mark, turn,
}

-- The claim has created its marker.
abbrev pub passed : Stage → Bool
passed (marked _ _) = true
passed (ended (ok _)) = true
passed _ = false

abbrev pub succeeded : Stage → Bool
succeeded (ended (ok _)) = true
succeeded _ = false

-- Two approvals have one replay identity: the directory and the digest of authority, execution and nonce.
abbrev pub same_replay : Approval → Approval → Bool
same_replay a b =
    nat_eq a.replay_directory_device b.replay_directory_device
    && nat_eq a.replay_directory_inode b.replay_directory_inode
    && a.replay_digest == b.replay_digest

-- The next turn of one claim, or another step of the machine.
pub data Event (S : Type 0) : Type 0 where
  turn_of : ℕ → Event S
  other : (S → S) → Event S

abbrev pub update : ℕ → Stage → (ℕ → Stage) → ℕ → Stage
update k p f i = if nat_eq i k then p else f i

module _ (py : Stdlib) {os : Os} (growing : IsGrowing os) (exclusive : IsExclusive os) where
  ruleset growing_rules = (
    Grows-IsPreorder, Relates-lift, Relates-bind, open_or_fail-Grows, fstat-Grows,
    create_marker-Grows,
  )

  turn-Grows :
      (d i : ℕ) (n : String) (a : Approval) (now : Moment) (p : Stage) (s : Os.State os)
      → Grows py growing d i n s (turn py os a now p s).1
  unfolding turn enter mark
  turn-Grows d i n a now ready s = after _ (Relates.at entered s)
    where
      entered : Relates (Grows py growing d i n) (enter py os a now)
      entered = search growing_rules depth 10

      after :
          (r : Result ℕ × Os.State os)
          → Grows py growing d i n s r.1
          → Grows py growing d i n s (after_enter py os r).1
      after (ok _, t) h = h
      after (err _, t) h = h
  turn-Grows d i n a now (opened directory) s = after _ (Relates.at made s)
    where
      made : Relates (Grows py growing d i n) (mark py os a directory)
      made = search growing_rules depth 10

      after :
          (r : Result ℕ × Os.State os)
          → Grows py growing d i n s r.1
          → Grows py growing d i n s (after_mark py os directory r).1
      after (ok _, t) h = h
      after (err _, t) h = λ x. growing.holds-close directory t d i n (h x)
  turn-Grows d i n a now (marked directory marker) s = λ x. growing.holds-close directory _ d i n (
      (closing-Grows py growing d i n marker _
          (record_evidence-Grows py growing d i n directory marker a)).at
        s x)
  turn-Grows d i n a now (ended r) s = λ x. x

  mark-Marks :
      (a : Approval) (directory marker : ℕ) (s : Os.State os)
      → (mark py os a directory s).0 ≡ ok marker
      → Marks py growing exclusive a s (mark py os a directory s).1
  unfolding mark lift create_marker
  mark-Marks a directory marker s h = bind-run _ _ s h λ status is_status e1 h1.
      bind-run _ _ _ h1 λ _ checked e2 h2.
        let s1 = (Os.fstat os directory s).1 in
        let same = check_directory-same (Os.getuid os) a status checked in
        let device = exclusive.fstat-device directory s status is_status ∙ same.0 in
        let inode = exclusive.fstat-inode directory s status is_status ∙ same.1 in
        let created = claimed-descriptor _ marker h2 in
        let absent : used py growing exclusive a s1 ≡ false =
          rw (← device, ← inode)
            (exclusive.create-absent directory (marker_name a) s1 marker created) in
        let there : used py growing exclusive a
              (Os.create_exclusive os directory (marker_name a) s1).1
            ≡ true =
          rw (← device, ← inode)
            (exclusive.create-present directory (marker_name a) s1 marker created) in
        (
          absent_before py growing exclusive a s s1 ((fstat-Grows py growing _ _ _ directory).at s)
              absent,
          rw (e1 ∙ e2) there,
        )

  -- A claim passes in the turn that finds its marker absent and leaves it behind.
  turn-passes :
      (a : Approval) (now : Moment) (p : Stage) (s : Os.State os)
      → passed (turn py os a now p s).0 ≡ true
      → (passed p ≡ true) ⊎ Marks py growing exclusive a s (turn py os a now p s).1
  unfolding turn
  turn-passes a now ready s h = absurd (never_enters (enter py os a now s) h)
    where
      never_enters : (r : Result ℕ × Os.State os) → passed (after_enter py os r).0 ≡ true → ⊥
      never_enters (ok _, t) e = cc
      never_enters (err _, t) e = cc
  turn-passes a now (opened directory) s h =
      after (mark py os a directory s) (λ marker e. mark-Marks a directory marker s e) h
    where
      after :
          (r : Result ℕ × Os.State os)
          → ((marker : ℕ) → r.0 ≡ ok marker → Marks py growing exclusive a s r.1)
          → passed (after_mark py os directory r).0 ≡ true
          → (false ≡ true) ⊎ Marks py growing exclusive a s (after_mark py os directory r).1
      after (ok marker, t) marks e = inr (marks marker refl)
      after (err _, t) marks e = inl e
  turn-passes a now (marked _ _) s h = inl refl
  turn-passes a now (ended r) s h = inl h

-- The claims of all processes, and the time each is made at.
module _ (py : Stdlib) {os : Os} (growing : IsGrowing os) (exclusive : IsExclusive os)
    (claims : ℕ → Approval × Moment) (a : Approval) where
  abbrev pub marker_used : Os.State os → Bool
  marker_used = used py growing exclusive a

  abbrev pub run :
      List (Event (Os.State os)) → (ℕ → Stage) → Os.State os → (ℕ → Stage) × Os.State os
  run [] f s = (f, s)
  run (turn_of k ∷ es) f s =
      let p = turn py os (claims k).0 (claims k).1 (f k) s in run es (update k p.0 f) p.1
  run (other g ∷ es) f s = run es f (g s)

  -- The other steps do not remove the marker.
  abbrev pub KeepMarker : List (Event (Os.State os)) → Type 0
  KeepMarker [] = Unit
  KeepMarker (turn_of _ ∷ es) = KeepMarker es
  KeepMarker (other f ∷ es) =
      ((s : Os.State os) → marker_used s ≡ true → marker_used (f s) ≡ true) × KeepMarker es

  -- A claim with the replay identity of `a` that has created its marker.
  abbrev HasPassed : (ℕ → Stage) → ℕ → Type 0
  HasPassed f i = (same_replay a (claims i).0 ≡ true) × (passed (f i) ≡ true)

  -- Where one has, the marker is there, and no other has.
  abbrev AtMostOne : (ℕ → Stage) → Os.State os → Type 0
  AtMostOne f s =
      ((i : ℕ) → HasPassed f i → marker_used s ≡ true)
      × ((i j : ℕ) → HasPassed f i → HasPassed f j → i ≡ j)

  same_replay-used :
      (b : Approval) (s : Os.State os)
      → same_replay a b ≡ true
      → used py growing exclusive b s ≡ marker_used s
  same_replay-used b s h = cc (device, inode, ap (λ t. t <> ".used") digest)
    where
      device : a.replay_directory_device ≡ b.replay_directory_device
      device = ground arith

      inode : a.replay_directory_inode ≡ b.replay_directory_inode
      inode = ground arith

      digest : a.replay_digest ≡ b.replay_digest
      digest = ground (arith, eq_iff a.replay_digest b.replay_digest)

  turn-Keeps :
      (k : ℕ) (p : Stage) (s : Os.State os)
      → marker_used s ≡ true
      → marker_used (turn py os (claims k).0 (claims k).1 p s).1 ≡ true
  turn-Keeps k p s =
      turn-Grows py growing exclusive a.replay_directory_device a.replay_directory_inode
        (marker_name a) (claims k).0 (claims k).1 p s

  -- After a turn of claim `k`, which claims have passed: another claim had before, and `k` had before or found no
  -- marker.
  abbrev Before : ℕ → (ℕ → Stage) → Os.State os → ℕ → Type 0
  Before k f s i = HasPassed f i ⊎ ((i ≡ k) × (marker_used s ≡ false))

  turn-predecessor :
      (k i : ℕ) (f : ℕ → Stage) (s : Os.State os)
      → HasPassed (update k (turn py os (claims k).0 (claims k).1 (f k) s).0 f) i
      → Before k f s i
        × (marker_used (turn py os (claims k).0 (claims k).1 (f k) s).1 ≡ true ⊎ HasPassed f i)
  turn-predecessor k i f s (same, h) = by_test (nat_eq i k) refl h
    where
      p : Stage × Os.State os
      p = turn py os (claims k).0 (claims k).1 (f k) s

      own :
          i ≡ k
          → same_replay a (claims k).0 ≡ true
          → (passed (f k) ≡ true) ⊎ Marks py growing exclusive (claims k).0 s p.1
          → Before k f s i × (marker_used p.1 ≡ true ⊎ HasPassed f i)
      own e same1 (inl had) =
          let there : HasPassed f i = rw e (same1, had) in (inl there, inr there)
      own e same1 (inr (absent, there)) = (
        inr (e, sym (same_replay-used (claims k).0 s same1) ∙ absent),
        inl (sym (same_replay-used (claims k).0 p.1 same1) ∙ there),
      )

      by_test :
          (b : Bool)
          → nat_eq i k ≡ b
          → passed (if b then p.0 else f i) ≡ true
          → Before k f s i × (marker_used p.1 ≡ true ⊎ HasPassed f i)
      by_test true e h1 =
          let here : i ≡ k = ground (arith, e) in
          own here (ap (λ x. same_replay a (claims x).0) (sym here) ∙ same)
            (turn-passes py growing exclusive (claims k).0 (claims k).1 (f k) s h1)
      by_test false e h1 = (inl (same, h1), inr (same, h1))

  turn-AtMostOne :
      (k : ℕ) (f : ℕ → Stage) (s : Os.State os)
      → AtMostOne f s
      → AtMostOne
          (update k (turn py os (claims k).0 (claims k).1 (f k) s).0 f)
          (turn py os (claims k).0 (claims k).1 (f k) s).1
  turn-AtMostOne k f s (marked_, one) = (
    λ i h. there i ((turn-predecessor k i f s h).1),
    λ i j h g. meet i j (turn-predecessor k i f s h).0 (turn-predecessor k j f s g).0,
  )
    where
      there :
          (i : ℕ)
          → marker_used (turn py os (claims k).0 (claims k).1 (f k) s).1 ≡ true ⊎ HasPassed f i
          → marker_used (turn py os (claims k).0 (claims k).1 (f k) s).1 ≡ true
      there i (inl h) = h
      there i (inr h) = turn-Keeps k (f k) s (marked_ i h)

      meet : (i j : ℕ) → Before k f s i → Before k f s j → i ≡ j
      meet i j (inl h) (inl g) = one i j h g
      meet i j (inl h) (inr (_, absent)) = absurd (cc (marked_ i h, absent))
      meet i j (inr (_, absent)) (inl g) = absurd (cc (marked_ j g, absent))
      meet i j (inr (e, _)) (inr (d, _)) = e ∙ sym d

  run-AtMostOne :
      (es : List (Event (Os.State os))) (f : ℕ → Stage) (s : Os.State os)
      → KeepMarker es
      → AtMostOne f s
      → AtMostOne (run es f s).0 (run es f s).1
  run-AtMostOne [] f s keep h = h
  run-AtMostOne (turn_of k ∷ es) f s keep h = run-AtMostOne es _ _ keep (turn-AtMostOne k f s h)
  run-AtMostOne (other g ∷ es) f s keep (marked_, one) =
      run-AtMostOne es f (g s) keep.1 ((λ i h. keep.0 s (marked_ i h)), one)

  -- However the turns of any number of claims interleave, with other steps of the machine that do not remove the
  -- marker in between, two claims with the replay identity of `a` that succeed are one claim.
  pub consumed_at_most_once :
      (es : List (Event (Os.State os))) (s : Os.State os) (i j : ℕ)
      → KeepMarker es
      → same_replay a (claims i).0 ≡ true
      → same_replay a (claims j).0 ≡ true
      → succeeded ((run es (λ _. ready) s).0 i) ≡ true
      → succeeded ((run es (λ _. ready) s).0 j) ≡ true
      → i ≡ j
  consumed_at_most_once es s i j keep same_i same_j h g =
      let started : AtMostOne (λ _. ready) s =
        ((λ k c. absurd (cc (c.1))), λ k l c d. absurd (cc (c.1))) in
      (run-AtMostOne es (λ _. ready) s keep started).1 i j (same_i, has_passed _ h)
        (same_j, has_passed _ g)
    where
      has_passed : (p : Stage) → succeeded p ≡ true → passed p ≡ true
      has_passed ready e = e
      has_passed (opened _) e = e
      has_passed (marked _ _) e = refl
      has_passed (ended (ok _)) e = refl
      has_passed (ended (err _)) e = e
