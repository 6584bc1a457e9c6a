-- ===== src/Approval/Claim/Once.antt =====
-- One approval is consumed at most once, whatever else happens to its replay directory.
use ansible_collection_found.Base.{
  ℕ, zero, suc, String, Bool, true, false, [], ◌∷◌, Bytes, ◌≡◌, ◌∙◌, arith, Bool-cases, inl, inr,
}
use ansible_collection_found.Base.Result.{Result, ok, err}
use ansible_collection_found.Base.Exec.{
  Exec, lift, bind-run, Relates, IsPreorder, Relates-pure, Relates-raise, Relates-lift,
  Relates-bind,
}
use ansible_collection_found.Stdlib.{Stdlib}
use ansible_collection_found.Approval.Os.{
  Os, Status, Created, descriptor, already_there, not_created, IsGrowing, IsExclusive,
}
use ansible_collection_found.Approval.Claim.{
  Approval, Moment, check_directory, claimed, marker_name, closing, open_or_fail, write_all,
  create_marker, record_evidence, claim_in, claim_approval,
}

pub check_directory-same :
    (uid : ℕ) (a : Approval) (st : Status)
    → check_directory uid a st ≡ ok tt
    → (st.device ≡ a.replay_directory_device) × (st.inode ≡ a.replay_directory_inode)
unfolding check_directory
check_directory-same uid a st h = ground arith

pub claimed-descriptor : (c : Created) (fd : ℕ) → claimed c ≡ ok fd → c ≡ descriptor fd
unfolding claimed
claimed-descriptor (descriptor n) fd h = cc
claimed-descriptor already_there fd h = cc
claimed-descriptor not_created fd h = cc

module _ (py : Stdlib) {os : Os} (growing : IsGrowing os) (d i : ℕ) (n : String) where
  -- A name that the directory holds before, it holds after.
  abbrev pub Grows : Os.State os → Os.State os → Type 0
  Grows s t = Os.holds os s d i n ≡ true → Os.holds os t d i n ≡ true

  pub Grows-IsPreorder : IsPreorder Grows
  Grows-IsPreorder = record { stay = λ s h. h; chain = λ s t u h k x. k (h x) }

  pub closing-Grows {ℓ} :
      {A : Type ℓ} (fd : ℕ) (m : Exec (Os.State os) A)
      → Relates Grows m
      → Relates Grows (closing py os fd m)
  unfolding closing
  closing-Grows fd m h = record { at = λ s x. growing.holds-close fd (m s).1 d i n (h.at s x) }

  pub open_or_fail-Grows : (path : String) → Relates Grows (open_or_fail py os path)
  unfolding open_or_fail
  open_or_fail-Grows path = record {
    at = λ s x. after (Os.open_directory os path s) (growing.holds-open path s d i n x);
  }
    where
      after :
          (r : Result ℕ × Os.State os)
          → Os.holds os r.1 d i n ≡ true
          → Os.holds os
              (elim r.0 as (λ _. Result ℕ × Os.State os) [
                | ok fd ↦ (ok fd, r.1)
                | err _ ↦ (err "approval replay directory could not be opened safely.", r.1)
              ]).1
              d
              i
              n
            ≡ true
      after (ok fd, t) h = h
      after (err e, t) h = h

  pub fstat-Grows : (fd : ℕ) → Relates Grows (Os.fstat os fd)
  fstat-Grows fd = record { at = λ s x. growing.holds-fstat fd s d i n x }

  write-Grows : (fd : ℕ) (b : Bytes) → Relates Grows (Os.write os fd b)
  write-Grows fd b = record { at = λ s x. growing.holds-write fd b s d i n x }

  fsync-Grows : (fd : ℕ) → Relates Grows (Os.fsync os fd)
  fsync-Grows fd = record { at = λ s x. growing.holds-fsync fd s d i n x }

  pub create_marker-Grows : (fd : ℕ) (name : String) → Relates Grows (create_marker py os fd name)
  unfolding create_marker
  create_marker-Grows fd name = record { at = λ s x. growing.holds-create fd name s d i n x }

  ruleset growing_rules = (
    Grows-IsPreorder, Relates-pure, Relates-raise, Relates-lift, Relates-bind, closing-Grows,
    open_or_fail-Grows, fstat-Grows, write-Grows, fsync-Grows, create_marker-Grows,
  )

  write_all-Grows : (rounds fd : ℕ) (b : Bytes) → Relates Grows (write_all py os rounds fd b)
  unfolding write_all
  write_all-Grows rounds fd [] = search growing_rules
  write_all-Grows zero fd (_ ∷ _) = search growing_rules
  write_all-Grows (suc rounds) fd (b ∷ bs) = search (growing_rules, write_all-Grows rounds) depth 8

  pub record_evidence-Grows :
      (directory marker : ℕ) (a : Approval)
      → Relates Grows (record_evidence py os directory marker a)
  unfolding record_evidence
  record_evidence-Grows directory marker a = search (growing_rules, write_all-Grows) depth 8

  claim_in-Grows : (directory : ℕ) (a : Approval) → Relates Grows (claim_in py os directory a)
  unfolding claim_in
  claim_in-Grows directory a = search (growing_rules, record_evidence-Grows) depth 9

  pub claim_approval-Grows :
      (a : Approval) (now : Moment) → Relates Grows (claim_approval py os a now)
  unfolding claim_approval
  claim_approval-Grows a now = search (growing_rules, claim_in-Grows) depth 10

module _ (py : Stdlib) {os : Os} (growing : IsGrowing os) (exclusive : IsExclusive os)
    (a : Approval) where
  -- Whether the marker of the approval is in the directory that was approved.
  abbrev pub used : Os.State os → Bool
  used s = Os.holds os s a.replay_directory_device a.replay_directory_inode (marker_name a)

  -- The marker was absent, and is there now.
  abbrev pub Marks : Os.State os → Os.State os → Type 0
  Marks s t = (used s ≡ false) × (used t ≡ true)

  pub absent_before :
      (s t : Os.State os) → (used s ≡ true → used t ≡ true) → used t ≡ false → used s ≡ false
  absent_before s t keep h = elim (Bool-cases (used s)) [ inl x ↦ cc (keep x) | inr x ↦ x ]

  claim_in-Marks :
      (directory : ℕ) (s : Os.State os)
      → (claim_in py os directory a s).0 ≡ ok tt
      → Marks s (claim_in py os directory a s).1
  unfolding claim_in lift create_marker closing
  claim_in-Marks directory s h = bind-run _ _ s h λ status is_status e1 h1.
      bind-run _ _ _ h1 λ _ checked e2 h2. bind-run _ _ _ h2 λ marker made e3 h3.
        let s1 = (Os.fstat os directory s).1 in
        let same = check_directory-same (Os.getuid os) a status checked in
        let device = exclusive.fstat-device directory s status is_status ∙ same.0 in
        let inode = exclusive.fstat-inode directory s status is_status ∙ same.1 in
        let created = claimed-descriptor _ marker made in
        let absent : used s1 ≡ false =
          rw (← device, ← inode)
            (exclusive.create-absent directory (marker_name a) s1 marker created) in
        let there : used (Os.create_exclusive os directory (marker_name a) s1).1 ≡ true =
          rw (← device, ← inode)
            (exclusive.create-present directory (marker_name a) s1 marker created) in
        (
          absent_before s s1 ((fstat-Grows py growing _ _ _ directory).at s) absent,
          rw (e1 ∙ e2 ∙ e3) (
              (closing-Grows py growing _ _ _ marker _
                  (record_evidence-Grows py growing _ _ _ directory marker a)).at
                _ there),
        )

  -- A claim that succeeds finds the marker of its approval absent, and leaves it behind.
  pub claim_approval-Marks :
      (now : Moment) (s : Os.State os)
      → (claim_approval py os a now s).0 ≡ ok tt
      → Marks s (claim_approval py os a now s).1
  unfolding claim_approval lift closing
  claim_approval-Marks now s h = bind-run _ _ s h λ _ _ e1 h1. bind-run _ _ _ h1 λ _ _ e2 h2.
      bind-run _ _ _ h2 λ _ _ e3 h3. bind-run _ _ _ h3 λ directory _ e4 h4.
        let s1 = (open_or_fail py os a.replay_directory s).1 in
        let marks = claim_in-Marks directory s1 h4 in
        (
          absent_before s s1 ((open_or_fail-Grows py growing _ _ _ a.replay_directory).at s)
              marks.0,
          rw (e1 ∙ e2 ∙ e3 ∙ e4) (growing.holds-close directory _ _ _ (marker_name a) marks.1),
        )
