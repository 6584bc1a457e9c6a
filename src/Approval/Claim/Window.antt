-- ===== src/Approval/Claim/Window.antt =====
-- When a claim can succeed, and that its evidence is written to the end.
use ansible_collection_found.Base.{
  ℕ, zero, suc, ◌+◌, ◌≤◌, ◌<◌, true, [], ◌∷◌, Bytes, ◌≡◌, ◌≢◌, refl, ap, ◌∙◌, arith, length, drop,
  take, length-drop, take-append-drop, ◌++◌, sym,
}
use mathlib.Core.List.{append-nil, append_assoc}
use ansible_collection_found.Base.Result.{Result, ok, err, refuse-pass}
use ansible_collection_found.Base.Exec.{lift, pure, bind-run, bind-of_ok, lift-of_ok, lift-cases}
use ansible_collection_found.Stdlib.{Stdlib}
use ansible_collection_found.Approval.Os.{Os}
use ansible_collection_found.Approval.Claim.{
  Approval, Moment, check_window, write_all, claim_approval,
}

-- The approval is not expired, and was issued at most 60 seconds after the claim's clock.
pub record InWindow (py : Stdlib) (a : Approval) (now : Moment) : Type 0 where
  pub issued : ℕ
  pub expires : ℕ
  pub issued_read : Stdlib.strptime py a.issued_at ≡ ok issued
  pub expires_read : Stdlib.strptime py a.expires_at ≡ ok expires
  pub aware : now.aware ≡ true
  pub started : issued ≤ now.micros + 60000000
  pub running : now.micros < expires

module _ (py : Stdlib) (a : Approval) (now : Moment) where
  window_of :
      (r q : Result ℕ)
      → Stdlib.strptime py a.issued_at ≡ r
      → Stdlib.strptime py a.expires_at ≡ q
      → check_window py a now ≡ ok tt
      → InWindow py a now
  unfolding check_window
  window_of (ok issued) (ok expires) e f h = record {
    issued = issued;
    expires = expires;
    issued_read = e;
    expires_read = f;
    aware = ground arith;
    started = ground arith;
    running = ground arith;
  }
  window_of (err _) q e f h = absurd (ground arith)
  window_of (ok _) (err _) e f h = absurd (ground arith)

  -- A claim succeeds only inside the validity of its approval: not after it expires, and not before it
  -- was issued but for a tolerance of 60 seconds.
  pub claim_approval-InWindow :
      (os : Os) (s : Os.State os) → (claim_approval py os a now s).0 ≡ ok tt → InWindow py a now
  unfolding claim_approval lift
  claim_approval-InWindow os s h = bind-run _ _ s h λ _ passed _ _. window_of _ _ refl refl passed

  -- An expired approval is refused, and nothing on the machine changes.
  pub claim_approval-expired :
      (os : Os) (s : Os.State os) (expires : ℕ)
      → Stdlib.strptime py a.expires_at ≡ ok expires
      → expires ≤ now.micros
      → ((claim_approval py os a now s).0 ≢ ok tt) × ((claim_approval py os a now s).1 ≡ s)
  unfolding claim_approval
  claim_approval-expired os s expires f late = (
    λ h. too_late (claim_approval-InWindow os s h),
    lift-cases (check_window py a now) _ s (λ t. t ≡ s) refl
        λ _ passed. absurd (too_late (window_of _ _ refl refl passed)),
  )
    where
      too_late : InWindow py a now → ⊥
      too_late w =
          let same : w.expires ≡ expires = cc (w.expires_read) in omega (arith, same, w.running)

-- `recorded` is what the file behind the descriptor holds. A write of bytes appends some of them, at least one.
module _ (py : Stdlib) (os : Os) (fd : ℕ) (recorded : Os.State os → Bytes)
    (progress : (b : Bytes) (s : Os.State os)
      → b ≢ []
      → (n : ℕ) × ((Os.write os fd b s).0 ≡ ok n)
        × (1 ≤ n)
        × (recorded (Os.write os fd b s).1 ≡ recorded s ++ take n b)) where
  -- Where every write makes progress, as many rounds as there are bytes succeed, and leave all the bytes in the
  -- file, in order, behind what it held.
  pub write_all_complete :
      (rounds : ℕ) (b : Bytes) (s : Os.State os)
      → length b ≤ rounds
      → ((write_all py os rounds fd b s).0 ≡ ok tt)
        × (recorded (write_all py os rounds fd b s).1 ≡ recorded s ++ b)
  unfolding write_all pure
  write_all_complete rounds [] s h = (refl, sym (append-nil (recorded s)))
  write_all_complete zero (_ ∷ _) s h = absurd (omega arith)
  write_all_complete (suc rounds) (b ∷ bs) s h =
      let (n, written, some_, grown) = progress (b ∷ bs) s (λ e. cc) in
      let s1 = (Os.write os fd (b ∷ bs) s).1 in
      let (done, whole) =
        write_all_complete rounds (drop n (b ∷ bs)) s1 (omega (arith, length-drop n (b ∷ bs))) in
      let first =
        bind-of_ok (Os.write os fd (b ∷ bs)) _ s n s1 (λ i. (written i, s1))
        ∙ lift-of_ok _ _ s1 tt (refuse-pass _ _ (ground arith)) in
      (
        ap (λ x. x.0) first ∙ done,
        ap (λ x. recorded x.1) first
            ∙ whole
            ∙ ap (λ x. x ++ drop n (b ∷ bs)) grown
            ∙ append_assoc (recorded s) (take n (b ∷ bs)) (drop n (b ∷ bs))
            ∙ ap (λ x. recorded s ++ x) (take-append-drop n (b ∷ bs)),
      )
