-- ===== src/Approval/Signed.antt =====
-- What the signature of an accepted approval covers.
use ansible_collection_found.Base.{
  String, ◌<>◌, true, false, ◌≡◌, refl, ap, ◌∙◌, ◌≤◌, ◌<◌, ◌+◌, arith, eq_iff,
}
use ansible_collection_found.Base.Result.{ok, refuse_unless, refuse_passed}
use ansible_collection_found.Base.Exec.{Exec, pure, lift, bind-elim}
use ansible_collection_found.Base.Value.{Value}
use ansible_collection_found.Stdlib.{Stdlib}
use ansible_collection_found.Approval.Os.{Status}
use ansible_collection_found.Approval.Claim.{Approval, Moment, not_yet}
use ansible_collection_found.Approval.Normalize.{
  Trusted, Normalized, Authority, is_empty, normalize_approval_fields,
}
use ansible_collection_found.Approval.Validate.{
  approval_payload, replay_identity, normalize_approval_authority, check_binding, check_unused,
  normalize_approval,
}

module _ {S : Type 0} (py : Stdlib) (trusted : Trusted S) where
  -- The fields fit the authority and the time: the directory is the authority's own, and the approval is not
  -- expired, and was issued at most 60 seconds after the clock.
  pub record Fits (n : Normalized) (authority : Authority) (operation target : String)
      (now : Moment) : Type 0 where
    pub directory : n.replay_directory ≡ authority.replay_directory
    pub device : Status.device n.replay_status ≡ Status.device authority.replay_status
    pub inode : Status.inode n.replay_status ≡ Status.inode authority.replay_status
    pub operation_given : is_empty operation ≡ false
    pub target_given : is_empty target ≡ false
    pub aware : now.aware ≡ true
    pub started : n.issued_at ≤ now.micros + 60000000
    pub running : now.micros < n.expires_at

  check_binding-Fits :
      (n : Normalized) (authority : Authority) (operation target : String) (now : Moment) (s : S)
      → (check_binding py trusted n authority operation target now s).0 ≡ ok tt
      → Fits n authority operation target now
  unfolding check_binding lift not_yet
  check_binding-Fits n authority operation target now s h = bind-elim _ _ s h λ _ same h1.
      bind-elim _ _ _ h1 λ _ identity h2. bind-elim _ _ _ h2 λ _ asked h3.
        bind-elim _ _ _ h3 λ _ on h4. bind-elim _ _ _ h4 λ _ zoned h5.
          bind-elim _ _ _ h5 λ _ started h6.
            let whole = refuse_unless _ _ identity in
            let begun = refuse_passed _ _ started in
            let early = refuse_passed _ _ h6 in
            record {
              directory =
                  (eq_iff n.replay_directory authority.replay_directory).0 (refuse_unless _ _ same);
              device = ground (arith, whole);
              inode = ground (arith, whole);
              operation_given = refuse_passed _ _ asked;
              target_given = refuse_passed _ _ on;
              aware = refuse_unless _ _ zoned;
              started = ground (arith, begun);
              running = ground (arith, early);
            }

  -- The approval and the settings were read, and fit; the signature of the authority of these settings over these
  -- fields, the operation, its target and its binding was verified; the approval stands for those bytes, and its
  -- marker was not there.
  abbrev pub Signed :
      Value → Value → String → String → Value → Exec S Moment → S → Approval → Type 0
  Signed approval settings operation target binding clock s a =
      (n : Normalized) × (authority : Authority) × (now : Moment) × (payload : Value) × (s1 s2 s3
        s4 : S)
      × ((normalize_approval_fields py trusted approval true s).0 ≡ ok n)
      × ((normalize_approval_authority py trusted settings s1).0 ≡ ok authority)
      × ((clock s2).0 ≡ ok now)
      × Fits n authority operation target now
      × (approval_payload n authority operation target binding ≡ ok payload)
      × ((Trusted.verify_signature trusted authority n.signature (Stdlib.dumps py payload) s3).0
          ≡ ok tt)
      × ((Trusted.lexists trusted
            (Trusted.join trusted authority.replay_directory (a.replay_digest <> ".used")) s4).0
          ≡ ok false)
      × (a.approval_digest ≡ Stdlib.sha256 py (Stdlib.dumps py payload))
      × (a.replay_digest ≡ Stdlib.sha256 py (Stdlib.dumps py (replay_identity n authority)))
      × (a.replay_directory ≡ authority.replay_directory)

  check_unused-absent :
      (authority : Authority) (digest : String) (s : S)
      → (check_unused py trusted authority digest s).0 ≡ ok tt
      → (Trusted.lexists trusted
          (Trusted.join trusted authority.replay_directory (digest <> ".used"))
          s).0
        ≡ ok false
  unfolding check_unused lift
  check_unused-absent authority digest s h =
      bind-elim _ _ s h λ used looked h1. looked ∙ ap ok (refuse_passed used _ h1)

  ok_same : {a b : Approval} → ok a ≡ ok b → a ≡ b
  ok_same h = cc (h)

  -- An approval is accepted only where its fields and the authority of the settings were read and fit each other,
  -- the operation, the target and the time, and where the signature of that authority over them and the binding was
  -- verified; its digest is that of the signed bytes, its marker was absent, and it is consumed in the authority's
  -- directory.
  pub normalize_approval-Signed :
      (approval settings : Value) (operation target : String) (binding : Value)
      (clock : Exec S Moment) (s : S) (a : Approval)
      → (normalize_approval py trusted approval settings operation target binding clock s).0 ≡ ok a
      → Signed approval settings operation target binding clock s a
  unfolding normalize_approval lift pure
  normalize_approval-Signed approval settings operation target binding clock s a h =
      bind-elim _ _ s h λ n fields h1. bind-elim _ _ _ h1 λ authority pinned h2.
        bind-elim _ _ _ h2 λ now is_now h3. bind-elim _ _ _ h3 λ _ bound h4.
          bind-elim _ _ _ h4 λ payload is_payload h5. bind-elim _ _ _ h5 λ _ verified h6.
            bind-elim _ _ _ h6 λ _ fresh h7. rw (← ok_same h7) (
              n,
              authority,
              now,
              payload,
              _,
              _,
              _,
              _,
              fields,
              pinned,
              is_now,
              check_binding-Fits n authority operation target now _ bound,
              is_payload,
              verified,
              check_unused-absent authority _ _ fresh,
              refl,
              refl,
              refl,
            )
