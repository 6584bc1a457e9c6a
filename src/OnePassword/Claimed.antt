-- ===== src/OnePassword/Claimed.antt =====
-- `claim_approval(config["approval"])` ahead of a change, and what such a change means for the account.
use ansible_collection_found.Base.{Option, none, some, ◌≡◌, refl, ◌∙◌, ◌⊎◌, inl, inr}
use ansible_collection_found.Base.Result.{ok}
use ansible_collection_found.Base.Exec.{Exec, raise, ◌>>=◌, ◌>>◌, Relates, bind-cases}
use ansible_collection_found.Stdlib.{Stdlib}
use ansible_collection_found.Approval.Os.{Os}
use ansible_collection_found.Approval.Claim.{Approval, Moment, claim_approval}
use ansible_collection_found.Approval.Claim.Apart.{Apart, claim_approval-Keeps}
use ansible_collection_found.OnePassword.Client.{Desktop}
use ansible_collection_found.OnePassword.Quiet.{SameStored, SameStored-IsPreorder}

module _ (py : Stdlib) (os : Os) (clock : Exec (Os.State os) Moment) where
  -- A missing approval cannot be claimed.
  unfoldable pub claimed_then :
      {A : Type 0} → Option Approval → Exec (Os.State os) A → Exec (Os.State os) A
  claimed_then none next = raise "AttributeError"
  claimed_then (some approval) next = do now ← clock; claim_approval py os approval now; next

  module _ (desktop : Desktop (Os.State os)) where
    -- The run ended with `next`, right after the approval was claimed in a state with the same account.
    abbrev pub ChangedBy :
        {A : Type 0} → Option Approval → Exec (Os.State os) A → Os.State os → Os.State os → Type 0
    ChangedBy approval next s t =
        (a : Approval) × (now : Moment) × (before : Os.State os) × (approval ≡ some a)
        × SameStored desktop s before
        × ((claim_approval py os a now before).0 ≡ ok tt)
        × (t ≡ (next (claim_approval py os a now before).1).1)

    abbrev pub Effect :
        {A : Type 0} → Option Approval → Exec (Os.State os) A → Os.State os → Os.State os → Type 0
    Effect approval next s t = SameStored desktop s t ⊎ ChangedBy approval next s t

    pub ChangedBy-after :
        {A : Type 0} (approval : Option Approval) (next : Exec (Os.State os) A)
        (s u t : Os.State os)
        → SameStored desktop s u
        → ChangedBy approval next u t
        → ChangedBy approval next s t
    ChangedBy-after approval next s u t h (a, now, before, e, same, claimed, ends) =
        (a, now, before, e, same ∙ h, claimed, ends)

    pub Effect-after :
        {A : Type 0} (approval : Option Approval) (next : Exec (Os.State os) A)
        (s u t : Os.State os)
        → SameStored desktop s u
        → Effect approval next u t
        → Effect approval next s t
    Effect-after approval next s u t h (inl same) = inl (same ∙ h)
    Effect-after approval next s u t h (inr changed) =
        inr (ChangedBy-after approval next s u t h changed)

    pub claimed_then-Effect :
        {A : Type 0} (apart : Apart os (SameStored desktop))
        (ticks : Relates (SameStored desktop) clock) (approval : Option Approval)
        (next : Exec (Os.State os) A) (s : Os.State os)
        → Effect approval next s (claimed_then approval next s).1
    unfolding claimed_then raise
    claimed_then-Effect apart ticks none next s = inl refl
    claimed_then-Effect apart ticks (some a) next s =
        bind-cases clock _ s (Effect (some a) next s) (λ e _. inl (ticks.at s))
          λ now _.
            bind-cases (claim_approval py os a now) _ (clock s).1 (Effect (some a) next s)
              (λ e _. inl (
                (claim_approval-Keeps py (SameStored-IsPreorder desktop) apart a now).at (clock s).1
                ∙ ticks.at s))
              (λ u h. inr (a, now, (clock s).1, refl, ticks.at s, h, refl))
