-- ===== src/OnePassword/Key/Approved.antt =====
-- The SSH key action changes the account only under an approval that it has claimed.
use ansible_collection_found.Base.{
  ℕ, String, Bool, true, false, ◌&&◌, Option, none, some, ◌≡◌, refl, ◌∙◌, ◌⊎◌, inl, inr,
}
use ansible_collection_found.Base.Result.{ok}
use ansible_collection_found.Base.Exec.{
  Exec, lift, check, Relates, IsPreorder, Relates-pure, Relates-raise, Relates-lift, Relates-bind,
  bind-cases, elim-cases,
}
use ansible_collection_found.Base.Value.{Fields}
use ansible_collection_found.Stdlib.{Stdlib}
use ansible_collection_found.Approval.Os.{Os}
use ansible_collection_found.Approval.Normalize.{Trusted}
use ansible_collection_found.Approval.Claim.{Approval, Moment}
use ansible_collection_found.Approval.Claim.Apart.{Apart}
use ansible_collection_found.Approval.Signers.{Codec}
use ansible_collection_found.Approval.Trust.{Scratch}
use ansible_collection_found.Approval.Validate.Keeps.{Keeps, normalize_approval-Keeps}
use ansible_collection_found.OnePassword.Client.{Desktop, Client, onepassword_cli}
use ansible_collection_found.OnePassword.Quiet.{
  SameStored, SameStored-IsPreorder, IsQuiet, onepassword_cli-Same, run_metadata-Same,
  check_version-Same, check_vault-Same,
}
use ansible_collection_found.OnePassword.Claimed.{
  ChangedBy, ChangedBy-after, Effect-after, Effect, claimed_then-Effect,
}
use ansible_collection_found.OnePassword.Account.{Pins}
use ansible_collection_found.OnePassword.Key.Config.{Key, applies_key}
use ansible_collection_found.OnePassword.Key.Inspect.{
  SeenKey, check_account, inspect_key, public_metadata,
}
use ansible_collection_found.OnePassword.Key.Proof.{Agent}
use ansible_collection_found.OnePassword.Key.Calm.{IsCalm, verify_agent_key-Calm}
use ansible_collection_found.OnePassword.Key.{
  is_there, plans, key_approval, normalize_key, planned_identity, plan_report, prove_if, report_key,
  create_key, run_key, ssh_key_item,
}

module _ (py : Stdlib) (codec : Codec) {os : Os} {desktop : Desktop (Os.State os)}
    (upper : String → String) {trusted : Trusted (Os.State os)} {scratch : Scratch (Os.State os)}
    {agent : Agent (Os.State os)} {clock : Exec (Os.State os) Moment} (quiet : IsQuiet desktop)
    (keeps : Keeps trusted (SameStored desktop)) (calm : IsCalm scratch agent (SameStored desktop))
    (apart : Apart os (SameStored desktop)) (ticks : Relates (SameStored desktop) clock) where
  order : IsPreorder (SameStored desktop)
  order = SameStored-IsPreorder desktop

  ruleset blocks = (Relates-pure, Relates-lift, Relates-bind)

  check_account-Same :
      (client : Client) (pins : Pins)
      → Relates (SameStored desktop) (check_account py codec desktop upper trusted client pins)
  unfolding check_account
  check_account-Same client pins =
      Relates-bind order _ _ (run_metadata-Same quiet keeps client _ _ refl)
        λ _. search (blocks, order) depth 16

  inspect_key-Same :
      (client : Client) (config : Key) (allowed : Bool)
      → Relates
          (SameStored desktop)
          (inspect_key py codec desktop upper trusted client config allowed)
  unfolding inspect_key
  inspect_key-Same client config allowed =
      Relates-bind order _ _ (check_version-Same quiet keeps client _) λ _.
        Relates-bind order _ _ (check_account-Same client _) λ _.
          Relates-bind order _ _ (check_vault-Same quiet keeps client _) λ _.
            Relates-bind order _ _ (run_metadata-Same quiet keeps client _ _ refl)
              λ _. search (blocks, order) depth 8

  public_metadata-Same :
      (client : Client) (config : Key) (found : String × ℕ)
      → Relates
          (SameStored desktop)
          (public_metadata py codec desktop upper trusted client config found)
  unfolding public_metadata
  public_metadata-Same client config found =
      Relates-bind order _ _ (run_metadata-Same quiet keeps client _ _ refl) λ _.
        Relates-bind order _ _ (Relates-lift order _) λ _.
          Relates-bind order _ _ (Relates-lift order _) λ _.
            Relates-bind order _ _ (run_metadata-Same quiet keeps client _ _ refl)
              λ _. search (blocks, order) depth 12

  planned_identity-Same :
      (client : Client) (config : Key) (found : Option (String × ℕ))
      → Relates (SameStored desktop) (
          planned_identity py codec os desktop upper trusted scratch agent clock client config
            found)
  unfolding planned_identity
  planned_identity-Same client config none = Relates-pure order _
  planned_identity-Same client config (some found) =
      Relates-bind order _ _ (public_metadata-Same client config found) λ _. Relates-pure order _

  plan_report-Same :
      (client : Client) (config : Key) (approval : Option Approval) (seen : SeenKey)
      → Relates (SameStored desktop) (
          plan_report py codec os desktop upper trusted scratch agent clock client config approval
            seen)
  unfolding plan_report
  plan_report-Same client config approval seen =
      Relates-bind order _ _ (planned_identity-Same client config seen.found)
        λ _. Relates-pure order _

  prove_if-Same :
      (needed : Bool) (config : Key) (identity : String × String)
      → Relates
          (SameStored desktop)
          (prove_if py codec os desktop upper trusted scratch agent clock needed config identity)
  unfolding prove_if
  prove_if-Same false config identity = Relates-pure order _
  prove_if-Same true config identity =
      Relates-bind order _ _ (verify_agent_key-Calm py codec order keeps calm config.tools identity)
        λ _. Relates-pure order _

  report_key-Same :
      (client : Client) (config : Key) (approval : Option Approval) (created : Bool)
      (seen : SeenKey) (found : Option (String × ℕ))
      → Relates (SameStored desktop) (
          report_key py codec os desktop upper trusted scratch agent clock client config approval
            created seen found)
  unfolding report_key
  report_key-Same client config approval created seen none = Relates-raise order _
  report_key-Same client config approval created seen (some found) =
      Relates-bind order _ _ (public_metadata-Same client config found) λ identity.
        Relates-bind order _ _ (prove_if-Same _ config identity) λ _. Relates-pure order _

  key_approval-Same :
      (args : Fields) (config : Key) (needed : Bool)
      → Relates
          (SameStored desktop)
          (key_approval py codec os desktop upper trusted scratch agent clock args config needed)
  unfolding key_approval
  key_approval-Same args config true =
      Relates-bind order _ _ (normalize_approval-Keeps py order keeps _ _ _ _ _ clock ticks)
        λ approval. Relates-pure order _
  key_approval-Same args config false = search (blocks, order) depth 8

  normalize_key-Same :
      (args : Fields)
      → Relates
          (SameStored desktop)
          (normalize_key py codec os desktop upper trusted scratch agent clock args)
  unfolding normalize_key
  normalize_key-Same args = Relates-bind order _ _ (Relates-lift order _) λ config.
      Relates-bind order _ _ (key_approval-Same args config _) λ approval. Relates-pure order _

  -- The item was created: its approval was claimed first, in a state with the same account.
  abbrev pub CreatedBy : Client → Key → Option Approval → Os.State os → Os.State os → Type 0
  CreatedBy client config approval =
      ChangedBy py os clock desktop approval
        (create_key py codec os desktop upper trusted scratch agent clock client config approval)

  -- What a run does to the account.
  abbrev pub Leaves : Client → Key → Option Approval → Bool → Os.State os → Os.State os → Type 0
  Leaves client config approval check_mode s t =
      SameStored desktop s t
      ⊎ ((plans config.operation check_mode ≡ false) × CreatedBy client config approval s t)

  run_key-Effect :
      (client : Client) (config : Key) (approval : Option Approval) (check_mode : Bool)
      (s : Os.State os)
      → Leaves client config approval check_mode s
          (run_key py codec os desktop upper trusted scratch agent clock client config approval
            check_mode s).1
  unfolding run_key lift
  run_key-Effect client config approval check_mode s =
      let looked = (inspect_key-Same client config false).at s in
      let P : Os.State os → Type 0 = Leaves client config approval check_mode s in
      bind-cases (inspect_key py codec desktop upper trusted client config false) _ s P
        (λ e _. inl looked)
        λ seen _.
          bind-cases (check (applies_key config.operation && is_there seen) _) _ _ P
            (λ e _. inl looked)
            λ _ _.
              elim-cases (plans config.operation check_mode) _ _ _ P
                (λ _. inl ((plan_report-Same client config approval seen).at _ ∙ looked))
                λ runs.
                  elim-cases (applies_key config.operation) _ _ _ P
                    (λ _. with_test runs (
                      Effect-after py os clock desktop approval
                        (create_key py codec os desktop upper trusted scratch agent clock client
                          config approval)
                        s _ _ looked
                        (claimed_then-Effect py os clock desktop apart ticks approval
                          (create_key py codec os desktop upper trusted scratch agent clock client
                            config approval)
                          _)))
                    (λ _. inl (
                      (report_key-Same client config approval false seen seen.found).at _ ∙ looked))
    where
      with_test :
          {t : Os.State os}
          → plans config.operation check_mode ≡ false
          → Effect py os clock desktop approval
              (create_key py codec os desktop upper trusted scratch agent clock client config
                approval)
              s
              t
          → Leaves client config approval check_mode s t
      with_test test (inl same) = inl same
      with_test test (inr created) = inr (test, created)

  -- A creation under the accepted approval of `apply`, outside check mode, or no change.
  abbrev pub ApprovedRun : Fields → Bool → Os.State os → Os.State os → Type 0
  ApprovedRun args check_mode s t =
      SameStored desktop s t
      ⊎ ((client : Client) × (config : Key) × (approval : Option Approval) × ((normalize_key py
              codec os desktop upper trusted scratch agent clock args s).0
            ≡ ok (config, approval))
          × (plans config.operation check_mode ≡ false)
          × CreatedBy client config approval s t)

  -- Whether the action returns or raises, the account stores what it stored before, or the arguments ask for more
  -- than a plan, with an accepted approval, and that approval was claimed, while the account was still as before,
  -- ahead of the creation that the run ended with.
  pub ssh_key_item-Approved :
      (args : Fields) (check_mode : Bool) (s : Os.State os)
      → ApprovedRun args check_mode s
          (ssh_key_item py codec os desktop upper trusted scratch agent clock args check_mode s).1
  unfolding ssh_key_item
  ssh_key_item-Approved args check_mode s =
      bind-cases (normalize_key py codec os desktop upper trusted scratch agent clock args) _ s
        (ApprovedRun args check_mode s) (λ e _. inl normalized)
        λ found accepted.
          bind-cases
            (onepassword_cli desktop trusted found.0.cli_path found.0.cli_sha256
              found.0.pins.account_id)
            _ _ (ApprovedRun args check_mode s) (λ e _. inl ((connected found.0).at _ ∙ normalized))
            (λ client _.
              ran client found accepted _ _ ((connected found.0).at _ ∙ normalized)
                (run_key-Effect client found.0 found.1 check_mode _))
    where
      normalized :
          SameStored desktop s
            (normalize_key py codec os desktop upper trusted scratch agent clock args s).1
      normalized = (normalize_key-Same args).at s

      connected :
          (config : Key)
          → Relates (SameStored desktop) (
              onepassword_cli desktop trusted config.cli_path config.cli_sha256
                config.pins.account_id)
      connected config = onepassword_cli-Same quiet keeps _ _ _

      ran :
          (client : Client) (found : Key × Option Approval)
          → (normalize_key py codec os desktop upper trusted scratch agent clock args s).0
            ≡ ok found
          → (u t : Os.State os) → SameStored desktop s u
          → Leaves client found.0 found.1 check_mode u t
          → ApprovedRun args check_mode s t
      ran client found accepted u t h (inl same) = inl (same ∙ h)
      ran client found accepted u t h (inr (runs, created)) = inr (
        client,
        found.0,
        found.1,
        accepted,
        runs,
        ChangedBy-after py os clock desktop found.1
            (create_key py codec os desktop upper trusted scratch agent clock client found.0
              found.1)
            s u t h created,
      )
