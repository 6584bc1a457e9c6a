-- ===== src/OnePassword/Manager/Approved.antt =====
-- The co-manager changes the account only under an approval that it has claimed.
use ansible_collection_found.Base.{Bool, false, ◌||◌, Option, ◌≡◌, refl, ◌∙◌, ◌⊎◌, inl, inr}
use ansible_collection_found.Base.Result.{ok}
use ansible_collection_found.Base.Exec.{
  Exec, pure, Relates, IsPreorder, Relates-pure, Relates-lift, Relates-bind, bind-cases, elim-cases,
}
use ansible_collection_found.Base.Value.{Fields}
use ansible_collection_found.Stdlib.{Stdlib}
use ansible_collection_found.Approval.Os.{Os}
use ansible_collection_found.Approval.Normalize.{Trusted}
use ansible_collection_found.Approval.Claim.{Approval, Moment}
use ansible_collection_found.Approval.Claim.Apart.{Apart}
use ansible_collection_found.Approval.Validate.Keeps.{Keeps, normalize_approval-Keeps}
use ansible_collection_found.OnePassword.Arguments.{Operation, plan, apply, is_plan}
use ansible_collection_found.OnePassword.Client.{Desktop, Client, onepassword_cli}
use ansible_collection_found.OnePassword.Quiet.{
  SameStored, SameStored-IsPreorder, IsQuiet, onepassword_cli-Same, run_metadata-Same,
  check_version-Same, check_operator-Same, check_vault-Same,
}
use ansible_collection_found.OnePassword.Claimed.{
  ChangedBy, Effect, ChangedBy-after, Effect-after, claimed_then-Effect,
}
use ansible_collection_found.OnePassword.Manager.Config.{
  Grant, check_arguments, approval_of, normalize_arguments,
}
use ansible_collection_found.OnePassword.Manager.Inspect.{inspect}
use ansible_collection_found.OnePassword.Manager.{
  some_missing, grant, apply_grant, run_store, vault_co_manager,
}

module _ (py : Stdlib) {os : Os} {desktop : Desktop (Os.State os)} {trusted : Trusted (Os.State os)}
    {clock : Exec (Os.State os) Moment} (quiet : IsQuiet desktop)
    (keeps : Keeps trusted (SameStored desktop)) (apart : Apart os (SameStored desktop))
    (ticks : Relates (SameStored desktop) clock) where
  order : IsPreorder (SameStored desktop)
  order = SameStored-IsPreorder desktop

  ruleset blocks = (Relates-pure, Relates-lift, Relates-bind)

  inspect-Same :
      (client : Client) (config : Grant)
      → Relates (SameStored desktop) (inspect desktop trusted client config)
  unfolding inspect
  inspect-Same client config = Relates-bind order _ _ (check_version-Same quiet keeps client _) λ _.
      Relates-bind order _ _ (check_operator-Same quiet keeps client _) λ _.
        Relates-bind order _ _ (check_vault-Same quiet keeps client _) λ _.
          Relates-bind order _ _ (run_metadata-Same quiet keeps client _ _ refl) λ _.
            Relates-bind order _ _ (Relates-lift order _) λ _.
              Relates-bind order _ _ (Relates-lift order _) λ _.
                Relates-bind order _ _ (run_metadata-Same quiet keeps client _ _ refl)
                  λ _. search (blocks, order) depth 8

  check_arguments-Same :
      (args : Fields) → Relates (SameStored desktop) (check_arguments desktop args)
  unfolding check_arguments
  check_arguments-Same args = search (blocks, order) depth 40

  approval_of-Same :
      (args : Fields) (config : Grant) (operation : Operation)
      → Relates (SameStored desktop) (approval_of desktop py trusted clock args config operation)
  unfolding approval_of
  approval_of-Same args config apply =
      Relates-bind order _ _ (normalize_approval-Keeps py order keeps _ _ _ _ _ clock ticks)
        λ approval. Relates-pure order _
  approval_of-Same args config plan = search (blocks, order) depth 8

  normalize_arguments-Same :
      (args : Fields)
      → Relates (SameStored desktop) (normalize_arguments desktop py trusted clock args)
  unfolding normalize_arguments
  normalize_arguments-Same args = Relates-bind order _ _ (check_arguments-Same args) λ config.
      Relates-bind order _ _ (approval_of-Same args config _) λ approval. Relates-pure order _

  -- The account was granted something: its approval was claimed first, in a state with the same account.
  abbrev pub Granted : Client → Grant → Option Approval → Os.State os → Os.State os → Type 0
  Granted client config approval =
      ChangedBy py os clock desktop approval
        (grant py os desktop trusted clock client config approval)

  abbrev GrantEffect : Client → Grant → Option Approval → Os.State os → Os.State os → Type 0
  GrantEffect client config approval =
      Effect py os clock desktop approval (grant py os desktop trusted clock client config approval)

  apply_grant-Effect :
      (client : Client) (config : Grant) (approval : Option Approval) (s : Os.State os)
      → GrantEffect client config approval s
          (apply_grant py os desktop trusted clock client config approval s).1
  unfolding apply_grant pure
  apply_grant-Effect client config approval s =
      let looked = (inspect-Same client config).at s in
      bind-cases (inspect desktop trusted client config) _ s (GrantEffect client config approval s)
        (λ e _. inl looked)
        λ observed _.
          elim-cases (some_missing observed.missing_permissions) _ _ _
            (GrantEffect client config approval s)
            (λ _.
              Effect-after py os clock desktop approval
                (grant py os desktop trusted clock client config approval) s _ _ looked
                (claimed_then-Effect py os clock desktop apart ticks approval
                  (grant py os desktop trusted clock client config approval) _))
            (λ _. inl looked)

  run_store-Effect :
      (client : Client) (config : Grant) (approval : Option Approval) (check_mode : Bool)
      (s : Os.State os)
      → SameStored desktop s
          (run_store py os desktop trusted clock client config approval check_mode s).1
        ⊎ ((is_plan config.operation || check_mode ≡ false)
            × Granted client config approval s
                (run_store py os desktop trusted clock client config approval check_mode s).1)
  unfolding run_store pure
  run_store-Effect client config approval check_mode s =
      let looked = (inspect-Same client config).at s in
      let P : Os.State os → Type 0 = λ (t : Os.State os).
        SameStored desktop s t
        ⊎ ((is_plan config.operation || check_mode ≡ false) × Granted client config approval s t) in
      bind-cases (inspect desktop trusted client config) _ s P (λ e _. inl looked)
        λ observed _.
          elim-cases (is_plan config.operation || check_mode) _ _ _ P (λ _. inl looked)
            λ applies.
              elim-cases (some_missing observed.missing_permissions) _ _ _ P
                (λ _. with_test applies (
                  Effect-after py os clock desktop approval
                    (grant py os desktop trusted clock client config approval) s _ _ looked
                    (apply_grant-Effect client config approval _)))
                (λ _. inl looked)
    where
      with_test :
          {t : Os.State os}
          → is_plan config.operation || check_mode ≡ false
          → GrantEffect client config approval s t
          → SameStored desktop s t
            ⊎ ((is_plan config.operation || check_mode ≡ false)
                × Granted client config approval s t)
      with_test test (inl same) = inl same
      with_test test (inr granted) = inr (test, granted)

  -- A change under the accepted approval of `apply`, outside check mode.
  abbrev pub ApprovedRun : Fields → Bool → Os.State os → Os.State os → Type 0
  ApprovedRun args check_mode s t =
      SameStored desktop s t
      ⊎ ((client : Client) × (config : Grant) × (approval : Option Approval) × ((normalize_arguments
              desktop py trusted clock args s).0
            ≡ ok (config, approval))
          × (is_plan config.operation || check_mode ≡ false)
          × Granted client config approval s t)

  -- Whether the action returns or raises, the account stores what it stored before, or the arguments are those of
  -- `apply` outside check mode, with an accepted approval, and that approval was claimed, while the account was
  -- still as before, ahead of the grant that the run ended with.
  pub vault_co_manager-Approved :
      (args : Fields) (check_mode : Bool) (s : Os.State os)
      → ApprovedRun args check_mode s
          (vault_co_manager py os desktop trusted clock args check_mode s).1
  unfolding vault_co_manager
  vault_co_manager-Approved args check_mode s =
      bind-cases (normalize_arguments desktop py trusted clock args) _ s
        (ApprovedRun args check_mode s) (λ e _. inl normalized)
        λ found accepted.
          bind-cases
            (onepassword_cli desktop trusted found.0.cli_path found.0.cli_sha256
              found.0.pins.account_id)
            _ _ (ApprovedRun args check_mode s) (λ e _. inl ((connected found.0).at _ ∙ normalized))
            (λ client _.
              ran client found accepted _ _ ((connected found.0).at _ ∙ normalized)
                (run_store-Effect client found.0 found.1 check_mode _))
    where
      normalized : SameStored desktop s (normalize_arguments desktop py trusted clock args s).1
      normalized = (normalize_arguments-Same args).at s

      connected :
          (config : Grant)
          → Relates (SameStored desktop) (
              onepassword_cli desktop trusted config.cli_path config.cli_sha256
                config.pins.account_id)
      connected config = onepassword_cli-Same quiet keeps _ _ _

      ran :
          (client : Client) (found : Grant × Option Approval)
          → (normalize_arguments desktop py trusted clock args s).0 ≡ ok found
          → (u t : Os.State os) → SameStored desktop s u
          → SameStored desktop u t
            ⊎ ((is_plan found.0.operation || check_mode ≡ false)
                × Granted client found.0 found.1 u t)
          → ApprovedRun args check_mode s t
      ran client found accepted u t h (inl same) = inl (same ∙ h)
      ran client found accepted u t h (inr (applies, granted)) = inr (
        client,
        found.0,
        found.1,
        accepted,
        applies,
        ChangedBy-after py os clock desktop found.1
            (grant py os desktop trusted clock client found.0 found.1) s u t h granted,
      )
