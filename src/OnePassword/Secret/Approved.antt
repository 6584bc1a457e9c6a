-- ===== src/OnePassword/Secret/Approved.antt =====
-- The secret item action changes the account only under an approval that it has claimed.
use ansible_collection_found.Base.{
  ℕ, String, Bool, true, false, not, ◌&&◌, ◌||◌, Option, none, some, ◌≡◌, refl, ◌∙◌, ◌⊎◌, inl, inr,
}
use ansible_collection_found.Base.Result.{ok}
use ansible_collection_found.Base.Exec.{
  Exec, pure, lift, check, Relates, IsPreorder, Relates-pure, Relates-lift, Relates-bind,
  bind-cases, elim-cases,
}
use ansible_collection_found.Base.Value.{Fields}
use ansible_collection_found.Stdlib.{Stdlib}
use ansible_collection_found.Approval.Os.{Os}
use ansible_collection_found.Approval.Normalize.{Trusted}
use ansible_collection_found.Approval.Claim.{Approval, Moment}
use ansible_collection_found.Approval.Claim.Apart.{Apart}
use ansible_collection_found.Approval.Validate.Keeps.{Keeps, normalize_approval-Keeps}
use ansible_collection_found.OnePassword.Arguments.{Operation, plan, apply, is_plan}
use ansible_collection_found.OnePassword.Client.{Desktop, Client, onepassword_cli}
use ansible_collection_found.OnePassword.Quiet.{
  SameStored, SameStored-IsPreorder, IsQuiet, is_read, onepassword_cli-Same, run_metadata-Same,
  check_version-Same, check_operator-Same, check_vault-Same,
}
use ansible_collection_found.OnePassword.Claimed.{
  ChangedBy, Effect, ChangedBy-after, Effect-after, claimed_then-Effect,
}
use ansible_collection_found.OnePassword.Secret.Config.{Item}
use ansible_collection_found.OnePassword.Secret.Authorized.{secret_approval, normalize_secret}
use ansible_collection_found.OnePassword.Secret.Inspect.{
  fields_arguments, assert_current_version, check_contract, inspect_item,
}
use ansible_collection_found.OnePassword.Secret.{exists, create_item, run_item, secret_item}

module _ (py : Stdlib) {os : Os} {desktop : Desktop (Os.State os)} {trusted : Trusted (Os.State os)}
    {clock : Exec (Os.State os) Moment} (quiet : IsQuiet desktop)
    (keeps : Keeps trusted (SameStored desktop)) (apart : Apart os (SameStored desktop))
    (ticks : Relates (SameStored desktop) clock) where
  order : IsPreorder (SameStored desktop)
  order = SameStored-IsPreorder desktop

  ruleset blocks = (Relates-pure, Relates-lift, Relates-bind)

  check_contract-Same :
      (client : Client) (config : Item) (found : Option (String × ℕ))
      → Relates (SameStored desktop) (check_contract desktop py trusted client config found)
  unfolding check_contract assert_current_version
  check_contract-Same client config none = Relates-pure order _
  check_contract-Same client config (some found) =
      Relates-bind order _ _ (run_metadata-Same quiet keeps client _ _ (ordinary found.0)) λ _.
        Relates-bind order _ _ (Relates-lift order _) λ _.
          Relates-bind order _ _ (Relates-lift order _) λ _.
            Relates-bind order _ _ (run_metadata-Same quiet keeps client _ _ refl)
              λ _. search (blocks, order) depth 8
    where
      ordinary : (id : String) → is_read (fields_arguments config id) ≡ true
      ordinary id = refl

  inspect-Same :
      (client : Client) (config : Item)
      → Relates (SameStored desktop) (inspect_item desktop py trusted client config)
  unfolding inspect_item
  inspect-Same client config = Relates-bind order _ _ (check_version-Same quiet keeps client _) λ _.
      Relates-bind order _ _ (check_operator-Same quiet keeps client _) λ _.
        Relates-bind order _ _ (check_vault-Same quiet keeps client _) λ _.
          Relates-bind order _ _ (run_metadata-Same quiet keeps client _ _ refl) λ _.
            Relates-bind order _ _ (Relates-lift order _) λ _.
              Relates-bind order _ _ (Relates-lift order _) λ _.
                Relates-bind order _ _ (check_contract-Same client config _)
                  λ _. Relates-pure order _

  secret_approval-Same :
      (args : Fields) (config : Item) (operation : Operation)
      → Relates
          (SameStored desktop)
          (secret_approval py desktop trusted clock args config operation)
  unfolding secret_approval
  secret_approval-Same args config apply =
      Relates-bind order _ _ (normalize_approval-Keeps py order keeps _ _ _ _ _ clock ticks)
        λ approval. Relates-pure order _
  secret_approval-Same args config plan = search (blocks, order) depth 8

  normalize_secret-Same :
      (args : Fields)
      → Relates (SameStored desktop) (normalize_secret py desktop trusted clock args)
  unfolding normalize_secret
  normalize_secret-Same args = Relates-bind order _ _ (Relates-lift order _) λ config.
      Relates-bind order _ _ (secret_approval-Same args config _) λ approval. Relates-pure order _

  -- The item was created: its approval was claimed first, in a state with the same account.
  abbrev pub CreatedBy : Client → Item → Option Approval → Os.State os → Os.State os → Type 0
  CreatedBy client config approval =
      ChangedBy py os clock desktop approval
        (create_item py os desktop trusted clock client config approval)

  run_item-Effect :
      (client : Client) (config : Item) (approval : Option Approval) (check_mode : Bool)
      (s : Os.State os)
      → SameStored desktop s
          (run_item py os desktop trusted clock client config approval check_mode s).1
        ⊎ ((is_plan config.operation || check_mode ≡ false)
            × CreatedBy client config approval s
                (run_item py os desktop trusted clock client config approval check_mode s).1)
  unfolding run_item pure lift
  run_item-Effect client config approval check_mode s =
      let looked = (inspect-Same client config).at s in
      let P : Os.State os → Type 0 = λ (t : Os.State os).
        SameStored desktop s t
        ⊎ ((is_plan config.operation || check_mode ≡ false)
            × CreatedBy client config approval s t) in
      bind-cases (inspect_item desktop py trusted client config) _ s P (λ e _. inl looked)
        λ seen _.
          bind-cases (check (not (is_plan config.operation) && exists seen) _) _ _ P
            (λ e _. inl looked)
            λ _ _.
              elim-cases (is_plan config.operation || check_mode) _ _ _ P (λ _. inl looked)
                λ applies. with_test applies (
                  Effect-after py os clock desktop approval
                    (create_item py os desktop trusted clock client config approval) s _ _ looked
                    (claimed_then-Effect py os clock desktop apart ticks approval
                      (create_item py os desktop trusted clock client config approval) _))
    where
      with_test :
          {t : Os.State os}
          → is_plan config.operation || check_mode ≡ false
          → Effect py os clock desktop approval
              (create_item py os desktop trusted clock client config approval)
              s
              t
          → SameStored desktop s t
            ⊎ ((is_plan config.operation || check_mode ≡ false)
                × CreatedBy client config approval s t)
      with_test test (inl same) = inl same
      with_test test (inr created) = inr (test, created)

  -- A change under the accepted approval of `apply`, outside check mode.
  abbrev pub ApprovedRun : Fields → Bool → Os.State os → Os.State os → Type 0
  ApprovedRun args check_mode s t =
      SameStored desktop s t
      ⊎ ((client : Client) × (config : Item) × (approval : Option Approval) × ((normalize_secret py
              desktop trusted clock args s).0
            ≡ ok (config, approval))
          × (is_plan config.operation || check_mode ≡ false)
          × CreatedBy client config approval s t)

  -- Whether the action returns or raises, the account stores what it stored before, or the arguments are those of
  -- `apply` outside check mode, with an accepted approval, and that approval was claimed, while the account was
  -- still as before, ahead of the creation that the run ended with.
  pub secret_item-Approved :
      (args : Fields) (check_mode : Bool) (s : Os.State os)
      → ApprovedRun args check_mode s (secret_item py os desktop trusted clock args check_mode s).1
  unfolding secret_item
  secret_item-Approved args check_mode s =
      bind-cases (normalize_secret py desktop trusted clock args) _ s
        (ApprovedRun args check_mode s) (λ e _. inl normalized)
        λ found accepted.
          bind-cases
            (onepassword_cli desktop trusted found.0.cli_path found.0.cli_sha256
              found.0.pins.account_id)
            _ _ (ApprovedRun args check_mode s) (λ e _. inl ((connected found.0).at _ ∙ normalized))
            (λ client _.
              ran client found accepted _ _ ((connected found.0).at _ ∙ normalized)
                (run_item-Effect client found.0 found.1 check_mode _))
    where
      normalized : SameStored desktop s (normalize_secret py desktop trusted clock args s).1
      normalized = (normalize_secret-Same args).at s

      connected :
          (config : Item)
          → Relates (SameStored desktop) (
              onepassword_cli desktop trusted config.cli_path config.cli_sha256
                config.pins.account_id)
      connected config = onepassword_cli-Same quiet keeps _ _ _

      ran :
          (client : Client) (found : Item × Option Approval)
          → (normalize_secret py desktop trusted clock args s).0 ≡ ok found
          → (u t : Os.State os) → SameStored desktop s u
          → SameStored desktop u t
            ⊎ ((is_plan found.0.operation || check_mode ≡ false)
                × CreatedBy client found.0 found.1 u t)
          → ApprovedRun args check_mode s t
      ran client found accepted u t h (inl same) = inl (same ∙ h)
      ran client found accepted u t h (inr (applies, created)) = inr (
        client,
        found.0,
        found.1,
        accepted,
        applies,
        ChangedBy-after py os clock desktop found.1
            (create_item py os desktop trusted clock client found.0 found.1) s u t h created,
      )
