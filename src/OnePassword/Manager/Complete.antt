-- ===== src/OnePassword/Manager/Complete.antt =====
-- What a successful `apply` leaves behind.
use ansible_collection_found.Base.{
  String, Bool, true, false, not, Option, none, some, List, [], ◌∷◌, ◌≡◌, refl, sym, ap, ◌∙◌, arith,
  subst, contains, All, select, ◌==◌, eq_iff,
}
use ansible_collection_found.Base.Result.{ok, ok_same, never, >>=-ok, refuse-ok}
use ansible_collection_found.Base.Exec.{Exec, pure, raise, lift, ◌>>=◌, bind-elim}
use ansible_collection_found.Base.Value.{Value, Fields, get, str, is_str, as_list}
use ansible_collection_found.Stdlib.{Stdlib}
use ansible_collection_found.Approval.Os.{Os}
use ansible_collection_found.Approval.Normalize.{Trusted}
use ansible_collection_found.Approval.Claim.{Approval, Moment}
use ansible_collection_found.OnePassword.Arguments.{Operation, apply, is_plan, parse_operation}
use ansible_collection_found.OnePassword.Client.{Desktop, Client, run_metadata}
use ansible_collection_found.OnePassword.Claimed.{claimed_then}
use ansible_collection_found.OnePassword.Manager.Config.{
  Grant, required_permissions, check_arguments, normalize_arguments,
}
use ansible_collection_found.OnePassword.Manager.Inspect.{
  Observed, missing_of, row_uuid, row_email, row_permissions, matching, check_member, membership,
  inspect,
}
use ansible_collection_found.OnePassword.Manager.{
  Report, result, some_missing, grant, apply_grant, run_store, vault_co_manager,
}

-- A row of the target user: the pinned identity and address, and an active state.
abbrev pub IsTarget : {S : Type 0} → Desktop S → Grant → Fields → Type 0
IsTarget desktop config row =
    (row_uuid row "vault user" ≡ ok config.user_uuid)
    × (row_email desktop row "vault user" ≡ ok config.user_email)
    × (is_str "ACTIVE" (get row "state") ≡ true)

-- The permissions are those of the one row of the target user in the client's listing of the vault's users.
abbrev pub InVault : {S : Type 0} → Desktop S → Trusted S → Grant → List String → Type 0
InVault {S} desktop trusted config permissions =
    (client : Client) × (s : S) × (listing : Value) × (rows : List Value) × (row : Fields)
    × ((run_metadata desktop trusted client
          ("vault" ∷ "user" ∷ "list" ∷ config.pins.vault_id ∷ "--account" ∷ config.pins.account_id
            ∷ "--format" ∷ "json" ∷ [])
          "vault user access inspection" s).0
        ≡ ok listing)
    × (as_list (some listing) "1Password returned invalid vault-user access metadata." ≡ ok rows)
    × (matching config.user_uuid rows ≡ row ∷ [])
    × IsTarget desktop config row
    × (row_permissions row ≡ ok permissions)

abbrev pub IsComplete : {S : Type 0} → Desktop S → Trusted S → Grant → Observed → Type 0
IsComplete desktop trusted config observed =
    (observed.exists ≡ true)
    × InVault desktop trusted config observed.observed_permissions
    × All (λ p. contains observed.observed_permissions p ≡ true) required_permissions

-- What the inspection reports as missing is missing, and only members have permissions, which are those listed.
abbrev IsFaithful : {S : Type 0} → Desktop S → Trusted S → Grant → Observed → Type 0
IsFaithful desktop trusted config observed =
    (observed.missing_permissions ≡ missing_of observed.observed_permissions)
    × (observed.exists ≡ false → observed.observed_permissions ≡ [])
    × (observed.exists ≡ true → InVault desktop trusted config observed.observed_permissions)

select-none :
    (observed wanted : List String)
    → some_missing (select (λ permission. not (contains observed permission)) wanted) ≡ false
    → All (λ p. contains observed p ≡ true) wanted
select-none observed [] h = tt
select-none observed (p ∷ ps) h = (ground arith, select-none observed ps (ground arith))

IsComplete-of_none :
    {S : Type 0} (desktop : Desktop S) (trusted : Trusted S) (config : Grant) (observed : Observed)
    → IsFaithful desktop trusted config observed
    → some_missing observed.missing_permissions ≡ false
    → IsComplete desktop trusted config observed
unfolding missing_of
IsComplete-of_none desktop trusted config observed (faithful, members, listed) none_missing =
    let present : All (λ p. contains observed.observed_permissions p ≡ true) required_permissions =
      select-none observed.observed_permissions required_permissions
        (ap some_missing (sym faithful) ∙ none_missing) in
    let there = member observed.exists observed.observed_permissions members present in
    (there, listed there, present)
  where
    member :
        (exists : Bool) (permissions : List String)
        → (exists ≡ false → permissions ≡ [])
        → All (λ p. contains permissions p ≡ true) required_permissions
        → exists ≡ true
    member true permissions h k = refl
    member false [] h k = absurd (cc (k.0))
    member false (x ∷ xs) h k = absurd (cc (h refl))

check_member-IsTarget :
    {S : Type 0} (desktop : Desktop S) (config : Grant) (row : Fields) (permissions : List String)
    → check_member desktop config row ≡ ok permissions
    → IsTarget desktop config row × (row_permissions row ≡ ok permissions)
unfolding check_member
check_member-IsTarget desktop config row permissions h =
    let (uuid, is_uuid, h1) = >>=-ok (row_uuid row "vault user") _ h in
    let (same_uuid, h2) = refuse-ok (not (uuid == config.user_uuid)) _ _ h1 in
    let (email, is_email, h3) = >>=-ok (row_email desktop row "vault user") _ h2 in
    let (same_email, h4) = refuse-ok (not (email == config.user_email)) _ _ h3 in
    let (active, h5) = refuse-ok (not (is_str "ACTIVE" (get row "state"))) _ _ h4 in
    (
      (
        is_uuid ∙ ap ok ((eq_iff uuid config.user_uuid).0 (not_false _ same_uuid)),
        is_email ∙ ap ok ((eq_iff email config.user_email).0 (not_false _ same_email)),
        not_false _ active,
      ),
      h5,
    )
  where
    not_false : (b : Bool) → not b ≡ false → b ≡ true
    not_false true e = refl
    not_false false e = absurd (cc (e))

-- A member is the one row that matches, and is the target user's.
abbrev Member : {S : Type 0} → Desktop S → Grant → List Fields → List String → Type 0
Member desktop config rows permissions =
    (row : Fields) × (rows ≡ row ∷ [])
    × IsTarget desktop config row
    × (row_permissions row ≡ ok permissions)

membership-Member :
    {S : Type 0} (desktop : Desktop S) (config : Grant) (rows : List Fields)
    (found : Bool × List String)
    → membership desktop config rows ≡ ok found
    → (found.0 ≡ false → found.1 ≡ []) × (found.0 ≡ true → Member desktop config rows found.1)
unfolding membership
membership-Member desktop config [] found h =
    let same : (false, []) ≡ found = ok_same h in rw (← same) ((λ _. refl), λ k. absurd (cc (k)))
membership-Member desktop config (row ∷ []) found h =
    let (permissions, checked, h1) =
      >>=-ok (check_member desktop config row) (λ ps. ok (true, ps)) h in
    let same : (true, permissions) ≡ found = ok_same h1 in
    rw (← same) (
      (λ k. absurd (cc (k))),
      λ _.
          let (target, read) = check_member-IsTarget desktop config row permissions checked in
          (row, refl, target, read),
    )
membership-Member desktop config (_ ∷ _ ∷ _) found h = never h

-- The report of a run that had nothing to grant, or that granted it.
abbrev Completes : {S : Type 0} → Desktop S → Trusted S → Grant → Exec S Report → Type 0
Completes {S} desktop trusted config m =
    (s : S) (r : Report) → (m s).0 ≡ ok r → IsComplete desktop trusted config r.observed

module _ {S : Type 0} (desktop : Desktop S) (trusted : Trusted S) where
  inspect-IsFaithful :
      (client : Client) (config : Grant) (observed : Observed) (s : S)
      → (inspect desktop trusted client config s).0 ≡ ok observed
      → IsFaithful desktop trusted config observed
  unfolding inspect lift pure
  inspect-IsFaithful client config observed s h = bind-elim _ _ s h λ _ _ h1.
      bind-elim _ _ _ h1 λ _ _ h2. bind-elim _ _ _ h2 λ _ _ h3. bind-elim _ _ _ h3 λ _ _ h4.
        bind-elim _ _ _ h4 λ _ _ h5. bind-elim _ _ _ h5 λ _ _ h6.
          bind-elim _ _ _ h6 λ listing shown h7. bind-elim _ _ _ h7 λ rows are_rows h8.
            bind-elim _ _ _ h8 λ member found h9.
              let (absent, there) = membership-Member desktop config _ member found in
              rw (← ok_same h9) (
                refl,
                absent,
                λ k.
                    let (row, one, target, permissions) = there k in
                    (client, _, listing, rows, row, shown, are_rows, one, target, permissions),
              )

  settled :
      (client : Client) (config : Grant) (approval : Option Approval) (changed : Bool)
      (other : Observed → Exec S Report)
      → ((observed : Observed) → Completes desktop trusted config (other observed))
      → Completes desktop trusted config (
          inspect desktop trusted client config >>= λ observed.
          elim (some_missing observed.missing_permissions) [
            | true ↦ other observed
            | false ↦ pure (result approval observed changed false)
          ])
  unfolding pure result
  settled client config approval changed other completes s r h =
      bind-elim _ _ s h λ observed seen h1.
        go observed (some_missing observed.missing_permissions) refl
          (inspect-IsFaithful client config observed s seen) _ h1
    where
      go :
          (observed : Observed) (missing : Bool)
          → some_missing observed.missing_permissions ≡ missing
          → IsFaithful desktop trusted config observed
          → (u : S)
          → ((elim missing as (λ _. Exec S Report) [
            | true ↦ other observed
            | false ↦ pure (result approval observed changed false)
          ])
              u).0
            ≡ ok r
          → IsComplete desktop trusted config r.observed
      go observed true e faithful u h2 = completes observed u r h2
      go observed false e faithful u h2 =
          rw (← ok_same h2) (IsComplete-of_none desktop trusted config observed faithful e)

module _ (py : Stdlib) (os : Os) (desktop : Desktop (Os.State os)) (trusted : Trusted (Os.State os))
    (clock : Exec (Os.State os) Moment) where
  grant-Completes :
      (client : Client) (config : Grant) (approval : Option Approval)
      → Completes desktop trusted config (grant py os desktop trusted clock client config approval)
  unfolding grant raise
  grant-Completes client config approval s r h = bind-elim _ _ s h λ _ _ h1.
      settled desktop trusted client config approval true (λ _. raise _) (λ _ u r1 h2. never h2) _ r
        h1

  claimed_then-Completes :
      (config : Grant) (approval : Option Approval) (next : Exec (Os.State os) Report)
      → Completes desktop trusted config next
      → Completes desktop trusted config (claimed_then py os clock approval next)
  unfolding claimed_then raise
  claimed_then-Completes config none next completes s r h = never h
  claimed_then-Completes config (some a) next completes s r h =
      bind-elim _ _ s h λ _ _ h1. bind-elim _ _ _ h1 λ _ _ h2. completes _ r h2

  apply_grant-Completes :
      (client : Client) (config : Grant) (approval : Option Approval)
      → Completes desktop trusted config
          (apply_grant py os desktop trusted clock client config approval)
  unfolding apply_grant
  apply_grant-Completes client config approval =
      settled desktop trusted client config approval false _
        (λ _. claimed_then-Completes config approval _ (grant-Completes client config approval))

  run_store-Completes :
      (client : Client) (config : Grant) (approval : Option Approval)
      → is_plan config.operation ≡ false
      → Completes desktop trusted config
          (run_store py os desktop trusted clock client config approval false)
  unfolding run_store
  run_store-Completes client config approval applies = rw applies (
      settled desktop trusted client config approval false _
        (λ _. apply_grant-Completes client config approval))

  check_arguments-operation :
      (args : Fields) (config : Grant) (s : Os.State os)
      → (check_arguments desktop args s).0 ≡ ok config
      → parse_operation (get args "operation") ≡ ok config.operation
  unfolding check_arguments lift pure
  check_arguments-operation args config s h = bind-elim _ _ s h λ _ _ h1.
      bind-elim _ _ _ h1 λ operation parsed h2. bind-elim _ _ _ h2 λ _ _ h3.
        bind-elim _ _ _ h3 λ _ _ h4. bind-elim _ _ _ h4 λ _ _ h5. bind-elim _ _ _ h5 λ _ _ h6.
          bind-elim _ _ _ h6 λ _ _ h7. bind-elim _ _ _ h7 λ _ _ h8. bind-elim _ _ _ h8 λ _ _ h9.
            bind-elim _ _ _ h9 λ _ _ h10. bind-elim _ _ _ h10 λ _ _ h11.
              bind-elim _ _ _ h11
                λ _ _ h12. bind-elim _ _ _ h12 λ _ _ h13. rw (← ok_same h13) parsed

  parse_operation-apply :
      (args : Fields) (operation : Operation)
      → get args "operation" ≡ some (str "apply")
      → parse_operation (get args "operation") ≡ ok operation
      → is_plan operation ≡ false
  unfolding parse_operation
  parse_operation-apply args operation e h =
      let same : apply ≡ operation = ok_same (subst (λ v. parse_operation v ≡ ok operation) e h) in
      ap is_plan (sym same)

  -- When `apply` returns outside check mode, the client listed the target user of the arguments exactly once among
  -- the users of their vault, active, under the pinned identity and address, and with every required permission,
  -- whether the run had to grant them or not.
  pub vault_co_manager-IsComplete :
      (args : Fields) (s : Os.State os) (r : Report)
      → get args "operation" ≡ some (str "apply")
      → (vault_co_manager py os desktop trusted clock args false s).0 ≡ ok r
      → (config : Grant) × (approval : Option Approval) × ((normalize_arguments desktop py trusted
            clock args s).0
          ≡ ok (config, approval))
        × IsComplete desktop trusted config r.observed
  unfolding vault_co_manager normalize_arguments pure
  vault_co_manager-IsComplete args s r applies h = bind-elim _ _ s h λ found accepted h1.
      bind-elim _ _ _ h1 λ client _ h2. bind-elim _ _ s accepted λ config checked h3.
        bind-elim _ _ _ h3 λ approval _ h4.
          let same : config ≡ found.0 = ap (λ (f : Grant × Option Approval). f.0) (ok_same h4) in
          (
            found.0,
            found.1,
            accepted,
            run_store-Completes client found.0 found.1
                (subst (λ (c : Grant). is_plan c.operation ≡ false) same
                  (parse_operation-apply args config.operation applies
                    (check_arguments-operation args config s checked)))
                _ r h2,
          )
