-- ===== src/OnePassword/Secret/Exact.antt =====
-- What an item is that the action reports.
use ansible_collection_found.Base.{
  ℕ, String, Bool, true, false, not, ◌&&◌, ◌||◌, ◌==◌, Option, none, some, List, [], ◌∷◌, ◌≡◌, refl,
  sym, ap, ◌∙◌, arith, subst, eq_iff, nat_eq, is_empty_text, Bytes, if◌then◌else◌,
}
use ansible_collection_found.Base.Result.{
  ok, err, refuse, refuse_unless, ok_same, never, >>=-ok, refuse-ok, ◌>>◌,
}
use ansible_collection_found.Base.Exec.{Exec, pure, raise, lift, bind-elim, bind-run}
use ansible_collection_found.Base.Value.{
  Value, Fields, get, str, list, nil, as_nat, as_str, ℤ, pos, int_eq,
}
use ansible_collection_found.Stdlib.{Stdlib}
use ansible_collection_found.Approval.Os.{Os}
use ansible_collection_found.Approval.Normalize.{Trusted}
use ansible_collection_found.Approval.Claim.{Approval, Moment}
use ansible_collection_found.Document.Config.{is_object_id}
use ansible_collection_found.OnePassword.Arguments.{exact, get_or, is_plan}
use ansible_collection_found.OnePassword.Client.{
  Desktop, Client, Ran, not_run, exited, output_of, run_cli, run_discard, finish,
}
use ansible_collection_found.OnePassword.Claimed.{claimed_then}
use ansible_collection_found.OnePassword.Secret.Config.{Item}
use ansible_collection_found.OnePassword.Secret.Authorized.{normalize_secret}
use ansible_collection_found.OnePassword.Secret.Inspect.{
  Seen, same_tags, check_item, select_item, inspect_item,
}
use ansible_collection_found.OnePassword.Secret.{
  Created, exists, plan_result, creation_arguments, creation_result, create_item, run_item,
  secret_item,
}

exact-ok :
    (test : String → Bool) (value : Option Value) (e s : String)
    → exact test value e ≡ ok s
    → test s ≡ true
unfolding exact
exact-ok test value e s h =
    let (given, _, h1) = >>=-ok (as_str value e) (λ t. refuse (not (test t)) e >> ok t) h in
    let (passed, h2) = refuse-ok (not (test given)) e (ok given) h1 in
    let holds : test given ≡ true = ground (arith, passed) in
    subst (λ t. test t ≡ true) (ok_same h2) holds

-- An exact identity and a positive version, which are those of the pins where the pins name an item.
abbrev pub IsExact : Item → String × ℕ → Type 0
IsExact config found =
    (is_object_id found.0 ≡ true)
    × (nat_eq found.1 0 ≡ false)
    × (is_empty_text config.item_id ≡ false → config.item_id ≡ found.0)
    × (nat_eq config.item_version 0 ≡ false → config.item_version ≡ found.1)

check_item-IsExact :
    {S : Type 0} (desktop : Desktop S) (config : Item) (row : Fields) (found : String × ℕ)
    → check_item desktop config row ≡ ok found
    → IsExact config found
unfolding check_item
check_item-IsExact desktop config row found h =
    let (id, exactly, h1) =
      >>=-ok (exact is_object_id (get row "id") "The 1Password item has no exact object ID.") _ h in
    let (same_id, h2) =
      refuse-ok (not (is_empty_text config.item_id) && not (config.item_id == id)) _ _ h1 in
    let (version, _, h3) =
      >>=-ok (as_nat (get row "version") "The 1Password item has no exact positive item version.") _
        h2 in
    let (positive, h4) = refuse-ok (nat_eq version 0) _ _ h3 in
    let (same_version, h5) =
      refuse-ok (not (nat_eq config.item_version 0) && not (nat_eq config.item_version version)) _ _
        h4 in
    let (_, h6) =
      refuse-ok
        (not (
          Desktop.lower desktop (Desktop.text_of desktop (get_or row "category" (str "")))
          == Desktop.lower desktop "Password"))
        _ _ h5 in
    let (_, h7) = refuse-ok (not (same_tags (get_or row "tags" (list nil)) config.tags)) _ _ h6 in
    let same : (id, version) ≡ found = ok_same h7 in
    rw (← same) (
      exact-ok is_object_id _ _ id exactly,
      positive,
      λ (pinned : is_empty_text config.item_id ≡ false).
          ground (arith, eq_iff config.item_id id, same_id, pinned),
      λ (pinned : nat_eq config.item_version 0 ≡ false). ground (arith, same_version, pinned),
    )

select_item-IsExact :
    {S : Type 0} (desktop : Desktop S) (config : Item) (rows : List Fields) (found : String × ℕ)
    → select_item desktop config rows ≡ ok (some found)
    → IsExact config found
select_item-IsExact desktop config [] found h = absurd (ground (arith, h))
select_item-IsExact desktop config (row ∷ []) found h =
    let (seen, checked, h1) = >>=-ok (check_item desktop config row) (λ f. ok (some f)) h in
    let same : seen ≡ found = cc (h1) in
    rw (← same) (check_item-IsExact desktop config row seen checked)
select_item-IsExact desktop config (_ ∷ _ ∷ _) found h = never h

module _ {S : Type 0} (py : Stdlib) (desktop : Desktop S) (trusted : Trusted S) where
  -- An inspection that finds an item has found it under an exact identity and a positive version, which are the
  -- pinned ones where the configuration pins them; a pinned item that is not there is an error.
  pub inspect_item-IsExact :
      (client : Client) (config : Item) (seen : Seen) (s : S)
      → (inspect_item desktop py trusted client config s).0 ≡ ok seen
      → ((found : String × ℕ) → seen.found ≡ some found → IsExact config found)
        × (is_empty_text config.item_id ≡ false → exists seen ≡ true)
  unfolding inspect_item lift pure
  inspect_item-IsExact client config seen s h = bind-elim _ _ s h λ _ _ h1.
      bind-elim _ _ _ h1 λ _ _ h2. bind-elim _ _ _ h2 λ _ _ h3. bind-elim _ _ _ h3 λ _ _ h4.
        bind-elim _ _ _ h4 λ rows _ h5. bind-elim _ _ _ h5 λ found selected h6.
          bind-elim _ _ _ h6 λ _ _ h7. rw (← ok_same h7) (
            (λ f e. select_item-IsExact desktop config _ f (selected ∙ ap ok e)),
            (λ pinned. there found _ selected pinned),
          )
    where
      there :
          (found : Option (String × ℕ)) (rows : List Fields)
          → select_item desktop config rows ≡ ok found
          → is_empty_text config.item_id ≡ false
          → (elim found as (λ _. Bool) [ none ↦ false | some _ ↦ true ]) ≡ true
      there (some f) rows selected pinned = refl
      there none [] selected pinned = ground (arith, selected, pinned)
      there none (row ∷ []) selected pinned =
          let (f, _, h1) = >>=-ok (check_item desktop config row) (λ g. ok (some g)) selected in
          absurd (cc (h1))
      there none (_ ∷ _ ∷ _) selected pinned = absurd (cc (selected))

module _ (py : Stdlib) (os : Os) (desktop : Desktop (Os.State os)) (trusted : Trusted (Os.State os))
    (clock : Exec (Os.State os) Moment) where
  -- The client created the item in the vault, and exited with 0.
  abbrev pub Creation : Client → Item → Os.State os → Os.State os → Type 0
  Creation client config before after =
      (binary : String) × (rest : List String) × (code : ℤ) × (output : Bytes) × (Desktop.spawn
          desktop binary
          ("item" ∷ "create" ∷ "--account" ∷ config.pins.account_id ∷ "--vault"
            ∷ config.pins.vault_id ∷ "--category" ∷ "Password" ∷ "--title" ∷ config.item_title
            ∷ rest)
          client.environment true before
        ≡ (exited code output, after))
      × (int_eq code (pos 0) ≡ true)

  -- What a run of `apply` reports: an item that the client created, and that an inspection found right after.
  abbrev pub IsCreated : Item → Created → Type 0
  IsCreated config r =
      (r.created ≡ true)
      × (r.planned ≡ false)
      × (exists r.seen ≡ true)
      × (client : Client) × (before after : Os.State os) × Creation client config before after
      × ((inspect_item desktop py trusted client config after).0 ≡ ok r.seen)

  output_of-exited :
      (ran : Ran) (operation : String) (discard : Bool) (output : Bytes)
      → output_of desktop operation discard ran ≡ ok output
      → (code : ℤ) × (kept : Bytes) × (ran ≡ exited code kept) × (int_eq code (pos 0) ≡ true)
  output_of-exited not_run operation discard output h = never h
  output_of-exited (exited code kept) operation discard output h =
      (code, kept, refl, went_well (int_eq code (pos 0)) _ _ h)
    where
      went_well :
          {A : Type 0} (b : Bool) (r : A) (e : String) {a : A}
          → (if b then ok r else err e) ≡ ok a
          → b ≡ true
      went_well true r e h1 = refl
      went_well false r e h1 = never h1

  run_discard-Creation :
      (client : Client) (config : Item) (s : Os.State os)
      → (run_discard desktop trusted client (creation_arguments py config) "item creation" s).0
        ≡ ok tt
      → (before : Os.State os) × Creation client config before
          (run_discard desktop trusted client (creation_arguments py config) "item creation" s).1
  unfolding run_discard run_cli finish creation_arguments pure
  run_discard-Creation client config s h = bind-run _ _ s h λ output ran e h1.
      bind-run _ _ s ran λ binary _ e1 h2.
        let (code, kept, is_exited, well) = output_of-exited _ "item creation" true output h2 in
        let at =
          (Trusted.executable trusted (some (str client.requested_binary)) client.binary_sha256
            "cli_path" s).1 in
        (
          at,
          (
            binary,
            _,
            code,
            kept,
            pair_of_parts _ is_exited (sym (ap (λ x. x.1) e1) ∙ sym (ap (λ x. x.1) e)),
            well,
          ),
        )
    where
      pair_of_parts : {A B : Type 0} (p : A × B) {a : A} {b : B} → p.0 ≡ a → p.1 ≡ b → p ≡ (a, b)
      pair_of_parts p e f = cc (e, f)

  create_item-IsCreated :
      (client : Client) (config : Item) (approval : Option Approval) (s : Os.State os) (r : Created)
      → (create_item py os desktop trusted clock client config approval s).0 ≡ ok r
      → IsCreated config r
  unfolding create_item creation_result lift pure
  create_item-IsCreated client config approval s r h = bind-elim _ _ s h λ _ created h1.
      bind-elim _ _ _ h1 λ seen looked h2. bind-elim _ _ _ h2 λ _ passed h3.
        let (before, creation) = run_discard-Creation client config s created in
        rw (← ok_same h3)
          (refl, refl, refuse_unless (exists seen) _ passed, client, before, _, creation, looked)

  claimed_then-IsCreated :
      (config : Item) (approval : Option Approval) (next : Exec (Os.State os) Created)
      (s : Os.State os) (r : Created)
      → ((u : Os.State os) (r1 : Created) → (next u).0 ≡ ok r1 → IsCreated config r1)
      → (claimed_then py os clock approval next s).0 ≡ ok r
      → IsCreated config r
  unfolding claimed_then raise
  claimed_then-IsCreated config none next s r creates h = never h
  claimed_then-IsCreated config (some a) next s r creates h =
      bind-elim _ _ s h λ _ _ h1. bind-elim _ _ _ h1 λ _ _ h2. creates _ r h2

  run_item-IsCreated :
      (client : Client) (config : Item) (approval : Option Approval) (s : Os.State os) (r : Created)
      → is_plan config.operation ≡ false
      → (run_item py os desktop trusted clock client config approval false s).0 ≡ ok r
      → IsCreated config r
  unfolding run_item
  run_item-IsCreated client config approval s r applies h =
      bind-elim _ _ s h
        λ seen _ h1. bind-elim _ _ _ h1 λ _ _ h2. go (is_plan config.operation) applies seen _ h2
    where
      go :
          (b : Bool)
          → b ≡ false
          → (seen : Seen) (u : Os.State os)
          → ((elim (b || false) as (λ _. Exec (Os.State os) Created) [
            | true ↦ pure (plan_result approval seen)
            | false ↦
                claimed_then py os clock approval
                  (create_item py os desktop trusted clock client config approval)
          ])
              u).0
            ≡ ok r
          → IsCreated config r
      go true e seen u h3 = absurd (cc (e))
      go false e seen u h3 =
          claimed_then-IsCreated config approval _ u r
            (λ v r1 h4. create_item-IsCreated client config approval v r1 h4) h3

  -- When a run whose arguments ask for `apply` returns outside check mode, the client created the item in the
  -- vault under the given title and exited with 0, and an inspection right after found it.
  pub secret_item-IsCreated :
      (args : Fields) (config : Item) (approval : Option Approval) (s : Os.State os) (r : Created)
      → (normalize_secret py desktop trusted clock args s).0 ≡ ok (config, approval)
      → is_plan config.operation ≡ false
      → (secret_item py os desktop trusted clock args false s).0 ≡ ok r
      → IsCreated config r
  unfolding secret_item
  secret_item-IsCreated args config approval s r accepted applies h =
      bind-elim _ _ s h λ found normalized h1. bind-elim _ _ _ h1 λ client _ h2.
        let same : (config, approval) ≡ found = ok_same (sym accepted ∙ normalized) in
        subst (λ (f : Item × Option Approval). IsCreated f.0 r) (sym same)
          (run_item-IsCreated client found.0 found.1 _ r
            (subst (λ (f : Item × Option Approval). is_plan f.0.operation ≡ false) same applies) h2)
