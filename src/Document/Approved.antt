-- ===== src/Document/Approved.antt =====
-- Nothing is stored before an approval of this very document is claimed.
use ansible_collection_found.Base.{
  ℕ, String, Bool, true, false, List, Bytes, ◌≡◌, refl, ◌∙◌, ◌⊎◌, inl, inr, not, ◌&&◌, ◌==◌, Option,
  some, if◌then◌else◌,
}
use ansible_collection_found.Base.Result.{ok}
use ansible_collection_found.Base.Exec.{
  Exec, pure, lift, check, Relates, IsPreorder, Relates-lift, Relates-pure, Relates-bind,
  bind-cases,
}
use ansible_collection_found.Base.Value.{Value, Fields, bool, str, dict, end, field, index, as_dict}
use ansible_collection_found.Stdlib.{Stdlib}
use ansible_collection_found.Custody.Package.{validate_package}
use ansible_collection_found.Approval.Os.{Os}
use ansible_collection_found.Approval.Claim.{Approval, Moment, claim_approval}
use ansible_collection_found.Approval.Claim.Apart.{Apart, claim_approval-Keeps}
use ansible_collection_found.Document.Config.{Config, validate_config}
use ansible_collection_found.Document.Cli.{Cli, IsQuiet, is_read, metadata_create}
use ansible_collection_found.Document.Inspect.{Document, inspect}
use ansible_collection_found.Document.Transfer.{
  create_arguments, create_document, is_none, transfer, onepassword_custody,
}
use ansible_collection_found.Document.Quiet.{
  SameDocuments, SameDocuments-IsPreorder, inspect-Relates, require-Relates, confirm-Relates,
}

-- The calls of the operating system leave the service's documents alone.
pub record IsApart (os : Os) (cli : Cli (Os.State os)) : Type 0 where
  pub calls : Apart os (SameDocuments cli)

module _ (py : Stdlib) {os : Os} {cli : Cli (Os.State os)} (apart : IsApart os cli)
    (normalize : String → Value → Value → Exec (Os.State os) Approval)
    (clock : Exec (Os.State os) Moment) (quiet : IsQuiet cli)
    (normalize_same : (operation : String) (target binding : Value)
      → Relates (SameDocuments cli) (normalize operation target binding))
    (clock_same : Relates (SameDocuments cli) clock) where
  order : IsPreorder (SameDocuments cli)
  order = SameDocuments-IsPreorder cli

  -- The subject that the manifest of a package names.
  abbrev pub IsSubject : Fields → Value → Type 0
  IsSubject pack subject =
      (manifest : Value) × (m : Fields) × (index pack "manifest" ≡ ok manifest)
      × (as_dict (some manifest) "TypeError" ≡ ok m)
      × (index m "subject" ≡ ok subject)

  -- An approval of this creation, of these bytes under this configuration, was accepted and then claimed while the
  -- service stored what it had stored before; what is stored is what the creation of the document left.
  abbrev pub Claimed : Config → Fields → Bytes → Os.State os → Os.State os → Type 0
  Claimed config pack raw s t =
      (subject : Value) × (a : Approval) × (now : Moment) × (asked before : Os.State os) × IsSubject
        pack subject
      × ((normalize "create-onepassword-header-document" subject
            (dict (
              field "config" (dict config.fields) (
                field "package_sha256" (str (Stdlib.sha256 py raw))
                  (field "allow_create" (bool true) end))))
            asked).0
          ≡ ok a)
      × SameDocuments cli s before
      × ((claim_approval py os a now before).0 ≡ ok tt)
      × SameDocuments cli
          (metadata_create cli (create_arguments config (Stdlib.sha256 py raw)) raw
            (claim_approval py os a now before).1).1
          t

  abbrev Effect : Config → Fields → Bytes → Os.State os → Os.State os → Type 0
  Effect config pack raw s t = SameDocuments cli s t ⊎ Claimed config pack raw s t

  Effect-after :
      (config : Config) (pack : Fields) (raw : Bytes) (s u t : Os.State os)
      → SameDocuments cli s u
      → Effect config pack raw u t
      → Effect config pack raw s t
  Effect-after config pack raw s u t h (inl k) = inl (k ∙ h)
  Effect-after config pack raw s u t h
        (inr (subject, a, now, asked, before, named, accepted, same, claimed, ends)) =
      inr (subject, a, now, asked, before, named, accepted, same ∙ h, claimed, ends)

  Effect-then :
      (config : Config) (pack : Fields) (raw : Bytes) (s u t : Os.State os)
      → Effect config pack raw s u
      → SameDocuments cli u t
      → Effect config pack raw s t
  Effect-then config pack raw s u t (inl h) k = inl (k ∙ h)
  Effect-then config pack raw s u t
        (inr (subject, a, now, asked, before, named, accepted, same, claimed, ends)) k =
      inr (subject, a, now, asked, before, named, accepted, same, claimed, k ∙ ends)

  reads :
      (arguments : List String) (payload : Bytes) (limit : ℕ)
      → is_read arguments ≡ true
      → Relates (SameDocuments cli) (Cli.run cli arguments payload limit)
  reads arguments payload limit h = record {
    at = λ s. quiet.documents-run arguments payload limit s h;
  }

  inspects : (config : Config) (sha : String) → Relates (SameDocuments cli) (inspect cli config sha)
  inspects config sha = inspect-Relates cli order reads config sha

  create_document-Effect :
      (config : Config) (pack : Fields) (raw : Bytes) (allow_create : Bool) (s : Os.State os)
      → Effect config pack raw s
          (create_document py os cli normalize clock config pack raw
            (Stdlib.sha256 py raw)
            allow_create
            s).1
  unfolding create_document lift
  create_document-Effect config pack raw allow_create s =
      let sha = Stdlib.sha256 py raw in
      let P : Os.State os → Type 0 = Effect config pack raw s in
      bind-cases (check (not allow_create) _) _ s P (λ e _. inl refl)
        λ _ _.
          bind-cases (lift (index pack "manifest")) _ s P (λ e _. inl refl)
            λ manifest is_manifest.
              bind-cases (lift (as_dict (some manifest) "TypeError")) _ s P (λ e _. inl refl)
                λ m is_m.
                  bind-cases (lift (index m "subject")) _ s P (λ e _. inl refl)
                    λ subject is_subject.
                      bind-cases (normalize "create-onepassword-header-document" subject _) _ s P
                        (λ e _. inl ((normalize_same _ subject _).at s))
                        λ a accepted.
                          let same1 = (normalize_same _ subject _).at s in
                          bind-cases (inspect cli config sha) _ _ P
                            (λ e _. inl ((inspects config sha).at _ ∙ same1))
                            λ before _.
                              let same2 = (inspects config sha).at _ ∙ same1 in
                              bind-cases (check (not (is_none before)) _) _ _ P (λ e _. inl same2)
                                λ _ _.
                                  bind-cases clock _ _ P (λ e _. inl (clock_same.at _ ∙ same2))
                                    λ now _.
                                      let same3 = clock_same.at _ ∙ same2 in
                                      bind-cases (claim_approval py os a now) _ _ P
                                        (λ e _. inl (
                                          (claim_approval-Keeps py order apart.calls a now).at _
                                          ∙ same3))
                                        λ _ claimed. inr (
                                          subject,
                                          a,
                                          now,
                                          s,
                                          _,
                                          (manifest, m, is_manifest, is_m, is_subject),
                                          accepted,
                                          same3,
                                          claimed,
                                          bind-cases
                                              (metadata_create cli (create_arguments config sha)
                                                raw)
                                              _ _ (SameDocuments cli _) (λ e _. refl)
                                              (λ result _.
                                                Relates.at
                                                  (Relates-bind order _ _ (inspects config sha)
                                                    λ current.
                                                      Relates-bind order _ _
                                                        (require-Relates cli order reads current _)
                                                        λ d.
                                                          Relates-bind order _ _
                                                            (Relates-lift order _)
                                                            λ created.
                                                            Relates-bind order _ _
                                                            (Relates-lift order _)
                                                            λ _. Relates-pure order _)
                                                  _),
                                        )

  transfer-Effect :
      (config : Config) (pack : Fields) (raw : Bytes) (operation : String)
      (check_mode allow_create : Bool) (s : Os.State os)
      → Effect config pack raw s
          (transfer py os cli normalize clock config pack raw
            (Stdlib.sha256 py raw)
            operation
            check_mode
            allow_create
            s).1
  unfolding transfer lift pure
  transfer-Effect config pack raw operation check_mode allow_create s =
      let sha = Stdlib.sha256 py raw in
      let P : Os.State os → Type 0 = Effect config pack raw s in
      bind-cases (inspect cli config sha) _ s P (λ e _. inl ((inspects config sha).at s))
        λ before _.
          let looked = (inspects config sha).at s in
          bind-cases (check (is_none before && operation == "verify") _) _ _ P (λ e _. inl looked)
            λ _ _.
              let created =
                Effect-after config pack raw s _ _ looked
                  (by_test before (is_none before && operation == "apply" && not check_mode) _) in
              bind-cases (either before (is_none before && operation == "apply" && not check_mode))
                _ _ P (λ e _. created)
                λ current _. Effect-then config pack raw s _ _ created (
                  Relates.at
                    (Relates-bind order _ _
                      (confirm-Relates cli order reads py config raw sha current)
                      λ _. Relates-pure order _)
                    _)
    where
      either : Option Document → Bool → Exec (Os.State os) (Option Document)
      either before c =
          if c
          then create_document py os cli normalize clock config pack raw (Stdlib.sha256 py raw)
              allow_create
          else pure before

      by_test :
          (before : Option Document) (c : Bool) (u : Os.State os)
          → Effect config pack raw u (either before c u).1
      by_test before true u = create_document-Effect config pack raw allow_create u
      by_test before false u = inl refl

  -- What is stored is what the creation of the document left that the run was given.
  abbrev pub ClaimedRun : Value → Value → Os.State os → Os.State os → Type 0
  ClaimedRun settings contents s t =
      (config : Config) × (pack : Fields) × (raw : Bytes) × (validate_config settings ≡ ok config)
      × (validate_package py contents ≡ ok raw)
      × (as_dict (some contents) "TypeError" ≡ ok pack)
      × Claimed config pack raw s t

  abbrev pub OnlyClaimed : Value → Value → Os.State os → Os.State os → Type 0
  OnlyClaimed settings contents s t = SameDocuments cli s t ⊎ ClaimedRun settings contents s t

  -- Whether a run returns or raises, the service stores what it stored before, or what the creation of the given
  -- document left, under the given configuration: an approval of that creation was accepted and was claimed right
  -- before it, while the service still stored what it had stored. Validation of approvals, the clock, the calls of
  -- the operating system and the commands that only show something store nothing.
  pub onepassword_custody-OnlyClaimed :
      (settings contents : Value) (operation : String) (check_mode allow_create : Bool)
      (s : Os.State os)
      → OnlyClaimed settings contents s
          (onepassword_custody py os cli normalize clock settings contents operation check_mode
            allow_create s).1
  unfolding onepassword_custody lift
  onepassword_custody-OnlyClaimed settings contents operation check_mode allow_create s =
      let P : Os.State os → Type 0 = OnlyClaimed settings contents s in
      bind-cases (lift (validate_config settings)) _ s P (λ e _. inl refl)
        λ config valid.
          bind-cases (check _ "Invalid custody operation.") _ s P (λ e _. inl refl)
            λ _ _.
              bind-cases (lift (validate_package py contents)) _ s P (λ e _. inl refl)
                λ raw packed.
                  bind-cases (lift (as_dict (some contents) "TypeError")) _ s P (λ e _. inl refl)
                    λ pack is_pack.
                      of_effect config pack raw valid packed is_pack _
                        (transfer-Effect config pack raw operation check_mode allow_create s)
    where
      of_effect :
          (config : Config) (pack : Fields) (raw : Bytes)
          → validate_config settings ≡ ok config
          → validate_package py contents ≡ ok raw
          → as_dict (some contents) "TypeError" ≡ ok pack
          → (t : Os.State os) → Effect config pack raw s t
          → OnlyClaimed settings contents s t
      of_effect config pack raw valid packed is_pack t (inl same) = inl same
      of_effect config pack raw valid packed is_pack t (inr claimed) =
          inr (config, pack, raw, valid, packed, is_pack, claimed)
