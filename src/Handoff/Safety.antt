-- ===== src/Handoff/Safety.antt =====
-- What a request may change at the service, and what an accepted response says.
use ansible_collection_found.Base.{
  String, Bool, true, false, not, ◌==◌, ◌≡◌, ◌∙◌, ◌⊎◌, inl, inr, if◌then◌else◌, eq_iff,
}
use ansible_collection_found.Base.Result.{ok, refuse_unless}
use ansible_collection_found.Base.Exec.{
  Exec, pure, lift, check, ◌>>=◌, Relates, IsPreorder, Relates-pure, Relates-lift, Relates-bind,
  bind-cases,
}
use ansible_collection_found.Base.Value.{Value, Fields}
use ansible_collection_found.Stdlib.{Stdlib}
use ansible_collection_found.Approval.Os.{Os}
use ansible_collection_found.Approval.Claim.{Approval, Moment}
use ansible_collection_found.Document.Config.{Config}
use ansible_collection_found.Document.Cli.{Cli, IsQuiet}
use ansible_collection_found.Document.Transfer.{onepassword_read_custody, onepassword_custody}
use ansible_collection_found.Document.Quiet.{
  SameDocuments, SameDocuments-IsPreorder, onepassword_read_custody-Relates,
}
use ansible_collection_found.Document.Approved.{
  IsApart, ClaimedRun, onepassword_custody-OnlyClaimed,
}
use ansible_collection_found.Handoff.Request.{Request, validate_request}
use ansible_collection_found.Handoff.Response.{
  retrieved_value, receipt_value, perform, execute_request,
}

module _ (py : Stdlib) {os : Os} {cli : Cli (Os.State os)} (apart : IsApart os cli)
    (connect : Config → Exec (Os.State os) (Unit {0}))
    (normalize : Fields → Fields → String → Value → Value → Exec (Os.State os) Approval)
    (clock : Exec (Os.State os) Moment) (quiet : IsQuiet cli)
    (connect_same : (config : Config) → Relates (SameDocuments cli) (connect config))
    (normalize_same : (approval authority : Fields) (operation : String) (target binding : Value)
      → Relates (SameDocuments cli) (normalize approval authority operation target binding))
    (clock_same : Relates (SameDocuments cli) clock) where
  order : IsPreorder (SameDocuments cli)
  order = SameDocuments-IsPreorder cli

  -- What is stored is what the creation of the request's document left, by the request's approval.
  abbrev pub ClaimedFor : Request → Os.State os → Os.State os → Type 0
  ClaimedFor request s t =
      ClaimedRun py apart (normalize request.approval request.authority) clock quiet
        (normalize_same request.approval request.authority) clock_same request.provider_config
        request.contents s t

  perform-ClaimedFor :
      (request : Request) (s : Os.State os)
      → SameDocuments cli s (perform py os cli connect normalize clock request s).1
        ⊎ ClaimedFor request s (perform py os cli connect normalize clock request s).1
  unfolding perform pure
  perform-ClaimedFor request s = by_test (request.operation == "read")
    where
      P : Os.State os → Type 0
      P t = SameDocuments cli s t ⊎ ClaimedFor request s t

      reads : Exec (Os.State os) Value
      reads = onepassword_read_custody py cli request.provider_config request.read_pins >>= λ r.
          pure (retrieved_value r)

      creates : Exec (Os.State os) Value
      creates =
          onepassword_custody py os cli (normalize request.approval request.authority) clock
            request.provider_config request.contents request.operation false request.allow_create
          >>= λ r. pure (receipt_value r)

      by_test : (c : Bool) → P ((if c then reads else creates) s).1
      by_test true = inl (
          Relates.at
            (Relates-bind order _ _
              (onepassword_read_custody-Relates cli order
                (λ arguments payload limit h. record {
                  at = λ u. quiet.documents-run arguments payload limit u h;
                })
                py _ _)
              λ r. Relates-pure order _)
            s)
      by_test false =
          let done =
            onepassword_custody-OnlyClaimed py apart (normalize request.approval request.authority)
              clock quiet (normalize_same request.approval request.authority) clock_same
              request.provider_config request.contents request.operation false request.allow_create
              s in
          bind-cases
            (onepassword_custody py os cli (normalize request.approval request.authority) clock
              request.provider_config request.contents request.operation false request.allow_create)
            _ s P (λ e _. done) (λ r _. done)

  -- A stored document comes from a request that is valid at the time it is read, and is the one that was expected.
  abbrev pub ClaimedRequest : Value → String → Os.State os → Os.State os → Type 0
  ClaimedRequest asked expected s t =
      (now : Moment) × (request : Request) × (before : Os.State os) × ((clock s).0 ≡ ok now)
      × (validate_request py now.micros asked ≡ ok request)
      × (request.sha256 ≡ expected)
      × SameDocuments cli s before
      × ClaimedFor request before t

  -- Whatever is asked for, and whether the execution returns or raises, the service stores what it stored
  -- before, or what the creation of the request's document left: the request is valid and the expected one, and its
  -- approval of that creation was accepted and was claimed right before it. Connecting, validating approvals, the
  -- clock and the commands that only show something store nothing.
  pub execute_request-OnlyClaimed :
      (asked : Value) (expected : String) (s : Os.State os)
      → SameDocuments cli s (execute_request py os cli connect normalize clock asked expected s).1
        ⊎ ClaimedRequest asked expected s
            (execute_request py os cli connect normalize clock asked expected s).1
  unfolding execute_request lift pure
  execute_request-OnlyClaimed asked expected s =
      let P : Os.State os → Type 0 =
        λ (t : Os.State os). SameDocuments cli s t ⊎ ClaimedRequest asked expected s t in
      bind-cases clock _ s P (λ e _. inl (clock_same.at s))
        λ now is_now.
          bind-cases (lift (validate_request py now.micros asked)) _ _ P
            (λ e _. inl (clock_same.at s))
            λ request valid.
              bind-cases (check (not (request.sha256 == expected)) _) _ _ P
                (λ e _. inl (clock_same.at s))
                λ _ checked.
                  bind-cases (connect request.config) _ _ P
                    (λ e _. inl ((connect_same request.config).at _ ∙ clock_same.at s))
                    λ _ _.
                      let same = (connect_same request.config).at _ ∙ clock_same.at s in
                      let found = (eq_iff request.sha256 expected).0 (refuse_unless _ _ checked) in
                      let done =
                        linked s now request is_now valid found _ _ same
                          (perform-ClaimedFor request _) in
                      bind-cases (perform py os cli connect normalize clock request) _ _ P
                        (λ e _. done)
                        λ result _. afterwards s _ _ done (
                          Relates.at
                            (Relates-bind order _ _ clock_same λ later.
                              Relates-bind order _ _ (Relates-lift order _)
                                λ _. Relates-pure order _)
                            _)
    where
      linked :
          (s : Os.State os) (now : Moment) (request : Request)
          → (clock s).0 ≡ ok now
          → validate_request py now.micros asked ≡ ok request
          → request.sha256 ≡ expected
          → (u t : Os.State os) → SameDocuments cli s u
          → SameDocuments cli u t ⊎ ClaimedFor request u t
          → SameDocuments cli s t ⊎ ClaimedRequest asked expected s t
      linked s now request is_now valid found u t same (inl k) = inl (k ∙ same)
      linked s now request is_now valid found u t same (inr c) =
          inr (now, request, u, is_now, valid, found, same, c)

      afterwards :
          (s u t : Os.State os)
          → SameDocuments cli s u ⊎ ClaimedRequest asked expected s u
          → SameDocuments cli u t
          → SameDocuments cli s t ⊎ ClaimedRequest asked expected s t
      afterwards s u t (inl h) k = inl (k ∙ h)
      afterwards s u t
            (inr (
              now,
              request,
              before,
              is_now,
              valid,
              found,
              same,
              (
                config,
                pack,
                raw,
                v1,
                v2,
                v3,
                (subject, a, later, asked1, at, named, accepted, kept, claimed, ends),
              ),
            ))
            k =
          inr (
            now,
            request,
            before,
            is_now,
            valid,
            found,
            same,
            (
              config,
              pack,
              raw,
              v1,
              v2,
              v3,
              (subject, a, later, asked1, at, named, accepted, kept, claimed, k ∙ ends),
            ),
          )
