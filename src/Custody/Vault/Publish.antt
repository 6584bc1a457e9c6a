-- ===== src/Custody/Vault/Publish.antt =====
-- What the observation before a publication tells, and what the publication stores.
use ansible_collection_found.Base.{
  String, Bool, true, false, Option, none, some, List, [], ◌∷◌, ◌≡◌, refl, sym, ap, subst, ◌∙◌,
}
use ansible_collection_found.Base.Result.{ok, refuse}
use ansible_collection_found.Base.Exec.{
  pure, lift, bind-elim, Relates, IsPreorder, Relates-pure, Relates-bind,
}
use ansible_collection_found.Stdlib.{Stdlib}
use ansible_collection_found.Custody.Client.{Client, Row, IsFaithful}
use ansible_collection_found.Custody.Vault.{Entry, conflicts, preflight, publish}
use ansible_collection_found.Custody.Vault.Store.{SameStore, read-SameStore}

passed_refuse : (b : Bool) (e : String) → {u : Unit {0}} → refuse b e ≡ ok u → b ≡ false
passed_refuse true e h = cc
passed_refuse false e h = refl

module _ (py : Stdlib) {c : Client} (faithful : IsFaithful c) (mount : String) where
  abbrev at : Client.State c → String → Option Row
  at s path = Client.stored c s mount path

  -- The rows were stored when they were observed, and none conflicts with its object.
  abbrev pub Observed : Client.State c → List Entry → List (Option Row) → Type 0
  Observed s [] [] = Unit
  Observed s ((path, value) ∷ es) (o ∷ os) =
      (Client.stored c s mount path ≡ o) × (conflicts py o value ≡ false) × Observed s es os
  Observed s _ _ = ⊥

  pub Observed-same :
      {s t : Client.State c} (es : List Entry) (os : List (Option Row))
      → SameStore c s t
      → Observed t es os
      → Observed s es os
  Observed-same [] [] same h = tt
  Observed-same ((path, value) ∷ es) (o ∷ os) same h =
      (sym (same mount path) ∙ h.0, h.1, Observed-same es os same h.2)
  Observed-same [] (_ ∷ _) same h = h
  Observed-same (_ ∷ _) [] same h = h

  pub preflight-Observed :
      (es : List Entry) (s : Client.State c) {os : List (Option Row)}
      → (preflight py c mount es s).0 ≡ ok os
      → Observed s es os
  unfolding preflight pure lift
  preflight-Observed [] s {os} h = let same : [] ≡ os = cc in subst (Observed s []) same tt
  preflight-Observed ((path, value) ∷ es) s {os} h = bind-elim _ _ s h λ current is_current h1.
      bind-elim _ _ _ h1 λ _ passed h2. bind-elim _ _ _ h2 λ more is_more h3.
        let same : current ∷ more ≡ os = cc in
        subst (Observed s ((path, value) ∷ es)) same (
          faithful.read-ok mount path s current is_current,
          passed_refuse (conflicts py current value) _ passed,
          Observed-same es more ((read-SameStore py faithful mount path).at s)
              (preflight-Observed es (Client.read c mount path s).1 is_more),
        )

  -- Blocks that leave one stored object as it is.
  abbrev pub Fixes : String → String → Client.State c → Client.State c → Type 0
  Fixes m p s t = Client.stored c t m p ≡ Client.stored c s m p

  pub Fixes-IsPreorder : (m p : String) → IsPreorder (Fixes m p)
  Fixes-IsPreorder m p = record { stay = λ s. refl; chain = λ s t u h k. k ∙ h }

  -- The objects that are still to be created lie elsewhere.
  abbrev pub Avoids : String → String → List Entry → List (Option Row) → Type 0
  Avoids m p ((path, value) ∷ es) (none ∷ os) = ¬ ((mount ≡ m) × (path ≡ p)) × Avoids m p es os
  Avoids m p (_ ∷ es) (some _ ∷ os) = Avoids m p es os
  Avoids m p _ _ = Unit

  pub publish-Fixes :
      (m p : String) (es : List Entry) (os : List (Option Row))
      → Avoids m p es os
      → Relates (Fixes m p) (publish py c mount es os)
  unfolding publish
  publish-Fixes m p [] os h = Relates-pure (Fixes-IsPreorder m p) false
  publish-Fixes m p ((path, value) ∷ es) [] h = Relates-pure (Fixes-IsPreorder m p) false
  publish-Fixes m p ((path, value) ∷ es) (some row ∷ os) h = publish-Fixes m p es os h
  publish-Fixes m p ((path, value) ∷ es) (none ∷ os) h =
      Relates-bind (Fixes-IsPreorder m p) _ _
        (record { at = λ s. faithful.stored-create_ne mount path value s m p h.0 })
        λ _.
          Relates-bind (Fixes-IsPreorder m p) _ _ (publish-Fixes m p es os h.1)
            λ _. Relates-pure (Fixes-IsPreorder m p) true

  -- What was observed as stored is no path of an object that was observed as missing.
  pub Observed-Avoids :
      (s : Client.State c) (m p : String) {row : Row} (es : List Entry) (os : List (Option Row))
      → Client.stored c s m p ≡ some row
      → Observed s es os
      → Avoids m p es os
  Observed-Avoids s m p [] os here h = tt
  Observed-Avoids s m p ((path, value) ∷ es) [] here h = absurd h
  Observed-Avoids s m p ((path, value) ∷ es) (some _ ∷ os) here h =
      Observed-Avoids s m p es os here h.2
  Observed-Avoids s m p ((path, value) ∷ es) (none ∷ os) here h = (
    λ same.
        cc (ap (λ q. Client.stored c s q path) same.0, ap (Client.stored c s m) same.1, here, h.0),
    Observed-Avoids s m p es os here h.2,
  )
