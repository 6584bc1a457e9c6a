-- ===== src/Custody/Vault/Commit.antt =====
-- The manifest is the commit point of a publication: it is stored only after every chunk is.
use ansible_collection_found.Base.{
  String, Bool, true, false, not, ◌&&◌, ◌==◌, Option, none, some, List, [], ◌∷◌, ◌++◌, Bytes, ◌≡◌,
  ◌≢◌, refl, sym, ◌∙◌, ◌⊎◌, inl, inr, arith, if◌then◌else◌,
}
use ansible_collection_found.Base.Exec.{
  pure, lift, bind-cases, Relates, Relates-pure, Relates-lift, Relates-bind,
}
use ansible_collection_found.Base.Value.{Value, value_eq}
use ansible_collection_found.Stdlib.{Stdlib}
use ansible_collection_found.Custody.Client.{Client, Row, IsFaithful}
use ansible_collection_found.Custody.Vault.{
  Entry, conflicts, preflight, publish, readback, transact,
}
use ansible_collection_found.Custody.Vault.Store.{
  SameStore, SameStore-IsPreorder, preflight-SameStore, readback-SameStore,
}
use ansible_collection_found.Custody.Vault.Publish.{
  Observed, Observed-same, Avoids, publish-Fixes, preflight-Observed,
}

abbrev pub Fresh : String → List Entry → Type 0
Fresh p [] = Unit
Fresh p ((path, _) ∷ es) = (path ≢ p) × Fresh p es

abbrev pub DistinctPaths : List Entry → Type 0
DistinctPaths [] = Unit
DistinctPaths ((path, _) ∷ es) = Fresh path es × DistinctPaths es

-- Each value is equal to itself under Python's `==`.
abbrev pub SelfEqual : List Entry → Type 0
SelfEqual [] = Unit
SelfEqual ((_, value) ∷ es) = (value_eq value value ≡ true) × SelfEqual es

Fresh-append : (p : String) (es fs : List Entry) → Fresh p (es ++ fs) → Fresh p es × Fresh p fs
Fresh-append p [] fs h = (tt, h)
Fresh-append p ((path, v) ∷ es) fs h = let (a, b) = Fresh-append p es fs h.1 in ((h.0, a), b)

module _ (py : Stdlib) {c : Client} (faithful : IsFaithful c) (mount : String) where
  pub Fresh-Avoids :
      (p : String) (es : List Entry) (os : List (Option Row))
      → Fresh p es
      → Avoids py faithful mount mount p es os
  Fresh-Avoids p [] os h = tt
  Fresh-Avoids p ((path, v) ∷ es) [] h = tt
  Fresh-Avoids p ((path, v) ∷ es) (some _ ∷ os) h = Fresh-Avoids p es os h.1
  Fresh-Avoids p ((path, v) ∷ es) (none ∷ os) h = (λ same. h.0 same.1, Fresh-Avoids p es os h.1)

  -- A row at the path that equals the value.
  abbrev pub IsStored : Client.State c → String → Value → Type 0
  IsStored s path value =
      (row : Row) × (Client.stored c s mount path ≡ some row) × (value_eq row.payload value ≡ true)

  abbrev pub AllStored : Client.State c → List Entry → Type 0
  AllStored s [] = Unit
  AllStored s ((path, value) ∷ es) = IsStored s path value × AllStored s es

  agrees :
      (row : Row) (value : Value)
      → conflicts py (some row) value ≡ false
      → value_eq row.payload value ≡ true
  unfolding conflicts
  agrees row value h = ground arith

  -- One object is stored, and its rows stay while the others are created.
  keep :
      (q : String) (value : Value) (es : List Entry) (os : List (Option Row)) (s : Client.State c)
      → Fresh q es
      → IsStored s q value
      → IsStored (publish py c mount es os s).1 q value
  keep q value es os s fresh (row, here, same) = (
    row,
    (publish-Fixes py faithful mount mount q es os (Fresh-Avoids q es os fresh)).at s ∙ here,
    same,
  )

  module _ (path : String) (value : Value) where
    abbrev pub Committed : List Entry → Client.State c → Client.State c → Type 0
    Committed es s t =
        (Client.stored c t mount path ≡ Client.stored c s mount path) ⊎ AllStored t es

    Observed-after :
        (es : List Entry) (os : List (Option Row)) (q : String) (v : Value) (s : Client.State c)
        → Fresh q es
        → Observed py faithful mount s es os
        → Observed py faithful mount (Client.create c mount q v s).1 es os
    Observed-after [] [] q v s fresh h = tt
    Observed-after [] (_ ∷ _) q v s fresh h = h
    Observed-after ((r, w) ∷ es) [] q v s fresh h = h
    Observed-after ((r, w) ∷ es) (o ∷ os) q v s fresh h = (
      faithful.stored-create_ne mount q v s mount r (λ same. fresh.0 (sym same.1)) ∙ h.0,
      h.1,
      Observed-after es os q v s fresh.1 h.2,
    )

    publish-Committed :
        (es : List Entry) (os : List (Option Row)) (s : Client.State c)
        → Observed py faithful mount s (es ++ (path, value) ∷ []) os
        → DistinctPaths (es ++ (path, value) ∷ [])
        → SelfEqual es
        → Committed es s (publish py c mount (es ++ (path, value) ∷ []) os s).1
    unfolding publish pure
    publish-Committed [] os s seen apart own = inr tt
    publish-Committed ((q, v) ∷ es) [] s seen apart own = absurd seen
    publish-Committed ((q, v) ∷ es) (some row ∷ os) s seen apart own =
        elim (publish-Committed es os s seen.2 apart.1 own.1) [
          | inl same ↦ inl same
          | inr stored ↦ inr (keep q v _ os s apart.0 (row, seen.0, agrees row v seen.1), stored)
        ]
    publish-Committed ((q, v) ∷ es) (none ∷ os) s seen apart own =
        let all = es ++ (path, value) ∷ [] in
        let apart_last : q ≢ path =
          λ same. (Fresh-append q es ((path, value) ∷ []) apart.0).1.0 (sym same) in
        let s1 = (Client.create c mount q v s).1 in
        let framed : Client.stored c s1 mount path ≡ Client.stored c s mount path =
          faithful.stored-create_ne mount q v s mount path (λ same. apart_last same.1) in
        bind-cases (Client.create c mount q v) _ s (Committed ((q, v) ∷ es) s) (λ e _. inl framed)
          λ _ created.
            let (n, here) = faithful.stored-create_ok mount q v s created in
            let later : Committed ((q, v) ∷ es) s (publish py c mount all os s1).1 =
              elim (publish-Committed es os s1 (Observed-after all os q v s apart.0 seen.2) apart.1
                own.1) [
                  | inl same ↦ inl (same ∙ framed)
                  | inr stored ↦ inr (keep q v all os s1 apart.0 (_, here, own.0), stored)
                ] in
            bind-cases (publish py c mount all os) _ s1 (Committed ((q, v) ∷ es) s) (λ e _. later)
              (λ _ _. later)

    Committed-same :
        (es : List Entry) (s t u : Client.State c)
        → Committed es s t
        → SameStore c t u
        → Committed es s u
    Committed-same es s t u (inl h) same = inl (same mount path ∙ h)
    Committed-same es s t u (inr h) same = inr (stay es h)
      where
        stay : (fs : List Entry) → AllStored t fs → AllStored u fs
        stay [] h = tt
        stay ((q, v) ∷ fs) ((row, here, eq), rest) = ((row, same mount q ∙ here, eq), stay fs rest)

    published :
        (apply : Bool) (es : List Entry) (os : List (Option Row)) (s : Client.State c)
        → Observed py faithful mount s (es ++ (path, value) ∷ []) os
        → DistinctPaths (es ++ (path, value) ∷ [])
        → SelfEqual es
        → Committed es s
            ((if apply then publish py c mount (es ++ (path, value) ∷ []) os else pure false) s).1
    unfolding pure
    published true es os s seen apart own = publish-Committed es os s seen apart own
    published false es os s seen apart own = inl refl

    readback_or :
        (apply : Bool) (es : List Entry) (os : List (Option Row))
        → Relates (SameStore c) (if apply then readback py c mount es else pure os)
    readback_or true es os = readback-SameStore py faithful mount es
    readback_or false es os = Relates-pure (SameStore-IsPreorder c) os

    pub transact-Committed :
        (es : List Entry) (raw : Bytes) (sha root operation : String) (check_mode : Bool)
        (s : Client.State c)
        → DistinctPaths (es ++ (path, value) ∷ [])
        → SelfEqual es
        → Committed es s
            (transact py c mount (es ++ (path, value) ∷ []) raw sha root operation check_mode s).1
    unfolding transact lift
    transact-Committed es raw sha root operation check_mode s apart own =
        let all = es ++ (path, value) ∷ [] in
        let o = SameStore-IsPreorder c in
        let apply = operation == "apply" && not check_mode in
        let same = (preflight-SameStore py faithful mount all).at s in
        let s1 = (preflight py c mount all s).1 in
        bind-cases (preflight py c mount all) _ s (Committed es s) (λ e _. inl (same mount path))
          λ os ran.
            bind-cases _ _ s1 (Committed es s) (λ e _. inl (same mount path))
              λ _ _.
                let seen =
                  Observed-same py faithful mount {s = s1} {t = s} all os (λ m p. sym (same m p))
                    (preflight-Observed py faithful mount all s ran) in
                let done : Committed es s
                    ((if apply then publish py c mount all os else pure false) s1).1 =
                  elim (published apply es os s1 seen apart own) [
                    | inl h ↦ inl (h ∙ same mount path)
                    | inr h ↦ inr h
                  ] in
                bind-cases (if apply then publish py c mount all os else pure false) _ s1
                  (Committed es s) (λ e _. done)
                  λ changed _. Committed-same es s _ _ done (
                    Relates.at
                      (Relates-bind o _ _ (readback_or apply all os)
                        λ rows. Relates-bind o _ _ (Relates-lift o _) λ _. Relates-pure o _)
                      _)
