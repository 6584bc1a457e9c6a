-- ===== src/Custody/Vault/Success.antt =====
-- A publication to a provider that answers: every object is stored, and the readback is complete.
use ansible_collection_found.Base.{
  ℕ, String, Bool, true, false, not, ◌&&◌, ◌==◌, Option, none, some, List, [], ◌∷◌, map, Bytes, ◌≡◌,
  refl, sym, ap, ◌∙◌, all, if◌then◌else◌,
}
use ansible_collection_found.Base.Result.{ok}
use ansible_collection_found.Base.Exec.{pure, lift, check, ◌>>=◌, Relates, bind-of_ok}
use ansible_collection_found.Base.Value.{Value}
use ansible_collection_found.Stdlib.{Stdlib}
use ansible_collection_found.Custody.Client.{Client, Row, IsReliable}
use ansible_collection_found.Custody.Vault.{
  Entry, conflicts, preflight, publish, readback, is_present, changed_since, confirm, transact,
  report,
}
use ansible_collection_found.Custody.Vault.Publish.{publish-Fixes}
use ansible_collection_found.Custody.Vault.Commit.{Fresh, Fresh-Avoids, DistinctPaths, SelfEqual}

abbrev pub nones : List Entry → List (Option Row)
nones = map (λ _. none)

abbrev pub nonempty : List Entry → Bool
nonempty [] = false
nonempty (_ ∷ _) = true

-- The rows that hold exactly the objects' values.
abbrev pub Exact : List Entry → List (Option Row) → Type 0
Exact [] [] = Unit
Exact ((_, value) ∷ es) (some row ∷ rows) = (row.payload ≡ value) × Exact es rows
Exact _ _ = ⊥

and_false : (b : Bool) → (b && false) ≡ false
and_false true = refl
and_false false = refl

pub Exact-present :
    (py : Stdlib) (es : List Entry) (rows : List (Option Row))
    → Exact es rows
    → all (is_present py) rows ≡ true
Exact-present py [] [] h = refl
Exact-present py (e ∷ es) (some row ∷ rows) h = Exact-present py es rows h.1
Exact-present py [] (_ ∷ _) h = absurd h
Exact-present py (_ ∷ _) [] h = absurd h
Exact-present py (_ ∷ _) (none ∷ rows) h = absurd h

pub changed_since-Exact :
    (py : Stdlib) (es : List Entry) (rows : List (Option Row))
    → Exact es rows
    → SelfEqual es
    → changed_since py es rows ≡ false
unfolding changed_since
changed_since-Exact py [] [] h own = refl
changed_since-Exact py ((path, value) ∷ es) (some row ∷ rows) h own =
    rw (h.0, own.0, changed_since-Exact py es rows h.1 own.1)
changed_since-Exact py [] (_ ∷ _) h own = absurd h
changed_since-Exact py (_ ∷ _) [] h own = absurd h
changed_since-Exact py (_ ∷ _) (none ∷ rows) h own = absurd h

module _ (py : Stdlib) {c : Client} (reliable : IsReliable c) (mount : String) where
  abbrev pub AllAbsent : Client.State c → List Entry → Type 0
  AllAbsent s [] = Unit
  AllAbsent s ((path, _) ∷ es) = (Client.stored c s mount path ≡ none) × AllAbsent s es

  abbrev pub AllExact : Client.State c → List Entry → Type 0
  AllExact s [] = Unit
  AllExact s ((path, value) ∷ es) =
      ((n : ℕ) × (Client.stored c s mount path ≡ some (record { payload = value; version = n })))
      × AllExact s es

  pub preflight-absent :
      (es : List Entry) (s : Client.State c)
      → AllAbsent s es
      → preflight py c mount es s ≡ (ok (nones es), s)
  unfolding preflight ◌>>=◌ conflicts
  preflight-absent [] s h = refl
  preflight-absent ((path, value) ∷ es) s (here, rest) =
      rw (reliable.read-eq mount path s, here, preflight-absent es s rest)

  AllAbsent-create :
      (q : String) (v : Value) (es : List Entry) (s : Client.State c)
      → Fresh q es
      → AllAbsent s es
      → AllAbsent (Client.create c mount q v s).1 es
  AllAbsent-create q v [] s fresh h = tt
  AllAbsent-create q v ((path, _) ∷ es) s fresh h = (
    reliable.faithful.stored-create_ne mount q v s mount path (λ same. fresh.0 (sym same.1)) ∙ h.0,
    AllAbsent-create q v es s fresh.1 h.1,
  )

  pub publish-absent :
      (es : List Entry) (s : Client.State c)
      → AllAbsent s es
      → DistinctPaths es
      → (t : Client.State c) × (publish py c mount es (nones es) s ≡ (ok (nonempty es), t))
        × AllExact t es
  unfolding publish pure
  publish-absent [] s h apart = (s, refl, tt)
  publish-absent ((q, v) ∷ es) s (here, rest) (fresh, apart) =
      let s1 = (Client.create c mount q v s).1 in
      let created = reliable.create-ok mount q v s here in
      let (t, ran, exact) = publish-absent es s1 (AllAbsent-create q v es s fresh rest) apart in
      let (n, stored) = reliable.faithful.stored-create_ok mount q v s created in
      let fixed =
        Relates.at
          (publish-Fixes py reliable.faithful mount mount q es (nones es)
            (Fresh-Avoids py reliable.faithful mount q es (nones es) fresh))
          s1 in
      (
        t,
        bind-of_ok (Client.create c mount q v) _ s tt s1 (λ i. (created i, s1))
            ∙ bind-of_ok (publish py c mount es (nones es)) _ s1 _ t ran,
        ((n, sym (ap (λ x. Client.stored c x.1 mount q) ran) ∙ fixed ∙ stored), exact),
      )

  pub readback-Exact :
      (es : List Entry) (t : Client.State c)
      → AllExact t es
      → (rows : List (Option Row)) × (readback py c mount es t ≡ (ok rows, t)) × Exact es rows
  unfolding readback ◌>>=◌
  readback-Exact [] t h = ([], refl, tt)
  readback-Exact ((path, value) ∷ es) t ((n, here), rest) =
      let (rows, ran, exact) = readback-Exact es t rest in
      (
        some (record { payload = value; version = n }) ∷ rows,
        rw (reliable.read-eq mount path t, here, ran),
        (refl, exact),
      )

  -- A transaction on absent objects stores all of them, if their readback passes the last check.
  pub transact-absent :
      (es : List Entry) (raw : Bytes) (sha root : String) (s : Client.State c)
      → AllAbsent s es
      → DistinctPaths es
      → ((rows : List (Option Row)) → Exact es rows → confirm py es rows raw ≡ ok tt)
      → (t : Client.State c) × (rows : List (Option Row)) × Exact es rows
        × AllExact t es
        × (transact py c mount es raw sha root "apply" false s ≡ (
          ok (report py c mount (nonempty es) (not (all (is_present py) (nones es))) rows sha root),
          t,
        ))
  unfolding transact lift pure
  transact-absent es raw sha root s absent apart confirmed =
      let (t, ran, exact) = publish-absent es s absent apart in
      let (rows, back, same) = readback-Exact es t exact in
      let done : (if all (is_present py) rows then confirm py es rows raw else ok tt) ≡ ok tt =
        rw (Exact-present py es rows same, confirmed rows same) in
      (
        t,
        rows,
        same,
        exact,
        bind-of_ok (preflight py c mount es) _ s (nones es) s (preflight-absent es s absent)
            ∙ bind-of_ok (check (not (all (is_present py) (nones es)) && "apply" == "verify") _) _ s
                tt s (rw (and_false (not (all (is_present py) (nones es)))))
            ∙ bind-of_ok (publish py c mount es (nones es)) _ s (nonempty es) t ran
            ∙ bind-of_ok (readback py c mount es) _ t rows t back
            ∙ bind-of_ok (lift (if all (is_present py) rows then confirm py es rows raw else ok tt))
                _ t tt t (λ i. (done i, t)),
      )
