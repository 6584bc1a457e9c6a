-- ===== src/Document/Pinned.antt =====
-- The retrieval returns the pinned revision of the document.
use ansible_collection_found.Base.{
  String, Bool, true, false, not, ◌&&◌, ◌||◌, ◌==◌, Option, none, some, List, [], ◌∷◌, Bytes, ◌≡◌,
  refl, ap, ◌∙◌, arith, eq_iff, nat_eq,
}
use ansible_collection_found.Base.Result.{ok, err, refuse, refuse_unless, >>=-ok, refuse-ok}
use ansible_collection_found.Base.Exec.{pure, raise, lift, bind-elim}
use ansible_collection_found.Base.Value.{Value, Fields, get, is_str, as_str, as_nat}
use ansible_collection_found.Stdlib.{Stdlib}
use ansible_collection_found.Custody.Package.{max_package}
use ansible_collection_found.Custody.Receipt.{verify_download}
use ansible_collection_found.Document.Config.{Config, is_object_id, validate_config}
use ansible_collection_found.Document.Cli.{Cli}
use ansible_collection_found.Document.Inspect.{
  Document, drift, same_current, is_tagged, keeps_pins, matches, check_row, select_row, inspect,
}
use ansible_collection_found.Document.Transfer.{
  Retrieved, is_none, require, retrieve, onepassword_read_custody,
}

-- The document is the pinned item at the pinned version.
abbrev pub IsPinned : Config → Document → Type 0
IsPinned config d = (config.item_id ≡ some d.id) × (d.version ≡ config.item_version)

keeps_pins-IsPinned :
    (config : Config) (d : Document)
    → is_none config.item_id ≡ false
    → keeps_pins config d ≡ true
    → IsPinned config d
unfolding keeps_pins
keeps_pins-IsPinned config d there h = go (config.item_id) refl there h
  where
    go :
        (item : Option String)
        → config.item_id ≡ item
        → is_none item ≡ false
        → (elim item [ none ↦ true | some i ↦ d.id == i && nat_eq d.version config.item_version ])
          ≡ true
        → IsPinned config d
    go none e t h1 = cc
    go (some i) e t h1 =
        let same : d.id ≡ i = ground (arith, eq_iff d.id i) in
        let version : d.version ≡ config.item_version = ground arith in (cc (e, same), version)

check_row-IsPinned :
    (config : Config) (sha : String) (row : Fields) (d : Document)
    → is_none config.item_id ≡ false
    → check_row config sha row ≡ ok d
    → IsPinned config d
unfolding check_row
check_row-IsPinned config sha row d there h =
    let (_, h1) =
      refuse-ok
        (not (is_str config.item_title (get row "title"))
          || not (is_str "DOCUMENT" (get row "category")))
        _ _ h in
    let (id, _, h2) = >>=-ok (as_str (get row "id") drift) _ h1 in
    let (version, _, h3) = >>=-ok (as_nat (get row "version") drift) _ h2 in
    let (_, h4) =
      refuse-ok (not (is_object_id id) || nat_eq version 0 || not (is_tagged sha row)) _ _ h3 in
    let (kept, h5) =
      refuse-ok (not (keeps_pins config (record { id = id; version = version }))) _ _ h4 in
    let same : record { id = id; version = version } ≡ d = ok_same h5 in
    rw (← same)
      (keeps_pins-IsPinned config (record { id = id; version = version }) there (ground arith))
  where
    ok_same : {a b : Document} → ok a ≡ ok b → a ≡ b
    ok_same e = cc (e)

select_row-IsPinned :
    (config : Config) (sha : String) (rows : List Fields) (d : Document)
    → is_none config.item_id ≡ false
    → select_row config sha rows ≡ ok (some d)
    → IsPinned config d
unfolding select_row
select_row-IsPinned config sha [] d there h = go config.item_id there h
  where
    go :
        (item : Option String)
        → is_none item ≡ false
        → (elim item [
          | none ↦ ok none
          | some _ ↦ err "The pinned native header object is missing."
        ])
          ≡ ok (some d)
        → IsPinned config d
    go none t h1 = absurd (cc (t))
    go (some i) t h1 = absurd (cc (h1))
select_row-IsPinned config sha (row ∷ []) d there h =
    let (found, checked, h1) = >>=-ok (check_row config sha row) _ h in
    let same : found ≡ d = cc (h1) in
    rw (← same) (check_row-IsPinned config sha row found there checked)
select_row-IsPinned config sha (_ ∷ _ ∷ _) d there h = absurd (cc (h))

ok_same : {A : Type 0} {a b : A} → ok a ≡ ok b → a ≡ b
ok_same e = cc (e)

first : (b c : Bool) (e : String) {u : Unit {0}} → refuse (b || c) e ≡ ok u → b ≡ false
first false c e h = refl
first true c e h = absurd (cc (h))

require-some :
    {A S : Type 0} (found : Option A) (e : String) (s : S) {a : A}
    → (require found e s).0 ≡ ok a
    → found ≡ some a
unfolding pure raise
require-some none e s h = absurd (cc (h))
require-some (some b) e s h = ap some (ok_same h)

require-same : {A S : Type 0} (found : Option A) (e : String) (s : S) → (require found e s).1 ≡ s
unfolding pure raise
require-same none e s = refl
require-same (some a) e s = refl

module _ {S : Type 0} (py : Stdlib) (cli : Cli S) where
  inspect-IsPinned :
      (config : Config) (sha : String) (s : S) (d : Document)
      → is_none config.item_id ≡ false
      → (inspect cli config sha s).0 ≡ ok (some d)
      → IsPinned config d
  unfolding inspect lift
  inspect-IsPinned config sha s d there h = bind-elim _ _ s h λ _ _ h1. bind-elim _ _ _ h1 λ _ _ h2.
      bind-elim _ _ _ h2 λ _ _ h3. bind-elim _ _ _ h3 λ _ _ h4. bind-elim _ _ _ h4 λ _ _ h5.
        bind-elim _ _ _ h5 λ _ _ h6. bind-elim _ _ _ h6 λ _ _ h7. bind-elim _ _ _ h7 λ _ _ h8.
          bind-elim _ _ _ h8 λ _ _ h9. bind-elim _ _ _ h9 λ _ _ h10. bind-elim _ _ _ h10 λ _ _ h11.
            bind-elim _ _ _ h11
              λ rows _ h12. select_row-IsPinned config sha (matches config rows) d there h12

  -- What a retrieval hands over: the package of the receipt, in the bytes that the client showed for the pinned
  -- item of the vault, between two inspections of the account that found the item at the pinned version.
  abbrev pub HandsOver : Config → Value → Retrieved → Type 0
  HandsOver config pins r =
      IsPinned config (record { id = r.item_id; version = r.item_version })
      × (raw : Bytes) × (before between_ after : S) × (again : Option Document) × ((inspect cli
            config r.package_sha256 before).0
          ≡ ok (some (record { id = r.item_id; version = r.item_version })))
      × (between_ ≡ (inspect cli config r.package_sha256 before).1)
      × ((Cli.run cli
            ("document" ∷ "get" ∷ r.item_id ∷ "--account" ∷ config.account_id ∷ "--vault"
              ∷ config.vault_id ∷ [])
            [] max_package between_).0
          ≡ ok raw)
      × (after
          ≡ (Cli.run cli
              ("document" ∷ "get" ∷ r.item_id ∷ "--account" ∷ config.account_id ∷ "--vault"
                ∷ config.vault_id ∷ [])
              [] max_package between_).1)
      × ((inspect cli config r.package_sha256 after).0 ≡ ok again)
      × (same_current again (some (record { id = r.item_id; version = r.item_version })) ≡ true)
      × (verify_download py raw pins ≡ ok r.contents)

  retrieve-HandsOver :
      (config : Config) (pins : Value) (sha : String) (s : S) (r : Retrieved)
      → (retrieve py cli config pins sha s).0 ≡ ok r
      → HandsOver config pins r
  unfolding retrieve lift pure
  retrieve-HandsOver config pins sha s r h = bind-elim _ _ s h λ _ pinned h1.
      bind-elim _ _ _ h1 λ found there h2. bind-elim _ _ _ h2 λ current same h3.
        bind-elim _ _ _ h3 λ raw shown h4. bind-elim _ _ _ h4 λ contents verified h5.
          bind-elim _ _ _ h5 λ again looked h6. bind-elim _ _ _ h6 λ _ unchanged h7.
            let seen = there ∙ ap ok (require-some found _ _ same) in
            rw (← ok_same h7) (
              inspect-IsPinned config sha s current (first _ _ _ pinned) seen,
              raw,
              s,
              _,
              _,
              again,
              seen,
              require-same found _ _,
              shown,
              refl,
              looked,
              refuse_unless _ _ unchanged,
              verified,
            )

  -- What is retrieved is a package that the receipt describes, in the bytes that the client showed for the item
  -- that the configuration pins, between two inspections that found the item at the pinned version.
  pub onepassword_read_custody-HandsOver :
      (settings pins : Value) (s : S) (r : Retrieved)
      → (onepassword_read_custody py cli settings pins s).0 ≡ ok r
      → (config : Config) × (validate_config settings ≡ ok config) × HandsOver config pins r
  unfolding onepassword_read_custody lift
  onepassword_read_custody-HandsOver settings pins s r h = bind-elim _ _ s h λ config valid h1.
      bind-elim _ _ _ h1 λ _ _ h2. bind-elim _ _ _ h2 λ _ _ h3.
        bind-elim _ _ _ h3 λ sha _ h4. (config, valid, retrieve-HandsOver config pins sha _ r h4)
