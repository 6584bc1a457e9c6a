-- ===== src/Custody/Vault/Entries.antt =====
-- The objects of one package lie at distinct paths, and the manifest commits them.
use text.Mathlib.TextLemmas.{append_cancel_left}
use text.Mathlib.TextPositions.{starts_with-append}
use ansible_collection_found.Base.{
  ℕ, suc, ◌<◌, String, ◌<>◌, Bool, true, false, none, some, List, [], ◌∷◌, ◌++◌, Bytes, ◌≡◌, ◌≢◌,
  refl, sym, ap, inl, inr, arith, eq_refl, length, starts_with,
}
use ansible_collection_found.Base.Result.{ok}
use ansible_collection_found.Base.Exec.{lift-cases}
use ansible_collection_found.Base.Value.{Value, Fields, dict, get, index, value_eq, as_dict}
use ansible_collection_found.Stdlib.{Stdlib}
use ansible_collection_found.Custody.Package.{validate_package}
use ansible_collection_found.Custody.Chunks.{chunk_size, chunks}
use ansible_collection_found.Custody.Client.{Client, Row, IsFaithful}
use ansible_collection_found.Custody.Vault.{
  Entry, chunk_path, chunk_record, chunk_entries, manifest_record, entries, vault_custody,
}
use ansible_collection_found.Custody.Vault.Commit.{
  Fresh, DistinctPaths, SelfEqual, AllStored, Committed, transact-Committed,
}

-- `str(n)` tells numbers apart.
abbrev pub IsInjective : (ℕ → String) → Type 0
IsInjective f = (a b : ℕ) → f a ≡ f b → a ≡ b

module _ (py : Stdlib) (injective : IsInjective (Stdlib.decimal py)) (root : String) where
  chunk_path_injective : (i j : ℕ) → chunk_path py root i ≡ chunk_path py root j → i ≡ j
  unfolding chunk_path
  chunk_path_injective i j h =
      injective i j (append_cancel_left "/chunk-" _ _ (append_cancel_left root _ _ h))

  chunk_path-ne-manifest : (i : ℕ) → chunk_path py root i ≢ root <> "/manifest"
  unfolding chunk_path
  chunk_path-ne-manifest i h = cc (
    ap (λ s. starts_with s "/chunk-") (append_cancel_left root _ _ h),
    starts_with-append "/chunk-" (Stdlib.decimal py i),
    not_prefix,
  )
    where
      not_prefix : starts_with "/manifest" "/chunk-" ≡ false
      not_prefix = refl

  Fresh-chunk_entries :
      (i j : ℕ) (cs : List Bytes) (manifest : Value)
      → i < j
      → Fresh
          (chunk_path py root i)
          (chunk_entries py root j cs ++ (root <> "/manifest", manifest) ∷ [])
  unfolding chunk_entries
  Fresh-chunk_entries i j [] manifest h = (λ e. chunk_path-ne-manifest i (sym e), tt)
  Fresh-chunk_entries i j (_ ∷ cs) manifest h = (
    λ e. absurd (omega (arith, chunk_path_injective j i e)),
    Fresh-chunk_entries i (suc j) cs manifest (omega arith),
  )

  pub entries-DistinctPaths :
      (i : ℕ) (cs : List Bytes) (manifest : Value)
      → DistinctPaths (chunk_entries py root i cs ++ (root <> "/manifest", manifest) ∷ [])
  unfolding chunk_entries
  entries-DistinctPaths i [] manifest = (tt, tt)
  entries-DistinctPaths i (_ ∷ cs) manifest = (
    Fresh-chunk_entries i (suc i) cs manifest (omega arith),
    entries-DistinctPaths (suc i) cs manifest,
  )

  chunk_record-eq_self :
      (i : ℕ) (chunk : Bytes) → value_eq (chunk_record py i chunk) (chunk_record py i chunk) ≡ true
  unfolding chunk_record value_eq
  chunk_record-eq_self i chunk =
      ground (arith, eq_refl (Stdlib.sha256 py chunk), eq_refl (Stdlib.b64encode py chunk))

  pub manifest_record-eq_self :
      (sha : String) (size count : ℕ) (manifest : Value)
      → value_eq manifest manifest ≡ true
      → value_eq
          (manifest_record py sha size count manifest)
          (manifest_record py sha size count manifest)
        ≡ true
  unfolding manifest_record value_eq
  manifest_record-eq_self sha size count manifest own = ground (arith, eq_refl sha)

  pub chunk_entries-SelfEqual : (i : ℕ) (cs : List Bytes) → SelfEqual (chunk_entries py root i cs)
  unfolding chunk_entries
  chunk_entries-SelfEqual i [] = tt
  chunk_entries-SelfEqual i (chunk ∷ cs) =
      (chunk_record-eq_self i chunk, chunk_entries-SelfEqual (suc i) cs)

module _ (py : Stdlib) (injective : IsInjective (Stdlib.decimal py)) {c : Client}
    (faithful : IsFaithful c) (mount prefix : String) (p : Fields) (raw : Bytes) (manifest : Value)
    (valid : validate_package py (dict p) ≡ ok raw)
    (present : get p "manifest" ≡ some manifest) where
  abbrev pub root : String
  root = prefix <> ("/" <> Stdlib.sha256 py raw)

  abbrev pub chunk_objects : List Entry
  chunk_objects = chunk_entries py root 0 (chunks chunk_size raw)

  commits :
      (operation : String) (check_mode : Bool) (s : Client.State c)
      → Committed py faithful mount
          (root <> "/manifest")
          (manifest_record py
            (Stdlib.sha256 py raw)
            (length raw)
            (length (chunks chunk_size raw))
            manifest)
          chunk_objects
          s
          (vault_custody py c mount prefix (dict p) operation check_mode s).1
  unfolding vault_custody entries
  commits operation check_mode s =
      let P = λ (t : Client.State c).
        Committed py faithful mount (root <> "/manifest") value chunk_objects s t in
      let none_yet : P s = inl refl in
      lift-cases _ _ s P none_yet λ _ _. lift-cases _ _ s P none_yet λ _ _.
        lift-cases _ _ s P none_yet λ _ _.
          lift-cases (validate_package py (dict p)) _ s P none_yet λ raw' is_raw.
            lift-cases (as_dict (some (dict p)) "TypeError") _ s P none_yet λ p' is_p.
              lift-cases (index p' "manifest") _ s P none_yet λ manifest' is_manifest.
                rw
                  (
                    let e : raw' ≡ raw = cc in e,
                    let e : manifest' ≡ manifest = same_manifest p' manifest' is_p is_manifest in e,
                  )
                  (transact-Committed py faithful mount (root <> "/manifest") value chunk_objects
                    raw (Stdlib.sha256 py raw) root operation check_mode s
                    (entries-DistinctPaths py injective root 0 (chunks chunk_size raw) value)
                    (chunk_entries-SelfEqual py injective root 0 (chunks chunk_size raw)))
    where
      value : Value
      value =
          manifest_record py (Stdlib.sha256 py raw) (length raw) (length (chunks chunk_size raw))
            manifest

      same_manifest :
          (p' : Fields) (m : Value)
          → as_dict (some (dict p)) "TypeError" ≡ ok p'
          → index p' "manifest" ≡ ok m
          → m ≡ manifest
      same_manifest p' m is_p is_m = ground arith

  -- The manifest is the commit point: where it was absent before a run and is stored after it, every
  -- chunk of the package is stored too, whatever the operation and whichever call failed.
  pub vault_custody-commit :
      (operation : String) (check_mode : Bool) (s : Client.State c) (row : Row)
      → Client.stored c s mount (root <> "/manifest") ≡ none
      → Client.stored c
          (vault_custody py c mount prefix (dict p) operation check_mode s).1
          mount
          (root <> "/manifest")
        ≡ some row
      → AllStored py faithful mount
          (vault_custody py c mount prefix (dict p) operation check_mode s).1
          chunk_objects
  vault_custody-commit operation check_mode s row absent here =
      elim (commits operation check_mode s) [ inl same ↦ cc | inr stored ↦ stored ]
