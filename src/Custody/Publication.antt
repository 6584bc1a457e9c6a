-- ===== src/Custody/Publication.antt =====
-- Publication and retrieval together.
use ansible_collection_found.Base.{
  ℕ, suc, ◌<◌, String, ◌<>◌, true, false, Option, none, some, List, [], ◌∷◌, ◌++◌, Bytes, ◌≡◌, refl,
  ◌∙◌, arith, length, any, flatten,
}
use ansible_collection_found.Base.Result.{ok}
use ansible_collection_found.Base.Exec.{lift-of_ok}
use ansible_collection_found.Base.Value.{Value, Fields, dict, str, get, index, value_eq}
use ansible_collection_found.Stdlib.{Stdlib}
use ansible_collection_found.Custody.Package.{validate_package, unique_object}
use ansible_collection_found.Custody.Receipt.{safe_path, validate_read_pins, differs}
use ansible_collection_found.Custody.Chunks.{chunk_size, chunks}
use ansible_collection_found.Custody.Chunks.Laws.{flatten-chunks}
use ansible_collection_found.Custody.Client.{Client, Row, IsReliable}
use ansible_collection_found.Custody.Vault.{
  Entry, Outcome, chunk_record, chunk_entries, entries, assemble, confirm, vault_custody,
}
use ansible_collection_found.Custody.Vault.Commit.{DistinctPaths, SelfEqual}
use ansible_collection_found.Custody.Vault.Entries.{
  IsInjective, entries-DistinctPaths, chunk_entries-SelfEqual, manifest_record-eq_self,
}
use ansible_collection_found.Custody.Vault.Success.{
  nonempty, AllAbsent, AllExact, Exact, Exact-present, changed_since-Exact, transact-absent,
}
use ansible_collection_found.Custody.Retrieval.{Retrieved, vault_read_custody}
use ansible_collection_found.Custody.Retrieval.Receipts.{decode_package_self}
use ansible_collection_found.Custody.Retrieval.RoundTrip.{IsBase64, vault_read_custody-exact}

SelfEqual-append :
    (es : List Entry) (path : String) (value : Value)
    → SelfEqual es
    → value_eq value value ≡ true
    → SelfEqual (es ++ (path, value) ∷ [])
SelfEqual-append [] path value h own = (own, tt)
SelfEqual-append (_ ∷ es) path value h own = (h.0, SelfEqual-append es path value h.1 own)

not_Exact : (es : List Entry) (e : Entry) → ¬ (Exact (es ++ e ∷ []) [])
not_Exact [] e h = h
not_Exact (_ ∷ es) e h = h

nonempty-append : (es : List Entry) (e : Entry) → nonempty (es ++ e ∷ []) ≡ true
nonempty-append [] e = refl
nonempty-append (_ ∷ es) e = refl

module _ (py : Stdlib) (root : String) where
  -- The rows of the chunks hold the package.
  assemble-Exact :
      (i : ℕ) (bs : List Bytes) (last : Entry) (rows : List (Option Row))
      → IsBase64 py bs
      → Exact (chunk_entries py root i bs ++ last ∷ []) rows
      → assemble py rows ≡ ok (flatten bs)
  unfolding assemble chunk_entries chunk_record
  assemble-Exact i [] last (some _ ∷ []) base64 h = refl
  assemble-Exact i (b ∷ bs) last (some row ∷ r ∷ rows) base64 h =
      rw (h.0, base64.0, assemble-Exact (suc i) bs last (r ∷ rows) base64.2 h.1)
  assemble-Exact i (b ∷ bs) last (some row ∷ []) base64 h =
      absurd (not_Exact (chunk_entries py root (suc i) bs) last h.1)
  assemble-Exact i [] last (some _ ∷ _ ∷ _) base64 h = absurd h.1
  assemble-Exact i [] last [] base64 h = absurd h
  assemble-Exact i [] last (none ∷ _) base64 h = absurd h
  assemble-Exact i (b ∷ bs) last [] base64 h = absurd h
  assemble-Exact i (b ∷ bs) last (none ∷ _) base64 h = absurd h

module _ (py : Stdlib) (injective : IsInjective (Stdlib.decimal py)) {c : Client}
    (reliable : IsReliable c) (mount prefix : String) (p m : Fields) (raw : Bytes) (receipt : Value)
    (pins : Fields) (safe_mount : safe_path mount ≡ ok mount)
    (safe_prefix : safe_path prefix ≡ ok prefix) (valid : validate_package py (dict p) ≡ ok raw)
    (some_bytes : 0 < length raw) (parsed : Stdlib.loads py unique_object raw ≡ ok (dict p))
    (present : get p "manifest" ≡ some (dict m)) (own : value_eq (dict m) (dict m) ≡ true)
    (base64 : IsBase64 py (chunks chunk_size raw)) where
  abbrev pub root_of : String
  root_of = prefix <> ("/" <> Stdlib.sha256 py raw)

  abbrev pub objects : List Entry
  objects = entries py root_of (Stdlib.sha256 py raw) raw (dict m)

  objects-DistinctPaths : DistinctPaths objects
  unfolding entries
  objects-DistinctPaths = entries-DistinctPaths py injective root_of 0 (chunks chunk_size raw) _

  objects-SelfEqual : SelfEqual objects
  unfolding entries
  objects-SelfEqual =
      SelfEqual-append (chunk_entries py root_of 0 (chunks chunk_size raw)) _ _
        (chunk_entries-SelfEqual py injective root_of 0 (chunks chunk_size raw))
        (manifest_record-eq_self py injective root_of _ _ _ (dict m) own)

  confirm-Exact :
      (rows : List (Option Row)) → Exact objects rows → confirm py objects rows raw ≡ ok tt
  unfolding confirm entries
  confirm-Exact rows exact = rw (
    changed_since-Exact py objects rows exact objects-SelfEqual,
    assemble-Exact py root_of 0 (chunks chunk_size raw) _ rows base64 exact,
    flatten-chunks chunk_size positive raw,
    decode_package_self py p m raw (dict m) valid some_bytes parsed,
  )
    where
      positive : 0 < chunk_size
      positive = unfold chunk_size in omega arith

  split :
      (es : List Entry) (path : String) (value : Value) (t : Client.State c)
      → AllExact py reliable mount t (es ++ (path, value) ∷ [])
      → AllExact py reliable mount t es
        × (n : ℕ) × (Client.stored c t mount path ≡ some (record { payload = value; version = n }))
  split [] path value t h = (tt, h.0.0, h.0.1)
  split (_ ∷ es) path value t h = let (a, n, b) = split es path value t h.1 in ((h.0, a), n, b)

  -- Publishing a package to a provider that answers and holds none of its objects succeeds, reports a
  -- change and a complete readback, and the retrieval by a matching receipt returns that package.
  pub vault_custody-then-vault_read_custody :
      (s : Client.State c)
      → get pins "package_sha256" ≡ some (str (Stdlib.sha256 py raw))
      → validate_read_pins py receipt ≡ ok pins
      → any (differs py m pins) ("subject" ∷ "source_machine_id" ∷ "luks_uuid" ∷ []) ≡ false
      → AllAbsent py reliable mount s objects
      → (t : Client.State c) × (o : Outcome) × (r : Retrieved) × (vault_custody py c mount prefix
            (dict p)
            "apply"
            false
            s
          ≡ (ok o, t))
        × (o.changed ≡ true)
        × (o.verified ≡ true)
        × (vault_read_custody py c mount prefix receipt t ≡ (ok r, t))
        × (r.contents ≡ dict p)
  unfolding vault_custody entries
  vault_custody-then-vault_read_custody s pinned well same absent =
      let (t, rows, exact, stored, ran) =
        transact-absent py reliable mount objects raw (Stdlib.sha256 py raw) root_of s absent
          objects-DistinctPaths confirm-Exact in
      let (chunks_stored, n, manifest_stored) =
        split (chunk_entries py root_of 0 (chunks chunk_size raw)) _ _ t stored in
      (
        t,
        _,
        _,
        lift-of_ok (safe_path mount) _ s mount safe_mount
            ∙ lift-of_ok (safe_path prefix) _ s prefix safe_prefix
            ∙ lift-of_ok _ _ s tt refl
            ∙ lift-of_ok (validate_package py (dict p)) _ s raw valid
            ∙ lift-of_ok _ _ s p refl
            ∙ lift-of_ok _ _ s (dict m) (rw (index, present))
            ∙ ran,
        nonempty-append (chunk_entries py root_of 0 (chunks chunk_size raw)) _,
        Exact-present py objects rows exact,
        vault_read_custody-exact py injective reliable mount prefix p m raw valid some_bytes parsed
            present own base64 receipt pins n t safe_mount safe_prefix well pinned same
            manifest_stored chunks_stored,
        refl,
      )
