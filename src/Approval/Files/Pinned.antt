-- ===== src/Approval/Files/Pinned.antt =====
-- What an accepted file is.
use ansible_collection_found.Base.{
  ℕ, ◌≤◌, String, false, Option, some, none, Bytes, ◌≡◌, sym, ap, ◌∙◌, arith, length, ltb, eq_iff,
}
use ansible_collection_found.Base.Result.{ok, refuse_passed, refuse_unless, ok_same}
use ansible_collection_found.Base.Exec.{pure, lift, bind-elim}
use ansible_collection_found.Base.Value.{Value, str, null, bool, int, list, dict}
use ansible_collection_found.Stdlib.{Stdlib}
use ansible_collection_found.Approval.Checks.{normalize_sha256}
use ansible_collection_found.Approval.Disk.{Disk}
use ansible_collection_found.Approval.Files.{
  check_path, resolve_canonical, closing, read_regular, trusted_regular_file,
  trusted_pinned_regular_file,
}

normalize_sha256-ok : (s name r : String) → normalize_sha256 (some (str s)) name ≡ ok r → s ≡ r
unfolding normalize_sha256
normalize_sha256-ok s name r h = ground (arith)

check_path-ok :
    (normpath : String → String) (v : Option Value) (name path : String)
    → check_path normpath v name ≡ ok path
    → v ≡ some (str path)
unfolding check_path
check_path-ok normpath none name path h = absurd (cc (h))
check_path-ok normpath (some (str s)) name path h = ground arith
check_path-ok normpath (some null) name path h = absurd (cc (h))
check_path-ok normpath (some (bool _)) name path h = absurd (cc (h))
check_path-ok normpath (some (int _)) name path h = absurd (cc (h))
check_path-ok normpath (some (list _)) name path h = absurd (cc (h))
check_path-ok normpath (some (dict _)) name path h = absurd (cc (h))

module _ {S : Type 0} (py : Stdlib) (disk : Disk S) where
  resolve_canonical-ok :
      (path missing name resolved : String) (s : S)
      → (resolve_canonical py disk path missing name s).0 ≡ ok resolved
      → resolved ≡ path
  unfolding resolve_canonical lift pure
  resolve_canonical-ok path missing name resolved s h = bind-elim _ _ s h λ r _ h1.
      bind-elim _ _ _ h1 λ _ same h2. sym (ok_same h2) ∙ (eq_iff r path).0 (refuse_unless _ _ same)

  read_regular_bound :
      (fd maximum : ℕ) (name : String) (payload : Bytes) (s : S)
      → (read_regular py disk fd maximum name s).0 ≡ ok payload
      → length payload ≤ maximum
  unfolding read_regular lift pure
  read_regular_bound fd maximum name payload s h = bind-elim _ _ s h λ before _ h1.
      bind-elim _ _ _ h1 λ _ _ h2. bind-elim _ _ _ h2 λ bytes _ h3. bind-elim _ _ _ h3 λ after _ h4.
        bind-elim _ _ _ h4 λ _ small h5. bind-elim _ _ _ h5 λ _ _ h6.
          let same : bytes ≡ payload = ok_same h6 in
          let fits : ltb maximum (length bytes) ≡ false = refuse_passed _ _ small in
          rw (← same) (ground arith)

  trusted_regular_file-ok :
      (path : Option Value) (name : String) (maximum : ℕ) (file : String × Bytes) (s : S)
      → (trusted_regular_file py disk path name maximum s).0 ≡ ok file
      → (path ≡ some (str file.0)) × (length file.1 ≤ maximum)
  unfolding trusted_regular_file lift pure closing
  trusted_regular_file-ok path name maximum file s h = bind-elim _ _ s h λ given checked h1.
      bind-elim _ _ _ h1 λ resolved canonical h2. bind-elim _ _ _ h2 λ _ _ h3.
        bind-elim _ _ _ h3 λ fd _ h4. bind-elim _ _ _ h4 λ payload whole h5.
          let same : (resolved, payload) ≡ file = ok_same h5 in
          rw (← same) (
            check_path-ok _ path name given checked
                ∙ ap (λ p. some (str p))
                    (sym (resolve_canonical-ok given _ name resolved _ canonical)),
            read_regular_bound fd maximum name payload _ whole,
          )

  -- A pinned file is accepted only at its own resolved path, within its size, and with the pinned digest.
  pub trusted_pinned_regular_file-IsPinned :
      (path : Option Value) (expected name : String) (maximum : ℕ) (file : String × Bytes) (s : S)
      → (trusted_pinned_regular_file py disk path expected name maximum s).0 ≡ ok file
      → (path ≡ some (str file.0))
        × (length file.1 ≤ maximum)
        × (Stdlib.sha256 py file.1 ≡ expected)
  unfolding trusted_pinned_regular_file lift pure
  trusted_pinned_regular_file-IsPinned path expected name maximum file s h =
      bind-elim _ _ s h λ sha digest h1. bind-elim _ _ _ h1 λ found whole h2.
        bind-elim _ _ _ h2 λ _ matches h3.
          let same : found ≡ file = ok_same h3 in
          let (at, small) = trusted_regular_file-ok path name maximum found _ whole in
          rw (← same) (
            at,
            small,
            (eq_iff (Stdlib.sha256 py found.1) sha).0 (refuse_unless _ _ matches)
                ∙ sym (normalize_sha256-ok expected _ sha digest),
          )
