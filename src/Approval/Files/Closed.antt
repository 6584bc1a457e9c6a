-- ===== src/Approval/Files/Closed.antt =====
-- Every descriptor that is opened is closed.
use ansible_collection_found.Base.{
  ℕ, zero, suc, String, Bool, true, false, sym, Bool-cases, inl, inr, List, [], ◌∷◌, Bytes, Option,
  ◌≡◌, refl, ◌∙◌, arith, length, nat_eq, leb, ◌++◌,
}
use ansible_collection_found.Base.Result.{Result, ok, err}
use ansible_collection_found.Base.Exec.{
  Exec, pure, ◌>>=◌, Relates, IsPreorder, Relates-pure, Relates-raise, Relates-lift, Relates-bind,
  bind-cases, Relates-elim, Relates-if,
}
use ansible_collection_found.Base.Value.{Value}
use ansible_collection_found.Stdlib.{Stdlib}
use ansible_collection_found.Approval.Disk.{Disk, Tracks}
use ansible_collection_found.Approval.Files.{
  or_fail, closing, validate_parent_chain, resolve_safely, resolve_canonical, read_all,
  read_program, trusted_executable, read_bounded, read_regular, trusted_regular_file,
  trusted_pinned_regular_file,
}

module _ {S : Type 0} (py : Stdlib) {disk : Disk S} {is_open : S → ℕ → Bool}
    (tracks : Tracks disk is_open) where
  -- The same descriptors are open after a block as before it.
  abbrev pub SameOpen : S → S → Type 0
  SameOpen s t = (d : ℕ) → is_open t d ≡ is_open s d

  order : IsPreorder SameOpen
  order = record { stay = λ s d. refl; chain = λ s t u h k d. k d ∙ h d }

  or_fail-SameOpen :
      {A : Type 0} (m : Exec S A) (e : String)
      → Relates SameOpen m
      → Relates SameOpen (or_fail py disk m e)
  unfolding or_fail
  or_fail-SameOpen {A = A} m e h = record { at = λ s. after s (m s) (h.at s) }
    where
      after :
          (s : S) (r : Result A × S)
          → SameOpen s r.1
          → SameOpen s
              (elim r.0 as (λ _. Result A × S) [ ok a ↦ (ok a, r.1) | err _ ↦ (err e, r.1) ]).1
      after s (ok a, t) h1 = h1
      after s (err _, t) h1 = h1

  -- One descriptor more than before is open.
  abbrev OneMore : ℕ → S → S → Type 0
  OneMore fd s t =
      (is_open s fd ≡ false)
      × (is_open t fd ≡ true)
      × ((d : ℕ) → nat_eq d fd ≡ false → is_open t d ≡ is_open s d)

  open_file-or_fail :
      (path e : String) (s : S) (fd : ℕ)
      → (or_fail py disk (Disk.open_file disk path) e s).0 ≡ ok fd
      → OneMore fd s (or_fail py disk (Disk.open_file disk path) e s).1
  unfolding or_fail
  open_file-or_fail path e s fd h =
      after (Disk.open_file disk path s)
        (λ d o.
          let (shut, there) = tracks.open-fresh path s d o in
          (shut, there, λ c apart. tracks.open-others path s d c o apart))
        h
    where
      after :
          (r : Result ℕ × S)
          → ((d : ℕ) → r.0 ≡ ok d → OneMore d s r.1)
          → (elim r.0 as (λ _. Result ℕ × S) [ ok a ↦ (ok a, r.1) | err _ ↦ (err e, r.1) ]).0
            ≡ ok fd
          → OneMore fd s
              (elim r.0 as (λ _. Result ℕ × S) [ ok a ↦ (ok a, r.1) | err _ ↦ (err e, r.1) ]).1
      after (ok a, t) grows h1 = grows fd h1
      after (err _, t) grows h1 = absurd (cc (h1))

  open_file-or_fail_fails :
      (path e : String) (s : S) (e1 : String)
      → (or_fail py disk (Disk.open_file disk path) e s).0 ≡ err e1
      → SameOpen s (or_fail py disk (Disk.open_file disk path) e s).1
  unfolding or_fail
  open_file-or_fail_fails path e s e1 h =
      after (Disk.open_file disk path s) (λ m o d. tracks.open-fails path s m d o) h
    where
      after :
          (r : Result ℕ × S)
          → ((m : String) → r.0 ≡ err m → SameOpen s r.1)
          → (elim r.0 as (λ _. Result ℕ × S) [ ok a ↦ (ok a, r.1) | err _ ↦ (err e, r.1) ]).0
            ≡ err e1
          → SameOpen s
              (elim r.0 as (λ _. Result ℕ × S) [ ok a ↦ (ok a, r.1) | err _ ↦ (err e, r.1) ]).1
      after (ok a, t) same h1 = absurd (cc (h1))
      after (err m, t) same h1 = same m refl

  -- Closing the descriptor that was opened leaves what was open before.
  close-SameOpen :
      (fd : ℕ) (s u t : S) → OneMore fd s u → SameOpen u t → SameOpen s (Disk.close disk fd t)
  close-SameOpen fd s u t (shut, there, others) same d = elim (Bool-cases (nat_eq d fd)) [
    | inl it ↦
        let e : d ≡ fd = ground (arith, it) in
        rw e (tracks.closed-close fd t (same fd ∙ there) ∙ sym shut)
    | inr apart ↦ tracks.closed-others fd t d apart ∙ same d ∙ others d apart
  ]

  -- A file that is opened, used and closed, and what follows.
  bracket-SameOpen :
      {A B : Type 0} (path e : String) (use_file : ℕ → Exec S A) (k : ℕ → A → Exec S B)
      → ((fd : ℕ) → Relates SameOpen (use_file fd))
      → ((fd : ℕ) (a : A) → Relates SameOpen (k fd a))
      → Relates SameOpen (
          or_fail py disk (Disk.open_file disk path) e >>= λ fd.
          closing py disk fd (use_file fd) >>= k fd)
  unfolding closing
  bracket-SameOpen path e use_file k used kept = record {
    at = λ s.
        bind-cases (or_fail py disk (Disk.open_file disk path) e) _ s (SameOpen s)
          (λ e1 h. open_file-or_fail_fails path e s e1 h)
          (λ fd h.
            let s1 = (or_fail py disk (Disk.open_file disk path) e s).1 in
            let closed =
              close-SameOpen fd s s1 (use_file fd s1).1 (open_file-or_fail path e s fd h)
                ((used fd).at s1) in
            bind-cases (closing py disk fd (use_file fd)) (k fd) s1 (SameOpen s) (λ e1 _. closed)
              (λ a _. order.chain s _ _ closed ((kept fd a).at _)));
  }

  lstat-SameOpen : (path : String) → Relates SameOpen (Disk.lstat disk path)
  lstat-SameOpen path = record { at = tracks.open-lstat path }

  resolve-SameOpen : (path : String) → Relates SameOpen (Disk.resolve disk path)
  resolve-SameOpen path = record { at = tracks.open-resolve path }

  fstat-SameOpen : (fd : ℕ) → Relates SameOpen (Disk.fstat disk fd)
  fstat-SameOpen fd = record { at = tracks.open-fstat fd }

  read-SameOpen : (fd n : ℕ) → Relates SameOpen (Disk.read disk fd n)
  read-SameOpen fd n = record { at = tracks.open-read fd n }

  ruleset calls = (
    order, Relates-pure, Relates-raise, Relates-lift, Relates-bind, lstat-SameOpen,
    resolve-SameOpen, fstat-SameOpen, read-SameOpen, or_fail-SameOpen,
  )

  validate_parent_chain-SameOpen :
      (paths : List String) (name : String)
      → Relates SameOpen (validate_parent_chain py disk paths name)
  unfolding validate_parent_chain
  validate_parent_chain-SameOpen [] name = search calls
  validate_parent_chain-SameOpen (_ ∷ paths) name =
      search (calls, validate_parent_chain-SameOpen paths) depth 8

  resolve_canonical-SameOpen :
      (path missing name : String) → Relates SameOpen (resolve_canonical py disk path missing name)
  unfolding resolve_canonical
  resolve_canonical-SameOpen path missing name = search calls depth 8

  resolve_safely-SameOpen :
      (path missing name : String) → Relates SameOpen (resolve_safely py disk path missing name)
  unfolding resolve_safely
  resolve_safely-SameOpen path missing name = search (calls, validate_parent_chain-SameOpen) depth 8

  read_all-SameOpen : (rounds fd : ℕ) → Relates SameOpen (read_all py disk rounds fd)
  unfolding read_all
  read_all-SameOpen zero fd = search calls
  read_all-SameOpen (suc rounds) fd = Relates-bind order _ _ (read-SameOpen fd _) λ chunk.
      Relates-bind order _ _
        (Relates-if (nat_eq (length chunk) 0) (pure []) (read_all py disk rounds fd)
          (λ _. Relates-pure order _) (read_all-SameOpen rounds fd))
        λ rest. Relates-pure order _

  read_bounded-SameOpen :
      (rounds fd maximum : ℕ) (payload : Bytes)
      → Relates SameOpen (read_bounded py disk rounds fd maximum payload)
  unfolding read_bounded
  read_bounded-SameOpen zero fd maximum payload = search calls
  read_bounded-SameOpen (suc rounds) fd maximum payload =
      Relates-elim (leb (length payload) maximum) _ _
        (λ _. Relates-bind order _ _ (read-SameOpen fd _) λ chunk.
          Relates-elim (nat_eq (length chunk) 0) _ _ (λ _. Relates-pure order _)
            (read_bounded-SameOpen rounds fd maximum (payload ++ chunk)))
        (Relates-pure order _)

  read_regular-SameOpen :
      (fd maximum : ℕ) (name : String) → Relates SameOpen (read_regular py disk fd maximum name)
  unfolding read_regular
  read_regular-SameOpen fd maximum name = search (calls, read_bounded-SameOpen) depth 12

  read_program-SameOpen :
      (rounds fd : ℕ) (name : String) → Relates SameOpen (read_program py disk rounds fd name)
  unfolding read_program
  read_program-SameOpen rounds fd name = search (calls, read_all-SameOpen) depth 12

  -- Whether the executable is accepted or refused, at whatever point, exactly the descriptors are open that
  -- were open before.
  pub trusted_executable-SameOpen :
      (rounds : ℕ) (path : Option Value) (expected name : String) (s : S)
      → (d : ℕ) → is_open (trusted_executable py disk rounds path expected name s).1 d ≡ is_open s d
  unfolding trusted_executable
  trusted_executable-SameOpen rounds path expected name s = Relates.at run s
    where
      run : Relates SameOpen (trusted_executable py disk rounds path expected name)
      run = Relates-bind order _ _ (Relates-lift order _) λ sha.
          Relates-bind order _ _ (Relates-lift order _) λ given.
            Relates-bind order _ _ (resolve_safely-SameOpen given _ name) λ resolved.
              bracket-SameOpen resolved _ (λ fd. read_program py disk rounds fd name) _
                (λ fd. read_program-SameOpen rounds fd name)
                (λ fd payload.
                  Relates-bind order _ _ (Relates-lift order _) λ _. Relates-pure order _)

  trusted_regular_file-SameOpen :
      (path : Option Value) (name : String) (maximum : ℕ)
      → Relates SameOpen (trusted_regular_file py disk path name maximum)
  unfolding trusted_regular_file
  trusted_regular_file-SameOpen path name maximum =
      Relates-bind order _ _ (Relates-lift order _) λ given.
        Relates-bind order _ _ (resolve_canonical-SameOpen given _ name) λ resolved.
          Relates-bind order _ _ (validate_parent_chain-SameOpen _ name) λ _.
            bracket-SameOpen given _ (λ fd. read_regular py disk fd maximum name) _
              (λ fd. read_regular-SameOpen fd maximum name) (λ fd payload. Relates-pure order _)

  -- Whether a pinned file is accepted or refused, at whatever point, exactly the descriptors are open that
  -- were open before.
  pub trusted_pinned_regular_file-SameOpen :
      (path : Option Value) (expected name : String) (maximum : ℕ) (s : S)
      → (d : ℕ)
      → is_open (trusted_pinned_regular_file py disk path expected name maximum s).1 d ≡ is_open s d
  unfolding trusted_pinned_regular_file
  trusted_pinned_regular_file-SameOpen path expected name maximum s = Relates.at run s
    where
      run : Relates SameOpen (trusted_pinned_regular_file py disk path expected name maximum)
      run = Relates-bind order _ _ (Relates-lift order _) λ sha.
          Relates-bind order _ _ (trusted_regular_file-SameOpen path name maximum)
            λ file. Relates-bind order _ _ (Relates-lift order _) λ _. Relates-pure order _
