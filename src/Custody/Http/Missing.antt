-- ===== src/Custody/Http/Missing.antt =====
-- A path that has history is never reported absent.
use ansible_collection_found.Base.{
  String, ◌<>◌, Bool, true, false, not, Option, none, ◌≡◌, ◌≢◌, refl, if◌then◌else◌,
}
use ansible_collection_found.Base.Result.{ok, refuse}
use ansible_collection_found.Base.Exec.{pure, lift, bind-elim}
use ansible_collection_found.Base.Value.{Value, null, bool, int, str, list, dict}
use ansible_collection_found.Stdlib.{Stdlib}
use ansible_collection_found.Custody.Client.{Row}
use ansible_collection_found.Custody.Http.{
  Wire, Session, request, is_absent, read_metadata, read_row, read,
}

module _ (py : Stdlib) (wire : Wire) (session : Session) (mount path : String) where
  -- What a request for the data, or for the metadata, of the path returns.
  abbrev pub Answers : String → Wire.State wire → Value → Type 0
  Answers part s v = (request py wire session "GET" (mount <> (part <> path)) none true s).0 ≡ ok v

  absent_null : (v : Value) → is_absent py wire v ≡ true → v ≡ null
  absent_null null h = refl
  absent_null (bool _) h = cc
  absent_null (int _) h = cc
  absent_null (str _) h = cc
  absent_null (list _) h = cc
  absent_null (dict _) h = cc

  absent_of :
      (v : Value) {u : Unit {0}}
      → refuse (not (is_absent py wire v)) "Vault custody has deleted or destroyed history." ≡ ok u
      → v ≡ null
  absent_of null h = refl
  absent_of (bool _) h = absurd (cc (h))
  absent_of (int _) h = absurd (cc (h))
  absent_of (str _) h = absurd (cc (h))
  absent_of (list _) h = absurd (cc (h))
  absent_of (dict _) h = absurd (cc (h))

  metadata_absent :
      (s : Wire.State wire) {r : Option Row}
      → (read_metadata py wire session mount path s).0 ≡ ok r
      → Answers "/metadata/" s null
  unfolding read_metadata lift
  metadata_absent s h =
      bind-elim _ _ s h
        λ v answer h1. bind-elim _ _ _ h1 λ _ passed _. rw (← absent_of v passed) answer

  -- The state after the request for the data.
  abbrev pub data_asked : Wire.State wire → Wire.State wire
  data_asked s = (request py wire session "GET" (mount <> ("/data/" <> path)) none true s).1

  row_present : (v : Value) (s : Wire.State wire) → (read_row py wire v s).0 ≢ ok none
  unfolding read_row pure
  row_present v s h = bind-elim _ _ s h λ row _ e. cc (e)

  by_answer :
      (b : Bool) (v : Value) (s : Wire.State wire)
      → ((if b then read_metadata py wire session mount path else read_row py wire v) s).0 ≡ ok none
      → (b ≡ true) × Answers "/metadata/" s null
  by_answer true v s h = (refl, metadata_absent s h)
  by_answer false v s h = absurd (row_present v s h)

  -- A path is reported absent only where both its data and its metadata are: a secret whose versions were
  -- deleted or destroyed is an error, so it is never created again.
  pub read-Answers :
      (s : Wire.State wire)
      → (read py wire session mount path s).0 ≡ ok none
      → Answers "/data/" s null × Answers "/metadata/" (data_asked s) null
  unfolding read
  read-Answers s h = bind-elim _ _ s h λ v answer h1.
      let (missing, metadata) = by_answer (is_absent py wire v) v _ h1 in
      (rw (← absent_null v missing) answer, metadata)
