-- ===== src/Base/Text.antt =====
-- Python's methods on texts that the code calls, character by character.
use Prim.Native.Nat.{ℕ, zero, suc}
use Prim.Native.Char.{code}
use Prim.Native.String.{String, ◌++◌ as ◌<>◌}
use mathlib.Core.Bool.{Bool, true, false, not, ◌&&◌, ◌||◌}
use mathlib.Core.List.{List, [], ◌∷◌}
use text.Mathlib.Text.{starts_with}
use ansible_collection_found.Base.Tests.{if◌then◌else◌}
use ansible_collection_found.Base.Lists.{select, length}
use ansible_collection_found.Base.Chars.{codes, is_space, between}

abbrev pub is_empty_text : String → Bool
is_empty_text String.[] = true
is_empty_text _ = false

-- `s.lstrip()` and `s.rstrip()`, of the characters of a class
unfoldable pub lstrip_of : (ℕ → Bool) → String → String
lstrip_of cls String.[] = ""
lstrip_of cls (String.◌∷◌ c s) =
    let rest = lstrip_of cls s in if cls (code c) then rest else String.◌∷◌ c s

unfoldable pub rstrip_of : (ℕ → Bool) → String → String
rstrip_of cls String.[] = ""
rstrip_of cls (String.◌∷◌ c s) =
    let rest = rstrip_of cls s in
    if is_empty_text rest && cls (code c) then "" else String.◌∷◌ c rest

-- `s.strip()`
unfoldable pub strip : String → String
unfolding lstrip_of rstrip_of is_space
strip s = rstrip_of is_space (lstrip_of is_space s)

-- `s[n:]`
unfoldable pub drop_text : ℕ → String → String
drop_text zero s = s
drop_text (suc n) String.[] = ""
drop_text (suc n) (String.◌∷◌ c s) = drop_text n s

-- `s[len(prefix):]` where `s` starts with the prefix, and `s` where it does not
unfoldable pub without_prefix : String → String → String
unfolding drop_text
without_prefix prefix s = if starts_with s prefix then drop_text (length (codes prefix)) s else s

-- The pieces between the characters of a class.
abbrev pub onto_first : String → List String → List String
onto_first c [] = c ∷ []
onto_first c (p ∷ ps) = (c <> p) ∷ ps

unfoldable pub split_at : (ℕ → Bool) → String → List String
split_at cls String.[] = "" ∷ []
split_at cls (String.◌∷◌ c s) =
    let parts = split_at cls s in
    if cls (code c) then "" ∷ parts else onto_first (String.◌∷◌ c "") parts

-- `s.split()`
unfoldable pub words : String → List String
unfolding split_at is_space
words s = select (λ part. not (is_empty_text part)) (split_at is_space s)

-- `s.splitlines()` of an ASCII text, but for empty lines.
unfoldable pub lines : String → List String
unfolding split_at
lines s =
    select (λ part. not (is_empty_text part)) (split_at (λ c. between 10 13 c || between 28 30 c) s)

-- `separator.join(parts)`
unfoldable pub join : String → List String → String
join separator [] = ""
join separator (p ∷ []) = p
join separator (p ∷ q ∷ ps) = p <> (separator <> join separator (q ∷ ps))
