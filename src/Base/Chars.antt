-- ===== src/Base/Chars.antt =====
-- Texts by their code points: the character classes and counts of the source's regular expressions.
use Prim.Native.Nat.{ℕ}
use Prim.Native.Char.{code}
use Prim.Native.String.{String}
use mathlib.Core.Bool.{Bool, true, false, not, ◌&&◌, ◌||◌}
use mathlib.Core.List.{List, [], ◌∷◌}
use ansible_collection_found.Base.Tests.{leb, nat_eq}
use ansible_collection_found.Base.Lists.{length, any, all}

-- The code points of a text.
abbrev pub codes : String → List ℕ
codes String.[] = []
codes (String.◌∷◌ c s) = code c ∷ codes s

-- `len(s)`
abbrev pub len : String → ℕ
len s = length (codes s)

abbrev pub between : ℕ → ℕ → ℕ → Bool
between lo hi c = leb lo c && leb c hi

abbrev pub is_digit : ℕ → Bool
is_digit = between b'0' b'9'

abbrev pub is_lower : ℕ → Bool
is_lower = between b'a' b'z'

abbrev pub is_upper : ℕ → Bool
is_upper = between b'A' b'Z'

abbrev pub is_alnum : ℕ → Bool
is_alnum c = is_lower c || is_upper c || is_digit c

-- `[0-9a-f]`
abbrev pub is_hex : ℕ → Bool
is_hex c = is_digit c || between b'a' b'f' c

-- A class of a regular expression: letters, digits and the listed extra characters.
abbrev pub alnum_or : List ℕ → ℕ → Bool
alnum_or extra c = is_alnum c || any (nat_eq c) extra

-- `re.fullmatch("[cls]{lo,hi}", s)`
unfoldable pub repeat_match : (ℕ → Bool) → ℕ → ℕ → List ℕ → Bool
repeat_match cls lo hi cs = all cls cs && leb lo (length cs) && leb (length cs) hi

-- `re.fullmatch("[head][tail]{0,hi}", s)`
unfoldable pub head_tail : (ℕ → Bool) → (ℕ → Bool) → ℕ → List ℕ → Bool
unfolding repeat_match
head_tail head tail hi [] = false
head_tail head tail hi (c ∷ cs) = head c && repeat_match tail 0 hi cs

abbrev pub last_is : (ℕ → Bool) → List ℕ → Bool
last_is p [] = true
last_is p (c ∷ []) = p c
last_is p (_ ∷ cs) = last_is p cs

-- `re.fullmatch("[0-9a-f]{64}", s)`
unfoldable pub is_digest : String → Bool
unfolding repeat_match
is_digest s = repeat_match is_hex 64 64 (codes s)

-- `str.isspace` on one character.
unfoldable pub is_space : ℕ → Bool
is_space c =
    between 9 13 c
    || between 28 32 c
    || nat_eq c 133
    || nat_eq c 160
    || nat_eq c 5760
    || between 8192 8202 c
    || nat_eq c 8232
    || nat_eq c 8233
    || nat_eq c 8239
    || nat_eq c 8287
    || nat_eq c 12288

-- `not s.strip()`
unfoldable pub is_blank : String → Bool
unfolding is_space
is_blank s = all is_space (codes s)

-- `s.strip() == s`
unfoldable pub is_trimmed : List ℕ → Bool
unfolding is_space
is_trimmed [] = true
is_trimmed (c ∷ cs) = not (is_space c) && last_is (λ d. not (is_space d)) (c ∷ cs)
