-- ===== src/OnePassword/Arguments.antt =====
-- The arguments that the 1Password actions share.
use ansible_collection_found.Base.{
  ℕ, ◌+◌, ◌-◌, ◌*◌, String, ◌<>◌, Bool, true, false, not, ◌&&◌, ◌||◌, ◌==◌, Option, none, some,
  List, [], ◌∷◌, all, any, contains, subset, select, codes, len, length, leb, nat_eq, if◌then◌else◌,
  is_alnum, is_digit, alnum_or, last_is, starts_with, split_at, join,
}
use ansible_collection_found.Base.Result.{Result, ok, err, ◌>>=◌, ◌>>◌, refuse}
use ansible_collection_found.Base.Value.{
  Value, Fields, ℤ, null, bool, int, str, dict, pos, end, get, key_names, as_str, value_eq,
}
use ansible_collection_found.Firewall.Order.{sort, text_le}

-- `[A-Za-z0-9](?:[cls]{0,hi}[A-Za-z0-9])?`, where `cls` is letters, digits and the extra characters.
unfoldable pub framed : List ℕ → ℕ → List ℕ → Bool
framed extra hi [] = false
framed extra hi (c ∷ cs) =
    is_alnum c && last_is is_alnum (c ∷ cs) && all (alnum_or extra) cs && leb (length cs) (hi + 1)

unfoldable pub is_host : String → Bool
unfolding framed
is_host s = framed (b'.' ∷ b'-' ∷ []) 251 (codes s)

abbrev pub email_extra : List ℕ
email_extra =
    b'.' ∷ b'!' ∷ b'#' ∷ b'$' ∷ b'%' ∷ b'&' ∷ 39 ∷ b'*' ∷ b'+' ∷ b'/' ∷ b'=' ∷ b'?' ∷ b'^' ∷ b'_'
    ∷ 96 ∷ b'{' ∷ b'|' ∷ b'}' ∷ b'~' ∷ b'-' ∷ []

-- A local part and a host, with one `@` between them.
unfoldable pub is_email : String → Bool
unfolding is_host split_at
is_email s = parts (split_at (nat_eq b'@') s)
  where
    parts : List String → Bool
    parts (name ∷ host ∷ []) =
        leb 1 (len name) && all (alnum_or email_extra) (codes name) && is_host host
    parts _ = false

-- `args.get(name, default)`
abbrev pub get_or : Fields → String → Value → Value
get_or args name default = elim (get args name) [ none ↦ default | some value ↦ value ]

-- `value in ({}, None)`
abbrev pub is_unset : Value → Bool
is_unset value = value_eq value (dict end) || value_eq value null

unfoldable pub check_known : List String → Fields → Result (Unit {0})
check_known expected args = refuse (not (subset (key_names args) expected)) (
    "Unsupported arguments: "
    <> (join ", " (sort text_le (select (λ name. not (contains expected name)) (key_names args)))
        <> "."))

unfoldable pub normalize_boolean : Value → String → Result Bool
normalize_boolean (bool b) name = ok b
normalize_boolean (str s) name =
    if contains ("true" ∷ "false" ∷ []) s
    then ok (s == "true")
    else err (name <> " must be a boolean.")
normalize_boolean _ name = err (name <> " must be a boolean.")

-- `int(text, 10)` of decimal digits
abbrev pub decimal_from : ℕ → List ℕ → ℕ
decimal_from total [] = total
decimal_from total (c ∷ cs) = decimal_from (total * 10 + (c - b'0')) cs

unfoldable pub normalize_integer : Value → String → Result ℤ
normalize_integer (int n) name = ok n
normalize_integer (str s) name =
    if leb 1 (len s) && all is_digit (codes s)
    then ok (pos (decimal_from 0 (codes s)))
    else err (name <> " must be an integer.")
normalize_integer _ name = err (name <> " must be an integer.")

pub data Operation : Type 0 where
  plan : Operation
  apply : Operation

abbrev pub is_plan : Operation → Bool
is_plan plan = true
is_plan apply = false

abbrev pub operation_name : Operation → String
operation_name plan = "plan"
operation_name apply = "apply"

unfoldable pub parse_operation : Option Value → Result Operation
parse_operation (some (str s)) =
    if s == "plan"
    then ok plan
    else if s == "apply"
    then ok apply
    else err "operation must be plan or apply."
parse_operation _ = err "operation must be plan or apply."

unfoldable pub parse_cli_path : (String → String) → Option Value → Result String
parse_cli_path normpath path = do
  given ← as_str path "cli_path must be a non-empty absolute path."
  refuse (not (starts_with given "/")) "cli_path must be a non-empty absolute path."
  refuse (any (λ c. nat_eq c 0 || nat_eq c 10 || nat_eq c 13) (codes given))
      "cli_path contains an invalid character."
  refuse (not (normpath given == given)) "cli_path must be normalized."
  ok given

-- A text that passes a test.
unfoldable pub exact : (String → Bool) → Option Value → String → Result String
exact test value message = do
  given ← as_str value message
  refuse (not (test given)) message
  ok given
