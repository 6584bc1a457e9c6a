-- ===== src/Approval/Checks.antt =====
-- The exact forms that the boundary accepts.
use ansible_collection_found.Base.{
  String, ◌<>◌, Bool, ◌&&◌, ◌||◌, Option, some, List, [], ◌∷◌, all, codes, length, leb, is_upper,
  is_digit, is_digest, repeat_match, distinct, if◌then◌else◌,
}
use ansible_collection_found.Base.Result.{Result, ok, err}
use ansible_collection_found.Base.Value.{Value, str, list, items, str_and}

-- `[A-Z0-9]{26}`
unfoldable pub is_user_uuid : String → Bool
unfolding repeat_match
is_user_uuid s = repeat_match (λ c. is_upper c || is_digit c) 26 26 (codes s)

unfoldable pub normalize_sha256 : Option Value → String → Result String
normalize_sha256 (some (str s)) name =
    if is_digest s then ok s else err (name <> " must be one complete lowercase SHA-256 digest.")
normalize_sha256 _ name = err (name <> " must be one complete lowercase SHA-256 digest.")

-- The texts of a list; anything else is left out.
abbrev pub texts : List Value → List String
texts [] = []
texts (str s ∷ vs) = s ∷ texts vs
texts (_ ∷ vs) = texts vs

unfoldable pub is_uuid_list : List Value → Bool
unfolding is_user_uuid
is_uuid_list vs =
    leb 1 (length vs)
    && leb (length vs) 32
    && all (λ v. str_and is_user_uuid (some v)) vs
    && distinct (texts vs)

unfoldable pub normalize_user_uuid_list : Option Value → String → Result (List String)
unfolding is_uuid_list
normalize_user_uuid_list (some (list vs)) name =
    if is_uuid_list (items vs)
    then ok (texts (items vs))
    else err (name <> " must be a unique non-empty list of exact 1Password user UUIDs.")
normalize_user_uuid_list _ name =
    err (name <> " must be a unique non-empty list of exact 1Password user UUIDs.")
