-- ===== src/Document/Config.antt =====
-- `validate_config`: the closed contract of the native 1Password client.
use ansible_collection_found.Base.{
  ℕ, zero, suc, String, Bool, true, false, not, ◌&&◌, ◌||◌, Option, none, some, List, [], ◌∷◌,
  length, any, all, codes, len, ltb, leb, nat_eq, if◌then◌else◌, is_alnum, is_digit, is_lower,
  alnum_or, repeat_match, head_tail, is_digest, is_trimmed, distinct, starts_with,
}
use ansible_collection_found.Base.Result.{Result, ok, err, ◌>>=◌, ◌>>◌, refuse}
use ansible_collection_found.Base.Value.{
  Value, Fields, null, bool, int, str, list, dict, pos, end, nil, items, get, index, has_keys,
  str_and, as_str, as_nat,
}
use ansible_collection_found.Approval.Checks.{is_user_uuid, texts}
use ansible_collection_found.Custody.Receipt.{onto}

abbrev pub config_fields : List String
config_fields =
    "cli_path" ∷ "cli_sha256" ∷ "cli_version" ∷ "account_id" ∷ "account_sign_in_address"
    ∷ "authorized_user_uuids" ∷ "vault_id" ∷ "item_title" ∷ "item_id" ∷ "item_version"
    ∷ "executor_uid" ∷ "executor_node" ∷ []

-- The checked configuration. A false `item_id` pins no item.
pub record Config : Type 0 where
  pub account_id : String
  pub vault_id : String
  pub cli_version : String
  pub account_sign_in_address : String
  pub authorized_user_uuids : List String
  pub item_title : String
  pub item_id : Option String
  pub item_version : ℕ
  -- the mapping itself
  pub fields : Fields

-- `[a-z0-9]{26}`
unfoldable pub is_object_id : String → Bool
unfolding repeat_match
is_object_id s = repeat_match (λ c. is_lower c || is_digit c) 26 26 (codes s)

-- `s.split(".")`, by code points.
unfoldable pub split_dots : List ℕ → List (List ℕ)
split_dots [] = [] ∷ []
split_dots (c ∷ cs) =
    let parts = split_dots cs in if nat_eq c b'.' then [] ∷ parts else onto c parts

-- `[0-9]+\.[0-9]+\.[0-9]+`
unfoldable pub is_version : String → Bool
unfolding split_dots
is_version s =
    let parts = split_dots (codes s) in
    nat_eq (length parts) 3 && all (λ part. leb 1 (length part) && all is_digit part) parts

-- `[A-Za-z0-9][A-Za-z0-9.-]{0,251}`
unfoldable pub is_address : String → Bool
unfolding head_tail
is_address s = head_tail is_alnum (alnum_or (b'.' ∷ b'-' ∷ [])) 251 (codes s)

unfoldable pub is_title : String → Bool
unfolding is_trimmed
is_title s =
    leb 1 (len s) && leb (len s) 250 && is_trimmed (codes s) && not (any (λ c. ltb c 32) (codes s))

-- `bool(value)`
abbrev pub truthy : Value → Bool
truthy null = false
truthy (bool b) = b
truthy (int (pos zero)) = false
truthy (int _) = true
truthy (str s) = leb 1 (len s)
truthy (list nil) = false
truthy (list _) = true
truthy (dict end) = false
truthy (dict _) = true

unfoldable pub parse_users : Value → Result (List String)
parse_users (list vs) = do
  let users = items vs
  refuse
      (not (leb 1 (length users))
        || not (all (λ v. str_and is_user_uuid (some v)) users)
        || not (distinct (texts users)))
      "Exact allowed operator identities are required."
  ok (texts users)
parse_users _ = err "Exact allowed operator identities are required."

-- The pinned item, with a false value as none.
unfoldable pub parse_item : Value → ℕ → Result (Option String)
parse_item identity zero =
    if truthy identity
    then err "Pin an exact existing item and positive version together."
    else ok none
parse_item identity (suc _) = do
  refuse (not (truthy identity)) "Pin an exact existing item and positive version together."
  item ← as_str (some identity) "TypeError"
  refuse (not (is_object_id item)) "Pin an exact existing item and positive version together."
  ok (some item)

-- The identities of the account and of the executor, and the CLI.
unfoldable pub check_client : Fields → Result (Unit {0})
check_client config = do
  refuse (not (str_and is_user_uuid (get config "account_id")))
      "Invalid 1Password account identity."
  vault ← as_str (get config "vault_id") "TypeError"
  refuse (not (is_object_id vault)) "Invalid 1Password vault identity."
  uid ← as_nat (get config "executor_uid") "Exact native executor UID and node are required."
  refuse (nat_eq uid 0 || not (str_and (λ s. leb 1 (len s)) (get config "executor_node")))
      "Exact native executor UID and node are required."
  sha ← as_str (get config "cli_sha256") "TypeError"
  refuse (not (is_digest sha)) "Exact approved CLI bytes and version are required."
  version ← as_str (get config "cli_version") "TypeError"
  refuse
      (not (is_version version) || not (str_and (λ s. starts_with s "/") (get config "cli_path")))
      "Exact approved CLI bytes and version are required."

-- The configuration whose fields have passed: the code goes on with the same mapping.
unfoldable pub validate_contract : Fields → Result Config
validate_contract config = do
  refuse (not (has_keys config config_fields))
      "The complete closed native 1Password contract is required."
  check_client config
  account ← as_str (get config "account_id") "TypeError"
  vault ← as_str (get config "vault_id") "TypeError"
  version ← as_str (get config "cli_version") "TypeError"
  address ← as_str (get config "account_sign_in_address") "TypeError"
  refuse (not (is_address address)) "Exact 1Password sign-in address is required."
  allowed ← index config "authorized_user_uuids"
  users ← parse_users allowed
  title ← as_str (get config "item_title") "An exact safe Document title is required."
  refuse (not (is_title title)) "An exact safe Document title is required."
  identity ← index config "item_id"
  pinned ←
      as_nat (get config "item_version") "Pin an exact existing item and positive version together."
  item ← parse_item identity pinned
  ok (record {
    account_id = account;
    vault_id = vault;
    cli_version = version;
    account_sign_in_address = address;
    authorized_user_uuids = users;
    item_title = title;
    item_id = item;
    item_version = pinned;
    fields = config;
  })

unfoldable pub validate_config : Value → Result Config
unfolding validate_contract
validate_config (dict config) = validate_contract config
validate_config _ = err "The complete closed native 1Password contract is required."
