-- ===== src/OnePassword/Key/Inspect.antt =====
-- `_OnePasswordSSHKeyItemStore.inspect` and `public_metadata`: the one SSH key item of the title.
use ansible_collection_found.Base.{
  ℕ, String, Bool, false, not, ◌&&◌, ◌||◌, ◌==◌, Option, none, some, List, [], ◌∷◌, nat_eq,
  contains, is_empty_text, strip, if◌then◌else◌,
}
use ansible_collection_found.Base.Result
use ansible_collection_found.Base.Result.{or_else, Result, ok, err, refuse}
use ansible_collection_found.Base.Exec.{Exec, pure, lift, check, ◌>>=◌, ◌>>◌}
use ansible_collection_found.Base.Value.{
  Value, Fields, int, pos, str, list, dict, nil, end, field, items, get, key_names, is_str,
  value_eq, as_nat, as_str, as_list,
}
use ansible_collection_found.Stdlib.{Stdlib}
use ansible_collection_found.Approval.Normalize.{Trusted}
use ansible_collection_found.Approval.Checks.{is_user_uuid}
use ansible_collection_found.Approval.Signers.{Codec}
use ansible_collection_found.Document.Config.{is_object_id}
use ansible_collection_found.Document.Inspect.{all_texts}
use ansible_collection_found.Firewall.Order.{sort, text_le, eq_by}
use ansible_collection_found.OnePassword.Arguments.{get_or, exact}
use ansible_collection_found.OnePassword.Client.{Desktop, Client, run_metadata}
use ansible_collection_found.OnePassword.Account.{
  Pins, not_authorized, normalize_sign_in_address, check_version, check_vault,
}
use ansible_collection_found.OnePassword.Secret.Inspect.{rows_with, text_value}
use ansible_collection_found.OnePassword.Key.Config.{Key}
use ansible_collection_found.OnePassword.Key.Identity.{public_identity}

-- How the tags of an item compare with the expected ones.
pub record TagState : Type 0 where
  pub exact : Bool
  pub equivalent : Bool
  pub duplicate_only : Bool

abbrev pub without_repeats : List String → List String
without_repeats [] = []
without_repeats (t ∷ ts) = let rest = without_repeats ts in if contains ts t then rest else t ∷ rest

abbrev pub same_sorted : List String → List String → Bool
same_sorted xs ys = eq_by (λ a b. a == b) (sort text_le xs) (sort text_le ys)

abbrev pub tag_state_of : Option (List String) → List String → TagState
tag_state_of none expected = record { exact = false; equivalent = false; duplicate_only = false }
tag_state_of (some observed) expected = record {
  exact = same_sorted observed expected;
  equivalent = same_sorted (without_repeats observed) expected;
  duplicate_only =
      same_sorted (without_repeats observed) expected && not (same_sorted observed expected);
}

unfoldable pub tag_state : Value → List String → TagState
tag_state (list vs) expected = tag_state_of (all_texts (items vs)) expected
tag_state _ expected = record { exact = false; equivalent = false; duplicate_only = false }

pub record SeenKey : Type 0 where
  pub found : Option (String × ℕ)
  pub operator_user_uuid : String
  pub observed_tags : Value
  pub tags : TagState

abbrev pub accounts_arguments : List String
accounts_arguments = "account" ∷ "list" ∷ "--format" ∷ "json" ∷ []

abbrev pub listing_arguments : Key → List String
listing_arguments config =
    "item" ∷ "list" ∷ "--vault" ∷ config.pins.vault_id ∷ "--account" ∷ config.pins.account_id
    ∷ "--long" ∷ "--format" ∷ "json" ∷ []

abbrev pub public_arguments : Key → String → List String
public_arguments config id =
    "item" ∷ "get" ∷ id ∷ "--vault" ∷ config.pins.vault_id ∷ "--account" ∷ config.pins.account_id
    ∷ "--fields" ∷ "label=subject,label=schema_version,label=public key,label=fingerprint"
    ∷ "--format" ∷ "json" ∷ []

abbrev pub bad_selected : String
bad_selected = "1Password returned invalid selected-field metadata."

abbrev pub moved_item : String
moved_item = "The 1Password SSH item changed during immutable contract validation."

-- `matches[0]` of exactly one, and `get("version")` of it.
abbrev pub check_moved : Key → ℕ → List Fields → Result (Unit {0})
check_moved config version (row ∷ []) =
    refuse
      (not (is_str config.item_title (get row "title")) || not (same_version (get row "version")))
      moved_item
  where
    same_version : Option Value → Bool
    same_version (some value) = value_eq value (int (pos version))
    same_version none = false
check_moved config version _ = err moved_item

abbrev pub one_account : List Fields → Result Fields
one_account (row ∷ []) = ok row
one_account _ = err "The signed-in 1Password account does not match account_id."

module _ {S : Type 0} (py : Stdlib) (codec : Codec) (desktop : Desktop S)
    (upper : String → String) where
  -- `_field_values`, onto the values of the rows before: labels are compared stripped and in lower case.
  unfoldable pub add_labelled : Fields → List Value → Result Fields
  add_labelled values [] = ok values
  add_labelled values (dict row ∷ rows) =
      Result.◌>>=◌ (as_str (get row "label") bad_selected) λ label.
        Result.◌>>=◌ (or_else (text_value desktop (get row "value")) bad_selected) λ value.
          Result.◌>>◌
            (refuse (contains (key_names values) (Desktop.lower desktop (strip label)))
              "1Password returned duplicate selected-field metadata.")
            (add_labelled (field (Desktop.lower desktop (strip label)) (str value) values) rows)
  add_labelled values (_ ∷ rows) = err bad_selected

  abbrev pub labelled_values : Value → Result Fields
  labelled_values (list rows) = add_labelled end (items rows)
  labelled_values row = add_labelled end (row ∷ [])

  -- The identity and version of the row, against the pins. `upper` also replaces spaces by underscores.
  unfoldable pub check_key_row : Key → Bool → Fields → Result (String × ℕ)
  check_key_row config allow_tag_mismatch item =
      Result.◌>>=◌
        (exact is_object_id (get item "id") "The 1Password SSH item has no exact object ID.")
        λ id.
          Result.◌>>◌
            (refuse (not (is_empty_text config.item_id) && not (config.item_id == id))
              "item_title resolves to a different SSH item_id.")
            (Result.◌>>=◌
              (as_nat (get item "version")
                "The 1Password SSH item has no exact positive item version.")
              λ version.
                Result.◌>>◌
                  (refuse (nat_eq version 0)
                    "The 1Password SSH item has no exact positive item version.")
                  (Result.◌>>◌
                    (refuse
                      (not (nat_eq config.item_version 0)
                        && not (nat_eq config.item_version version))
                      "The 1Password SSH item version does not match the immutable pin.")
                    (Result.◌>>◌
                      (refuse
                        (not (
                          upper (Desktop.text_of desktop (get_or item "category" (str "")))
                          == "SSH_KEY"))
                        "The 1Password item category is not SSH Key.")
                      (Result.◌>>◌
                        (refuse
                          (not (
                              TagState.equivalent
                                (tag_state (get_or item "tags" (list nil)) config.tags))
                            && not allow_tag_mismatch)
                          "The 1Password SSH item tags do not match.")
                        (ok (id, version))))))

  abbrev pub seen_key : Key → String → Fields → String × ℕ → SeenKey
  seen_key config operator item found = record {
    found = some found;
    operator_user_uuid = operator;
    observed_tags = get_or item "tags" (list nil);
    tags = tag_state (get_or item "tags" (list nil)) config.tags;
  }

  unfoldable pub select_key : Key → Bool → String → List Fields → Result SeenKey
  select_key config allow_tag_mismatch operator [] =
      if is_empty_text config.item_id
      then ok (record {
        found = none;
        operator_user_uuid = operator;
        observed_tags = list nil;
        tags = record { exact = false; equivalent = false; duplicate_only = false };
      })
      else err "The pinned SSH item_id is absent from the exact vault."
  select_key config allow_tag_mismatch operator (item ∷ []) =
      Result.◌>>=◌ (check_key_row config allow_tag_mismatch item)
        λ found. ok (seen_key config operator item found)
  select_key config allow_tag_mismatch operator (_ ∷ _ ∷ _) =
      err "item_title is not unique inside the exact vault."

  -- The fields of an item, with its public key and the fingerprint of it.
  unfoldable pub check_public : Key → Fields → Result (String × String)
  check_public config values =
      Result.◌>>◌
        (refuse (not (is_str config.subject (get values "subject")))
          "The 1Password SSH item subject metadata does not match.")
        (Result.◌>>◌
          (refuse (not (is_str (Stdlib.decimal py 1) (get values "schema_version")))
            "The 1Password SSH item schema metadata does not match.")
          (Result.◌>>=◌ (public_identity py codec (get values "public key")) λ identity.
            Result.◌>>◌
              (refuse (not (is_str identity.1 (get values "fingerprint")))
                "The 1Password SSH item fingerprint does not match its public key.")
              (Result.◌>>◌
                (refuse
                  (not (is_empty_text config.expected_fingerprint)
                    && not (identity.1 == config.expected_fingerprint))
                  "The 1Password SSH item does not match the externally pinned fingerprint.")
                (ok identity))))

  module _ (trusted : Trusted S) (client : Client) where
    -- The one account of the desktop client with the pinned identity, and its operator.
    unfoldable pub check_account : Pins → Exec S String
    check_account pins = do
      listing ←
          run_metadata desktop trusted client accounts_arguments
            "desktop account identity verification"
      rows ← lift (as_list (some listing) "1Password returned invalid desktop account metadata.")
      who ← lift (one_account (rows_with "account_uuid" pins.account_id rows))
      check
          (not (
            normalize_sign_in_address desktop trusted client
              (Desktop.text_of desktop (get_or who "url" (str "")))
            == pins.address))
          "The signed-in 1Password account does not match the sign-in address."
      operator ← lift (as_str (get who "user_uuid") not_authorized)
      check (not (is_user_uuid operator) || not (contains pins.authorized_user_uuids operator))
          not_authorized
      pure operator

    unfoldable pub inspect_key : Key → Bool → Exec S SeenKey
    inspect_key config allow_tag_mismatch = do
      check_version desktop trusted client config.pins
      operator ← check_account config.pins
      check_vault desktop trusted client config.pins
      listing ←
          run_metadata desktop trusted client (listing_arguments config)
            "SSH item metadata inspection"
      rows ← lift (as_list (some listing) "1Password returned invalid item-list metadata.")
      lift
          (select_key config allow_tag_mismatch operator (rows_with "title" config.item_title rows))

    unfoldable pub public_metadata : Key → String × ℕ → Exec S (String × String)
    public_metadata config found = do
      metadata ←
          run_metadata desktop trusted client (public_arguments config found.0)
            "selected SSH public-field verification"
      values ← lift (labelled_values metadata)
      identity ← lift (check_public config values)
      listing ←
          run_metadata desktop trusted client (listing_arguments config)
            "SSH item revision revalidation"
      rows ← lift (as_list (some listing) "1Password returned invalid SSH item revision metadata.")
      lift (check_moved config found.1 (rows_with "id" found.0 rows))
      pure identity
