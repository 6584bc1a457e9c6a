-- ===== src/OnePassword/Secret/Inspect.antt =====
-- `_OnePasswordSecretItemStore.inspect`: the one item of the title, checked against the whole contract.
use ansible_collection_found.Base.{
  ℕ, String, Bool, false, not, ◌&&◌, ◌||◌, ◌==◌, Option, none, some, List, [], ◌∷◌, nat_eq,
  contains, is_empty_text, if◌then◌else◌,
}
use ansible_collection_found.Base.Result
use ansible_collection_found.Base.Result.{Result, ok, err, refuse}
use ansible_collection_found.Base.Exec.{Exec, pure, lift, check, ◌>>=◌, ◌>>◌}
use ansible_collection_found.Base.Value.{
  Value, Fields, bool, int, str, list, dict, nil, pos, end, field, items, get, key_names, is_str,
  as_str, as_nat, as_list, value_eq,
}
use ansible_collection_found.Stdlib.{Stdlib}
use ansible_collection_found.Approval.Normalize.{Trusted}
use ansible_collection_found.Document.Config.{is_object_id}
use ansible_collection_found.Document.Inspect.{all_texts}
use ansible_collection_found.Firewall.Order.{sort, text_le, eq_by}
use ansible_collection_found.OnePassword.Arguments.{get_or, exact}
use ansible_collection_found.OnePassword.Client.{Desktop, Client, run_metadata}
use ansible_collection_found.OnePassword.Account.{check_version, check_operator, check_vault}
use ansible_collection_found.OnePassword.Secret.Config.{Item}

-- The identity and version of an item that is there.
pub record Seen : Type 0 where
  pub found : Option (String × ℕ)
  pub operator_user_uuid : String

abbrev pub items_arguments : Item → List String
items_arguments config =
    "item" ∷ "list" ∷ "--vault" ∷ config.pins.vault_id ∷ "--account" ∷ config.pins.account_id
    ∷ "--long" ∷ "--format" ∷ "json" ∷ []

abbrev pub fields_arguments : Item → String → List String
fields_arguments config id =
    "item" ∷ "get" ∷ id ∷ "--vault" ∷ config.pins.vault_id ∷ "--account" ∷ config.pins.account_id
    ∷ "--fields" ∷ "label=subject,label=schema_version,label=expected_length" ∷ "--format" ∷ "json"
    ∷ []

-- The rows that are mappings with the text under the key.
unfoldable pub rows_with : String → String → List Value → List Fields
rows_with key wanted [] = []
rows_with key wanted (dict row ∷ rows) =
    let rest = rows_with key wanted rows in if is_str wanted (get row key) then row ∷ rest else rest
rows_with key wanted (_ ∷ rows) = rows_with key wanted rows

-- `sorted(observed) == sorted(tags)`, for a list of texts
unfoldable pub same_tags : Value → List String → Bool
same_tags (list vs) tags = go (all_texts (items vs))
  where
    go : Option (List String) → Bool
    go none = false
    go (some observed) = eq_by (λ a b. a == b) (sort text_le observed) (sort text_le tags)
same_tags _ tags = false

abbrev pub bad_field : String
bad_field = "1Password returned invalid item field metadata."

abbrev pub as_label : Option Value → Result String
as_label value = as_str value bad_field

abbrev pub changed_item : String
changed_item = "The 1Password item changed during immutable contract validation."

module _ {S : Type 0} (desktop : Desktop S) where
  abbrev pub text_value : Option Value → Result String
  text_value (some (str s)) = ok (Desktop.text_of desktop (str s))
  text_value (some (int n)) = ok (Desktop.text_of desktop (int n))
  text_value (some (bool b)) = ok (Desktop.text_of desktop (bool b))
  text_value _ = err bad_field

  -- `_field_values`, onto the values of the rows before.
  unfoldable pub add_values : Fields → List Value → Result Fields
  add_values values [] = ok values
  add_values values (dict row ∷ rows) = Result.◌>>=◌ (as_label (get row "label")) λ label.
      Result.◌>>=◌ (text_value (get row "value")) λ value.
        Result.◌>>◌
          (refuse (contains (key_names values) label)
            "1Password returned duplicate item field metadata.")
          (add_values (field label (str value) values) rows)
  add_values values (_ ∷ rows) = err bad_field

  abbrev pub field_values : Value → Result Fields
  field_values (list rows) = add_values end (items rows)
  field_values row = add_values end (row ∷ [])

  -- The contract that a stored item repeats in its fields.
  abbrev pub expected_values : Stdlib → Item → Value
  expected_values py config = dict (
      field "expected_length" (str (Stdlib.decimal py config.password_length)) (
        field "schema_version" (str (Stdlib.decimal py 1))
          (field "subject" (str config.subject) end)))

  -- The identity and version of the row, against the pins.
  unfoldable pub check_item : Item → Fields → Result (String × ℕ)
  check_item config item =
      Result.◌>>=◌ (exact is_object_id (get item "id") "The 1Password item has no exact object ID.")
        λ id.
          Result.◌>>◌
            (refuse (not (is_empty_text config.item_id) && not (config.item_id == id))
              "item_title resolves to a different item_id.")
            (Result.◌>>=◌
              (as_nat (get item "version") "The 1Password item has no exact positive item version.")
              λ version.
                Result.◌>>◌
                  (refuse (nat_eq version 0)
                    "The 1Password item has no exact positive item version.")
                  (Result.◌>>◌
                    (refuse
                      (not (nat_eq config.item_version 0)
                        && not (nat_eq config.item_version version))
                      "The 1Password item version does not match the immutable pin.")
                    (Result.◌>>◌
                      (refuse
                        (not (
                          Desktop.lower desktop
                            (Desktop.text_of desktop (get_or item "category" (str "")))
                          == Desktop.lower desktop "Password"))
                        "The 1Password item category does not match.")
                      (Result.◌>>◌
                        (refuse (not (same_tags (get_or item "tags" (list nil)) config.tags))
                          "The 1Password item tags do not match.")
                        (ok (id, version))))))

  -- `_assert_current_version`: the one row of the identity still has the title and the version.
  abbrev pub check_current : Item → ℕ → List Fields → Result (Unit {0})
  check_current config version (row ∷ []) =
      refuse
        (not (is_str config.item_title (get row "title"))
          || not (value_eq (get_or row "version" (str "")) (int (pos version))))
        changed_item
  check_current config version _ = err changed_item

  -- The one item of the title, or none.
  abbrev pub select_item : Item → List Fields → Result (Option (String × ℕ))
  select_item config [] =
      if is_empty_text config.item_id
      then ok none
      else err "The pinned item_id is absent from the exact vault."
  select_item config (item ∷ []) = Result.◌>>=◌ (check_item config item) λ found. ok (some found)
  select_item config (_ ∷ _ ∷ _) = err "item_title is not unique inside the exact vault."

  module _ (py : Stdlib) (trusted : Trusted S) (client : Client) where
    unfoldable pub assert_current_version : Item → String → ℕ → Exec S (Unit {0})
    assert_current_version config id version = do
      listing ←
          run_metadata desktop trusted client (items_arguments config) "item revision revalidation"
      rows ← lift (as_list (some listing) "1Password returned invalid item revision metadata.")
      lift (check_current config version (rows_with "id" id rows))

    -- The fields of an item that is there, and that it is still the same.
    unfoldable pub check_contract : Item → Option (String × ℕ) → Exec S (Unit {0})
    check_contract config none = pure tt
    check_contract config (some found) = do
      metadata ←
          run_metadata desktop trusted client (fields_arguments config found.0)
            "item contract verification"
      values ← lift (field_values metadata)
      check (not (value_eq (dict values) (expected_values py config)))
          "The 1Password item subject or schema metadata does not match."
      assert_current_version config found.0 found.1

    unfoldable pub inspect_item : Item → Exec S Seen
    inspect_item config = do
      check_version desktop trusted client config.pins
      operator ← check_operator desktop trusted client config.pins
      check_vault desktop trusted client config.pins
      listing ←
          run_metadata desktop trusted client (items_arguments config) "item metadata inspection"
      rows ← lift (as_list (some listing) "1Password returned invalid item-list metadata.")
      found ← lift (select_item config (rows_with "title" config.item_title rows))
      check_contract config found
      pure (record { found = found; operator_user_uuid = operator })
