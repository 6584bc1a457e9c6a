-- ===== src/OnePassword/Manager/Inspect.antt =====
-- `_OnePasswordVaultCoManagerStore.inspect`: the target user's permissions as the vault reports them.
use ansible_collection_found.Base.{
  String, ◌<>◌, Bool, true, false, not, ◌&&◌, ◌||◌, ◌==◌, Option, none, some, List, [], ◌∷◌, all,
  contains, distinct, select, codes, head_tail, is_lower, is_digit, nat_eq, if◌then◌else◌,
}
use ansible_collection_found.Base.Result
use ansible_collection_found.Base.Result.{Result, ok, err, refuse}
use ansible_collection_found.Base.Exec.{Exec, pure, lift, ◌>>=◌, ◌>>◌}
use ansible_collection_found.Base.Value.{Value, Fields, dict, get, is_str, as_dict, as_list}
use ansible_collection_found.Approval.Normalize.{Trusted}
use ansible_collection_found.Approval.Checks.{is_user_uuid}
use ansible_collection_found.Document.Config.{truthy}
use ansible_collection_found.Document.Inspect.{all_texts}
use ansible_collection_found.Firewall.Order.{sort, text_le}
use ansible_collection_found.OnePassword.Arguments.{is_email, exact}
use ansible_collection_found.OnePassword.Client.{Desktop, Client, run_metadata}
use ansible_collection_found.OnePassword.Account.{check_version, check_operator, check_vault}
use ansible_collection_found.OnePassword.Manager.Config.{Grant, required_permissions}

pub record Observed : Type 0 where
  pub exists : Bool
  pub missing_permissions : List String
  pub observed_permissions : List String
  pub operator_user_uuid : String
  pub user_uuid : String

abbrev pub present : Option Value → List Value → List Value
present none rest = rest
present (some value) rest = if truthy value then value ∷ rest else rest

-- The identifiers of a row that are given.
abbrev pub identifiers : Fields → List Value
identifiers row = present (get row "uuid") (present (get row "id") [])

-- One identifier, or the same twice.
abbrev pub one_identifier : Option (List String) → Option String
one_identifier (some (a ∷ [])) = some a
one_identifier (some (a ∷ b ∷ [])) = if a == b then some a else none
one_identifier _ = none

abbrev pub identity_or : Option String → String → Result String
identity_or none e = err e
identity_or (some id) e = if is_user_uuid id then ok id else err e

unfoldable pub row_uuid : Fields → String → Result String
row_uuid row context =
    identity_or (one_identifier (all_texts (identifiers row)))
      ("1Password returned invalid " <> (context <> " identity metadata."))

-- `[a-z][a-z0-9_]{0,63}`
unfoldable pub is_permission : String → Bool
unfolding head_tail
is_permission s = head_tail is_lower (λ c. is_lower c || is_digit c || nat_eq c b'_') 63 (codes s)

abbrev pub bad_permissions : String
bad_permissions = "1Password returned invalid vault-user permission metadata."

abbrev pub permissions_or : Option (List String) → Result (List String)
permissions_or none = err bad_permissions
permissions_or (some names) =
    if all is_permission names && distinct names
    then ok (sort text_le names)
    else err bad_permissions

unfoldable pub row_permissions : Fields → Result (List String)
row_permissions row =
    Result.◌>>=◌ (as_list (get row "permissions") bad_permissions)
      λ values. permissions_or (all_texts values)

-- The required permissions that are not among the observed ones.
unfoldable pub missing_of : List String → List String
missing_of observed = select (λ permission. not (contains observed permission)) required_permissions

unfoldable pub matching : String → List Value → List Fields
matching user [] = []
matching user (dict row ∷ rows) =
    let rest = matching user rows in
    if is_str user (get row "uuid") || is_str user (get row "id") then row ∷ rest else rest
matching user (_ ∷ rows) = matching user rows

abbrev pub user_arguments : Grant → List String
user_arguments config =
    "user" ∷ "get" ∷ config.user_uuid ∷ "--account" ∷ config.pins.account_id ∷ "--format" ∷ "json"
    ∷ []

abbrev pub list_arguments : Grant → List String
list_arguments config =
    "vault" ∷ "user" ∷ "list" ∷ config.pins.vault_id ∷ "--account" ∷ config.pins.account_id
    ∷ "--format" ∷ "json" ∷ []

module _ {S : Type 0} (desktop : Desktop S) where
  unfoldable pub row_email : Fields → String → Result String
  row_email row context =
      Result.◌>>=◌
        (exact is_email (get row "email")
          ("1Password returned invalid " <> (context <> " email metadata.")))
        λ email. ok (Desktop.lower desktop email)

  -- The target user of the account.
  unfoldable pub check_user : Grant → Fields → Result (Unit {0})
  check_user config user = Result.◌>>=◌ (row_uuid user "target user") λ uuid.
      Result.◌>>◌
        (refuse (not (uuid == config.user_uuid))
          "The selected 1Password user does not match user_uuid.")
        (Result.◌>>=◌ (row_email user "target user") λ email.
          Result.◌>>◌
            (refuse (not (email == config.user_email))
              "The selected 1Password user does not match user_email.")
            (refuse (not (is_str "ACTIVE" (get user "state")))
              "The selected 1Password user is not ACTIVE."))

  -- The permissions of the one row of the vault.
  unfoldable pub check_member : Grant → Fields → Result (List String)
  check_member config row = Result.◌>>=◌ (row_uuid row "vault user") λ uuid.
      Result.◌>>◌
        (refuse (not (uuid == config.user_uuid))
          "The vault-user identity does not match user_uuid.")
        (Result.◌>>=◌ (row_email row "vault user") λ email.
          Result.◌>>◌
            (refuse (not (email == config.user_email))
              "The vault-user identity does not match user_email.")
            (Result.◌>>◌
              (refuse (not (is_str "ACTIVE" (get row "state"))) "The vault user is not ACTIVE.")
              (row_permissions row)))

  -- Whether the user is in the vault, with the permissions there.
  unfoldable pub membership : Grant → List Fields → Result (Bool × List String)
  membership config [] = ok (false, [])
  membership config (row ∷ []) =
      Result.◌>>=◌ (check_member config row) λ permissions. ok (true, permissions)
  membership config (_ ∷ _ ∷ _) =
      err "The target user occurs more than once in vault-user access metadata."

  module _ (trusted : Trusted S) (client : Client) where
    unfoldable pub inspect : Grant → Exec S Observed
    inspect config = do
      check_version desktop trusted client config.pins
      operator ← check_operator desktop trusted client config.pins
      check_vault desktop trusted client config.pins
      found ← run_metadata desktop trusted client (user_arguments config) "target user verification"
      user ← lift (as_dict (some found) "1Password returned invalid target user metadata.")
      lift (check_user config user)
      listing ←
          run_metadata desktop trusted client (list_arguments config) "vault user access inspection"
      rows ← lift (as_list (some listing) "1Password returned invalid vault-user access metadata.")
      member ← lift (membership config (matching config.user_uuid rows))
      pure (record {
        exists = member.0;
        missing_permissions = missing_of member.1;
        observed_permissions = member.1;
        operator_user_uuid = operator;
        user_uuid = config.user_uuid;
      })
