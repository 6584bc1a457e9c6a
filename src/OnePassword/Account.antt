-- ===== src/OnePassword/Account.antt =====
-- The checks of the client, the signed-in operator and the vault, which precede every use of an account.
use ansible_collection_found.Base.{
  String, false, not, ◌||◌, ◌==◌, some, List, [], ◌∷◌, contains, strip, rstrip_of, without_prefix,
  nat_eq,
}
use ansible_collection_found.Base.Result.{Result, ok, err}
use ansible_collection_found.Base.Exec.{Exec, pure, lift, check, ◌>>=◌, ◌>>◌}
use ansible_collection_found.Base.Value.{str, get, is_str, as_dict, as_str}
use ansible_collection_found.Approval.Normalize.{Trusted}
use ansible_collection_found.Approval.Checks.{is_user_uuid}
use ansible_collection_found.OnePassword.Client.{Desktop, Client, run_cli, run_metadata}
use ansible_collection_found.OnePassword.Arguments.{get_or}

-- The account that a configuration pins, its address in lower case.
pub record Pins : Type 0 where
  pub cli_version : String
  pub account_id : String
  pub address : String
  pub authorized_user_uuids : List String
  pub vault_id : String

abbrev pub identity_arguments : Pins → List String
identity_arguments pins = "whoami" ∷ "--account" ∷ pins.account_id ∷ "--format" ∷ "json" ∷ []

abbrev pub vault_arguments : Pins → List String
vault_arguments pins =
    "vault" ∷ "get" ∷ pins.vault_id ∷ "--account" ∷ pins.account_id ∷ "--format" ∷ "json" ∷ []

-- The text of a version, or an error that says no more.
abbrev pub version_of : Result String → Result String
version_of (ok text) = ok (strip text)
version_of (err _) = err "The controller 1Password CLI returned an invalid version."

abbrev pub not_authorized : String
not_authorized = "The signed-in 1Password operator is not authorized for this action."

module _ {S : Type 0} (desktop : Desktop S) (trusted : Trusted S) (client : Client) where
  unfoldable pub normalize_sign_in_address : String → String
  normalize_sign_in_address value =
      rstrip_of (nat_eq b'/')
        (without_prefix "http://" (without_prefix "https://" (Desktop.lower desktop (strip value))))

  unfoldable pub check_version : Pins → Exec S (Unit {0})
  check_version pins = do
    output ← run_cli desktop trusted client ("--version" ∷ []) "version" false
    version ← lift (version_of (Desktop.decode_ascii desktop output))
    check (not (version == pins.cli_version))
        "The controller 1Password CLI version does not match cli_version."

  -- The signed-in operator.
  unfoldable pub check_operator : Pins → Exec S String
  check_operator pins = do
    identity ←
        run_metadata desktop trusted client (identity_arguments pins)
          "desktop identity verification"
    who ←
        lift (as_dict (some identity) "The signed-in 1Password account does not match account_id.")
    check (not (is_str pins.account_id (get who "account_uuid")))
        "The signed-in 1Password account does not match account_id."
    check
        (not (
          normalize_sign_in_address (Desktop.text_of desktop (get_or who "url" (str "")))
          == pins.address))
        "The signed-in 1Password account does not match the sign-in address."
    operator ← lift (as_str (get who "user_uuid") not_authorized)
    check (not (is_user_uuid operator) || not (contains pins.authorized_user_uuids operator))
        not_authorized
    pure operator

  unfoldable pub check_vault : Pins → Exec S (Unit {0})
  check_vault pins = do
    vault ← run_metadata desktop trusted client (vault_arguments pins) "vault verification"
    stored ← lift (as_dict (some vault) "The selected 1Password vault does not match vault_id.")
    check (not (is_str pins.vault_id (get stored "id")))
        "The selected 1Password vault does not match vault_id."
