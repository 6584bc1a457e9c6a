-- ===== src/Document/Transfer.antt =====
-- `onepassword_read_custody` and `onepassword_custody`: retrieval of the pinned document, and its
-- creation under a one-time approval.
use ansible_collection_found.Base.{
  ℕ, String, ◌<>◌, Bool, true, false, not, ◌&&◌, ◌||◌, ◌==◌, Option, none, some, List, [], ◌∷◌,
  Bytes, contains, nat_eq, if◌then◌else◌,
}
use ansible_collection_found.Base.Exec.{Exec, pure, raise, lift, check, ◌>>=◌, ◌>>◌}
use ansible_collection_found.Base.Value.{
  Value, Fields, str, bool, dict, end, field, get, index, is_str, as_dict, as_str,
}
use ansible_collection_found.Stdlib.{Stdlib}
use ansible_collection_found.Custody.Package.{max_package, validate_package, decode_package}
use ansible_collection_found.Custody.Receipt.{validate_read_pins, verify_download}
use ansible_collection_found.Approval.Os.{Os}
use ansible_collection_found.Approval.Claim.{Approval, Moment, claim_approval}
use ansible_collection_found.Document.Config.{Config, validate_config}
use ansible_collection_found.Document.Cli.{Cli, metadata_create}
use ansible_collection_found.Document.Inspect.{Document, inspect, same_current}

pub record Retrieved : Type 0 where
  pub changed : Bool
  pub verified : Bool
  pub contents : Value
  pub package_sha256 : String
  pub item_id : String
  pub item_version : ℕ

pub record Receipt : Type 0 where
  pub changed : Bool
  pub verified : Bool
  pub planned : Bool
  pub package_sha256 : String
  pub item : Option Document

abbrev pub get_arguments : Config → Document → List String
get_arguments config d =
    "document" ∷ "get" ∷ d.id ∷ "--account" ∷ config.account_id ∷ "--vault" ∷ config.vault_id ∷ []

abbrev pub create_arguments : Config → String → List String
create_arguments config sha =
    "document"
    ∷ "create"
    ∷ "-"
    ∷ "--account"
    ∷ config.account_id
    ∷ "--vault"
    ∷ config.vault_id
    ∷ "--title"
    ∷ config.item_title
    ∷ "--tags"
    ∷ ("luks-header-custody," <> sha)
    ∷ "--file-name"
    ∷ (sha <> ".json")
    ∷ "--format"
    ∷ "json"
    ∷ []

abbrev pub require : {A : Type 0} {S : Type 0} → Option A → String → Exec S A
require none e = raise e
require (some a) e = pure a

abbrev pub is_none : {A : Type 0} → Option A → Bool
is_none none = true
is_none (some _) = false

module _ {S : Type 0} (py : Stdlib) (cli : Cli S) where
  unfoldable pub retrieve : Config → Value → String → Exec S Retrieved
  retrieve config pins sha = do
    check (is_none config.item_id || nat_eq config.item_version 0)
        "Independent retrieval requires the exact retained Document ID and version."
    found ← inspect cli config sha
    current ← require found "The independent native header copy is absent."
    raw ← Cli.run cli (get_arguments config current) [] max_package
    contents ← lift (verify_download py raw pins)
    again ← inspect cli config sha
    check (not (same_current again (some current)))
        "Native header revision changed during independent retrieval."
    pure (record {
      changed = false;
      verified = true;
      contents = contents;
      package_sha256 = sha;
      item_id = current.id;
      item_version = current.version;
    })

  unfoldable pub onepassword_read_custody : Value → Value → Exec S Retrieved
  onepassword_read_custody settings pins = do
    config ← lift (validate_config settings)
    receipt ← lift (validate_read_pins py pins)
    digest ← lift (index receipt "package_sha256")
    sha ← lift (as_str (some digest) "TypeError")
    retrieve config pins sha

  -- `if current is not None: ...`, the readback of a document that is there.
  unfoldable pub confirm : Config → Bytes → String → Option Document → Exec S (Unit {0})
  confirm config raw sha none = pure tt
  confirm config raw sha (some current) = do
    downloaded ← Cli.run cli (get_arguments config current) [] max_package
    lift (decode_package py downloaded raw)
    again ← inspect cli config sha
    check (not (same_current again (some current)))
        "Native header revision changed during document readback."

-- `normalize` is `normalize_approval` with the approval and its authority given, and `clock` is
-- `datetime.now`.
module _ (py : Stdlib) (os : Os) (cli : Cli (Os.State os))
    (normalize : String → Value → Value → Exec (Os.State os) Approval)
    (clock : Exec (Os.State os) Moment) where
  open os use {State}

  -- The creation of a missing document.
  unfoldable pub create_document :
      Config → Fields → Bytes → String → Bool → Exec State (Option Document)
  create_document config pack raw sha allow_create = do
    check (not allow_create) "Native header creation is not enabled."
    manifest ← lift (index pack "manifest")
    m ← lift (as_dict (some manifest) "TypeError")
    subject ← lift (index m "subject")
    approval ← normalize "create-onepassword-header-document" subject (
        dict (
          field "config" (dict config.fields)
            (field "package_sha256" (str sha) (field "allow_create" (bool true) end))))
    before ← inspect cli config sha
    check (not (is_none before)) "Native custody changed during approval validation; re-plan."
    now ← clock
    claim_approval py os approval now
    result ← metadata_create cli (create_arguments config sha) raw
    current ← inspect cli config sha
    d ← require current "Native creation outcome is not uniquely verified; inspect before retry."
    created ← lift (as_dict (some result) "AttributeError")
    check (not (is_str d.id (get created "id")))
        "Native creation outcome is not uniquely verified; inspect before retry."
    pure current

  -- What the run does with a document that is there or missing.
  unfoldable pub transfer :
      Config → Fields → Bytes → String → String → Bool → Bool → Exec State Receipt
  transfer config pack raw sha operation check_mode allow_create = do
    before ← inspect cli config sha
    check (is_none before && operation == "verify")
        "The independent 1Password header copy is missing."
    let creates = is_none before && operation == "apply" && not check_mode
    current ← (if creates then create_document config pack raw sha allow_create else pure before)
    confirm py cli config raw sha current
    pure (record {
      changed = creates;
      verified = not (is_none current);
      planned = is_none current;
      package_sha256 = sha;
      item = current;
    })

  unfoldable pub onepassword_custody : Value → Value → String → Bool → Bool → Exec State Receipt
  onepassword_custody settings contents operation check_mode allow_create = do
    config ← lift (validate_config settings)
    check (not (contains ("plan" ∷ "apply" ∷ "verify" ∷ []) operation)) "Invalid custody operation."
    raw ← lift (validate_package py contents)
    pack ← lift (as_dict (some contents) "TypeError")
    transfer config pack raw (Stdlib.sha256 py raw) operation check_mode allow_create
