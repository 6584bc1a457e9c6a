-- ===== src/Handoff/Request.antt =====
-- `decode` and `validate_request`: what the native client is asked for.
use ansible_collection_found.Base.{
  ℕ, ◌-◌, String, Bool, true, false, not, ◌&&◌, ◌||◌, ◌==◌, Option, some, List, [], ◌∷◌, Bytes,
  length, codes, contains, ltb, leb, nat_eq, if◌then◌else◌, is_alnum, alnum_or, head_tail,
  is_digest,
}
use ansible_collection_found.Base.Result.{Result, ok, err, ◌>>=◌, ◌>>◌, refuse}
use ansible_collection_found.Base.Value.{
  Value, Fields, bool, dict, end, get, index, has_keys, str_and, int_and, as_dict, as_str, value_eq,
}
use ansible_collection_found.Stdlib.{Stdlib}
use ansible_collection_found.Custody.Package.{unique_object, validate_package}
use ansible_collection_found.Custody.Receipt.{validate_read_pins, verify_download}
use ansible_collection_found.Document.Config.{Config, validate_config}
use ansible_collection_found.Document.Transfer.{is_none}

-- The largest package, and 1 MiB more.
unfoldable pub max_handoff : ℕ
max_handoff = 139460608

abbrev pub request_fields : List String
request_fields =
    "exchange" ∷ "schema_version" ∷ "operation" ∷ "provider_config" ∷ "package" ∷ "read_pins"
    ∷ "allow_create" ∷ "approval_authority" ∷ "approval" ∷ []

-- A checked request: what the execution reads from it, and its digest.
pub record Request : Type 0 where
  pub operation : String
  pub config : Config
  pub provider_config : Value
  pub contents : Value
  pub read_pins : Value
  -- `read_pins["package_sha256"]`
  pub pinned : Value
  pub allow_create : Bool
  pub approval : Fields
  pub authority : Fields
  pub sha256 : String

abbrev pub as_bool : Option Value → String → Result Bool
as_bool (some (bool b)) e = ok b
as_bool _ e = err e

-- `bool(d)`
abbrev pub is_filled : Fields → Bool
is_filled end = false
is_filled _ = true

-- `[A-Za-z0-9][A-Za-z0-9._:-]{0,127}`
unfoldable pub is_execution_id : String → Bool
unfolding head_tail
is_execution_id s = head_tail is_alnum (alnum_or (b'.' ∷ b'_' ∷ b':' ∷ b'-' ∷ [])) 127 (codes s)

abbrev pub closed : String
closed = "The closed native handoff contract is required."

abbrev pub outside : String
outside = "Native exchange is expired or outside its bounded validity."

-- The validity in microseconds: at most 900 seconds long, with 60 seconds of tolerance before it.
unfoldable pub check_validity : ℕ → ℕ → ℕ → Result (Unit {0})
check_validity now issued expires =
    refuse
      (leb expires issued
        || ltb 900000000 (expires - issued)
        || ltb 60000000 (issued - now)
        || leb expires now)
      outside

-- Creation authority comes with `apply`, and only with it.
unfoldable pub check_authority : String → Bool → Fields → Fields → Result (Unit {0})
check_authority operation allow_create approval authority = do
  refuse (not (operation == "apply") && (allow_create || is_filled approval || is_filled authority))
      "Read-only handoffs must not carry creation authority."
  refuse
      (operation == "apply"
        && (not allow_create || not (is_filled approval) || not (is_filled authority)))
      "Native apply requires explicit one-time creation authority."

module _ (py : Stdlib) where
  unfoldable pub decode : Bytes → Result Value
  decode raw = do
    refuse (not (leb 1 (length raw) && leb (length raw) max_handoff)) "Invalid native handoff size."
    Stdlib.loads py unique_object raw

  unfoldable pub check_exchange : ℕ → Value → Result (Unit {0})
  check_exchange now exchange = do
    e ← as_dict (some exchange) "An exact execution and unique native exchange are required."
    refuse
        (not (has_keys e ("execution_id" ∷ "nonce" ∷ "issued_at" ∷ "expires_at" ∷ []))
          || not (str_and is_execution_id (get e "execution_id"))
          || not (str_and is_digest (get e "nonce")))
        "An exact execution and unique native exchange are required."
    from ← as_str (get e "issued_at") "TypeError"
    issued ← Stdlib.strptime py from
    until ← as_str (get e "expires_at") "TypeError"
    expires ← Stdlib.strptime py until
    check_validity now issued expires

  -- An independent read carries no package; any other request carries the package of the receipt.
  unfoldable pub check_contents : String → Config → Value → Value → Result (Unit {0})
  check_contents operation config contents pins =
      if operation == "read"
      then (do
        refuse (not (value_eq contents (dict end)))
            "Independent read must not receive a local package."
        refuse (is_none config.item_id || nat_eq config.item_version 0)
            "Independent read requires retained Document pins.")
      else (do raw ← validate_package py contents; verify_download py raw pins; ok tt)

  -- At the time `now`.
  unfoldable pub validate_request : ℕ → Value → Result Request
  validate_request now request = do
    r ← as_dict (some request) closed
    refuse
        (not (has_keys r request_fields)
          || not (int_and (λ n. nat_eq n 1) (get r "schema_version")))
        closed
    operation ← as_str (get r "operation") closed
    refuse (not (contains ("plan" ∷ "apply" ∷ "verify" ∷ "read" ∷ []) operation)) closed
    allow_create ← as_bool (get r "allow_create") closed
    authority ← as_dict (get r "approval_authority") closed
    approval ← as_dict (get r "approval") closed
    exchange ← index r "exchange"
    check_exchange now exchange
    settings ← index r "provider_config"
    config ← validate_config settings
    receipt ← index r "read_pins"
    pins ← validate_read_pins py receipt
    pinned ← index pins "package_sha256"
    contents ← index r "package"
    check_contents operation config contents receipt
    check_authority operation allow_create approval authority
    let raw = Stdlib.dumps py request
    refuse (ltb max_handoff (length raw)) "Native request exceeded its bound."
    ok (record {
      operation = operation;
      config = config;
      provider_config = settings;
      contents = contents;
      read_pins = receipt;
      pinned = pinned;
      allow_create = allow_create;
      approval = approval;
      authority = authority;
      sha256 = Stdlib.sha256 py raw;
    })
