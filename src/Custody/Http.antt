-- ===== src/Custody/Http.antt =====
-- `VaultHTTP`: the client of Vault's key-value store over one verified HTTPS origin.
pub mod Missing
mod Tests
use ansible_collection_found.Base.{
  ℕ, String, ◌<>◌, Bool, true, false, not, ◌&&◌, ◌||◌, ◌==◌, Option, some, none, List, [], ◌∷◌,
  Bytes, length, codes, len, any, subset, ltb, leb, nat_eq, if◌then◌else◌, starts_with,
}
use ansible_collection_found.Base.Result
use ansible_collection_found.Base.Result.{Result, ok, err, refuse}
use ansible_collection_found.Base.Exec.{Exec, pure, raise, lift, check, ◌>>=◌, ◌>>◌}
use ansible_collection_found.Base.Value.{
  Value, Fields, null, int, str, dict, pos, end, field, get, key_names, is_str, int_and, str_and,
  as_dict, as_str, as_nat,
}
use ansible_collection_found.Stdlib.{Stdlib}
use ansible_collection_found.Custody.Package.{unique_object}
use ansible_collection_found.Custody.Receipt.{safe_path}
use ansible_collection_found.Custody.Client.{Row}
use ansible_collection_found.Document.Config.{truthy}

-- `urllib.parse.urlsplit`; a part that is missing is empty.
pub record Url : Type 0 where
  pub scheme : String
  pub hostname : String
  pub username : String
  pub password : String
  pub path : String
  pub query : String
  pub fragment : String

-- One request, without the content type that each has.
pub record Sent : Type 0 where
  pub method : String
  pub url : String
  pub token : String
  pub namespace : String
  pub body : Option Bytes
  pub timeout : ℕ

-- What opening it gives: at most as many bytes as are asked for, an `HTTPError`, or another failure.
pub data Reply : Type 0 where
  answered : Bytes → Reply
  refused : ℕ → Reply
  failed : Reply

-- The opener without proxies and redirects, over an unknown network.
pub record Wire : Type 1 where
  pub State : Type 0
  pub exchange : ℕ → Sent → State → Reply × State
  pub urlsplit : String → Result Url
  -- `s.rstrip("/")`
  pub rstrip_slash : String → String

pub record Session : Type 0 where
  pub url : String
  pub namespace : String
  pub timeout : ℕ
  pub token : String

abbrev pub auth_fields : List String
auth_fields =
    "url" ∷ "namespace" ∷ "ca_cert" ∷ "timeout" ∷ "auth_method" ∷ "token" ∷ "role_id" ∷ "secret_id"
    ∷ "auth_mount_point" ∷ []

-- `d.get(k, default)`
abbrev pub get_or : Fields → String → Value → Value
get_or fs k default = elim (get fs k) [ none ↦ default | some v ↦ v ]

abbrev pub is_empty : String → Bool
is_empty s = nat_eq (len s) 0

unfoldable pub is_origin : Url → Bool
is_origin u =
    u.scheme == "https"
    && not (is_empty u.hostname)
    && is_empty u.username
    && is_empty u.password
    && (is_empty u.path || u.path == "/")
    && is_empty u.query
    && is_empty u.fragment

unfoldable pub check_token : Value → Result String
check_token token =
    Result.◌>>=◌ (as_str (some token) "Vault did not supply a valid scoped credential.") λ text.
      Result.◌>>◌
        (refuse (is_empty text || any (λ c. ltb c 33) (codes text))
          "Vault did not supply a valid scoped credential.")
        (ok text)

abbrev pub is_secret : String → Bool
is_secret s = leb 16 (len s) && leb (len s) 4096

-- The origin, the namespace and the timeout, before any credential.
unfoldable pub open_session : (String → Result Url) → Fields → Result Session
open_session urlsplit auth =
    Result.◌>>◌
      (refuse (not (subset (key_names auth) auth_fields))
        "Unsupported Vault authentication contract.")
      (Result.◌>>=◌ (as_str (some (get_or auth "url" (str ""))) "TypeError") λ url.
        Result.◌>>=◌ (urlsplit url) λ parsed.
          Result.◌>>◌
            (refuse (not (is_origin parsed)) "An exact verified HTTPS Vault origin is required.")
            (Result.◌>>◌
              (refuse (not (str_and (λ s. starts_with s "/") (get auth "ca_cert")))
                "An explicit Vault CA file is required.")
              (Result.◌>>=◌ (as_namespace (get_or auth "namespace" (str ""))) λ namespace.
                Result.◌>>=◌
                  (as_nat (some (get_or auth "timeout" (int (pos 30)))) "Invalid Vault timeout.")
                  λ timeout.
                    Result.◌>>◌
                      (refuse (not (leb 1 timeout && leb timeout 120)) "Invalid Vault timeout.")
                      (ok (record {
                        url = url;
                        namespace = namespace;
                        timeout = timeout;
                        token = "";
                      })))))
  where
    as_namespace : Value → Result String
    as_namespace v =
        if truthy v
        then (Result.◌>>=◌ (as_str (some v) "An exact normalized provider path is required.")
            safe_path)
        else ok ""

module _ (py : Stdlib) (wire : Wire) where
  open wire use {State, exchange}

  abbrev pub encoded : Option Value → Option Bytes
  encoded none = none
  encoded (some v) = some (Stdlib.dumps py v)

  -- What a reply means; `null` is Python's `None`.
  unfoldable pub understand : Bool → Reply → Result Value
  understand missing_ok (answered payload) =
      Result.◌>>◌ (refuse (ltb 1048576 (length payload)) "Vault response exceeds its bound.")
        (Stdlib.loads py unique_object payload)
  understand missing_ok (refused code) =
      if missing_ok && nat_eq code 404
      then ok null
      else err "Vault request failed; no automatic write retry."
  understand missing_ok failed =
      err "Vault transport failed; outcome may be unknown, inspect before retry."

  -- `opener.open(request)`
  unfoldable pub send : Bool → Sent → Exec State Value
  send missing_ok sent s =
      (understand missing_ok (exchange 1048577 sent s).0, (exchange 1048577 sent s).1)

  unfoldable pub request : Session → String → String → Option Value → Bool → Exec State Value
  request session method path contents missing_ok = do
    safe ← lift (safe_path path)
    send missing_ok (record {
      method = method;
      url = Wire.rstrip_slash wire session.url <> ("/v1/" <> safe);
      token = session.token;
      namespace = session.namespace;
      body = encoded contents;
      timeout = session.timeout;
    })

  -- The live version of an answer.
  unfoldable pub live_row : Value → Result Row
  live_row result = Result.◌>>=◌ (as_dict (some result) "AttributeError") λ answer.
      Result.◌>>=◌ (as_dict (some (get_or answer "data" (dict end))) "AttributeError") λ d.
        Result.◌>>=◌ (as_dict (some (get_or d "metadata" (dict end))) "AttributeError") λ meta.
          Result.◌>>=◌ (as_nat (get meta "version") "Vault custody version is not live.") λ version.
            Result.◌>>◌
              (refuse
                (nat_eq version 0
                  || truthy (get_or meta "destroyed" null)
                  || truthy (get_or meta "deletion_time" null))
                "Vault custody version is not live.")
              (ok (record { payload = get_or d "data" null; version = version }))

  abbrev pub is_absent : Value → Bool
  is_absent null = true
  is_absent _ = false

  unfoldable pub read_metadata : Session → String → String → Exec State (Option Row)
  read_metadata session mount path = do
    metadata ← request session "GET" (mount <> ("/metadata/" <> path)) none true
    check (not (is_absent metadata)) "Vault custody has deleted or destroyed history."
    pure none

  unfoldable pub read_row : Value → Exec State (Option Row)
  read_row result = do row ← lift (live_row result); pure (some row)

  unfoldable pub read : Session → String → String → Exec State (Option Row)
  read session mount path = do
    result ← request session "GET" (mount <> ("/data/" <> path)) none true
    if is_absent result then read_metadata session mount path else read_row result

  unfoldable pub create : Session → String → String → Value → Exec State (Unit {0})
  create session mount path contents = do
    request session "POST" (mount <> ("/data/" <> path))
        (some (
          dict
            (field "options" (dict (field "cas" (int (pos 0)) end)) (field "data" contents end))))
        false
    pure tt

  -- The credential of the method that was asked for.
  unfoldable pub credential : Session → Fields → Exec State Value
  credential session auth =
      if is_str "token" (get auth "auth_method")
      then (do
        check (truthy (get_or auth "role_id" null) || truthy (get_or auth "secret_id" null))
            "Ambiguous Vault authentication."
        pure (get_or auth "token" (str "")))
      else if is_str "approle" (get auth "auth_method")
      then (do
        check (truthy (get_or auth "token" null)) "Ambiguous Vault authentication."
        check
            (not (str_and is_secret (get auth "role_id"))
              || not (str_and is_secret (get auth "secret_id")))
            "Explicit AppRole credentials are required."
        mount ← lift (
            as_str (some (get_or auth "auth_mount_point" (str "approle")))
              "An exact normalized provider path is required.")
        safe ← lift (safe_path mount)
        result ←
            request session "POST" ("auth/" <> (safe <> "/login"))
              (some (
                dict (
                  field "role_id" (get_or auth "role_id" null)
                    (field "secret_id" (get_or auth "secret_id" null) end))))
              false
        answer ← lift (as_dict (some result) "AttributeError")
        login ← lift (as_dict (some (get_or answer "auth" (dict end))) "AttributeError")
        pure (get_or login "client_token" (str "")))
      else raise "Only explicit token or AppRole authentication is supported."

  -- `VaultHTTP(auth)`
  unfoldable pub vault_http : Value → Exec State Session
  vault_http settings = do
    auth ← lift (as_dict (some settings) "Unsupported Vault authentication contract.")
    session ← lift (open_session (Wire.urlsplit wire) auth)
    given ← credential session auth
    token ← lift (check_token given)
    pure (record session { token = token })
