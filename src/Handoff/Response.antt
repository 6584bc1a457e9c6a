-- ===== src/Handoff/Response.antt =====
-- `execute_request` and `validate_response`: the answer of the native client.
use ansible_collection_found.Base.{
  ℕ, String, Bool, true, false, not, ◌&&◌, ◌||◌, ◌==◌, Option, some, none, List, [], ◌∷◌, nat_eq,
  if◌then◌else◌,
}
use ansible_collection_found.Base.Result
use ansible_collection_found.Base.Result.{Result, ok, err, refuse}
use ansible_collection_found.Base.Exec.{Exec, pure, lift, check, ◌>>=◌, ◌>>◌}
use ansible_collection_found.Base.Value.{
  Value, Fields, null, bool, int, str, dict, pos, end, field, get, index, has_keys, is_str, int_and,
  as_dict, as_str, as_nat, value_eq,
}
use ansible_collection_found.Stdlib.{Stdlib}
use ansible_collection_found.Custody.Package.{validate_package}
use ansible_collection_found.Custody.Receipt.{verify_download}
use ansible_collection_found.Approval.Os.{Os}
use ansible_collection_found.Approval.Claim.{Approval, Moment}
use ansible_collection_found.Document.Config.{Config, is_object_id}
use ansible_collection_found.Document.Cli.{Cli}
use ansible_collection_found.Document.Inspect.{Document}
use ansible_collection_found.Document.Transfer.{
  Retrieved, Receipt, onepassword_read_custody, onepassword_custody,
}
use ansible_collection_found.Handoff.Request.{Request, as_bool, validate_request}

abbrev pub invalid : String
invalid = "Invalid native provider result."

abbrev pub absent : String
absent = "An absent native copy must not have a successful receipt."

abbrev pub result_fields : String → List String
result_fields operation =
    (if operation == "read" then "package" else "planned")
    ∷ "changed"
    ∷ "verified"
    ∷ "package_sha256"
    ∷ "item_id"
    ∷ "item_version"
    ∷ []

-- The results of the two operations, as mappings.
abbrev pub retrieved_value : Retrieved → Value
retrieved_value r = dict (
    field "changed" (bool r.changed) (
      field "verified" (bool r.verified) (
        field "package" r.contents (
          field "package_sha256" (str r.package_sha256) (
            field "item_id" (str r.item_id)
              (field "item_version" (int (pos r.item_version)) end))))))

abbrev pub item_fields : Option Document → Fields
item_fields none = field "item_id" null (field "item_version" null end)
item_fields (some d) = field "item_id" (str d.id) (field "item_version" (int (pos d.version)) end)

abbrev pub receipt_value : Receipt → Value
receipt_value r = dict (
    field "changed" (bool r.changed) (
      field "verified" (bool r.verified) (
        field "planned" (bool r.planned)
          (field "package_sha256" (str r.package_sha256) (item_fields r.item)))))

abbrev pub response_value : String → Value → Value
response_value sha result = dict (
    field "schema_version" (int (pos 1))
      (field "request_sha256" (str sha) (field "result" result end)))

abbrev pub is_null : Option Value → Bool
is_null (some null) = true
is_null _ = false

-- The document that a verified result names.
unfoldable pub check_item : Config → Fields → Result (Unit {0})
check_item config result =
    Result.◌>>=◌ (as_str (get result "item_id") "Missing native Document identity.") λ id.
      Result.◌>>=◌ (as_nat (get result "item_version") "Missing native Document identity.")
        λ version.
          Result.◌>>◌
            (refuse (not (is_object_id id) || nat_eq version 0) "Missing native Document identity.")
            (elim (config.item_id) [
              | none ↦ ok tt
              | some item ↦
                  refuse (not (id == item) || not (nat_eq version config.item_version))
                    "Native result changed retained Document pins."
            ])

unfoldable pub check_outcome : Config → Bool → Bool → Fields → Result (Unit {0})
check_outcome config changed true result = check_item config result
check_outcome config changed false result =
    refuse
      (not (is_null (get result "item_id")) || not (is_null (get result "item_version")) || changed)
      absent

module _ (py : Stdlib) where
  unfoldable pub check_package : Request → Bool → Fields → Result (Unit {0})
  check_package request verified result =
      if request.operation == "read"
      then (Result.◌>>=◌ (index result "package") λ contents.
          Result.◌>>=◌ (validate_package py contents)
            λ raw. Result.◌>>=◌ (verify_download py raw request.read_pins) λ _. ok tt)
      else (Result.◌>>=◌ (as_bool (get result "planned") "Invalid native planning result.")
          λ planned.
            refuse (planned && verified || not planned && not verified)
              "Invalid native planning result.")

  unfoldable pub check_result : Request → Fields → Result (Unit {0})
  check_result request result =
      Result.◌>>◌ (refuse (not (has_keys result (result_fields request.operation))) invalid) (
        Result.◌>>=◌ (as_bool (get result "changed") invalid) λ changed.
          Result.◌>>=◌ (as_bool (get result "verified") invalid) λ verified.
            Result.◌>>=◌ (index result "package_sha256") λ sha.
              Result.◌>>◌
                (refuse
                  (not (value_eq sha request.pinned)
                    || not (request.operation == "apply") && changed
                    || not (request.operation == "plan") && not verified)
                  invalid)
                (Result.◌>>◌ (check_package request verified result)
                  (check_outcome request.config changed verified result)))

  -- For a request that is valid at the time `now`.
  unfoldable pub validate_response : ℕ → Value → Value → Result Fields
  validate_response now asked response = Result.◌>>=◌ (validate_request py now asked) λ request.
      Result.◌>>=◌ (as_dict (some response) "Native response does not match the exact request.")
        λ r.
          Result.◌>>◌
            (refuse
              (not (has_keys r ("schema_version" ∷ "request_sha256" ∷ "result" ∷ []))
                || not (int_and (λ n. nat_eq n 1) (get r "schema_version"))
                || not (is_str request.sha256 (get r "request_sha256")))
              "Native response does not match the exact request.")
            (Result.◌>>=◌ (as_dict (get r "result") invalid)
              λ result. Result.◌>>◌ (check_result request result) (ok result))

-- `connect` is `NativeCLI(config)`, which may refuse the executor; `clock` is `datetime.now`, and
-- `normalize` is `normalize_approval`.
module _ (py : Stdlib) (os : Os) (cli : Cli (Os.State os))
    (connect : Config → Exec (Os.State os) (Unit {0}))
    (normalize : Fields → Fields → String → Value → Value → Exec (Os.State os) Approval)
    (clock : Exec (Os.State os) Moment) where
  open os use {State}

  unfoldable pub perform : Request → Exec State Value
  perform request =
      if request.operation == "read"
      then (do
        r ← onepassword_read_custody py cli request.provider_config request.read_pins
        pure (retrieved_value r))
      else (do
        r ←
            onepassword_custody py os cli (normalize request.approval request.authority) clock
              request.provider_config request.contents request.operation false request.allow_create
        pure (receipt_value r))

  unfoldable pub execute_request : Value → String → Exec State Value
  execute_request asked expected = do
    now ← clock
    request ← lift (validate_request py now.micros asked)
    check (not (request.sha256 == expected)) "Native request differs from the EE plan."
    connect request.config
    result ← perform request
    later ← clock
    lift (validate_response py later.micros asked (response_value request.sha256 result))
    pure (response_value request.sha256 result)
