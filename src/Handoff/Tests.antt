-- ===== src/Handoff/Tests.antt =====
-- A request for the creation of a document.
use ansible_collection_found.Base.{◌⊎◌, String, Bool, true, false, refl}
use ansible_collection_found.Base.Result.{ok}
use ansible_collection_found.Base.Exec.{Exec}
use ansible_collection_found.Base.Value.{Value, Fields, null, bool, str, int, pos, dict, end, field}
use ansible_collection_found.Custody.Tests.Sample.{sample, pins, digest_text}
use ansible_collection_found.Approval.Claim.{Approval}
use ansible_collection_found.Document.Config.{Config}
use ansible_collection_found.Document.Tests.{
  settings, service, machine, approval, clock, dated, service-IsQuiet, machine-IsApart,
}
use ansible_collection_found.Handoff.Response.{execute_request}
use ansible_collection_found.Document.Quiet.{SameDocuments}
use ansible_collection_found.Handoff.Safety.{ClaimedRequest, execute_request-OnlyClaimed}

abbrev exchange : Value
exchange = dict (
    field "execution_id" (str "run-1") (
      field "nonce" (str digest_text) (
        field "issued_at" (str "2026-01-01T00:00:00Z")
          (field "expires_at" (str "2026-01-01T00:15:00Z") end))))

abbrev authority : Value
authority = dict (field "identity" (str "ops") end)

abbrev asked : Value
asked = dict (
    field "exchange" exchange (
      field "schema_version" (int (pos 1)) (
        field "operation" (str "apply") (
          field "provider_config" (settings null 0) (
            field "package" (dict sample) (
              field "read_pins" (dict pins) (
                field "allow_create" (bool true)
                  (field "approval_authority" authority (field "approval" authority end)))))))))

abbrev connect : Config → Exec Bool (Unit {0})
connect config s = (ok tt, s)

abbrev normalize : Fields → Fields → String → Value → Value → Exec Bool Approval
normalize given by operation target binding s = (ok approval, s)

execute_request-OnlyClaimed_example :
    SameDocuments service false
      (execute_request dated machine service connect normalize clock asked digest_text false).1
    ⊎ ClaimedRequest dated machine-IsApart connect normalize clock service-IsQuiet
        (λ config. record { at = λ s. refl })
        (λ given by operation target binding. record { at = λ s. refl })
        (record { at = λ s. refl })
        asked
        digest_text
        false
        (execute_request dated machine service connect normalize clock asked digest_text false).1
execute_request-OnlyClaimed_example =
    execute_request-OnlyClaimed dated machine-IsApart connect normalize clock service-IsQuiet
      (λ config. record { at = λ s. refl })
      (λ given by operation target binding. record { at = λ s. refl }) (record { at = λ s. refl })
      asked digest_text false
