-- ===== src/OnePassword/Secret/Authorized.antt =====
-- The approval of the secret item action.
use ansible_collection_found.Base.{not, Option, none, some}
use ansible_collection_found.Base.Exec.{Exec, pure, lift, check, ◌>>=◌, ◌>>◌}
use ansible_collection_found.Base.Value.{Fields, null, dict, end}
use ansible_collection_found.Stdlib.{Stdlib}
use ansible_collection_found.Approval.Normalize.{Trusted}
use ansible_collection_found.Approval.Claim.{Approval, Moment}
use ansible_collection_found.Approval.Validate.{normalize_approval}
use ansible_collection_found.OnePassword.Arguments.{get_or, is_unset, Operation, plan, apply}
use ansible_collection_found.OnePassword.Client.{Desktop}
use ansible_collection_found.OnePassword.Secret.Config.{Item, secret_binding, check_secret}

module _ {S : Type 0} (py : Stdlib) (desktop : Desktop S) (trusted : Trusted S)
    (clock : Exec S Moment) where
  -- The approval that the operation needs, or none.
  unfoldable pub secret_approval : Fields → Item → Operation → Exec S (Option Approval)
  secret_approval args config apply = do
    approval ←
        normalize_approval py trusted (get_or args "approval" (dict end))
          (get_or args "approval_authority" null) "create-onepassword-secret" config.subject
          (secret_binding config) clock
    pure (some approval)
  secret_approval args config plan = do
    check (not (is_unset (get_or args "approval_authority" null)))
        "approval_authority is accepted only for apply."
    check (not (is_unset (get_or args "approval" (dict end))))
        "approval is accepted only for apply."
    pure none

  unfoldable pub normalize_secret : Fields → Exec S (Item × Option Approval)
  normalize_secret args = do
    config ← lift (check_secret py desktop args)
    approval ← secret_approval args config config.operation
    pure (config, approval)
