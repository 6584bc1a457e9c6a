-- ===== src/Approval/Validate/Keeps.antt =====
-- The validation of an approval changes nothing that the checks of its files leave alone.
use ansible_collection_found.Base.{ℕ, String, Bool, Option, Bytes}
use ansible_collection_found.Base.Exec.{
  Exec, Relates, IsPreorder, Relates-pure, Relates-lift, Relates-bind,
}
use ansible_collection_found.Base.Value.{Value}
use ansible_collection_found.Stdlib.{Stdlib}
use ansible_collection_found.Approval.Claim.{Moment}
use ansible_collection_found.Approval.Normalize.{
  Trusted, Normalized, Authority, normalize_approval_fields,
}
use ansible_collection_found.Approval.Validate.{
  normalize_approval_authority, check_binding, check_unused, normalize_approval,
}

-- Each check of a file keeps a relation.
pub record Keeps {S : Type 0} (trusted : Trusted S) (R : S → S → Type 0) : Type 0 where
  pub keeps-directory :
      (path : Option Value) (name : String) → Relates R (Trusted.replay_directory trusted path name)
  pub keeps-file :
      (path : Option Value) (sha name : String) (maximum : ℕ)
      → Relates R (Trusted.pinned_file trusted path sha name maximum)
  pub keeps-executable :
      (path : Option Value) (sha name : String)
      → Relates R (Trusted.executable trusted path sha name)
  pub keeps-signature :
      (authority : Authority) (signature : String) (payload : Bytes)
      → Relates R (Trusted.verify_signature trusted authority signature payload)
  pub keeps-lexists : (path : String) → Relates R (Trusted.lexists trusted path)

module _ {S : Type 0} (py : Stdlib) {trusted : Trusted S} {R : S → S → Type 0}
    (order : IsPreorder R) (keeps : Keeps trusted R) where
  open keeps use {keeps-directory, keeps-file, keeps-executable, keeps-signature, keeps-lexists}

  ruleset blocks = (Relates-pure, Relates-lift, Relates-bind)

  normalize_approval_fields-Keeps :
      (approval : Value) (required : Bool)
      → Relates R (normalize_approval_fields py trusted approval required)
  unfolding normalize_approval_fields
  normalize_approval_fields-Keeps approval required =
      search (blocks, order, keeps-directory) depth 40

  normalize_approval_authority-Keeps :
      (settings : Value) → Relates R (normalize_approval_authority py trusted settings)
  unfolding normalize_approval_authority
  normalize_approval_authority-Keeps settings =
      search (blocks, order, keeps-directory, keeps-file, keeps-executable) depth 40

  check_binding-Keeps :
      (n : Normalized) (authority : Authority) (operation target : String) (now : Moment)
      → Relates R (check_binding py trusted n authority operation target now)
  unfolding check_binding
  check_binding-Keeps n authority operation target now = search (blocks, order) depth 20

  check_unused-Keeps :
      (authority : Authority) (digest : String)
      → Relates R (check_unused py trusted authority digest)
  unfolding check_unused
  check_unused-Keeps authority digest = search (blocks, order, keeps-lexists) depth 8

  pub normalize_approval-Keeps :
      (approval settings : Value) (operation target : String) (binding : Value)
      (clock : Exec S Moment)
      → Relates R clock
      → Relates R (normalize_approval py trusted approval settings operation target binding clock)
  unfolding normalize_approval
  normalize_approval-Keeps approval settings operation target binding clock ticks =
      Relates-bind order _ _ (normalize_approval_fields-Keeps approval _) λ n.
        Relates-bind order _ _ (normalize_approval_authority-Keeps settings) λ authority.
          Relates-bind order _ _ ticks λ now.
            Relates-bind order _ _ (check_binding-Keeps n authority operation target now)
              λ _. search (blocks, order, keeps-signature, check_unused-Keeps) depth 12
