-- ===== src/Approval/Trust/Verified.antt =====
-- What an accepted signature means.
use ansible_collection_found.Base.{ℕ, zero, suc, String, Option, some, none, Bytes, ◌≡◌, refl}
use ansible_collection_found.Base.Result.{Result, ok, err}
use ansible_collection_found.Base.Exec.{Exec, bind-elim}
use ansible_collection_found.Stdlib.{Stdlib}
use ansible_collection_found.Approval.Normalize.{Trusted, Authority}
use ansible_collection_found.Approval.Validate.{revalidate_authority}
use ansible_collection_found.Approval.Trust.{
  Scratch, judge, run_keygen, finally_do, keygen_arguments, check_signed, verify_approval_signature,
}

judge-ok : (code : Option ℕ) {u : Unit {0}} → judge code ≡ ok u → code ≡ some 0
judge-ok none h = absurd (cc (h))
judge-ok (some zero) h = refl
judge-ok (some (suc _)) h = absurd (cc (h))

pub finally_do-ok :
    {S A : Type 0} (py : Stdlib) (scratch : Scratch S) (m : Exec S A) (c : Exec S (Unit {0}))
    (s : S) {a : A}
    → (finally_do py scratch m c s).0 ≡ ok a
    → (m s).0 ≡ ok a
unfolding finally_do
finally_do-ok {S} {A} py scratch m c s {a} h = go (c (m s).1) h
  where
    go :
        (r : Result (Unit {0}) × S)
        → (elim r.0 as (λ _. Result A × S) [ ok _ ↦ ((m s).0, r.1) | err e ↦ (err e, r.1) ]).0
          ≡ ok a
        → (m s).0 ≡ ok a
    go (ok _, t) h1 = h1
    go (err _, t) h1 = absurd (cc (h1))

module _ {S : Type 0} (py : Stdlib) (scratch : Scratch S) (trusted : Trusted S) where
  -- The pinned program accepted the payload in the name of the pinned identity and namespace.
  abbrev pub Accepted : Authority → Bytes → Type 0
  Accepted authority payload =
      (program signers_path signature_path : String) × (before after : S) × ((Trusted.executable
          trusted (some authority.requested_keygen) authority.ssh_keygen_sha256
          "approval_ssh_keygen_path" before).0
        ≡ ok program)
      × ((Scratch.spawn scratch
            (keygen_arguments program signers_path authority.identity authority.namespace
              signature_path)
            payload after).0
          ≡ some 0)

  check_signed-Accepted :
      (authority : Authority) (signature : String) (payload : Bytes)
      (signers_path signature_path : String) (s : S) {u : Unit {0}}
      → (check_signed py scratch trusted authority signature payload signers_path signature_path
          s).0
        ≡ ok u
      → Accepted authority payload
  unfolding check_signed run_keygen
  check_signed-Accepted authority signature payload signers_path signature_path s h =
      bind-elim _ _ s h λ _ _ h1. bind-elim _ _ _ h1 λ _ _ h2.
        bind-elim _ _ _ h2
          λ program found h3. (program, signers_path, signature_path, _, _, found, judge-ok _ h3)

  -- A signature is accepted only when the authority's pins still hold and its pinned `ssh-keygen`, checked again,
  -- exits with 0 over exactly these bytes.
  pub verify_approval_signature-Accepted :
      (pinned : Authority) (signature : String) (payload : Bytes) (s : S)
      → (verify_approval_signature py scratch trusted pinned signature payload s).0 ≡ ok tt
      → (authority : Authority) × ((revalidate_authority py trusted pinned s).0 ≡ ok authority)
        × Accepted authority payload
  unfolding verify_approval_signature
  verify_approval_signature-Accepted pinned signature payload s h =
      bind-elim _ _ s h λ authority same h1. bind-elim _ _ _ h1 λ root _ h2.
        bind-elim _ _ _ h2 λ _ _ h3. (
          authority,
          same,
          check_signed-Accepted authority signature payload _ _ _
              (finally_do-ok py scratch _ _ _ h3),
        )
