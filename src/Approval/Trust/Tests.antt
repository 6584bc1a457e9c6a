-- ===== src/Approval/Trust/Tests.antt =====
-- A signature that is accepted, and a public key that is well formed.
use ansible_collection_found.Base.{
  ◌<>◌, true, [], ◌∷◌, Bytes, some, ◌≡◌, ◌↔◌, refl, is_digest, repeat_match, head_tail, length,
}
use ansible_collection_found.Base.Result.{ok}
use ansible_collection_found.Base.Exec.{lift, pure, raise, ◌>>=◌}
use ansible_collection_found.Base.Value.{str, value_eq}
use ansible_collection_found.Approval.Checks.{normalize_sha256}
use ansible_collection_found.Approval.Normalize.{Authority}
use ansible_collection_found.Approval.Validate.{
  is_identity, is_fingerprint, normalize_approval_authority, revalidate_authority, public_authority,
}
use ansible_collection_found.Approval.Signers.Wire.{check_blob}
use ansible_collection_found.Approval.Signers.Blob.{wire, check_blob-IsEd25519}
use ansible_collection_found.Approval.Tests.{python, files, status, digest_text}
use ansible_collection_found.Approval.Trust.{
  Scratch, write_bytes, write_and_sync, closed_after, write_private_file, run_keygen,
  remove_if_there, remove_scratch, finally_do, check_signed, verify_approval_signature,
}
use ansible_collection_found.Approval.Trust.Verified.{Accepted, verify_approval_signature-Accepted}

abbrev pub scratch_over : (S : Type 0) → Scratch S
scratch_over S = record {
  mkdtemp = λ _ s. (ok "/tmp/lit", s);
  chmod_private = λ _ s. (ok tt, s);
  join_path = λ a b. a <> ("/" <> b);
  create_file = λ _ s. (ok 4, s);
  write = λ _ b s. (ok (length b), s);
  fsync = λ _ s. (ok tt, s);
  close = λ _ s. s;
  lexists = λ _ s. (ok true, s);
  unlink = λ _ s. (ok tt, s);
  rmdir = λ _ s. (ok tt, s);
  spawn = λ _ _ s. (some 0, s);
}

abbrev pub scratch : Scratch (Unit {0})
scratch = scratch_over (Unit {0})

abbrev authority : Authority
authority = record {
  identity = "ops";
  namespace = "lit-onepassword-approval-v1";
  fingerprint = "SHA256:AAAAAAAAAAAAAAAAAAAAAAAAAAAAAAAAAAAAAAAAAAA";
  allowed_signers_path = "/signers";
  allowed_signers_sha256 = digest_text;
  entry_sha256 = digest_text;
  ssh_keygen_path = "/usr/bin/ssh-keygen";
  ssh_keygen_sha256 = digest_text;
  replay_directory = "/replay";
  signers = [];
  requested_signers = str "/signers";
  requested_keygen = str "/usr/bin/ssh-keygen";
  replay_status = status;
}

verifies : (verify_approval_signature python scratch files authority "sig" (1 ∷ []) tt).0 ≡ ok tt
unfolding verify_approval_signature revalidate_authority normalize_approval_authority check_signed
    run_keygen write_private_file write_bytes write_and_sync closed_after remove_if_there
    remove_scratch finally_do ◌>>=◌ lift pure raise value_eq is_identity is_fingerprint
    public_authority normalize_sha256 is_digest repeat_match head_tail
verifies = refl

verify_approval_signature-Accepted_example :
    (checked : Authority) × ((revalidate_authority python files authority tt).0 ≡ ok checked)
    × Accepted python scratch files checked (1 ∷ [])
verify_approval_signature-Accepted_example =
    verify_approval_signature-Accepted python scratch files authority "sig" (1 ∷ []) tt verifies

abbrev pub public_key : Bytes
public_key =
    1 ∷ 2 ∷ 3 ∷ 4 ∷ 5 ∷ 6 ∷ 7 ∷ 8 ∷ 9 ∷ 10 ∷ 11 ∷ 12 ∷ 13 ∷ 14 ∷ 15 ∷ 16 ∷ 17 ∷ 18 ∷ 19 ∷ 20 ∷ 21
    ∷ 22 ∷ 23 ∷ 24 ∷ 25 ∷ 26 ∷ 27 ∷ 28 ∷ 29 ∷ 30 ∷ 31 ∷ 32 ∷ []

abbrev pub blob : Bytes
blob = wire public_key

check_blob-IsEd25519_example :
    (check_blob (wire public_key) ≡ ok tt)
    ↔ ((key : Bytes) × (length key ≡ 32) × (wire public_key ≡ wire key))
check_blob-IsEd25519_example = check_blob-IsEd25519 (wire public_key)
