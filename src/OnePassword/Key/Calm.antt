-- ===== src/OnePassword/Key/Calm.antt =====
-- The proof by the agent leaves the account as it is.
use ansible_collection_found.Base.{
  ℕ, String, List, Bytes, [], ◌∷◌, Bool, true, false, ◌&&◌, ◌||◌, ◌==◌, ◌≡◌, refl,
}
use ansible_collection_found.Base.Result.{Result, ok, err}
use ansible_collection_found.Base.Exec.{
  Exec, pure, Relates, IsPreorder, Relates-pure, Relates-lift, Relates-bind, Relates-if,
}
use ansible_collection_found.Base.Value.{Value}
use ansible_collection_found.Stdlib.{Stdlib}
use ansible_collection_found.Approval.Normalize.{Trusted}
use ansible_collection_found.Approval.Signers.{Codec}
use ansible_collection_found.Approval.Trust.{Scratch, closed_after, remove_if_there, finally_do}
use ansible_collection_found.Approval.Validate.Keeps.{Keeps}
use ansible_collection_found.OnePassword.Client.{Ran}
use ansible_collection_found.OnePassword.Key.Config.{Tools}
use ansible_collection_found.OnePassword.Key.Proof.{
  Agent, run_judged, write_controller_file, with_socket, check_listed, prove, remove_proof,
  verify_agent_key,
}

-- The commands of `ssh-add` and `ssh-keygen` that list keys, sign, and verify a signature.
abbrev pub is_proof_command : List String → Bool
is_proof_command (_ ∷ a ∷ []) = a == "-L"
is_proof_command (_ ∷ a ∷ b ∷ _) = a == "-Y" && (b == "sign" || b == "verify")
is_proof_command _ = false

-- Each call of the proof keeps a relation.
pub record IsCalm {S : Type 0} (scratch : Scratch S) (agent : Agent S) (R : S → S → Type 0)
    : Type 0 where
  pub calm-mkdtemp : (prefix : String) → Relates R (Scratch.mkdtemp scratch prefix)
  pub calm-chmod : (path : String) → Relates R (Scratch.chmod_private scratch path)
  pub calm-create : (path : String) → Relates R (Scratch.create_file scratch path)
  pub calm-close : (fd : ℕ) (s : S) → R s (Scratch.close scratch fd s)
  pub calm-lexists : (path : String) → Relates R (Scratch.lexists scratch path)
  pub calm-unlink : (path : String) → Relates R (Scratch.unlink scratch path)
  pub calm-rmdir : (path : String) → Relates R (Scratch.rmdir scratch path)
  pub calm-socket : (path : Value) → Relates R (Agent.socket agent path)
  pub calm-run :
      (arguments : List String) (environment : List (String × String)) (payload : Bytes) (s : S)
      → is_proof_command arguments ≡ true
      → R s (Agent.run_program agent arguments environment payload s).1
  pub calm-challenge : Relates R (Agent.challenge agent)
  pub calm-write : (fd : ℕ) (payload : Bytes) → Relates R (Agent.write_stream agent fd payload)

module _ {S : Type 0} (py : Stdlib) (codec : Codec) {trusted : Trusted S} {scratch : Scratch S}
    {agent : Agent S} {R : S → S → Type 0} (order : IsPreorder R) (keeps : Keeps trusted R)
    (calm : IsCalm scratch agent R) where
  open keeps use {keeps-executable}
  open calm use {
    calm-mkdtemp, calm-chmod, calm-create, calm-lexists, calm-unlink, calm-rmdir, calm-socket,
    calm-challenge, calm-write,
  }

  ruleset blocks = (Relates-pure, Relates-lift, Relates-bind)

  finally_do-Calm :
      {A : Type 0} (m : Exec S A) (c : Exec S (Unit {0}))
      → Relates R m
      → Relates R c
      → Relates R (finally_do py scratch m c)
  unfolding finally_do
  finally_do-Calm {A} m c hm hc = record {
    at = λ s. go s (c (m s).1) (order.chain s _ _ (hm.at s) (hc.at (m s).1));
  }
    where
      go :
          (s : S) (r : Result (Unit {0}) × S)
          → R s r.1
          → R s (elim r.0 as (λ _. Result A × S) [ ok _ ↦ ((m s).0, r.1) | err e ↦ (err e, r.1) ]).1
      go s (ok _, t) h = h
      go s (err _, t) h = h

  write_controller_file-Calm :
      (path : String) (payload : Bytes)
      → Relates R (write_controller_file py codec trusted scratch agent path payload)
  unfolding write_controller_file closed_after
  write_controller_file-Calm path payload = Relates-bind order _ _ (calm-create path) λ fd. record {
    at = λ s. order.chain s _ _ ((calm-write fd payload).at s) (calm.calm-close fd _);
  }

  run_judged-Calm :
      {A : Type 0} (judge : Ran → Result A) (arguments : List String)
      (environment : List (String × String)) (payload : Bytes)
      → is_proof_command arguments ≡ true
      → Relates R (run_judged py codec trusted scratch agent judge arguments environment payload)
  unfolding run_judged
  run_judged-Calm judge arguments environment payload h = record {
    at = λ s. calm.calm-run arguments environment payload s h;
  }

  with_socket-Calm :
      (path sha : Value) (name : String) (socket : Value) (environment : List (String × String))
      → Relates R (with_socket py codec trusted scratch agent path sha name socket environment)
  unfolding with_socket
  with_socket-Calm path sha name socket environment =
      search (blocks, order, keeps-executable, calm-socket) depth 8

  check_listed-Calm :
      (tools : Tools) (fingerprint : String) (environment : List (String × String))
      → Relates R (check_listed py codec trusted scratch agent tools fingerprint environment)
  unfolding check_listed
  check_listed-Calm tools fingerprint environment =
      Relates-bind order _ _ (with_socket-Calm _ _ _ _ _) λ ready.
        Relates-bind order _ _ (run_judged-Calm _ _ _ _ refl)
          λ output. search (blocks, order) depth 8

  prove-Calm :
      (tools : Tools) (public_key : String) (challenge : Bytes)
      (environment : List (String × String)) (key_path signers_path signature_path : String)
      → Relates R (
          prove py codec trusted scratch agent tools public_key challenge environment key_path
            signers_path signature_path)
  unfolding prove
  prove-Calm tools public_key challenge environment key_path signers_path signature_path =
      Relates-bind order _ _ (write_controller_file-Calm _ _) λ _.
        Relates-bind order _ _ (write_controller_file-Calm _ _) λ _.
          Relates-bind order _ _ (with_socket-Calm _ _ _ _ _) λ signer.
            Relates-bind order _ _ (run_judged-Calm _ _ _ _ refl) λ signature.
              Relates-bind order _ _ (write_controller_file-Calm _ _) λ _.
                Relates-bind order _ _ (with_socket-Calm _ _ _ _ _)
                  λ verifier. run_judged-Calm _ _ _ _ refl

  remove_if_there-Calm : (path : String) → Relates R (remove_if_there py scratch path)
  unfolding remove_if_there
  remove_if_there-Calm path = Relates-bind order _ _ (calm-lexists path) λ there.
      Relates-if there (Scratch.unlink scratch path) (pure tt) (λ _. calm-unlink path)
        (Relates-pure order _)

  remove_proof-Calm :
      (root signature_path signers_path key_path : String)
      → Relates R
          (remove_proof py codec trusted scratch agent root signature_path signers_path key_path)
  unfolding remove_proof
  remove_proof-Calm root signature_path signers_path key_path =
      Relates-bind order _ _ (remove_if_there-Calm _) λ _.
        Relates-bind order _ _ (remove_if_there-Calm _)
          λ _. Relates-bind order _ _ (remove_if_there-Calm _) λ _. calm-rmdir root

  pub verify_agent_key-Calm :
      (tools : Tools) (identity : String × String)
      → Relates R (verify_agent_key py codec trusted scratch agent tools identity)
  unfolding verify_agent_key
  verify_agent_key-Calm tools identity =
      Relates-bind order _ _ (Relates-lift order _) λ environment.
        Relates-bind order _ _ (check_listed-Calm tools _ environment) λ _.
          Relates-bind order _ _ calm-challenge λ challenge.
            Relates-bind order _ _ (calm-mkdtemp _) λ root.
              Relates-bind order _ _ (calm-chmod root) λ _.
                finally_do-Calm _ _ (prove-Calm tools _ challenge environment _ _ _)
                  (remove_proof-Calm root _ _ _)
