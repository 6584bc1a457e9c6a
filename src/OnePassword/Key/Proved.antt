-- ===== src/OnePassword/Key/Proved.antt =====
-- What a proof by the agent means.
use ansible_collection_found.Base.{
  ℕ, String, ◌<>◌, true, some, List, [], ◌∷◌, Bytes, ◌≡◌, refl, nat_eq, length, codes, arith, ap,
  Bool, false, not, ltb, if◌then◌else◌,
}
use ansible_collection_found.Base.Result.{
  Result, ok, err, never, ok_same, refuse_unless, or_else-ok,
}
use ansible_collection_found.Base.Exec.{pure, lift, bind-elim}
use ansible_collection_found.Base.Value.{Value, ℤ, pos, int_eq}
use ansible_collection_found.Stdlib.{Stdlib}
use ansible_collection_found.Approval.Normalize.{Trusted}
use ansible_collection_found.Approval.Signers.{Codec}
use ansible_collection_found.Approval.Trust.{Scratch, closed_after}
use ansible_collection_found.Approval.Trust.Verified.{finally_do-ok}
use ansible_collection_found.OnePassword.Client.{Ran, not_run, exited}
use ansible_collection_found.OnePassword.Key.Config.{Tools}
use ansible_collection_found.OnePassword.Key.Proof.{
  Agent, is_signature, signed, verified, listed, digest_of, with_socket, write_controller_file,
  matching_rows, public_rows, run_judged, check_listed, prove, verify_agent_key,
}

-- The program exited with 0, and printed the bytes.
abbrev pub Ends : Ran → Bytes → Type 0
Ends ran output = (code : ℤ) × (ran ≡ exited code output) × (int_eq code (pos 0) ≡ true)

if_holds :
    {A : Type 0} (b : Bool) (a : A) (e : String) {c : A}
    → (if b then ok a else err e) ≡ ok c
    → (b ≡ true) × (a ≡ c)
if_holds true a e h = (refl, ok_same h)
if_holds false a e h = never h

if_fails :
    {A : Type 0} (b : Bool) (e : String) (r : Result A) {c : A}
    → (if b then err e else r) ≡ ok c
    → (b ≡ false) × (r ≡ ok c)
if_fails true e r h = never h
if_fails false e r h = (refl, h)

listed-Ends : (ran : Ran) (output : Bytes) → listed ran ≡ ok output → Ends ran output
listed-Ends not_run output h = never h
listed-Ends (exited code printed) output h =
    let (well, h1) = if_fails (not (int_eq code (pos 0))) _ _ h in
    let (_, h2) = if_fails (ltb 65536 (length printed)) _ _ h1 in
    (code, ap (exited code) (ok_same h2), ground (arith, well))

signed-Ends : (ran : Ran) (signature : Bytes) → signed ran ≡ ok signature → Ends ran signature
unfolding is_signature
signed-Ends not_run signature h = never h
signed-Ends (exited code printed) signature h =
    let (armored, same) = if_holds (is_signature code printed) printed _ h in
    (code, ap (exited code) same, ground (arith, armored))

verified-Ends :
    (ran : Ran) {u : Unit {0}} → verified ran ≡ ok u → (output : Bytes) × Ends ran output
verified-Ends not_run h = never h
verified-Ends (exited code printed) h =
    (printed, (code, refl, (if_holds (int_eq code (pos 0)) tt _ h).0))

module _ {S : Type 0} (py : Stdlib) (codec : Codec) (trusted : Trusted S) (scratch : Scratch S)
    (agent : Agent S) where
  -- The program of the agent's tools, checked again, and the environment that names the checked socket.
  abbrev pub IsReady : Value → Value → String → Tools → String × List (String × String) → Type 0
  IsReady path sha name tools ready =
      (u v : S) × (at : String) × (inherited_ : List (String × String)) × ((Trusted.executable
          trusted (some path) (digest_of sha) name u).0
        ≡ ok ready.0)
      × ((Agent.socket agent tools.agent_socket_path v).0 ≡ ok at)
      × (ready.1 ≡ ("SSH_AUTH_SOCK", at) ∷ inherited_)

  -- The bytes were written into a file that was created under the path.
  abbrev pub Wrote : String → Bytes → Type 0
  Wrote path payload =
      (u : S) × (fd : ℕ) × ((Scratch.create_file scratch path u).0 ≡ ok fd)
      × ((Agent.write_stream agent fd payload (Scratch.create_file scratch path u).1).0 ≡ ok tt)

  -- The agent, asked over the checked socket, lists the fingerprint exactly once.
  abbrev pub Lists : Tools → String → Type 0
  Lists tools fingerprint =
      (ready : String × List (String × String)) × (u : S) × (output : Bytes) × (text : String)
      × IsReady tools.ssh_add_path tools.ssh_add_sha256 "ssh_add_path" tools ready
      × Ends (Agent.run_program agent (ready.0 ∷ "-L" ∷ []) ready.1 [] u).0 output
      × (Agent.decode_utf8 agent output ≡ ok text)
      × (length (matching_rows py codec trusted scratch agent fingerprint (public_rows text)) ≡ 1)

  -- The agent signs the challenge with the key, and `ssh-keygen` accepts that very signature, over the challenge,
  -- for the one signer that has the key.
  abbrev pub Signs : Tools → String → Bytes → Type 0
  Signs tools public_key challenge =
      (key_path signers_path signature_path : String) × (signer verifier : String
        × List (String × String))
      × (signature answer : Bytes) × (u v : S) × Wrote key_path (codes (public_key <> "\n"))
      × Wrote signers_path (codes ("onepassword-agent@l-it.io" <> (" " <> (public_key <> "\n"))))
      × IsReady tools.ssh_keygen_path tools.ssh_keygen_sha256 "ssh_keygen_path" tools signer
      × Ends
          (Agent.run_program agent
            (signer.0 ∷ "-Y" ∷ "sign" ∷ "-f" ∷ key_path ∷ "-n" ∷ "agent-proof@l-it.io" ∷ "-O"
              ∷ "hashalg=sha256" ∷ [])
            signer.1 challenge u).0
          signature
      × Wrote signature_path signature
      × IsReady tools.ssh_keygen_path tools.ssh_keygen_sha256 "ssh_keygen_path" tools verifier
      × Ends
          (Agent.run_program agent
            (verifier.0 ∷ "-Y" ∷ "verify" ∷ "-f" ∷ signers_path ∷ "-I" ∷ "onepassword-agent@l-it.io"
              ∷ "-n" ∷ "agent-proof@l-it.io" ∷ "-s" ∷ signature_path ∷ [])
            verifier.1 challenge v).0
          answer

  with_socket-IsReady :
      (tools : Tools) (path sha : Value) (name : String) (environment : List (String × String))
      (s : S) (ready : String × List (String × String))
      → (with_socket py codec trusted scratch agent path sha name tools.agent_socket_path
          environment s).0
        ≡ ok ready
      → IsReady path sha name tools ready
  unfolding with_socket pure
  with_socket-IsReady tools path sha name environment s ready h =
      bind-elim _ _ s h λ program checked h1.
        bind-elim _ _ _ h1
          λ at found h2. rw (← ok_same h2) (s, _, at, environment, checked, found, refl)

  write_controller_file-Wrote :
      (path : String) (payload : Bytes) (s : S) {u : Unit {0}}
      → (write_controller_file py codec trusted scratch agent path payload s).0 ≡ ok u
      → Wrote path payload
  unfolding write_controller_file closed_after
  write_controller_file-Wrote path payload s h =
      bind-elim _ _ s h λ fd created h1. (s, fd, created, h1)

  check_listed-Lists :
      (tools : Tools) (fingerprint : String) (environment : List (String × String)) (s : S)
      {u : Unit {0}}
      → (check_listed py codec trusted scratch agent tools fingerprint environment s).0 ≡ ok u
      → Lists tools fingerprint
  unfolding check_listed lift run_judged
  check_listed-Lists tools fingerprint environment s h = bind-elim _ _ s h λ ready is_ready h1.
      bind-elim _ _ _ h1 λ output shown h2. bind-elim _ _ _ h2 λ text decoded h3.
        let one =
          refuse_unless
            (nat_eq
              (length (matching_rows py codec trusted scratch agent fingerprint (public_rows text)))
              1)
            _ h3 in
        (
          ready,
          _,
          output,
          text,
          with_socket-IsReady tools _ _ _ environment s ready is_ready,
          listed-Ends _ output shown,
          or_else-ok _ _ decoded,
          ground (arith, one),
        )

  prove-Signs :
      (tools : Tools) (public_key : String) (challenge : Bytes)
      (environment : List (String × String)) (key_path signers_path signature_path : String) (s : S)
      {u : Unit {0}}
      → (prove py codec trusted scratch agent tools public_key challenge environment key_path
          signers_path signature_path s).0
        ≡ ok u
      → Signs tools public_key challenge
  unfolding prove run_judged
  prove-Signs tools public_key challenge environment key_path signers_path signature_path s h =
      bind-elim _ _ s h λ _ key h1. bind-elim _ _ _ h1 λ _ signers h2.
        bind-elim _ _ _ h2 λ signer ready h3. bind-elim _ _ _ h3 λ signature by_agent h4.
          bind-elim _ _ _ h4 λ _ stored h5. bind-elim _ _ _ h5 λ verifier again h6. (
            key_path,
            signers_path,
            signature_path,
            signer,
            verifier,
            signature,
            (verified-Ends _ h6).0,
            _,
            _,
            write_controller_file-Wrote key_path _ _ key,
            write_controller_file-Wrote signers_path _ _ signers,
            with_socket-IsReady tools _ _ _ environment _ signer ready,
            signed-Ends _ signature by_agent,
            write_controller_file-Wrote signature_path _ _ stored,
            with_socket-IsReady tools _ _ _ environment _ verifier again,
            (verified-Ends _ h6).1,
          )

  -- A key is proved only when the agent, asked over the checked socket, lists its fingerprint exactly once, and signs
  -- a challenge that was drawn in this run; `ssh-keygen` was run on the written signature, and accepted it over the
  -- same challenge for the one written signer, who has the key.
  pub verify_agent_key-Proved :
      (tools : Tools) (identity : String × String) (s : S)
      → (verify_agent_key py codec trusted scratch agent tools identity s).0 ≡ ok tt
      → Lists tools identity.1
        × ((challenge : Bytes) × (drawn : S) × ((Agent.challenge agent drawn).0 ≡ ok challenge)
            × Signs tools identity.0 challenge)
  unfolding verify_agent_key
  verify_agent_key-Proved tools identity s h = bind-elim _ _ s h λ environment _ h1.
      bind-elim _ _ _ h1 λ _ lists h2. bind-elim _ _ _ h2 λ challenge fresh h3.
        bind-elim _ _ _ h3 λ root _ h4. bind-elim _ _ _ h4 λ _ _ h5. (
          check_listed-Lists tools identity.1 environment _ lists,
          (
            challenge,
            _,
            fresh,
            prove-Signs tools identity.0 challenge environment _ _ _ _
                (finally_do-ok py scratch _ _ _ h5),
          ),
        )
