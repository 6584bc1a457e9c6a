-- ===== src/OnePassword/Signing/Chosen.antt =====
-- Which key signs an approval.
use ansible_collection_found.Base.{
  String, ◌<>◌, ◌==◌, Bool, true, false, not, some, List, [], ◌∷◌, Bytes, ◌≡◌, refl, sym, ap, ◌∙◌,
  arith, length, words, lines, nat_eq, eq_iff,
}
use text.Mathlib.TextLemmas.{append_assoc}
use ansible_collection_found.Base.Result.{
  ok, >>=-ok, refuse-ok, refuse_unless, ok_same, or_else, or_else-ok,
}
use ansible_collection_found.Base.Exec.{pure, lift, bind-elim}
use ansible_collection_found.Stdlib.{Stdlib}
use ansible_collection_found.Approval.Normalize.{Trusted}
use ansible_collection_found.Approval.Signers.{
  Codec, Signer, one_of, entry_fields, entries_of, ed25519_fingerprint, parse_allowed_signers,
}
use ansible_collection_found.OnePassword.Key.Proof.{Agent, digest_of}
use ansible_collection_found.OnePassword.Signing.{
  authority_public_key, Settings, key_rows, list_keys, verified_agent_signer,
}

when_denied : (b : Bool) → not b ≡ false → b ≡ true
when_denied true h = refl
when_denied false h = absurd (cc (h))

one_of_any :
    (xs : List String) (e f : String) {a : String} → one_of xs e ≡ ok a → one_of xs f ≡ ok a
one_of_any [] e f h = absurd (cc (h))
one_of_any (x ∷ []) e f h = h
one_of_any (x ∷ y ∷ ys) e f h = absurd (cc (h))

module _ (py : Stdlib) (codec : Codec) where
  authority_public_key-of :
      (payload : Bytes) (text entry : String) (fields : String × String × String)
      → Codec.decode_ascii codec payload ≡ ok text
      → one_of
          (entries_of py codec (lines text))
          "Approval Authority must contain exactly one signer entry."
        ≡ ok entry
      → entry_fields (words entry) ≡ ok fields
      → authority_public_key py codec payload ≡ ok (fields.1 <> (" " <> fields.2))
  unfolding authority_public_key
  authority_public_key-of payload text entry fields decoded one parts =
      rw (decoded) (rw (one) (rw (parts) refl))

  -- When the boundary accepts a file of allowed signers, the key that is looked for is its one key, with the pinned
  -- fingerprint.
  pub authority_public_key-Pinned :
      (payload : Bytes) (identity expected : String) (signer : Signer)
      → parse_allowed_signers py codec payload identity expected ≡ ok signer
      → (key : String) × (authority_public_key py codec payload ≡ ok key)
        × (ed25519_fingerprint py codec key ≡ ok expected)
  unfolding parse_allowed_signers
  authority_public_key-Pinned payload identity expected signer h =
      let (text, at_text, h1) =
        >>=-ok
          (or_else (Codec.decode_ascii codec payload)
            "Approval Authority allowed-signers data must be ASCII.")
          _ h in
      let (entry, at_entry, h2) =
        >>=-ok
          (one_of (entries_of py codec (lines text))
            "Approval Authority file must contain exactly one signer entry.")
          _ h1 in
      let (fields, at_fields, h3) = >>=-ok (entry_fields (words entry)) _ h2 in
      let (_, h4) =
        refuse-ok _ "Approval Authority principal does not match the pinned identity." _ h3 in
      let (ed25519, h5) = refuse-ok (not (fields.1 == "ssh-ed25519")) _ _ h4 in
      let (fingerprint, at_fingerprint, h6) =
        >>=-ok (ed25519_fingerprint py codec ("ssh-ed25519 " <> fields.2)) _ h5 in
      let (pinned, _) = refuse-ok (not (fingerprint == expected)) _ _ h6 in
      let decoded = or_else-ok _ _ at_text in
      let one =
        one_of_any (entries_of py codec (lines text)) _
          "Approval Authority must contain exactly one signer entry." at_entry in
      let kind : fields.1 ≡ "ssh-ed25519" = (eq_iff _ _).0 (when_denied _ ed25519) in
      let same : fingerprint ≡ expected = (eq_iff _ _).0 (when_denied _ pinned) in
      (
        fields.1 <> (" " <> fields.2),
        authority_public_key-of payload text entry fields decoded one at_fields,
        ap (λ k. ed25519_fingerprint py codec (k <> (" " <> fields.2))) kind
            ∙ ap (ed25519_fingerprint py codec) (sym (append_assoc "ssh-ed25519" " " fields.2))
            ∙ at_fingerprint
            ∙ ap ok same,
      )

module _ {S : Type 0} (codec : Codec) (trusted : Trusted S) (agent : Agent S) where
  -- A socket is returned only when it is the one that was checked, and the listing of its agent has exactly one row
  -- with the key.
  pub verified_agent_signer-Lists :
      (config : Settings) (s : S) (socket : String)
      → (verified_agent_signer codec trusted agent config s).0 ≡ ok socket
      → (ssh_add text : String) × (output : Bytes) × (u : S) × ((Agent.socket agent
            config.agent_socket_path u).0
          ≡ ok socket)
        × ((list_keys codec trusted agent ssh_add socket
              (Agent.socket agent config.agent_socket_path u).1).0
            ≡ ok output)
        × (Codec.decode_ascii codec output ≡ ok text)
        × (length (key_rows config.public_key text) ≡ 1)
  unfolding verified_agent_signer lift pure
  verified_agent_signer-Lists config s socket h = bind-elim _ _ s h λ ssh_add _ h1.
      bind-elim _ _ _ h1 λ at checked h2. bind-elim _ _ _ h2 λ output listed h3.
        bind-elim _ _ _ h3 λ text decoded h4. bind-elim _ _ _ h4 λ _ unique h5.
          let same = ok_same h5 in
          let u =
            (Trusted.executable trusted (some config.ssh_add_path) (digest_of config.ssh_add_sha256)
              "signing_ssh_add_path" s).1 in
          (
            ssh_add,
            text,
            output,
            u,
            checked ∙ ap ok same,
            sym (
                  ap
                    (λ x.
                      (list_keys codec trusted agent ssh_add x
                        (Agent.socket agent config.agent_socket_path u).1).0)
                    same)
                ∙ listed,
            or_else-ok _ _ decoded,
            ground (
              arith,
              refuse_unless (nat_eq (length (key_rows config.public_key text)) 1) _ unique,
            ),
          )
