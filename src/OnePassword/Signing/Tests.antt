-- ===== src/OnePassword/Signing/Tests.antt =====
-- A key that is chosen.
use ansible_collection_found.Base.{
  String, [], ◌∷◌, Bytes, ◌≡◌, refl, length, is_space, split_at, words, lines, strip, lstrip_of,
  rstrip_of, join,
}
use ansible_collection_found.Base.Result.{ok}
use ansible_collection_found.Base.Exec.{pure, raise, lift, ◌>>=◌}
use ansible_collection_found.Base.Value.{str, pos}
use ansible_collection_found.Stdlib.{Stdlib}
use ansible_collection_found.Approval.Tests.{python, digest_text, files}
use ansible_collection_found.Approval.Signers.{
  Codec, Signer, entries_of, ed25519_fingerprint, parse_allowed_signers,
}
use ansible_collection_found.Approval.Signers.Wire.{check_blob, unpack}
use ansible_collection_found.Approval.Trust.Tests.{blob}
use ansible_collection_found.OnePassword.Client.{exited}
use ansible_collection_found.OnePassword.Key.Proof.{Agent}
use ansible_collection_found.OnePassword.Signing.{
  Settings, key_rows, list_keys, verified_agent_signer, authority_public_key,
}
use ansible_collection_found.OnePassword.Signing.Chosen.{
  authority_public_key-Pinned, verified_agent_signer-Lists,
}

abbrev keyed : Stdlib
keyed = record python { b64decode = λ _. ok blob; b64encode = λ _. "AAAA=" }

abbrev signers : Codec
signers = record {
  decode_ascii = λ _. ok "# the signers\nops ssh-ed25519 AAAA key\n";
  encode = λ _. [];
  digest = λ b. b;
}

abbrev signer : Signer
signer = record {
  identity = "ops";
  key_type = "ssh-ed25519";
  fingerprint = "SHA256:AAAA";
  entry_sha256 = Stdlib.sha256 keyed [];
}

accepts : parse_allowed_signers keyed signers [] "ops" "SHA256:AAAA" ≡ ok signer
unfolding parse_allowed_signers ed25519_fingerprint entries_of lines words split_at strip lstrip_of
    rstrip_of is_space check_blob unpack
accepts = refl

authority_public_key-Pinned_example :
    (key : String) × (authority_public_key keyed signers [] ≡ ok key)
    × (ed25519_fingerprint keyed signers key ≡ ok "SHA256:AAAA")
authority_public_key-Pinned_example =
    authority_public_key-Pinned keyed signers [] "ops" "SHA256:AAAA" signer accepts

abbrev listing : Codec
listing = record {
  decode_ascii = λ _. ok "ssh-ed25519 AAAA key\nssh-rsa BBBB\n";
  encode = λ _. [];
  digest = λ b. b;
}

abbrev agent : Agent (Unit {0})
agent = record {
  variables = [];
  socket = λ _ s. (ok "/agent.sock", s);
  run_program = λ _ _ _ s. (exited (pos 0) (1 ∷ []), s);
  decode_utf8 = λ _. ok "";
  challenge = λ s. (ok [], s);
  write_stream = λ _ _ s. (ok tt, s);
}

abbrev config : Settings
config = record {
  ssh_add_path = str "/usr/bin/ssh-add";
  ssh_add_sha256 = str digest_text;
  agent_socket_path = str "/agent.sock";
  public_key = "ssh-ed25519 AAAA";
}

signs : (verified_agent_signer listing files agent config tt).0 ≡ ok "/agent.sock"
unfolding verified_agent_signer list_keys lines words split_at strip lstrip_of rstrip_of is_space
    join ◌>>=◌ lift pure raise
signs = refl

verified_agent_signer-Lists_example :
    (ssh_add text : String) × (output : Bytes) × (u : Unit {0}) × ((Agent.socket agent
        (str "/agent.sock")
        u).0
      ≡ ok "/agent.sock")
    × ((list_keys listing files agent ssh_add "/agent.sock"
          (Agent.socket agent (str "/agent.sock") u).1).0
        ≡ ok output)
    × (Codec.decode_ascii listing output ≡ ok text)
    × (length (key_rows "ssh-ed25519 AAAA" text) ≡ 1)
verified_agent_signer-Lists_example =
    verified_agent_signer-Lists listing files agent config tt "/agent.sock" signs
