-- ===== src/OnePassword/Key/Tests.antt =====
-- An agent that holds one key and signs with it.
use ansible_collection_found.Base.{
  zero, suc, String, Bool, true, false, ◌&&◌, ◌==◌, List, [], ◌∷◌, Bytes, ◌≡◌, refl, if◌then◌else◌,
  is_space, split_at, strip, lstrip_of, rstrip_of, words, join, codes,
}
use ansible_collection_found.Base.Result.{Result, ok}
use ansible_collection_found.Base.Exec.{Relates, lift, pure, raise, ◌>>=◌}
use ansible_collection_found.Base.Value.{
  Value, Fields, bool, int, str, pos, list, dict, nil, cons, end, field,
}
use ansible_collection_found.Stdlib.{Stdlib}
use ansible_collection_found.Approval.Tests.{
  python, digest_text, files, files_over, given, settings,
}
use ansible_collection_found.Approval.Signers.{Codec}
use ansible_collection_found.Approval.Signers.Wire.{check_blob, unpack}
use ansible_collection_found.Approval.Trust.{closed_after, remove_if_there, finally_do}
use ansible_collection_found.Approval.Trust.Tests.{scratch, scratch_over, blob}
use ansible_collection_found.Document.Native.{inherited}
use ansible_collection_found.OnePassword.Client.{Desktop, exited}
use ansible_collection_found.Approval.Claim.Apart.{Apart}
use ansible_collection_found.Approval.Validate.Keeps.{Keeps}
use ansible_collection_found.Document.Tests.{machine, clock, user, object}
use ansible_collection_found.OnePassword.Quiet.{SameStored, IsQuiet, is_read}
use ansible_collection_found.OnePassword.Key.{ssh_key_item}
use ansible_collection_found.OnePassword.Key.Approved.{ApprovedRun, ssh_key_item-Approved}
use ansible_collection_found.OnePassword.Key.Calm.{IsCalm}
use ansible_collection_found.OnePassword.Key.Config.{Tools}
use ansible_collection_found.OnePassword.Key.Identity.{fingerprint_of, public_identity}
use ansible_collection_found.OnePassword.Key.Proof.{
  Agent, public_rows, is_signature, agent_environment, run_judged, matching_rows,
  write_controller_file, with_socket, check_listed, prove, remove_proof, verify_agent_key,
}
use ansible_collection_found.OnePassword.Key.Proved.{Lists, Signs, verify_agent_key-Proved}

abbrev keyed : Stdlib
keyed = record python { b64decode = λ _. ok blob; b64encode = λ _. "AAAA=" }

abbrev codec : Codec
codec = record { decode_ascii = λ _. ok ""; encode = λ _. []; digest = λ b. b }

abbrev armored : Bytes
armored = codes "-----BEGIN SSH SIGNATURE-----\n-----END SSH SIGNATURE-----\n"

abbrev agent_over : (S : Type 0) → Agent S
agent_over S = record {
  variables = ("HOME", "/root") ∷ [];
  socket = λ _ s. (ok "/agent.sock", s);
  run_program = λ _ _ _ s. (exited (pos 0) armored, s);
  decode_utf8 = λ _. ok "ssh-ed25519 AAAA key\nssh-rsa BBBB\n";
  challenge = λ s. (ok (1 ∷ 2 ∷ []), s);
  write_stream = λ _ _ s. (ok tt, s);
}

abbrev agent : Agent (Unit {0})
agent = agent_over (Unit {0})

abbrev tools : Tools
tools = record {
  ssh_add_path = str "/usr/bin/ssh-add";
  ssh_add_sha256 = str digest_text;
  ssh_keygen_path = str "/usr/bin/ssh-keygen";
  ssh_keygen_sha256 = str digest_text;
  agent_socket_path = str "/agent.sock";
}

proves :
    (verify_agent_key keyed codec files scratch agent tools
      ("ssh-ed25519 AAAA key", "SHA256:AAAA")
      tt).0
    ≡ ok tt
unfolding verify_agent_key agent_environment inherited check_listed with_socket run_judged
    public_rows matching_rows public_identity fingerprint_of check_blob unpack split_at strip
    lstrip_of rstrip_of is_space words join prove write_controller_file closed_after is_signature
    remove_proof remove_if_there finally_do ◌>>=◌ lift pure raise
proves = refl

verify_agent_key-Proved_example :
    Lists keyed codec files scratch agent tools "SHA256:AAAA"
    × ((challenge : Bytes) × (drawn : Unit {0}) × ((Agent.challenge agent drawn).0 ≡ ok challenge)
        × Signs keyed codec files scratch agent tools "ssh-ed25519 AAAA key" challenge)
verify_agent_key-Proved_example =
    verify_agent_key-Proved keyed codec files scratch agent tools
      ("ssh-ed25519 AAAA key", "SHA256:AAAA") tt proves

abbrev fields_row : String → Value → Value
fields_row label value = dict (field "label" (str label) (field "value" value end))

abbrev reply : Bytes → Result Value
reply (zero ∷ _) = ok (
    list (
      cons
        (dict (
          field "account_uuid" (str user)
            (field "user_uuid" (str user) (field "url" (str "https://my.1password.com/") end))))
        nil))
reply (suc zero ∷ _) = ok (dict (field "id" (str object) end))
reply (suc (suc zero) ∷ _) = ok (
    list (
      cons (fields_row "subject" (str "host01")) (
        cons (fields_row "schema_version" (int (pos 1))) (
          cons (fields_row "public key" (str "ssh-ed25519 AAAA key"))
            (cons (fields_row "fingerprint" (str "SHA256:AAAA")) nil)))))
reply (suc (suc (suc zero)) ∷ _) = ok (list nil)
reply _ = ok (
    list (
      cons
        (dict (
          field "id" (str object) (
            field "title" (str "key") (
              field "version" (int (pos 1)) (
                field "category" (str "SSH_KEY")
                  (field "tags" (list (cons (str "luks") nil)) end))))))
        nil))

abbrev answer : List String → Bool → Bytes
answer (a ∷ b ∷ _) here =
    if a == "account"
    then 0 ∷ []
    else if a == "item" && b == "get"
    then 2 ∷ []
    else if b == "get"
    then 1 ∷ []
    else if here
    then 4 ∷ []
    else 3 ∷ []
answer _ here = []

abbrev after : Bool → Bool → Bool
after false here = true
after true here = here

abbrev text : Value → String
text (str s) = s
text _ = "1"

-- Whether the key is there.
abbrev account : Desktop Bool
account = record {
  spawn = λ _ arguments _ _ here.
      (exited (pos 0) (answer arguments here), after (is_read arguments) here);
  decode_ascii = λ _. ok "2.30.0";
  parse = reply;
  text_of = text;
  lower = λ s. s;
  normpath = λ s. s;
  environ = ("HOME", "/root") ∷ [];
  Store = Bool;
  stored = λ here. here;
}

after-same : (b here : Bool) → b ≡ true → after b here ≡ here
after-same false here h = absurd (cc (h))
after-same true here h = refl

account-IsQuiet : IsQuiet account
account-IsQuiet = record {
  stored-spawn = λ binary arguments environment discard s h. after-same (is_read arguments) s h;
}

files-Keeps : Keeps (files_over Bool) (SameStored account)
files-Keeps = record {
  keeps-directory = λ path name. record { at = λ s. refl };
  keeps-file = λ path sha name maximum. record { at = λ s. refl };
  keeps-executable = λ path sha name. record { at = λ s. refl };
  keeps-signature = λ authority signature payload. record { at = λ s. refl };
  keeps-lexists = λ path. record { at = λ s. refl };
}

machine-Apart : Apart machine (SameStored account)
machine-Apart = record {
  apart-open = λ path. record { at = λ s. refl };
  apart-fstat = λ fd. record { at = λ s. refl };
  apart-create = λ fd name s. refl;
  apart-write = λ fd b. record { at = λ s. refl };
  apart-fsync = λ fd. record { at = λ s. refl };
  apart-close = λ fd s. refl;
}

agent-IsCalm : IsCalm (scratch_over Bool) (agent_over Bool) (SameStored account)
agent-IsCalm = record {
  calm-mkdtemp = λ prefix. record { at = λ s. refl };
  calm-chmod = λ path. record { at = λ s. refl };
  calm-create = λ path. record { at = λ s. refl };
  calm-close = λ fd s. refl;
  calm-lexists = λ path. record { at = λ s. refl };
  calm-unlink = λ path. record { at = λ s. refl };
  calm-rmdir = λ path. record { at = λ s. refl };
  calm-socket = λ path. record { at = λ s. refl };
  calm-run = λ arguments environment payload s h. refl;
  calm-challenge = record { at = λ s. refl };
  calm-write = λ fd payload. record { at = λ s. refl };
}

clock-Same : Relates (SameStored account) clock
clock-Same = record { at = λ s. refl }

abbrev args : Fields
args = field "operation" (str "apply") (
    field "cli_path" (str "/usr/bin/op") (
      field "cli_sha256" (str digest_text) (
        field "cli_version" (str "2.30.0") (
          field "account_id" (str user) (
            field "account_sign_in_address" (str "my.1password.com") (
              field "authorized_user_uuids" (list (cons (str user) nil)) (
                field "vault_id" (str object) (
                  field "item_title" (str "key") (
                    field "tags" (list (cons (str "luks") nil)) (
                      field "subject" (str "host01") (
                        field "allow_create" (bool true) (
                          field "ssh_add_path" (str "/usr/bin/ssh-add") (
                            field "ssh_add_sha256" (str digest_text) (
                              field "ssh_keygen_path" (str "/usr/bin/ssh-keygen") (
                                field "ssh_keygen_sha256" (str digest_text) (
                                  field "agent_socket_path" (str "/agent.sock") (
                                    field "approval_authority" settings
                                      (field "approval" given end))))))))))))))))))

ssh_key_item-Approved_example :
    ApprovedRun keyed codec
      (λ s. s)
      account-IsQuiet
      files-Keeps
      agent-IsCalm
      machine-Apart
      clock-Same
      args
      false
      false
      (ssh_key_item keyed codec machine account
        (λ s. s)
        (files_over Bool)
        (scratch_over Bool)
        (agent_over Bool)
        clock
        args
        false
        false).1
ssh_key_item-Approved_example =
    ssh_key_item-Approved keyed codec (λ s. s) account-IsQuiet files-Keeps agent-IsCalm
      machine-Apart clock-Same args false false
