-- ===== src/Lib.antt =====
-- Verification of the security core of the collection `foundational`.
--
-- The collection keeps encrypted LUKS header packages with independent providers, spends one-time
-- approvals before it changes anything, and refuses firewall plans that expose more than they have to.
--
-- Base, Base/*: results, the monad `Exec` of code that changes a state and may raise, lists, characters,
--   JSON and YAML values. `Exec S A` is `S → Result A × S`: a raise keeps the changes made before it.
-- Stdlib: the functions of Python's standard library that the code calls (SHA-256, JSON, base64, UUIDs,
--   decimal texts, timestamps). They are parameters; a theorem names what it relies on.
-- Custody (plugins/module_utils/luks_header_custody.py)
--   Custody/Package: `unique_object`, `validate_package`, `decode_package`.
--   Custody/Chunks: the division of a package into chunks.
--   Custody/Receipt: `safe_path`, `validate_read_pins`, `verify_download`.
--   Custody/Client: the provider's client as a record of operations, with its laws.
--   Custody/Http: `VaultHTTP`, over an opener that is a parameter.
--   Custody/Vault: `vault_custody`; its loops are `preflight`, `publish` and `readback`.
--   Custody/Retrieval: `vault_read_custody`.
--   Custody/Publication: publication followed by retrieval.
-- Approval (plugins/module_utils/onepassword_boundary.py)
--   Approval/Checks: `normalize_sha256`, `normalize_user_uuid_list`.
--   Approval/Os: the calls of the operating system, with their laws.
--   Approval/Disk, Approval/Files: the trusted executables, sockets, files and directories, over an
--     interface to the disk.
--   Approval/Signers: `_parse_allowed_signers` and the wire format of an Ed25519 key.
--   Approval/Normalize, Approval/Validate: `normalize_approval`, its authority and its signed payload; the
--     checks of files and signatures are arguments.
--   Approval/Trust: `_verify_approval_signature`, and `trusted_files`, which hands the checks of
--     Approval/Files to `normalize_approval`.
--   Approval/Claim: `claim_approval`; Approval/Claim/Turns: the same in turns, and Histories: the
--     interleavings of the turns of many claims. The check of the open directory and the exclusive creation
--     are one turn, since what a descriptor stands for is private to its process.
-- Firewall (plugins/filter/root_of_trust.py): the filter `root_of_trust_firewall_validate`.
--   Firewall/Order is `sorted`, Firewall/Checks the checks on single values, Firewall/Rules the
--   classification of the input rules, Firewall/Plan the comparison of the two phases.
-- Document (plugins/module_utils/luks_header_onepassword.py): a package as a 1Password Document.
--   Document/Config: `validate_config`. Document/Native: the checks of `NativeCLI(config)`.
--   Document/Cli: the client as a record; `NativeCLI.run` is one of its operations.
--   Document/Inspect: `inspect`. Document/Transfer: `onepassword_read_custody` and `onepassword_custody`, which takes `normalize_approval` as an argument and claims the approval with
--   the modelled `claim_approval`. Document/Quiet, Document/Pinned and Document/Approved: the theorems.
-- Handoff (plugins/module_utils/luks_header_native_handoff.py): requests to the native client.
--   Handoff/Request: `decode`, `validate_request`. Handoff/Response: `execute_request`,
--   `validate_response`; `NativeCLI(config)`, `normalize_approval` and the clock are arguments.
-- OnePassword (plugins/action/onepassword_*.py): the actions that change an account.
--   OnePassword/Environment, OnePassword/Client: `_OnePasswordCLI`; the child process is a parameter.
--   OnePassword/Arguments, OnePassword/Account: the arguments and checks that the actions share; they
--   are mapped to onepassword_secret_item.py, which the other actions repeat.
--   OnePassword/Quiet, OnePassword/Claimed: what a command and a claim may change.
--   OnePassword/Manager: onepassword_vault_co_manager.py. OnePassword/Secret:
--   onepassword_secret_item.py. OnePassword/Key: onepassword_ssh_key_item.py, where
--   OnePassword/Key/Proof is `verify_agent`. OnePassword/Signing: of onepassword_approval.py, the commit
--   pins, the key of the authority and `_verified_agent_signer`.
--
-- Bounds and fuel. The offsets of the chunks are counted in at most `length raw` rounds, enough since
-- each round advances by a chunk. The loop that writes the evidence of a claim runs in at most as many
-- rounds as there are bytes, enough where each write makes progress. A bounded file is read in at most
-- two rounds more than its limit has bytes, each of which reads a byte or ends. The digest of an
-- executable is read in a number of rounds that is a parameter: a file that never ends has no digest.
-- Sizes and times are natural numbers, as Python's are unbounded.
--
-- Of the 1Password client it is assumed, where a theorem says what is stored, that the commands `whoami`,
-- `account list`, `vault get`, `vault user list`, `user get`, `item list`, `item get`, `document get` and
-- `--version` store nothing, and of `ssh-add -L` and `ssh-keygen -Y sign` and `-Y verify` that they leave the
-- account alone; nothing is assumed of any other command.
--
-- Not modelled: TLS and sockets, what a child process does, the arguments and the run of ssh-keygen in
-- onepassword_approval.py, the import of SSH keys, the delivery of secrets to remote commands, the
-- actions on Ansible Vault documents and LUKS headers, the module stubs, and the scripts of the
-- repository. Floats in JSON are left out: the code refuses them where it reads a number.
pub mod Base
pub mod Stdlib
pub mod Custody
pub mod Approval
pub mod Firewall
pub mod Document
pub mod Handoff
pub mod OnePassword
