-- ===== src/Document/Cli.antt =====
-- The native 1Password client as its callers see it: commands with an input and a bounded output.
use ansible_collection_found.Base.{
  ℕ, String, Bool, true, false, List, [], ◌∷◌, Bytes, ◌&&◌, ◌||◌, ◌==◌, ◌≡◌,
}
use ansible_collection_found.Base.Result.{Result}
use ansible_collection_found.Base.Exec.{Exec, lift, ◌>>=◌}
use ansible_collection_found.Base.Value.{Value}

-- `NativeCLI` over an unknown state, and what Python makes of its texts.
pub record Cli (State : Type 0) : Type 1 where
  -- `run(arguments, payload, limit)`
  pub run : List String → Bytes → ℕ → Exec State Bytes
  -- `json.loads(data)`
  pub parse : Bytes → Result Value
  -- `data.decode("ascii").strip()`
  pub line : Bytes → Result String
  -- `s.lower()` and `s.rstrip("/")`
  pub lower : String → String
  pub rstrip_slash : String → String
  -- What the service stores.
  pub Store : Type 0
  pub documents : State → Store

-- The commands of the client that are documented to show something, and no more.
abbrev pub is_read : List String → Bool
is_read (a ∷ []) = a == "--version"
is_read (a ∷ b ∷ _) =
    a == "whoami"
    || (a == "vault" && b == "get")
    || (a == "item" && b == "list")
    || (a == "document" && b == "get")
is_read _ = false

-- Those commands leave what is stored as it is, whether they fail or not.
pub record IsQuiet {S : Type 0} (cli : Cli S) : Type 0 where
  pub documents-run :
      (arguments : List String) (payload : Bytes) (limit : ℕ) (s : S)
      → is_read arguments ≡ true
      → Cli.documents cli (Cli.run cli arguments payload limit s).1 ≡ Cli.documents cli s

module _ {S : Type 0} (cli : Cli S) where
  -- `metadata(arguments)`, of at most a MiB.
  unfoldable pub metadata : List String → Exec S Value
  metadata arguments = do output ← Cli.run cli arguments [] 1048576; lift (Cli.parse cli output)

  -- `metadata_create(arguments, payload)`
  unfoldable pub metadata_create : List String → Bytes → Exec S Value
  metadata_create arguments payload = do
    output ← Cli.run cli arguments payload 1048576
    lift (Cli.parse cli output)
