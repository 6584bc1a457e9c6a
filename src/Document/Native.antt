-- ===== src/Document/Native.antt =====
-- `NativeCLI(config)`: who may run the client, and which environment it gets.
use ansible_collection_found.Base.{
  ℕ, String, Bool, true, false, not, ◌&&◌, ◌||◌, ◌==◌, Option, none, some, List, [], ◌∷◌, any,
  contains, len, leb, nat_eq, if◌then◌else◌, starts_with,
}
use ansible_collection_found.Base.Result.{Result, ok, ◌>>◌, refuse}

-- The process that runs: its user, its node and its environment.
pub record Process : Type 0 where
  pub euid : ℕ
  pub node : String
  pub environ : List (String × String)

-- A variable that would replace the desktop integration.
abbrev pub is_foreign : String × String → Bool
is_foreign entry =
    leb 1 (len entry.1)
    && (contains ("OP_SERVICE_ACCOUNT_TOKEN" ∷ "OP_CONNECT_TOKEN" ∷ "OP_CONNECT_HOST" ∷ []) entry.0
        || starts_with entry.0 "OP_SESSION_")

-- `os.environ.get(key)`
abbrev pub lookup : List (String × String) → String → Option String
lookup [] key = none
lookup (entry ∷ rest) key = elim (entry.0 == key) [ true ↦ some entry.1 | false ↦ lookup rest key ]

-- The listed variables that have a value.
unfoldable pub inherited : List (String × String) → List String → List (String × String)
inherited environ [] = []
inherited environ (key ∷ keys) =
    let rest = inherited environ keys in
    elim (lookup environ key) [
      | none ↦ rest
      | some value ↦ if leb 1 (len value) then (key, value) ∷ rest else rest
    ]

unfoldable pub native_cli : ℕ → String → Process → Result (List (String × String))
native_cli uid node process = do
  refuse (not (nat_eq process.euid uid) || not (process.node == node))
      "Wrong native 1Password executor identity."
  refuse (any is_foreign process.environ) "Only the approved desktop integration is permitted."
  let env = inherited process.environ ("HOME" ∷ "PATH" ∷ "TMPDIR" ∷ "LANG" ∷ "LC_ALL" ∷ [])
  refuse (not (any (λ entry. entry.0 == "HOME") env)) "Native desktop HOME is required."
  ok env
