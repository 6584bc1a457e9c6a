-- ===== src/OnePassword/Environment.antt =====
-- `_minimal_environment`: what the 1Password client inherits from the controller.
use ansible_collection_found.Base.{
  String, Bool, false, not, ◌&&◌, none, some, List, [], ◌∷◌, any, len, leb, starts_with,
}
use ansible_collection_found.Base.Result.{Result, ok, ◌>>◌, refuse}
use ansible_collection_found.Document.Native.{lookup, inherited}

abbrev pub given : List (String × String) → String → Bool
given environ name = elim (lookup environ name) [ none ↦ false | some value ↦ leb 1 (len value) ]

abbrev pub forbidden_auth_environment : List String
forbidden_auth_environment =
    "OP_SERVICE_ACCOUNT_TOKEN" ∷ "OP_CONNECT_HOST" ∷ "OP_CONNECT_TOKEN" ∷ []

unfoldable pub minimal_environment : List (String × String) → Result (List (String × String))
minimal_environment process = do
  refuse (any (given process) forbidden_auth_environment)
      "1Password service-account or Connect authentication is forbidden; use the unlocked desktop CLI integration."
  refuse (any (λ entry. starts_with entry.0 "OP_SESSION_" && leb 1 (len entry.1)) process)
      "1Password shell-session tokens are forbidden; use the unlocked desktop CLI integration."
  let environment = inherited process ("HOME" ∷ "PATH" ∷ "TMPDIR" ∷ "LANG" ∷ "LC_ALL" ∷ [])
  refuse (not (given environment "HOME"))
      "HOME is required for the 1Password desktop CLI integration."
  ok environment
