-- ===== src/Document/Inspect.antt =====
-- `inspect`: the one document of the title, as the service reports it.
use ansible_collection_found.Base.{
  ℕ, String, ◌<>◌, Bool, true, false, not, ◌&&◌, ◌||◌, ◌==◌, Option, none, some, List, [], ◌∷◌,
  ◌++◌, contains, nat_eq, if◌then◌else◌,
}
use ansible_collection_found.Base.Result
use ansible_collection_found.Base.Result.{Result, ok, err, refuse}
use ansible_collection_found.Base.Exec.{Exec, lift, check, ◌>>=◌, ◌>>◌}
use ansible_collection_found.Base.Value.{
  Value, Fields, str, list, dict, items, key_names, get, is_str, str_and, as_dict, as_str, as_nat,
  as_list,
}
use ansible_collection_found.Firewall.Order.{sort, text_le, eq_by}
use ansible_collection_found.Document.Config.{Config, is_object_id}
use ansible_collection_found.Document.Cli.{Cli, metadata}

pub record Document : Type 0 where
  pub id : String
  pub version : ℕ

abbrev pub same_document : Document → Document → Bool
same_document a b = a.id == b.id && nat_eq a.version b.version

-- `inspect(...) == current`
abbrev pub same_current : Option Document → Option Document → Bool
same_current none none = true
same_current (some a) (some b) = same_document a b
same_current _ _ = false

abbrev pub account_arguments : Config → List String
account_arguments config = "--account" ∷ config.account_id ∷ []

-- The items of the listing that are mappings, or an error.
unfoldable pub as_rows : List Value → Result (List Fields)
as_rows [] = ok []
as_rows (dict row ∷ vs) = Result.◌>>=◌ (as_rows vs) λ rows. ok (row ∷ rows)
as_rows (_ ∷ vs) = err "Invalid native item metadata."

-- `config["item_id"] and row.get("id") == config["item_id"]`
abbrev pub is_pinned : Option String → Fields → Bool
is_pinned none row = false
is_pinned (some item) row = is_str item (get row "id")

unfoldable pub matches : Config → List Fields → List Fields
matches config [] = []
matches config (row ∷ rows) =
    let rest = matches config rows in
    if is_str config.item_title (get row "title") || is_pinned config.item_id row
    then row ∷ rest
    else rest

abbrev pub all_texts : List Value → Option (List String)
all_texts [] = some []
all_texts (str s ∷ vs) = elim (all_texts vs) [ none ↦ none | some ts ↦ some (s ∷ ts) ]
all_texts _ = none

-- `row.get("tags", [])`, as the texts that `sorted` goes through.
abbrev pub tags_of : Option Value → Option (List String)
tags_of (some (list vs)) = all_texts (items vs)
tags_of (some (dict fs)) = some (key_names fs)
tags_of _ = none

-- `sorted(row.get("tags", [])) == sorted(["luks-header-custody", sha])`
unfoldable pub is_tagged : String → Fields → Bool
is_tagged sha row = elim (tags_of (get row "tags")) [
  | none ↦ false
  | some tags ↦
      eq_by (λ a b. a == b) (sort text_le tags) (sort text_le ("luks-header-custody" ∷ sha ∷ []))
]

-- Whether the pins of the configuration are kept.
unfoldable pub keeps_pins : Config → Document → Bool
keeps_pins config d = elim (config.item_id) [
  | none ↦ true
  | some item ↦ d.id == item && nat_eq d.version config.item_version
]

abbrev pub drift : String
drift = "Native header object identity, version, type or checksum tag drift."

-- The checks of the one row.
unfoldable pub check_row : Config → String → Fields → Result Document
check_row config sha row =
    Result.◌>>◌
      (refuse
        (not (is_str config.item_title (get row "title"))
          || not (is_str "DOCUMENT" (get row "category")))
        drift)
      (Result.◌>>=◌ (as_str (get row "id") drift) λ id.
        Result.◌>>=◌ (as_nat (get row "version") drift) λ version.
          Result.◌>>◌
            (refuse (not (is_object_id id) || nat_eq version 0 || not (is_tagged sha row)) drift)
            (Result.◌>>◌
              (refuse (not (keeps_pins config (record { id = id; version = version }))) drift)
              (ok (record { id = id; version = version }))))

-- No row, one row, or more.
unfoldable pub select_row : Config → String → List Fields → Result (Option Document)
select_row config sha [] = elim (config.item_id) [
  | none ↦ ok none
  | some _ ↦ err "The pinned native header object is missing."
]
select_row config sha (row ∷ []) = Result.◌>>=◌ (check_row config sha row) λ d. ok (some d)
select_row config sha (_ ∷ _ ∷ _) = err "Ambiguous native header objects; no creation or overwrite."

module _ {S : Type 0} (cli : Cli S) where
  -- `identity.get("url", "").lower().rstrip("/")`
  unfoldable pub host_of : Fields → Result String
  host_of identity = elim (get identity "url") [
    | none ↦ ok (Cli.rstrip_slash cli (Cli.lower cli ""))
    | some v ↦
        Result.◌>>=◌ (as_str (some v) "AttributeError")
          λ url. ok (Cli.rstrip_slash cli (Cli.lower cli url))
  ]

  unfoldable pub check_identity : Config → Fields → Result (Unit {0})
  check_identity config identity =
      Result.◌>>◌
        (refuse
          (not (is_str config.account_id (get identity "account_uuid"))
            || not (str_and (contains config.authorized_user_uuids) (get identity "user_uuid")))
          "Native account or operator identity drift.")
        (Result.◌>>=◌ (host_of identity) λ host.
          refuse (not (host == "https://" <> Cli.lower cli config.account_sign_in_address))
            "Native account or operator identity drift.")

  unfoldable pub inspect : Config → String → Exec S (Option Document)
  inspect config sha = do
    output ← Cli.run cli ("--version" ∷ []) [] 1048576
    version ← lift (Cli.line cli output)
    check (not (version == config.cli_version)) "Native 1Password CLI version drift."
    identity ← metadata cli ("whoami" ∷ account_arguments config ++ "--format" ∷ "json" ∷ [])
    who ← lift (as_dict (some identity) "AttributeError")
    lift (check_identity config who)
    vault ←
        metadata cli
          ("vault" ∷ "get" ∷ config.vault_id ∷ account_arguments config ++ "--format" ∷ "json" ∷ [])
    stored ← lift (as_dict (some vault) "AttributeError")
    check (not (is_str config.vault_id (get stored "id"))) "Native vault identity drift."
    listing ← metadata cli (
        "item" ∷ "list" ∷ "--vault" ∷ config.vault_id ∷ account_arguments config
        ++ "--format" ∷ "json" ∷ [])
    values ← lift (as_list (some listing) "Invalid native item metadata.")
    rows ← lift (as_rows values)
    lift (select_row config sha (matches config rows))
