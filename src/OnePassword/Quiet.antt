-- ===== src/OnePassword/Quiet.antt =====
-- Commands that change nothing, and the checks that only run such commands.
use ansible_collection_found.Base.{
  String, Bool, true, false, ◌&&◌, ◌||◌, ◌==◌, List, [], ◌∷◌, ◌≡◌, refl, ◌∙◌,
}
use ansible_collection_found.Base.Exec.{
  Relates, IsPreorder, Relates-pure, Relates-lift, Relates-bind,
}
use ansible_collection_found.Approval.Normalize.{Trusted}
use ansible_collection_found.Approval.Validate.Keeps.{Keeps}
use ansible_collection_found.OnePassword.Client.{
  Desktop, Client, onepassword_cli, finish, run_cli, run_metadata,
}
use ansible_collection_found.OnePassword.Account.{Pins, check_version, check_operator, check_vault}

abbrev pub SameStored : {S : Type 0} → Desktop S → S → S → Type 0
SameStored desktop s t = Desktop.stored desktop t ≡ Desktop.stored desktop s

pub SameStored-IsPreorder : {S : Type 0} (desktop : Desktop S) → IsPreorder (SameStored desktop)
SameStored-IsPreorder desktop = record { stay = λ s. refl; chain = λ s t u h k. k ∙ h }

-- The commands of the client that are documented to show something, and no more.
abbrev pub is_read : List String → Bool
is_read (a ∷ []) = a == "--version"
is_read (a ∷ b ∷ c ∷ _) =
    a == "whoami"
    || (a == "account" && b == "list")
    || (a == "vault" && b == "get")
    || (a == "vault" && b == "user" && c == "list")
    || (a == "user" && b == "get")
    || (a == "item" && b == "list")
    || (a == "item" && b == "get")
is_read _ = false

-- Those commands leave what is stored as it is, however they end.
pub record IsQuiet {S : Type 0} (desktop : Desktop S) : Type 0 where
  pub stored-spawn :
      (binary : String) (arguments : List String) (environment : List (String × String))
      (discard : Bool) (s : S)
      → is_read arguments ≡ true
      → SameStored desktop s (Desktop.spawn desktop binary arguments environment discard s).1

module _ {S : Type 0} {desktop : Desktop S} {trusted : Trusted S} (quiet : IsQuiet desktop)
    (keeps : Keeps trusted (SameStored desktop)) where
  open keeps use {keeps-executable}

  order : IsPreorder (SameStored desktop)
  order = SameStored-IsPreorder desktop

  ruleset blocks = (Relates-pure, Relates-lift, Relates-bind)

  pub onepassword_cli-Same :
      (binary sha account : String)
      → Relates (SameStored desktop) (onepassword_cli desktop trusted binary sha account)
  unfolding onepassword_cli
  onepassword_cli-Same binary sha account = search (blocks, order, keeps-executable) depth 8

  pub run_cli-Same :
      (client : Client) (arguments : List String) (operation : String) (discard : Bool)
      → is_read arguments ≡ true
      → Relates (SameStored desktop) (run_cli desktop trusted client arguments operation discard)
  unfolding run_cli finish
  run_cli-Same client arguments operation discard h =
      Relates-bind order _ _ (keeps-executable _ _ _) λ binary. record {
        at = λ s. quiet.stored-spawn binary arguments client.environment discard s h;
      }

  pub run_metadata-Same :
      (client : Client) (arguments : List String) (operation : String)
      → is_read arguments ≡ true
      → Relates (SameStored desktop) (run_metadata desktop trusted client arguments operation)
  unfolding run_metadata
  run_metadata-Same client arguments operation h =
      Relates-bind order _ _ (run_cli-Same client arguments operation false h)
        λ output. Relates-lift order _

  pub check_version-Same :
      (client : Client) (pins : Pins)
      → Relates (SameStored desktop) (check_version desktop trusted client pins)
  unfolding check_version
  check_version-Same client pins =
      Relates-bind order _ _ (run_cli-Same client _ _ false refl)
        λ output. search (blocks, order) depth 8

  pub check_operator-Same :
      (client : Client) (pins : Pins)
      → Relates (SameStored desktop) (check_operator desktop trusted client pins)
  unfolding check_operator
  check_operator-Same client pins =
      Relates-bind order _ _ (run_metadata-Same client _ _ refl)
        λ identity. search (blocks, order) depth 16

  pub check_vault-Same :
      (client : Client) (pins : Pins)
      → Relates (SameStored desktop) (check_vault desktop trusted client pins)
  unfolding check_vault
  check_vault-Same client pins =
      Relates-bind order _ _ (run_metadata-Same client _ _ refl)
        λ vault. search (blocks, order) depth 8
