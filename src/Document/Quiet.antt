-- ===== src/Document/Quiet.antt =====
-- Blocks that leave what the service stores as it is.
use ansible_collection_found.Base.{
  ℕ, String, Bool, true, false, not, ◌&&◌, ◌==◌, Option, none, some, List, Bytes, ◌≡◌, refl, ◌∙◌,
  if◌then◌else◌,
}
use ansible_collection_found.Base.Exec.{
  Exec, pure, lift, ◌>>=◌, Relates, IsPreorder, Relates-pure, Relates-raise, Relates-lift,
  Relates-bind,
}
use ansible_collection_found.Base.Value.{Value, Fields}
use ansible_collection_found.Stdlib.{Stdlib}
use ansible_collection_found.Approval.Os.{Os}
use ansible_collection_found.Approval.Claim.{Approval, Moment}
use ansible_collection_found.Document.Config.{Config}
use ansible_collection_found.Document.Cli.{Cli, IsQuiet, is_read, metadata}
use ansible_collection_found.Document.Inspect.{Document, inspect}
use ansible_collection_found.Document.Transfer.{
  require, retrieve, onepassword_read_custody, is_none, confirm, create_document, transfer,
  onepassword_custody,
}

abbrev pub SameDocuments : {S : Type 0} → Cli S → S → S → Type 0
SameDocuments cli s t = Cli.documents cli t ≡ Cli.documents cli s

pub SameDocuments-IsPreorder : {S : Type 0} (cli : Cli S) → IsPreorder (SameDocuments cli)
SameDocuments-IsPreorder cli = record { stay = λ s. refl; chain = λ s t u h k. k ∙ h }

pub if_Relates :
    {S A : Type 0} {R : S → S → Type 0} (c : Bool) (x y : Exec S A)
    → (c ≡ true → Relates R x)
    → Relates R y
    → Relates R (if c then x else y)
if_Relates true x y hx hy = hx refl
if_Relates false x y hx hy = hy

-- A relation that every quiet command keeps.
module _ {S : Type 0} (cli : Cli S) {R : S → S → Type 0} (o : IsPreorder R)
    (quiet : (arguments : List String) (payload : Bytes) (limit : ℕ)
      → is_read arguments ≡ true
      → Relates R (Cli.run cli arguments payload limit)) where
  pub metadata-Relates :
      (arguments : List String) → is_read arguments ≡ true → Relates R (metadata cli arguments)
  unfolding metadata
  metadata-Relates arguments h =
      Relates-bind o _ _ (quiet arguments _ _ h) λ output. Relates-lift o _

  pub inspect-Relates : (config : Config) (sha : String) → Relates R (inspect cli config sha)
  unfolding inspect
  inspect-Relates config sha = Relates-bind o _ _ (quiet _ _ _ refl) λ _.
      Relates-bind o _ _ (Relates-lift o _) λ _. Relates-bind o _ _ (Relates-lift o _) λ _.
        Relates-bind o _ _ (metadata-Relates _ refl) λ _. Relates-bind o _ _ (Relates-lift o _) λ _.
          Relates-bind o _ _ (Relates-lift o _) λ _.
            Relates-bind o _ _ (metadata-Relates _ refl) λ _.
              Relates-bind o _ _ (Relates-lift o _) λ _. Relates-bind o _ _ (Relates-lift o _) λ _.
                Relates-bind o _ _ (metadata-Relates _ refl) λ _.
                  Relates-bind o _ _ (Relates-lift o _)
                    λ _. Relates-bind o _ _ (Relates-lift o _) λ _. Relates-lift o _

  pub require-Relates :
      {A : Type 0} (found : Option A) (e : String) → Relates R (require {A = A} {S = S} found e)
  require-Relates none e = Relates-raise o e
  require-Relates (some a) e = Relates-pure o a

  pub confirm-Relates :
      (py : Stdlib) (config : Config) (raw : Bytes) (sha : String) (d : Option Document)
      → Relates R (confirm py cli config raw sha d)
  unfolding confirm
  confirm-Relates py config raw sha none = Relates-pure o _
  confirm-Relates py config raw sha (some d) = Relates-bind o _ _ (quiet _ _ _ refl) λ _.
      Relates-bind o _ _ (Relates-lift o _)
        λ _. Relates-bind o _ _ (inspect-Relates config sha) λ _. Relates-lift o _

  pub onepassword_read_custody-Relates :
      (py : Stdlib) (settings pins : Value)
      → Relates R (onepassword_read_custody py cli settings pins)
  unfolding onepassword_read_custody retrieve
  onepassword_read_custody-Relates py settings pins =
      Relates-bind o _ _ (Relates-lift o _) λ config. Relates-bind o _ _ (Relates-lift o _) λ _.
        Relates-bind o _ _ (Relates-lift o _) λ _. Relates-bind o _ _ (Relates-lift o _) λ sha.
          Relates-bind o _ _ (Relates-lift o _) λ _.
            Relates-bind o _ _ (inspect-Relates config sha) λ found.
              Relates-bind o _ _ (require-Relates found _) λ current.
                Relates-bind o _ _ (quiet _ _ _ refl) λ _.
                  Relates-bind o _ _ (Relates-lift o _) λ _.
                    Relates-bind o _ _ (inspect-Relates config sha)
                      λ _. Relates-bind o _ _ (Relates-lift o _) λ _. Relates-pure o _

module _ (py : Stdlib) (os : Os) (cli : Cli (Os.State os))
    (normalize : String → Value → Value → Exec (Os.State os) Approval)
    (clock : Exec (Os.State os) Moment) where
  -- The run, where the creation keeps the relation.
  pub onepassword_custody-Relates :
      {R : Os.State os → Os.State os → Type 0} (o : IsPreorder R)
      (quiet : (arguments : List String) (payload : Bytes) (limit : ℕ)
        → is_read arguments ≡ true
        → Relates R (Cli.run cli arguments payload limit))
      (settings contents : Value) (operation : String) (check_mode allow_create : Bool)
      → ((config : Config) (pack : Fields) (raw : Bytes) (sha : String)
          → (operation == "apply" && not check_mode) ≡ true
          → Relates R (create_document py os cli normalize clock config pack raw sha allow_create))
      → Relates R (
          onepassword_custody py os cli normalize clock settings contents operation check_mode
            allow_create)
  unfolding onepassword_custody transfer
  onepassword_custody-Relates {R} o quiet settings contents operation check_mode allow_create
        creation =
      Relates-bind o _ _ (Relates-lift o _) λ config. Relates-bind o _ _ (Relates-lift o _) λ _.
        Relates-bind o _ _ (Relates-lift o _) λ raw. Relates-bind o _ _ (Relates-lift o _) λ pack.
          Relates-bind o _ _ (inspect-Relates cli o quiet config _) λ before.
            Relates-bind o _ _ (Relates-lift o _) λ _.
              Relates-bind o _ _
                (if_Relates (is_none before && operation == "apply" && not check_mode)
                  (create_document py os cli normalize clock config pack raw (Stdlib.sha256 py raw)
                    allow_create)
                  (pure before)
                  (λ c.
                    creation config pack raw (Stdlib.sha256 py raw)
                      (and_right (is_none before) (operation == "apply") (not check_mode) c))
                  (Relates-pure o before))
                λ current.
                  Relates-bind o _ _ (confirm-Relates cli o quiet py config raw _ current)
                    λ _. Relates-pure o _
    where
      and_right : (x y z : Bool) → (x && y && z) ≡ true → (y && z) ≡ true
      and_right true y z e = e
      and_right false y z e = cc

  module _ (quiet : IsQuiet cli) where
    quiet-Relates :
        (arguments : List String) (payload : Bytes) (limit : ℕ)
        → is_read arguments ≡ true
        → Relates (SameDocuments cli) (Cli.run cli arguments payload limit)
    quiet-Relates arguments payload limit h = record {
      at = λ s. quiet.documents-run arguments payload limit s h;
    }

    not_allowed :
        (config : Config) (pack : Fields) (raw : Bytes) (sha : String) (s : Os.State os)
        → Cli.documents cli
            (create_document py os cli normalize clock config pack raw sha false s).1
          ≡ Cli.documents cli s
    unfolding create_document lift ◌>>=◌
    not_allowed config pack raw sha s = refl

    -- Unless the operation is `apply` outside check mode with creation allowed, the run leaves what the
    -- service stores as it was, whether it returns or raises.
    pub onepassword_custody-readonly :
        (settings contents : Value) (operation : String) (check_mode allow_create : Bool)
        (s : Os.State os)
        → (operation == "apply" && not check_mode && allow_create) ≡ false
        → Cli.documents cli
            (onepassword_custody py os cli normalize clock settings contents operation check_mode
              allow_create s).1
          ≡ Cli.documents cli s
    onepassword_custody-readonly settings contents operation check_mode allow_create s h =
        Relates.at
          (onepassword_custody-Relates (SameDocuments-IsPreorder cli) quiet-Relates settings
            contents operation check_mode allow_create
            (λ config pack raw sha applies.
              refused config pack raw sha allow_create
                (third (operation == "apply") (not check_mode) allow_create h applies)))
          s
      where
        third : (x y z : Bool) → (x && y && z) ≡ false → (x && y) ≡ true → z ≡ false
        third true true z e f = e
        third true false z e f = cc
        third false y z e f = cc

        refused :
            (config : Config) (pack : Fields) (raw : Bytes) (sha : String) (allowed : Bool)
            → allowed ≡ false
            → Relates
                (SameDocuments cli)
                (create_document py os cli normalize clock config pack raw sha allowed)
        refused config pack raw sha true e = cc
        refused config pack raw sha false e = record {
          at = λ s1. not_allowed config pack raw sha s1;
        }
