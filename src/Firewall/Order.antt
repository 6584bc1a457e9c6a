-- ===== src/Firewall/Order.antt =====
-- `sorted` on the values that the filter sorts: numbers, texts, and signatures of rules.
use ansible_collection_found.Base.{
  ℕ, String, Bool, true, false, ◌&&◌, ◌==◌, List, [], ◌∷◌, codes, leb, nat_eq, if◌then◌else◌,
}

-- A rule's semantic signature: its fields but the name, as texts.
abbrev pub Signature : Type 0
Signature = List (String × String)

abbrev pub lex_le {ℓ} : {A : Type ℓ} → (A → A → Bool) → List A → List A → Bool
lex_le le [] ys = true
lex_le le (x ∷ xs) [] = false
lex_le le (x ∷ xs) (y ∷ ys) = if le x y then (if le y x then lex_le le xs ys else true) else false

-- Python compares texts by code points.
abbrev pub text_le : String → String → Bool
text_le a b = lex_le leb (codes a) (codes b)

abbrev pub field_le : String × String → String × String → Bool
field_le (j, v) (k, w) = if j == k then text_le v w else text_le j k

abbrev pub signature_le : Signature → Signature → Bool
signature_le = lex_le field_le

module _ {ℓ} {A : Type ℓ} (le : A → A → Bool) where
  unfoldable pub insert : A → List A → List A
  insert x [] = x ∷ []
  insert x (y ∷ ys) = let rest = insert x ys in if le x y then x ∷ y ∷ ys else y ∷ rest

  unfoldable pub sort : List A → List A
  unfolding insert
  sort [] = []
  sort (x ∷ xs) = insert x (sort xs)

abbrev pub eq_by {ℓ} : {A : Type ℓ} → (A → A → Bool) → List A → List A → Bool
eq_by eq [] [] = true
eq_by eq (x ∷ xs) (y ∷ ys) = eq x y && eq_by eq xs ys
eq_by eq _ _ = false

abbrev pub numbers_eq : List ℕ → List ℕ → Bool
numbers_eq = eq_by nat_eq

abbrev pub signatures_eq : List Signature → List Signature → Bool
signatures_eq = eq_by (eq_by (λ a b. a.0 == b.0 && a.1 == b.1))
