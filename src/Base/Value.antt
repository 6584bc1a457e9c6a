-- ===== src/Base/Value.antt =====
-- JSON and YAML values as Python holds them. Floats do not occur: each number that the code reads
-- has to be an `int`. A dict is a list of fields, as it was inserted.
use ansible_collection_found.Base.Tests.{nat_eq}
use ansible_collection_found.Base.Lists.{length, same_set}
use ansible_collection_found.Base.Result.{Result, ok, err}
use Prim.Native.Nat.{ℕ}
use Prim.Native.String.{String}
use mathlib.Core.Bool.{Bool, true, false, not, ◌&&◌}
use mathlib.Core.Option.{Option, none, some}
use mathlib.Core.List.{List, [], ◌∷◌}
use text.Mathlib.Text.{◌==◌}

-- `negsuc n` is -(n + 1).
pub data ℤ : Type 0 where
  pos : ℕ → ℤ
  negsuc : ℕ → ℤ

mutual
  pub data Value : Type 0 where
    null : Value
    bool : Bool → Value
    int : ℤ → Value
    str : String → Value
    list : Items → Value
    dict : Fields → Value

  pub data Items : Type 0 where
    nil : Items
    cons : Value → Items → Items

  pub data Fields : Type 0 where
    end : Fields
    field : String → Value → Fields → Fields

abbrev pub items : Items → List Value
items nil = []
items (cons v vs) = v ∷ items vs

abbrev pub key_names : Fields → List String
key_names end = []
key_names (field k v fs) = k ∷ key_names fs

-- `d.get(k)`
abbrev pub get : Fields → String → Option Value
get end k = none
get (field j v fs) k = elim (j == k) [ true ↦ some v | false ↦ get fs k ]

-- `d[k]`
abbrev pub index : Fields → String → Result Value
index fs k = elim (get fs k) [ none ↦ err "KeyError" | some v ↦ ok v ]

-- `set(d) == keys`
abbrev pub has_keys : Fields → List String → Bool
has_keys fs keys = same_set (key_names fs) keys

abbrev pub int_eq : ℤ → ℤ → Bool
int_eq (pos a) (pos b) = nat_eq a b
int_eq (negsuc a) (negsuc b) = nat_eq a b
int_eq _ _ = false

abbrev pub bool_int : Bool → ℤ
bool_int true = pos 1
bool_int false = pos 0

abbrev pub bool_eq : Bool → Bool → Bool
bool_eq true b = b
bool_eq false b = not b

-- Python's `==`: `True == 1`, and dicts are equal whatever the order of their keys.
unfoldable mutual
  pub value_eq : Value → Value → Bool
  value_eq null null = true
  value_eq (bool a) (bool b) = bool_eq a b
  value_eq (bool a) (int b) = int_eq (bool_int a) b
  value_eq (int a) (int b) = int_eq a b
  value_eq (int a) (bool b) = int_eq a (bool_int b)
  value_eq (str a) (str b) = a == b
  value_eq (list a) (list b) = items_eq a (items b)
  value_eq (dict a) (dict b) = nat_eq (length (key_names a)) (length (key_names b)) && fields_in a b
  value_eq _ _ = false

  pub items_eq : Items → List Value → Bool
  items_eq nil [] = true
  items_eq (cons a as0) (b ∷ bs) = value_eq a b && items_eq as0 bs
  items_eq _ _ = false

  pub fields_in : Fields → Fields → Bool
  fields_in end b = true
  fields_in (field k v a) b =
      elim (get b k) [ none ↦ false | some w ↦ value_eq v w ] && fields_in a b

-- `isinstance(v, str) and test(v)`, for a value that may be missing.
abbrev pub str_and : (String → Bool) → Option Value → Bool
str_and test (some (str s)) = test s
str_and test _ = false

-- `type(v) is int and test(v)`, for a natural number.
abbrev pub int_and : (ℕ → Bool) → Option Value → Bool
int_and test (some (int (pos n))) = test n
int_and test _ = false

abbrev pub is_str : String → Option Value → Bool
is_str s = str_and (λ t. t == s)

abbrev pub as_dict : Option Value → String → Result Fields
as_dict (some (dict fs)) e = ok fs
as_dict _ e = err e

abbrev pub as_str : Option Value → String → Result String
as_str (some (str s)) e = ok s
as_str _ e = err e

abbrev pub as_nat : Option Value → String → Result ℕ
as_nat (some (int (pos n))) e = ok n
as_nat _ e = err e

abbrev pub as_list : Option Value → String → Result (List Value)
as_list (some (list vs)) e = ok (items vs)
as_list _ e = err e
