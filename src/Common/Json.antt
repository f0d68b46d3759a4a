-- ===== src/Common/Json.antt =====
-- The values of a JSON document. Numbers are the naturals: the records that are read here (receipts,
-- dispatches) carry texts, flags and counts.
use Prim.Native.Nat.{ℕ}
use Prim.Native.Char.{code}
use Prim.Native.String.{String}
use mathlib.Core.Path.{◌≡◌, refl}
use mathlib.Core.Bool.{Bool, true, false, ◌&&◌}
use mathlib.Core.Option.{Option, none, some}
use mathlib.Core.List.{List, [], ◌∷◌}
use native.Mathlib.Omega.{arith}
use text.Mathlib.Text.{◌==◌}
use text.Mathlib.TextEquality.{eq_iff}
use fleet_graph.Common.Tests.{eqb, if◌then◌else◌}

mutual
  pub data Json : Type 0 where
    null : Json
    bool : Bool → Json
    num : ℕ → Json
    str : String → Json
    arr : Items → Json
    obj : Fields → Json

  pub data Items : Type 0 where
    nil : Items
    cons : Json → Items → Items

  pub data Fields : Type 0 where
    end : Fields
    field : String → Json → Fields → Fields

-- d.get(k), where None is JSON's null
unfoldable pub get_field : String → Fields → Json
get_field k end = null
get_field k (field j v rest) = let more = get_field k rest in if j == k then v else more

unfoldable pub has_field : String → Fields → Bool
has_field k end = false
has_field k (field j v rest) = let more = has_field k rest in if j == k then true else more

abbrev pub count_fields : Fields → ℕ
count_fields end = 0
count_fields (field j v rest) = ℕ.suc (count_fields rest)

abbrev pub bool_num : Bool → ℕ
bool_num true = 1
bool_num false = 0

abbrev as_obj : Json → Option Fields
as_obj (obj fs) = some fs
as_obj _ = none

abbrev eq_null : Json → Bool
eq_null null = true
eq_null _ = false

abbrev eq_num : ℕ → Json → Bool
eq_num n (num m) = eqb n m
eq_num n (bool b) = eqb n (bool_num b)
eq_num n _ = false

abbrev pub eq_str : String → Json → Bool
eq_str s (str t) = s == t
eq_str s _ = false

-- Python's `==` on such values: True is 1, and the order of a dict's keys does not matter.
unfoldable mutual
  pub json_eq : Json → Json → Bool
  json_eq null v = eq_null v
  json_eq (bool b) v = eq_num (bool_num b) v
  json_eq (num n) v = eq_num n v
  json_eq (str s) v = eq_str s v
  json_eq (arr xs) v = elim v [ arr ys ↦ items_eq xs ys | _ ↦ false ]
  json_eq (obj fs) v = elim v [
    | obj gs ↦ eqb (count_fields fs) (count_fields gs) && fields_within fs gs
    | _ ↦ false
  ]

  pub items_eq : Items → Items → Bool
  items_eq nil v = elim v [ nil ↦ true | _ ↦ false ]
  items_eq (cons x xs) v = elim v [ cons y ys ↦ json_eq x y && items_eq xs ys | _ ↦ false ]

  pub fields_within : Fields → Fields → Bool
  fields_within end gs = true
  fields_within (field k x rest) gs =
      has_field k gs && json_eq x (get_field k gs) && fields_within rest gs

-- `text.split(".")`: the part before the first dot, and the later parts.
split_first : String → String × List String
split_first String.[] = (String.[], [])
split_first (String.◌∷◌ c s) =
    let (part, parts) = split_first s in
    if eqb (code c) b'.' then (String.[], part ∷ parts) else (String.◌∷◌ c part, parts)

unfoldable pub split_dots : String → List String
unfolding split_first
split_dots text = let (part, parts) = split_first text in part ∷ parts

-- The loop of `_dig`, over the parts of the path.
unfoldable pub dig_parts : Json → List String → Json
unfolding get_field
dig_parts current [] = current
dig_parts (obj fs) (part ∷ parts) = dig_parts (get_field part fs) parts
dig_parts _ (part ∷ parts) = null

-- Resolves a binding path such as `required_receipt.output_commit`.
unfoldable pub dig : Json → String → Json
unfolding split_dots dig_parts
dig object dotted = dig_parts object (split_dots dotted)

abbrev pub one_field : String → Json → Json
one_field k v = obj (field k v end)

dig_nested : dig (one_field "a" (one_field "b" (num 3))) "a.b" ≡ num 3
unfolding dig
dig_nested = refl

dig_missing : dig (one_field "a" (num 1)) "a.b" ≡ null
unfolding dig
dig_missing = refl

-- A value that compares equal to a text is that text.
pub json_eq-str : (v : Json) (s : String) → json_eq v (str s) ≡ true → v ≡ str s
unfolding json_eq
json_eq-str (str t) s h = ground (arith, eq_iff t s)
json_eq-str null s h = cc
json_eq-str (bool b) s h = cc
json_eq-str (num n) s h = cc
json_eq-str (arr xs) s h = cc
json_eq-str (obj fs) s h = cc

pub json_eq-str_self : (s : String) → json_eq (str s) (str s) ≡ true
unfolding json_eq
json_eq-str_self s = ground (arith, eq_iff s s)
