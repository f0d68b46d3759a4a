-- ===== src/Common/Values.antt =====
-- Python's reading of a JSON value as a truth value, a text or a number.
use fleet_graph.Common.{
  Bool, Option, String, eqb, false, if◌then◌else◌, ltb, none, not, some, true, ℕ, ◌==◌,
}
use fleet_graph.Common.Decimal.{decimal}
use fleet_graph.Common.Json.{Fields, Items, Json}

-- bool(value)
abbrev pub is_truthy : Json → Bool
is_truthy Json.null = false
is_truthy (Json.bool b) = b
is_truthy (Json.num n) = ltb 0 n
is_truthy (Json.str s) = not (s == "")
is_truthy (Json.arr Items.nil) = false
is_truthy (Json.arr (Items.cons x more)) = true
is_truthy (Json.obj Fields.end) = false
is_truthy (Json.obj (Fields.field k x more)) = true

-- str(value); `repr` writes a list or a dict.
abbrev pub str_of : (Json → String) → Json → String
str_of repr Json.null = "None"
str_of repr (Json.bool b) = if b then "True" else "False"
str_of repr (Json.num n) = decimal n
str_of repr (Json.str s) = s
str_of repr value = repr value

-- str(value or "")
abbrev pub str_or_empty : (Json → String) → Json → String
str_or_empty repr Json.null = ""
str_or_empty repr (Json.bool b) = if b then "True" else ""
str_or_empty repr (Json.num n) = if eqb n 0 then "" else decimal n
str_or_empty repr (Json.str s) = s
str_or_empty repr (Json.arr Items.nil) = ""
str_or_empty repr (Json.obj Fields.end) = ""
str_or_empty repr value = repr value

-- int(value or 0), where `int_of` reads a text; nothing where it raises.
abbrev pub int_or_zero : (String → Option ℕ) → Json → Option ℕ
int_or_zero int_of (Json.bool b) = some (if b then 1 else 0)
int_or_zero int_of (Json.num n) = some n
int_or_zero int_of (Json.str s) = if s == "" then some 0 else int_of s
int_or_zero int_of value = if is_truthy value then none else some 0
