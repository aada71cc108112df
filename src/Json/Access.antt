-- ===== src/Json/Access.antt =====
-- The accessors with defaults of the struct Value in include/json.hpp. `obj` and `arr` are empty
-- for a value of another type. The cast of a `double` to `int64_t` is a parameter.
use glmserve.Prelude.{Bool, true, false, none, some}
use glmserve.Prelude.Int.{ℤ}
use glmserve.Prelude.Bytes.{Bytes}
use glmserve.Json.Parser.{
  Value, boolean, number, string, array, object, Values, no_values, Members, no_members, at,
}

module _ {Num : Type 0} where
  abbrev pub obj : Value Num → Members Num
  obj (object m) = m
  obj v = no_members

  abbrev pub arr : Value Num → Values Num
  arr (array vs) = vs
  arr v = no_values

  abbrev pub is_object : Value Num → Bool
  is_object (object m) = true
  is_object v = false

  abbrev pub is_array : Value Num → Bool
  is_array (array vs) = true
  is_array v = false

  unfoldable pub has : Value Num → Bytes → Bool
  has v k = elim (at (obj v) k) [ none ↦ false | some w ↦ true ]

  abbrev pub as_double : Value Num → Num → Num
  as_double (number x) def = x
  as_double v def = def

  abbrev pub as_bool : Value Num → Bool → Bool
  as_bool (boolean b) def = b
  as_bool v def = def

  abbrev pub as_string : Value Num → Bytes → Bytes
  as_string (string s) def = s
  as_string v def = def

  unfoldable pub get_double : Value Num → Bytes → Num → Num
  get_double v k def = elim (at (obj v) k) [ none ↦ def | some w ↦ as_double w def ]

  unfoldable pub get_bool : Value Num → Bytes → Bool → Bool
  get_bool v k def = elim (at (obj v) k) [ none ↦ def | some w ↦ as_bool w def ]

  unfoldable pub get_string : Value Num → Bytes → Bytes → Bytes
  get_string v k def = elim (at (obj v) k) [ none ↦ def | some w ↦ as_string w def ]

module _ {Num : Type 0} (to_int : Num → ℤ) where
  abbrev pub as_int : Value Num → ℤ → ℤ
  as_int (number x) def = to_int x
  as_int v def = def

  unfoldable pub get_int : Value Num → Bytes → ℤ → ℤ
  get_int v k def = elim (at (obj v) k) [ none ↦ def | some w ↦ as_int w def ]
