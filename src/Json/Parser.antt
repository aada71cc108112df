-- ===== src/Json/Parser.antt =====
-- The values and the recursive descent of include/json.hpp. `std::stod` is a parameter: it makes a
-- number of a prefix of its text or throws. Fuel bounds the recursion and each loop.
use glmserve.Prelude.{
  ℕ, zero, suc, Bool, true, false, ◌&&◌, ◌||◌, Option, none, some, [], ◌∷◌, take, drop, leb, ltb,
  ◌==◌, if◌then◌else◌, length, ◌+◌,
}
use glmserve.Prelude.Bytes.{Bytes, codes, bytes_eq}
use glmserve.Prelude.Result.{Result, ok, err, ◌>>=◌}
use glmserve.Json.{
  Error, fail, bad_number, out_of_fuel, bad_object, bad_array, bad_literal, invalid_number, Parsed,
  peek, get, skip_ws, expect, parse_string,
}

-- The tagged struct of the source; `array` and `object` hold the vector and the map.
mutual
  pub data Value (Num : Type 0) : Type 0 where
    null : Value Num
    boolean : Bool → Value Num
    number : Num → Value Num
    string : Bytes → Value Num
    array : Values Num → Value Num
    object : Members Num → Value Num

  pub data Values (Num : Type 0) : Type 0 where
    no_values : Values Num
    value_then : Value Num → Values Num → Values Num

  pub data Members (Num : Type 0) : Type 0 where
    no_members : Members Num
    member_then : Bytes → Value Num → Members Num → Members Num

-- The order of the keys of `std::map`.
abbrev pub bytes_lt : Bytes → Bytes → Bool
bytes_lt s [] = false
bytes_lt [] (y ∷ t) = true
bytes_lt (x ∷ s) (y ∷ t) = ltb x y || x == y && bytes_lt s t

module _ {Num : Type 0} where
  abbrev pub push_back : Values Num → Value Num → Values Num
  push_back no_values v = value_then v no_values
  push_back (value_then w rest) v = value_then w (push_back rest v)

  -- `v->obj[key] = value` and `at`.
  unfoldable pub insert : Bytes → Value Num → Members Num → Members Num
  insert k v no_members = member_then k v no_members
  insert k v (member_then j w rest) =
      let after = insert k v rest in
      if bytes_eq k j
      then member_then j v rest
      else if bytes_lt k j
      then member_then k v (member_then j w rest)
      else member_then j w after

  unfoldable pub at : Members Num → Bytes → Option (Value Num)
  at no_members k = none
  at (member_then j w rest) k = let later = at rest k in if bytes_eq k j then some w else later

abbrev pub is_number_char : ℕ → Bool
is_number_char c =
    leb b'0' c && leb c b'9' || c == b'.' || c == b'e' || c == b'E' || c == b'+' || c == b'-'

unfoldable pub number_loop : Bytes → Bytes × Bytes
number_loop [] = ([], [])
number_loop (c ∷ s) =
    let r = number_loop s in if is_number_char c then (c ∷ r.0, r.1) else ([], c ∷ s)

-- A sign at the start is read first.
unfoldable pub number_text : Bytes → Bytes × Bytes
number_text [] = ([], [])
number_text (c ∷ s) =
    if c == b'-' || c == b'+'
    then (c ∷ (number_loop s).0, (number_loop s).1)
    else number_loop (c ∷ s)

-- `std::stod` on the characters read; what it throws is not the parser's message.
unfoldable pub parse_number : {Num : Type 0} → (Bytes → Option Num) → Bytes → Parsed (Value Num)
parse_number stod s = elim (number_text s).0 [
  | [] ↦ err (fail s invalid_number)
  | (c ∷ text) ↦ elim (stod (c ∷ text)) [
    | none ↦ err (bad_number s)
    | some x ↦ ok (number x, (number_text s).1)
  ]
]

unfoldable pub parse_bool : {Num : Type 0} → Bytes → Parsed (Value Num)
parse_bool s =
    if bytes_eq (take 4 s) (codes "true")
    then ok (boolean true, drop 4 s)
    else if bytes_eq (take 5 s) (codes "false")
    then ok (boolean false, drop 5 s)
    else err (fail s bad_literal)

unfoldable pub parse_null : {Num : Type 0} → Bytes → Parsed (Value Num)
parse_null s =
    if bytes_eq (take 4 s) (codes "null") then ok (null, drop 4 s) else err (fail s bad_literal)

-- The containers, given the parser of a value that stands inside them.
module _ {Num : Type 0} (inner : Bytes → Parsed (Value Num)) where
  unfoldable pub members_loop : ℕ → Members Num → Bytes → Parsed (Value Num)
  members_loop zero obj s = err out_of_fuel
  members_loop (suc n) obj s = do
    key ← parse_string n (skip_ws s)
    s1 ← expect b':' (skip_ws key.1)
    v ← inner s1
    let after = get (skip_ws v.1)
    let filled = insert key.0 v.0 obj
    elim (after.0 == b',') [
      | true ↦ members_loop n filled after.1
      | false ↦
          if after.0 == b'}' then ok (object filled, after.1) else err (fail after.1 bad_object)
    ]

  unfoldable pub parse_object : ℕ → Bytes → Parsed (Value Num)
  parse_object n s = do
    s1 ← expect b'{' s
    let s2 = skip_ws s1
    (if peek s2 == b'}' then ok (object no_members, (get s2).1) else members_loop n no_members s2)

  unfoldable pub elements_loop : ℕ → Values Num → Bytes → Parsed (Value Num)
  elements_loop zero arr s = err out_of_fuel
  elements_loop (suc n) arr s = do
    v ← inner s
    let after = get (skip_ws v.1)
    let filled = push_back arr v.0
    elim (after.0 == b',') [
      | true ↦ elements_loop n filled after.1
      | false ↦ if after.0 == b']' then ok (array filled, after.1) else err (fail after.1 bad_array)
    ]

  unfoldable pub parse_array : ℕ → Bytes → Parsed (Value Num)
  parse_array n s = do
    s1 ← expect b'[' s
    let s2 = skip_ws s1
    (if peek s2 == b']' then ok (array no_values, (get s2).1) else elements_loop n no_values s2)

unfoldable pub parse_string_value : {Num : Type 0} → ℕ → Bytes → Parsed (Value Num)
parse_string_value n s = do r ← parse_string n s; ok (string r.0, r.1)

unfoldable pub parse_value : {Num : Type 0} → (Bytes → Option Num) → ℕ → Bytes → Parsed (Value Num)
parse_value stod zero s = err out_of_fuel
parse_value stod (suc n) s =
    let s1 = skip_ws s in
    let c = peek s1 in
    if c == b'{'
    then parse_object (parse_value stod n) n s1
    else if c == b'['
    then parse_array (parse_value stod n) n s1
    else if c == b'"'
    then parse_string_value n s1
    else if c == b't' || c == b'f'
    then parse_bool s1
    else if c == b'n'
    then parse_null s1
    else parse_number stod s1

-- `json::parse`: the text after the value is not looked at.
unfoldable pub parse : {Num : Type 0} → (Bytes → Option Num) → Bytes → Result Error (Value Num)
parse stod s = do r ← parse_value stod (length s + 2) (skip_ws s); ok r.0
