-- ===== src/Json/Tests.antt =====
-- The parser of include/json.hpp run on texts, and the instances of its theorems.
use glmserve.Prelude.{ℕ, ◌≡◌, ◌≢◌, refl, Bool, Option, none, some, [], ◌∷◌, ◌++◌, arith}
use glmserve.Prelude.Bytes.{Bytes, codes}
use glmserve.Prelude.Result.{ok, err}
use glmserve.Json.{
  fail, bad_array, out_of_fuel, append_utf8, skip_ws, parse_string, string_loop, string_turn,
  unescape, parse_code_point, parse_hex4,
}
use glmserve.Json.Parser.{
  null, boolean, number, string, array, object, no_values, value_then, no_members, member_then,
  parse, parse_value, parse_object, members_loop, parse_array, elements_loop, parse_number,
  number_text, number_loop, parse_bool, parse_null, insert, parse_string_value,
}
use glmserve.Json.Escape.{json_escape}
use glmserve.Json.Escape.Text.{parse-json_escape}
use glmserve.Json.Utf8.{decode, append_utf8-decode}
use glmserve.Json.Termination.Descent.{parse-ends}

-- A `stod` that takes every text for its first character.
abbrev stod : Bytes → Option ℕ
stod [] = none
stod (c ∷ s) = some c

abbrev odd_text : Bytes
odd_text = b'"' ∷ 0 ∷ b'\n' ∷ 0x1F ∷ b'\\' ∷ 0xC3 ∷ 0xA9 ∷ []

parse_object_test :
    parse stod (codes " {\"b\":[1,true], \"a\" : null} trailing")
    ≡ ok (
        object (
          member_then (codes "a") null (
            member_then
              (codes "b")
              (array (value_then (number b'1') (value_then (boolean Bool.true) no_values)))
              no_members)))
unfolding parse parse_value skip_ws parse_object members_loop parse_string string_loop string_turn
    parse_array elements_loop parse_number number_text number_loop parse_bool parse_null insert
parse_object_test = refl

parse_array_test : parse stod (codes "[1;") ≡ err (fail [] bad_array)
unfolding parse parse_value skip_ws parse_array elements_loop parse_number number_text number_loop
parse_array_test = refl

parse_pair_test :
    parse stod (codes "\"\\ud83d\\ude00\"") ≡ ok (string (0xF0 ∷ 0x9F ∷ 0x98 ∷ 0x80 ∷ []))
unfolding parse parse_value skip_ws parse_string_value parse_string string_loop string_turn unescape
    parse_code_point parse_hex4 append_utf8
parse_pair_test = refl

parse-json_escape_example :
    parse stod (b'"' ∷ json_escape odd_text ++ b'"' ∷ []) ≡ ok (string odd_text)
parse-json_escape_example = parse-json_escape stod odd_text []

append_utf8-decode_example :
    (append_utf8 (codes "x") 0x20AC ≡ codes "x" ++ append_utf8 [] 0x20AC)
    × (decode (append_utf8 [] 0x20AC) ≡ some 0x20AC)
append_utf8-decode_example = append_utf8-decode (codes "x") 0x20AC (omega arith)

parse-ends_example : parse stod (codes "{\"a\":[") ≢ err out_of_fuel
parse-ends_example = parse-ends stod (codes "{\"a\":[")
