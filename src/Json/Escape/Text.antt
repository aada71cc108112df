-- ===== src/Json/Escape/Text.antt =====
-- `json::parse` of include/json.hpp on a string that `json_escape` of src/server.cpp has written.
use glmserve.Prelude.{
  ℕ, suc, ◌+◌, ◌<◌, ◌≤◌, ◌≡◌, Option, [], ◌∷◌, ◌++◌, length, length-append, arith,
}
use glmserve.Prelude.Bytes.{Bytes}
use glmserve.Prelude.Result.{ok}
use glmserve.Json.{skip_ws}
use glmserve.Json.Parser.{parse, parse_value, parse_string_value, string}
use glmserve.Json.Escape.{escape_char, json_escape, parse_string-json_escape}

escape_char-long : (c : ℕ) → 0 < length (escape_char c)
unfolding escape_char
escape_char-long c = ground arith

json_escape-long : (s : Bytes) → length s ≤ length (json_escape s)
unfolding json_escape
json_escape-long [] = omega arith
json_escape-long (c ∷ s) =
    omega
      (arith, escape_char-long c, json_escape-long s, length-append (escape_char c) (json_escape s))

parse_value-string :
    {Num : Type 0} (stod : Bytes → Option Num) (n : ℕ) (s rest : Bytes)
    → length s < n
    → parse_value stod (suc n) (b'"' ∷ json_escape s ++ b'"' ∷ rest) ≡ ok (string s, rest)
unfolding parse_value parse_string_value skip_ws
parse_value-string stod n s rest h = rw (parse_string-json_escape n s rest h)

-- A string that is escaped and put between quotes is a JSON text whose value is that string,
-- whatever bytes it has and whatever follows the closing quote.
pub parse-json_escape :
    {Num : Type 0} (stod : Bytes → Option Num) (s rest : Bytes)
    → parse stod (b'"' ∷ json_escape s ++ b'"' ∷ rest) ≡ ok (string s)
unfolding parse skip_ws
parse-json_escape stod s rest =
    let text = json_escape s ++ b'"' ∷ rest in
    let fuel : length (b'"' ∷ text) + 2 ≡ suc (length text + 2) = omega arith in
    rw (
      fuel,
      parse_value-string stod (length text + 2) s rest
          (omega (arith, json_escape-long s, length-append (json_escape s) (b'"' ∷ rest))),
    )
