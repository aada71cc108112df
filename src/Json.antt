-- ===== src/Json.antt =====
-- The JSON parser of include/json.hpp, and `json_escape` of src/server.cpp, its counterpart on the
-- way out. The parser's state `(s_, i_)` is the unread text, the suffix of `s_` at `i_`; an error
-- keeps the unread text where the parser stood, so its offset is the size of `s_` less that length.
pub mod Parser
pub mod Escape
pub mod Access
pub mod Utf8
pub mod Termination
mod Tests
use glmserve.Prelude.{
  ℕ, zero, suc, ◌+◌, ◌-◌, ◌*◌, ◌/◌, ◌%◌, ◌^◌, Bool, true, false, ◌&&◌, ◌||◌, List, [], ◌∷◌, ◌++◌,
  ltb, leb, ◌==◌, if◌then◌else◌,
}
use glmserve.Prelude.Bytes.{Bytes}
use glmserve.Prelude.Result.{Result, ok, err, ◌>>=◌, ◌>>◌}

pub data Message : Type 0 where
  expected : ℕ → Message
  bad_object bad_array bad_escape bad_hex bad_literal unterminated invalid_number : Message

-- `out_of_fuel` is the model's own; `bad_number` is what `std::stod` throws.
pub data Error : Type 0 where
  fail : Bytes → Message → Error
  bad_number : Bytes → Error
  out_of_fuel : Error

abbrev pub Parsed : Type 0 → Type 0
Parsed A = Result Error (A × Bytes)

-- At the end of the text these return '\0', and `get` stays there.
abbrev pub peek : Bytes → ℕ
peek [] = 0
peek (c ∷ s) = c

abbrev pub get : Bytes → ℕ × Bytes
get [] = (0, [])
get (c ∷ s) = (c, s)

abbrev pub is_ws : ℕ → Bool
is_ws c = c == b' ' || c == b'\t' || c == b'\n' || c == b'\r'

unfoldable pub skip_ws : Bytes → Bytes
skip_ws [] = []
skip_ws (c ∷ s) = let rest = skip_ws s in if is_ws c then rest else c ∷ s

abbrev pub expect : ℕ → Bytes → Result Error Bytes
expect c s = if (get s).0 == c then ok (get s).1 else err (fail (get s).1 (expected c))

abbrev pub hex_value : Bytes → ℕ → Result Error ℕ
hex_value s c =
    if leb b'0' c && leb c b'9'
    then ok (c - b'0')
    else if leb b'a' c && leb c b'f'
    then ok (c - b'a' + 10)
    else if leb b'A' c && leb c b'F'
    then ok (c - b'A' + 10)
    else err (fail s bad_hex)

-- The four turns of the loop. A digit is below 16 and `v << 4` ends in four zeros, so `|=` adds.
unfoldable pub parse_hex4 : Bytes → Parsed ℕ
parse_hex4 s = do
  let s1 = (get s).1
  a ← hex_value s1 (get s).0
  let s2 = (get s1).1
  b ← hex_value s2 (get s1).0
  let s3 = (get s2).1
  c ← hex_value s3 (get s2).0
  let s4 = (get s3).1
  d ← hex_value s4 (get s3).0
  ok (((a * 16 + b) * 16 + c) * 16 + d, s4)

-- `|` joins a leading pattern with bits below it, and `x & 0x3F` is `x % 64`.
unfoldable pub append_utf8 : Bytes → ℕ → Bytes
append_utf8 out cp =
    if leb cp 0x7F
    then out ++ cp ∷ []
    else if leb cp 0x7FF
    then out ++ (0xC0 + cp / 64) ∷ (0x80 + cp % 64) ∷ []
    else if leb cp 0xFFFF
    then out ++ (0xE0 + cp / 4096) ∷ (0x80 + cp / 64 % 64) ∷ (0x80 + cp % 64) ∷ []
    else out
      ++ (0xF0 + cp / 262144)
        ∷ (0x80 + cp / 4096 % 64)
        ∷ (0x80 + cp / 64 % 64)
        ∷ (0x80 + cp % 64)
        ∷ []

abbrev pub starts_pair : ℕ → Bytes → Bool
starts_pair cp (c ∷ e ∷ s) = leb 0xD800 cp && leb cp 0xDBFF && c == b'\\' && e == b'u'
starts_pair cp s = false

abbrev pub skip2 : Bytes → Bytes
skip2 s = (get (get s).1).1

-- The second half of a surrogate pair. It is not tested; the difference is a `uint32_t`.
abbrev pub low_half : ℕ → Bytes → Parsed ℕ
low_half cp s = do
  l ← parse_hex4 (skip2 s)
  ok ((0x10000 + (cp - 0xD800) * 1024 + (l.0 + 2 ^ 32 - 0xDC00)) % 2 ^ 32, l.1)

-- The code point after `\u`.
unfoldable pub parse_code_point : Bytes → Parsed ℕ
parse_code_point s = do
  r ← parse_hex4 s
  let cp = r.0
  (if starts_pair cp r.1 then low_half cp r.1 else ok r)

-- What follows a backslash, the character `e` already read.
unfoldable pub unescape : Bytes → ℕ → Bytes → Parsed Bytes
unescape out e s =
    if e == b'"'
    then ok (out ++ b'"' ∷ [], s)
    else if e == b'\\'
    then ok (out ++ b'\\' ∷ [], s)
    else if e == b'/'
    then ok (out ++ b'/' ∷ [], s)
    else if e == b'b'
    then ok (out ++ 8 ∷ [], s)
    else if e == b'f'
    then ok (out ++ 12 ∷ [], s)
    else if e == b'n'
    then ok (out ++ b'\n' ∷ [], s)
    else if e == b'r'
    then ok (out ++ b'\r' ∷ [], s)
    else if e == b't'
    then ok (out ++ b'\t' ∷ [], s)
    else if e == b'u'
    then (do r ← parse_code_point s; ok (append_utf8 out r.0, r.1))
    else err (fail s bad_escape)

-- One turn of the loop of `parse_string`, and the loop.
pub data Turn : Type 0 where
  again finished : Bytes → Bytes → Turn

unfoldable pub string_turn : Bytes → Bytes → Result Error Turn
string_turn out s =
    let c = (get s).0 in
    let s1 = (get s).1 in
    if c == 0
    then err (fail s1 unterminated)
    else if c == b'"'
    then ok (finished out s1)
    else if c == b'\\'
    then (do r ← unescape out (get s1).0 (get s1).1; ok (again r.0 r.1))
    else ok (again (out ++ c ∷ []) s1)

unfoldable pub string_loop : ℕ → Bytes → Bytes → Parsed Bytes
string_loop zero out s = err out_of_fuel
string_loop (suc n) out s = do
  turn ← string_turn out s
  elim turn [ again out' s' ↦ string_loop n out' s' | finished out' s' ↦ ok (out', s') ]

unfoldable pub parse_string : ℕ → Bytes → Parsed Bytes
parse_string n s = do s1 ← expect b'"' s; string_loop n [] s1
