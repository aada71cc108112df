-- ===== src/Json/Escape.antt =====
-- `json_escape` of src/server.cpp, and that the parser reads back what it writes.
pub mod Text
use glmserve.Prelude.{
  Option, ◌≤◌, ℕ, zero, suc, ◌+◌, ◌/◌, ◌-◌, ◌*◌, false, ◌%◌, ◌<◌, ◌≡◌, refl, [], ◌∷◌, ◌++◌, leb,
  ltb, ◌==◌, if◌then◌else◌, length, append_assoc, append-nil, Bool-cases, true, ltb→lt, ==_iff,
  arith, inl, inr,
}
use glmserve.Prelude.Bytes.{Bytes}
use glmserve.Prelude.Result.{ok}
use glmserve.Json.{
  string_turn, string_loop, again, unescape, parse_code_point, parse_hex4, append_utf8, hex_value,
  starts_pair, parse_string,
}

-- A digit as `%04x` prints it.
abbrev pub hex_digit : ℕ → ℕ
hex_digit d = if ltb d 10 then b'0' + d else b'a' + (d - 10)

unfoldable pub escape_char : ℕ → Bytes
escape_char c =
    if c == b'"'
    then b'\\' ∷ b'"' ∷ []
    else if c == b'\\'
    then b'\\' ∷ b'\\' ∷ []
    else if c == b'\n'
    then b'\\' ∷ b'n' ∷ []
    else if c == b'\r'
    then b'\\' ∷ b'r' ∷ []
    else if c == b'\t'
    then b'\\' ∷ b't' ∷ []
    else if c == 8
    then b'\\' ∷ b'b' ∷ []
    else if c == 12
    then b'\\' ∷ b'f' ∷ []
    else if ltb c 0x20
    then b'\\'
      ∷ b'u'
      ∷ hex_digit (c / 4096 % 16)
      ∷ hex_digit (c / 256 % 16)
      ∷ hex_digit (c / 16 % 16)
      ∷ hex_digit (c % 16)
      ∷ []
    else c ∷ []

unfoldable pub json_escape : Bytes → Bytes
json_escape [] = []
json_escape (c ∷ s) = escape_char c ++ json_escape s

-- A printed digit is read back, and so are the four digits of a byte.
hex_value-hex_digit : (s : Bytes) (d : ℕ) → d < 16 → hex_value s (hex_digit d) ≡ ok d
hex_value-hex_digit s d h = ground arith

parse_hex4-hex_digit :
    (a b c d : ℕ) (s : Bytes)
    → a < 16
    → b < 16
    → c < 16
    → d < 16
    → parse_hex4 (hex_digit a ∷ hex_digit b ∷ hex_digit c ∷ hex_digit d ∷ s)
      ≡ ok (((a * 16 + b) * 16 + c) * 16 + d, s)
unfolding parse_hex4
parse_hex4-hex_digit a b c d s ha hb hc hd = rw (
  hex_value-hex_digit (hex_digit b ∷ hex_digit c ∷ hex_digit d ∷ s) a ha,
  hex_value-hex_digit (hex_digit c ∷ hex_digit d ∷ s) b hb,
  hex_value-hex_digit (hex_digit d ∷ s) c hc,
  hex_value-hex_digit s d hd,
)

control-turn :
    (c : ℕ) (out rest : Bytes)
    → c < 32
    → unescape out b'u' (
        hex_digit (c / 4096 % 16)
        ∷ hex_digit (c / 256 % 16)
        ∷ hex_digit (c / 16 % 16)
        ∷ hex_digit (c % 16)
        ∷ rest)
      ≡ ok (out ++ c ∷ [], rest)
unfolding unescape parse_code_point append_utf8
control-turn c out rest h = rw (
  parse_hex4-hex_digit (c / 4096 % 16) (c / 256 % 16) (c / 16 % 16) (c % 16) rest (omega arith)
      (omega arith) (omega arith) (omega arith),
  value,
  lone rest,
  ascii,
)
  where
    value : ((c / 4096 % 16 * 16 + c / 256 % 16) * 16 + c / 16 % 16) * 16 + c % 16 ≡ c
    value = omega arith

    lone : (s : Bytes) → starts_pair c s ≡ false
    lone [] = refl
    lone (x ∷ []) = refl
    lone (x ∷ y ∷ s) = let low : leb 0xD800 c ≡ false = ground arith in rw low

    ascii : leb c 0x7F ≡ true
    ascii = ground arith

plain-turn :
    (c : ℕ) (out rest : Bytes)
    → (c == b'"') ≡ false
    → (c == b'\\') ≡ false
    → ltb c 0x20 ≡ false
    → string_turn out (c ∷ rest) ≡ ok (again (out ++ c ∷ []) rest)
unfolding string_turn
plain-turn c out rest q b l = let z : (c == 0) ≡ false = ground arith in rw (z, q, b)

-- One turn of the parser's loop reads one escaped character.
escape_char-turn :
    (c : ℕ) (out rest : Bytes)
    → string_turn out (escape_char c ++ rest) ≡ ok (again (out ++ c ∷ []) rest)
unfolding escape_char string_turn unescape
escape_char-turn c out rest = elim (Bool-cases (c == b'"')) [
  | inl e ↦ named b'"' refl e
  | inr quote ↦ elim (Bool-cases (c == b'\\')) [
    | inl e ↦ named b'\\' refl e
    | inr slash ↦ elim (Bool-cases (c == b'\n')) [
      | inl e ↦ named b'\n' refl e
      | inr lf ↦ elim (Bool-cases (c == b'\r')) [
        | inl e ↦ named b'\r' refl e
        | inr cr ↦ elim (Bool-cases (c == b'\t')) [
          | inl e ↦ named b'\t' refl e
          | inr tab ↦ elim (Bool-cases (c == 8)) [
            | inl e ↦ named 8 refl e
            | inr bs ↦ elim (Bool-cases (c == 12)) [
              | inl e ↦ named 12 refl e
              | inr ff ↦ elim (Bool-cases (ltb c 0x20)) [
                | inl e ↦ rw (
                  quote,
                  slash,
                  lf,
                  cr,
                  tab,
                  bs,
                  ff,
                  e,
                  control-turn c out rest (ltb→lt c 0x20 e),
                )
                | inr big ↦
                    rw (quote, slash, lf, cr, tab, bs, ff, big)
                      (plain-turn c out rest quote slash big)
              ]
            ]
          ]
        ]
      ]
    ]
  ]
]
  where
    named :
        (k : ℕ)
        → string_turn out (escape_char k ++ rest) ≡ ok (again (out ++ k ∷ []) rest)
        → (c == k) ≡ true
        → string_turn out (escape_char c ++ rest) ≡ ok (again (out ++ c ∷ []) rest)
    named k h e = let same : c ≡ k = (==_iff c k).0 e in rw same h

quote-loop : (n : ℕ) (out rest : Bytes) → string_loop (suc n) out (b'"' ∷ rest) ≡ ok (out, rest)
unfolding string_loop string_turn
quote-loop n out rest = refl

-- Every string comes back from its escaped form, in as many turns as it has bytes and one more.
json_escape-loop :
    (n : ℕ) (s out rest : Bytes)
    → length s < n
    → string_loop n out (json_escape s ++ b'"' ∷ rest) ≡ ok (out ++ s, rest)
unfolding string_loop json_escape
json_escape-loop zero s out rest h = elim h [ ]
json_escape-loop (suc n) [] out rest h = rw (append-nil out) (quote-loop n out rest)
json_escape-loop (suc n) (c ∷ s) out rest h = rw (
  append_assoc (escape_char c) (json_escape s) (b'"' ∷ rest),
  escape_char-turn c out (json_escape s ++ b'"' ∷ rest),
  json_escape-loop n s (out ++ c ∷ []) rest (omega arith),
  append_assoc out (c ∷ []) s,
)

pub parse_string-json_escape :
    (n : ℕ) (s rest : Bytes)
    → length s < n
    → parse_string n (b'"' ∷ json_escape s ++ b'"' ∷ rest) ≡ ok (s, rest)
unfolding parse_string
parse_string-json_escape n s rest h = json_escape-loop n s [] rest h
