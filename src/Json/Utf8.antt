-- ===== src/Json/Utf8.antt =====
-- What `append_utf8` of include/json.hpp appends is the UTF-8 form of the code point.
use glmserve.Prelude.{
  ℕ, ◌+◌, ◌-◌, ◌*◌, ◌≤◌, ◌≡◌, Bool, Option, none, some, [], ◌∷◌, ◌++◌, leb, ◌&&◌, if◌then◌else◌,
  Bool-cases, inl, inr, arith,
}
use glmserve.Prelude.Bytes.{Bytes}
use glmserve.Json.{append_utf8}

-- A continuation byte, 0b10xxxxxx.
abbrev tail_byte : ℕ → Bool
tail_byte b = leb 0x80 b && leb b 0xBF

-- The decoder of RFC 3629, its surrogate rule left out: it refuses a form longer than need be.
unfoldable pub decode : Bytes → Option ℕ
decode (a ∷ []) = if leb a 0x7F then some a else none
decode (a ∷ b ∷ []) =
    if leb 0xC2 a && leb a 0xDF && tail_byte b then some ((a - 0xC0) * 64 + (b - 0x80)) else none
decode (a ∷ b ∷ c ∷ []) =
    let value = ((a - 0xE0) * 64 + (b - 0x80)) * 64 + (c - 0x80) in
    if leb 0xE0 a && leb a 0xEF && tail_byte b && tail_byte c && leb 0x800 value
    then some value
    else none
decode (a ∷ b ∷ c ∷ d ∷ []) =
    let value = (((a - 0xF0) * 64 + (b - 0x80)) * 64 + (c - 0x80)) * 64 + (d - 0x80) in
    if leb 0xF0 a
      && leb a 0xF4
      && tail_byte b
      && tail_byte c
      && tail_byte d
      && leb 0x10000 value
      && leb value 0x10FFFF
    then some value
    else none
decode s = none

-- One code point up to 0x10FFFF is appended, in its shortest form.
pub append_utf8-decode :
    (out : Bytes) (cp : ℕ)
    → cp ≤ 0x10FFFF
    → (append_utf8 out cp ≡ out ++ append_utf8 [] cp) × (decode (append_utf8 [] cp) ≡ some cp)
unfolding append_utf8 decode
append_utf8-decode out cp h = elim (Bool-cases (leb cp 0x7F)) [
  | inl e ↦ (rw e, rw e (ground arith))
  | inr e ↦ elim (Bool-cases (leb cp 0x7FF)) [
    | inl f ↦ (rw (e, f), rw (e, f) (ground arith))
    | inr f ↦ elim (Bool-cases (leb cp 0xFFFF)) [
      | inl g ↦ (rw (e, f, g), rw (e, f, g) (ground arith))
      | inr g ↦ (rw (e, f, g), rw (e, f, g) (ground arith))
    ]
  ]
]
