-- ===== src/Dist/Hex.antt =====
-- `id_to_hex` and `hex_to_id` of src/nccl_comm.cpp. The size of an `ncclUniqueId` is a parameter.
use glmserve.Prelude.{
  ℕ, zero, suc, ◌+◌, ◌-◌, ◌*◌, ◌/◌, ◌%◌, ◌<◌, ◌≡◌, refl, ◌&&◌, Option, none, some, [], ◌∷◌, ◌++◌,
  leb, ltb, if◌then◌else◌, All, length, Bool-cases, inl, inr, arith,
}
use glmserve.Prelude.Bytes.{Bytes}

-- The table "0123456789abcdef".
abbrev pub hex_char : ℕ → ℕ
hex_char n = if ltb n 10 then b'0' + n else b'a' + (n - 10)

unfoldable pub id_to_hex : Bytes → Bytes
id_to_hex [] = []
id_to_hex (b ∷ id) = hex_char (b / 16) ∷ hex_char (b % 16) ∷ id_to_hex id

-- The value of a character; the source's -1 is `none`.
unfoldable pub hex_digit_value : ℕ → Option ℕ
hex_digit_value c =
    if leb b'0' c && leb c b'9'
    then some (c - b'0')
    else if leb b'a' c && leb c b'f'
    then some (c - b'a' + 10)
    else if leb b'A' c && leb c b'F'
    then some (c - b'A' + 10)
    else none

abbrev pub hex_byte : Option ℕ → Option ℕ → Option ℕ
hex_byte (some a) (some b) = some (a * 16 + b)
hex_byte a b = none

abbrev pub cons_byte : Option ℕ → Option Bytes → Option Bytes
cons_byte (some b) (some id) = some (b ∷ id)
cons_byte b id = none

-- A text that is too short is refused; what stands behind the id is not read.
unfoldable pub hex_to_id : ℕ → Bytes → Option Bytes
hex_to_id zero s = some []
hex_to_id (suc size) (c ∷ d ∷ s) =
    cons_byte (hex_byte (hex_digit_value c) (hex_digit_value d)) (hex_to_id size s)
hex_to_id (suc size) s = none

hex_digit_value-hex_char : (n : ℕ) → n < 16 → hex_digit_value (hex_char n) ≡ some n
unfolding hex_digit_value
hex_digit_value-hex_char n h = elim (Bool-cases (ltb n 10)) [
  | inl e ↦ rw e (ground arith)
  | inr e ↦ rw e (ground arith)
]

-- The id that rank 0 prints is the one that the other ranks read, whatever follows it.
pub hex_to_id-id_to_hex :
    (id rest : Bytes)
    → All (λ b. b < 256) id
    → hex_to_id (length id) (id_to_hex id ++ rest) ≡ some id
unfolding hex_to_id id_to_hex
hex_to_id-id_to_hex [] rest h = refl
hex_to_id-id_to_hex (b ∷ id) rest h =
    let high = hex_digit_value-hex_char (b / 16) (omega (arith, h.0)) in
    let low = hex_digit_value-hex_char (b % 16) (omega arith) in
    let whole : b / 16 * 16 + b % 16 ≡ b = omega arith in
    rw (high, low, hex_to_id-id_to_hex id rest h.1, whole) refl
