-- ===== src/Gguf.antt =====
-- The GGUF reader of src/gguf.cpp and include/gguf.hpp: its input stream, and the metadata values.
-- A shard is the list of its bytes and the stream a position in it. `seekg` may go past the end, as
-- that of `std::ifstream` does: only a later read fails. A float is kept as its width and bits.
pub mod Types
pub mod Shard
pub mod Model
pub mod Layout
pub mod Validate
pub mod Modules
mod Tests
use glmserve.Prelude.{
  ℕ, zero, suc, ◌+◌, ◌-◌, ◌*◌, ◌^◌, Bool, true, false, not, List, [], ◌∷◌, take, drop, length, ltb,
  leb, ◌==◌, if◌then◌else◌,
}
use glmserve.Prelude.Int.{ℤ, pos, negsuc, signed}
use glmserve.Prelude.Bytes.{Bytes}
use glmserve.Prelude.Result.{Result, ok, err, ◌>>=◌, ◌>>◌, check}

pub data Error : Type 0 where
  short_read short_string bad_magic past_eof tensor_past_eof : Error
  string_length bad_scalar bad_value bad_ndim unknown_type bad_blocks : ℕ → Error
  no_shards not_found bad_shard not_mapped outside_shard : Error
  out_of_fuel : Error

abbrev pub Read : Type 0 → Type 0
Read A = Result Error (A × ℕ)

abbrev pub le_value : Bytes → ℕ
le_value [] = 0
le_value (b ∷ s) = b + 256 * le_value s

-- The state of the stream `in` is its position in the file.
module _ (file : Bytes) where
  unfoldable pub read_bytes : Error → ℕ → ℕ → Read Bytes
  read_bytes e n at =
      if leb (at + n) (length file) then ok (take n (drop at file), at + n) else err e

  unfoldable pub read_pod : ℕ → ℕ → Read ℕ
  read_pod width at = do r ← read_bytes short_read width at; ok (le_value r.0, r.1)

  unfoldable pub read_string : ℕ → Read Bytes
  read_string at = do
    n ← read_pod 8 at
    check (ltb n.0 (2 ^ 32)) (string_length n.0)
    (if n.0 == 0 then ok ([], n.1) else read_bytes short_string n.0 n.1)

abbrev pub scalar_size : ℕ → Result Error ℕ
scalar_size type =
    if type == 0
    then ok 1
    else if type == 1
    then ok 1
    else if type == 7
    then ok 1
    else if type == 2
    then ok 2
    else if type == 3
    then ok 2
    else if type == 4
    then ok 4
    else if type == 5
    then ok 4
    else if type == 6
    then ok 4
    else if type == 10
    then ok 8
    else if type == 11
    then ok 8
    else if type == 12
    then ok 8
    else err (bad_scalar type)

pub data GgufValue : Type 0 where
  string_value : Bytes → GgufValue
  uint_value : ℕ → GgufValue
  int_value : ℤ → GgufValue
  float_value : ℕ → ℕ → GgufValue
  bool_value : Bool → GgufValue
  array_value : ℕ → ℕ → GgufValue

-- The loops over the elements of an array.
abbrev pub repeat : (ℕ → Result Error ℕ) → ℕ → ℕ → Result Error ℕ
repeat skip zero at = ok at
repeat skip (suc n) at = do next ← skip at; repeat skip n next

module _ (file : Bytes) where
  -- Fuel bounds the depth of arrays within arrays.
  unfoldable pub skip_value_payload : ℕ → ℕ → ℕ → Result Error ℕ
  skip_value_payload zero type at = err out_of_fuel
  skip_value_payload (suc f) type at =
      if type == 8
      then (do s ← read_string file at; ok s.1)
      else if type == 9
      then (do
        elem_type ← read_pod file 4 at
        n ← read_pod file 8 elem_type.1
        repeat (λ p. skip_value_payload f elem_type.0 p) n.0 n.1)
      else (do n ← scalar_size type; ok (at + n))

  abbrev pub pod_value : (ℕ → GgufValue) → ℕ → ℕ → Read GgufValue
  pod_value make width at = do r ← read_pod file width at; ok (make r.0, r.1)

  unfoldable pub read_array : ℕ → ℕ → Read GgufValue
  read_array f at = do
    array_type ← read_pod file 4 at
    array_len ← read_pod file 8 array_type.1
    after ← repeat (λ p. skip_value_payload f array_type.0 p) array_len.0 array_len.1
    ok (array_value array_type.0 array_len.0, after)

  unfoldable pub read_value : ℕ → ℕ → ℕ → Read GgufValue
  read_value f type at =
      if type == 8
      then (do s ← read_string file at; ok (string_value s.0, s.1))
      else if type == 0
      then pod_value uint_value 1 at
      else if type == 2
      then pod_value uint_value 2 at
      else if type == 4
      then pod_value uint_value 4 at
      else if type == 10
      then pod_value uint_value 8 at
      else if type == 1
      then pod_value (λ u. int_value (signed 8 u)) 1 at
      else if type == 3
      then pod_value (λ u. int_value (signed 16 u)) 2 at
      else if type == 5
      then pod_value (λ u. int_value (signed 32 u)) 4 at
      else if type == 11
      then pod_value (λ u. int_value (signed 64 u)) 8 at
      else if type == 6
      then pod_value (float_value 4) 4 at
      else if type == 12
      then pod_value (float_value 8) 8 at
      else if type == 7
      then pod_value (λ u. bool_value (not (u == 0))) 1 at
      else if type == 9
      then read_array f at
      else err (bad_value type)
