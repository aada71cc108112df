-- ===== src/Linear.antt =====
-- The linear layers of src/model_glm52.cpp: `linear_forward`, and the slices of the weights that a
-- rank of a tensor-parallel group keeps, `shard_linear_columns` and `shard_linear_rows`. The `float`s
-- are a parameter with a zero, a sum and a product; a vector is a list.
pub mod Slices
pub mod Columns
pub mod Rows
pub mod Nibbles
mod Tests
use glmserve.Prelude.{
  ℕ, zero, suc, ◌+◌, ◌-◌, ◌*◌, ◌/◌, ◌%◌, ◌^◌, Bool, true, false, not, ◌&&◌, ◌||◌, List, [], ◌∷◌,
  ◌++◌, take, drop, length, get_or, set, replicate, map, ltb, leb, ◌==◌, if◌then◌else◌,
}
use glmserve.Prelude.Bytes.{Bytes}
use glmserve.Prelude.Result.{Result, ok, err, ◌>>=◌, ◌>>◌, check}

pub record Scalar (S : Type 0) : Type 0 where
  pub nil : S
  pub plus : S → S → S
  pub times : S → S → S

pub data LinearError : Type 0 where
  quantized_only not_divisible not_aligned : LinearError

-- `has_q` is the method, for a weight that stays in its GGUF blocks.
pub record Linear (S : Type 0) : Type 0 where
  pub w : List S
  pub b : List S
  pub qweight : Bytes
  pub scales : List S
  pub out_features : ℕ
  pub in_features : ℕ
  pub group_size : ℕ
  pub quantized_int4 : Bool
  pub has_q : Bool

-- `n` elements from the place `from`, as `memcpy` and a pointer into a vector take them.
abbrev pub slice {ℓ} : {A : Type ℓ} → (from n : ℕ) → List A → List A
slice from n xs = take n (drop from xs)

-- The low half of a byte comes first.
abbrev pub half : (odd : Bool) → ℕ → ℕ
half odd byte = if odd then byte / 16 else byte % 16

abbrev pub put_half : (odd : Bool) → (byte v : ℕ) → ℕ
put_half odd byte v = if odd then byte % 16 + v * 16 % 256 else byte / 16 * 16 + v % 16

unfoldable pub get_q : Bytes → ℕ → ℕ
get_q row col = half (col % 2 == 1) (get_or row (col / 2) 0)

unfoldable pub set_q : Bytes → ℕ → ℕ → Bytes
set_q row col v = set row (col / 2) (put_half (col % 2 == 1) (get_or row (col / 2) 0) v)

-- The loop over the columns `i`, `i + 1`, ... of one row, `n` of them.
unfoldable pub repack : Bytes → (c0 : ℕ) → (i n : ℕ) → Bytes → Bytes
repack src c0 i zero dst = dst
repack src c0 i (suc n) dst = repack src c0 (suc i) n (set_q dst i (get_q src (c0 + i)))

abbrev pub is_set : {A : Type 0} → List A → Bool
is_set [] = false
is_set (x ∷ xs) = true

-- From each row, of `stride` elements, `n` elements from the place `from` of it.
unfoldable pub gather : {A : Type 0} → (rows stride from n : ℕ) → List A → List A
gather zero stride from n xs = []
gather (suc rows) stride from n xs = slice from n xs ++ gather rows stride from n (drop stride xs)

-- The loop over the rows of packed weights.
unfoldable pub repack_rows : (rows old_packed new_packed c0 n : ℕ) → Bytes → Bytes
repack_rows zero old_packed new_packed c0 n q = []
repack_rows (suc rows) old_packed new_packed c0 n q =
    repack (take old_packed q) c0 0 n (replicate new_packed 0)
    ++ repack_rows rows old_packed new_packed c0 n (drop old_packed q)

module _ {S : Type 0} where
  abbrev pub has_f32 : Linear S → Bool
  has_f32 l = is_set l.w

  abbrev pub has_bias : Linear S → Bool
  has_bias l = is_set l.b

  abbrev pub valid : Linear S → Bool
  valid l = is_set l.w || is_set l.qweight || l.has_q

  -- The rows of a rank, their biases, and their packed weights.
  unfoldable pub column_shard : Linear S → (out_l r0 : ℕ) → Linear S
  column_shard l out_l r0 =
      let packed_in = (l.in_features + 1) / 2 in
      let groups_per_row = length l.scales / l.out_features in
      record l {
        w = if has_f32 l then slice (r0 * l.in_features) (out_l * l.in_features) l.w else l.w;
        b = if has_bias l then slice r0 out_l l.b else l.b;
        qweight =
            if l.quantized_int4
            then slice (r0 * packed_in) (out_l * packed_in) l.qweight
            else l.qweight;
        scales =
            if l.quantized_int4
            then slice (r0 * groups_per_row) (out_l * groups_per_row) l.scales
            else l.scales;
        out_features = out_l;
      }

  unfoldable pub shard_linear_columns :
      Linear S → (tp_rank tp_size : ℕ) → Result LinearError (Linear S)
  shard_linear_columns l tp_rank tp_size = if leb tp_size 1 || not (valid l) then ok l else (do
    check (l.out_features % tp_size == 0) not_divisible
    let out_l = l.out_features / tp_size
    ok (column_shard l out_l (tp_rank * out_l)))

  -- The columns of a rank; the bias stays on rank 0 only.
  unfoldable pub row_shard : Scalar S → Linear S → (tp_rank in_l c0 : ℕ) → Linear S
  row_shard s l tp_rank in_l c0 =
      let old_groups = length l.scales / l.out_features in
      record l {
        w = if has_f32 l then gather l.out_features l.in_features c0 in_l l.w else l.w;
        b = if has_bias l && not (tp_rank == 0) then replicate (length l.b) s.nil else l.b;
        qweight =
            if l.quantized_int4
            then repack_rows l.out_features ((l.in_features + 1) / 2) ((in_l + 1) / 2) c0 in_l
                l.qweight
            else l.qweight;
        scales =
            if l.quantized_int4
            then gather l.out_features old_groups (c0 / l.group_size) (in_l / l.group_size) l.scales
            else l.scales;
        in_features = in_l;
      }

  -- A group size of 0, which no loader gives, would be a division by zero.
  unfoldable pub shard_linear_rows :
      Scalar S → Linear S → (tp_rank tp_size : ℕ) → Result LinearError (Linear S)
  shard_linear_rows s l tp_rank tp_size = if leb tp_size 1 || not (valid l) then ok l else (do
    check (l.in_features % tp_size == 0) not_divisible
    let in_l = l.in_features / tp_size
    let c0 = tp_rank * in_l
    check (not l.quantized_int4 || c0 % l.group_size == 0 && in_l % l.group_size == 0) not_aligned
    ok (row_shard s l tp_rank in_l c0))

module _ {S : Type 0} (s : Scalar S) where
  unfoldable pub dot : S → List S → List S → S
  dot acc [] ws = acc
  dot acc (x ∷ xs) [] = acc
  dot acc (x ∷ xs) (w ∷ ws) = dot (s.plus acc (s.times x w)) xs ws

  abbrev pub with_bias : List S → ℕ → S → S
  with_bias [] o acc = acc
  with_bias (c ∷ b) o acc = s.plus acc (get_or (c ∷ b) o s.nil)

  abbrev pub output : Linear S → List S → ℕ → S
  output l xt o = with_bias l.b o (dot s.nil xt (slice (o * l.in_features) l.in_features l.w))

  -- The outputs `o`, `o + 1`, ... of one token, `n` of them.
  unfoldable pub outputs : Linear S → List S → (o n : ℕ) → List S
  outputs l xt o zero = []
  outputs l xt o (suc n) = output l xt o ∷ outputs l xt (suc o) n

  abbrev pub forward_token : Linear S → List S → List S
  forward_token l xt = outputs l xt 0 l.out_features

  unfoldable pub forward_tokens : Linear S → ℕ → List S → List S
  forward_tokens l zero x = []
  forward_tokens l (suc n) x =
      forward_token l (take l.in_features x) ++ forward_tokens l n (drop l.in_features x)

  unfoldable pub linear_forward : Linear S → List S → ℕ → Result LinearError (List S)
  linear_forward l x n_tokens = do
    check (has_f32 l) quantized_only
    ok (forward_tokens l n_tokens x)
