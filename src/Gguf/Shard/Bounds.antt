-- ===== src/Gguf/Shard/Bounds.antt =====
-- What a shard that `load_one_shard` of src/gguf.cpp accepts is known to satisfy.
use glmserve.Prelude.{
  ℕ, zero, suc, ◌+◌, ◌%◌, ◌^◌, ◌<◌, ◌≤◌, ◌≡◌, refl, true, ◌&&◌, Option, none, some, List, [], ◌∷◌,
  All, length, ltb, leb, leb→le, ◌==◌, arith,
}
use glmserve.Prelude.Bytes.{Bytes}
use glmserve.Prelude.Result.{
  ok, err, Gives, gives, fails, known, >>=-Gives, >>-Gives, Gives-weaken, check-Gives, Gives-ok,
}
use glmserve.Gguf.{read_pod, read_string, unknown_type}
use glmserve.Gguf.Types.{num_elements, ggml_type_size_bytes, size_of_blocks, type_block}
use glmserve.Gguf.Shard.{
  TensorInfo, ShardInfo, read_shape, read_tensor, read_tensors, read_metadata, payload_begin,
  payload_fits, check_payloads, load_one_shard, gguf_magic, align_up,
}

-- A row of the tensor table: its shape, its size by the GGML tables, its shard.
pub record IsRow (shard_index : ℕ) (t : TensorInfo) : Type 0 where
  pub some_dims : 0 < length t.shape
  pub few_dims : length t.shape ≤ 8
  pub sized : ggml_type_size_bytes t.type (num_elements t.shape) ≡ ok t.n_bytes
  pub owned : t.shard_index ≡ shard_index

-- The payload passes the test of the source and, as numbers that do not wrap, ends in the file.
abbrev pub Inside : ℕ → ℕ → TensorInfo → Type 0
Inside data_offset file_size t =
    (payload_fits data_offset file_size t ≡ true)
    × (payload_begin data_offset t + t.n_bytes ≤ file_size)

pub record IsLoaded (file : Bytes) (shard_index : ℕ) (sh : ShardInfo) : Type 0 where
  pub measured : sh.file_size ≡ length file
  pub data_in_file : sh.data_offset ≤ sh.file_size
  pub counted : length sh.tensors ≡ sh.tensor_count
  pub rows : All (IsRow shard_index) sh.tensors
  pub in_file : All (Inside sh.data_offset sh.file_size) sh.tensors

read_shape-length : (file : Bytes) (n at : ℕ) → Gives (λ r. length r.0 ≡ n) (read_shape file n at)
unfolding read_shape
read_shape-length file zero at = gives _ refl
read_shape-length file (suc n) at =
    >>=-Gives (known (read_pod file 8 at))
      λ d _. >>=-Gives (read_shape-length file n d.1) λ rest same. gives _ (omega arith)

ggml_type_size_bytes-lt : (type n : ℕ) → Gives (λ b. b < 2 ^ 64) (ggml_type_size_bytes type n)
unfolding ggml_type_size_bytes size_of_blocks
ggml_type_size_bytes-lt type n = go (type_block type)
  where
    go :
        (o : Option (ℕ × ℕ))
        → Gives
            (λ b. b < 2 ^ 64)
            (elim o [
              | none ↦ err (unknown_type type)
              | some (block, bytes) ↦ size_of_blocks block bytes n
            ])
    go none = fails _
    go (some (block, bytes)) = check-Gives (n % block == 0) _ λ _. gives _ (omega arith)

read_tensor-IsRow :
    (file : Bytes) (shard_index at : ℕ)
    → Gives (λ r. IsRow shard_index r.0) (read_tensor file shard_index at)
unfolding read_tensor
read_tensor-IsRow file shard_index at = >>=-Gives (known (read_string file at)) λ name _.
    >>=-Gives (known (read_pod file 4 name.1)) λ ndim _.
      check-Gives (ltb 0 ndim.0 && leb ndim.0 8) _ λ good.
        >>=-Gives (read_shape-length file ndim.0 ndim.1) λ shape dims.
          >>=-Gives (known (read_pod file 4 shape.1)) λ type _.
            >>=-Gives (known (read_pod file 8 type.1)) λ offset _.
              >>=-Gives (known (ggml_type_size_bytes type.0 (num_elements shape.0))) λ b sized.
                gives _ record {
                  some_dims = ground arith;
                  few_dims = ground arith;
                  sized = sized;
                  owned = refl;
                }

read_tensors-IsRow :
    (file : Bytes) (n shard_index at : ℕ)
    → Gives
        (λ r. (length r.0 ≡ n) × All (IsRow shard_index) r.0)
        (read_tensors file n shard_index at)
unfolding read_tensors
read_tensors-IsRow file zero shard_index at = gives _ (refl, tt)
read_tensors-IsRow file (suc n) shard_index at =
    >>=-Gives (read_tensor-IsRow file shard_index at) λ t row.
      >>=-Gives (read_tensors-IsRow file n shard_index t.1)
        λ rest rows. gives _ (omega arith, (row, rows.1))

payload_fits-le :
    (data_offset file_size : ℕ) (shard_index : ℕ) (t : TensorInfo)
    → IsRow shard_index t
    → payload_fits data_offset file_size t ≡ true
    → payload_begin data_offset t + t.n_bytes ≤ file_size
unfolding payload_fits payload_begin
payload_fits-le data_offset file_size shard_index t row h =
    let small : t.n_bytes < 2 ^ 64 =
      Gives-ok (ggml_type_size_bytes-lt t.type (num_elements t.shape)) row.sized in
    ground arith

check_payloads-Inside :
    (data_offset file_size shard_index : ℕ) (ts : List TensorInfo)
    → All (IsRow shard_index) ts
    → Gives (λ _. All (Inside data_offset file_size) ts) (check_payloads data_offset file_size ts)
unfolding check_payloads
check_payloads-Inside data_offset file_size shard_index [] rows = gives _ tt
check_payloads-Inside data_offset file_size shard_index (t ∷ ts) rows =
    check-Gives (payload_fits data_offset file_size t) _ λ fits.
      Gives-weaken (check_payloads-Inside data_offset file_size shard_index ts rows.1)
        λ u rest. ((fits, payload_fits-le data_offset file_size shard_index t rows.0 fits), rest)

loaded :
    (path file : Bytes) (shard_index : ℕ)
    → Gives (IsLoaded file shard_index) (load_one_shard path file shard_index)
unfolding load_one_shard
loaded path file shard_index = >>=-Gives (known (read_pod file 4 0)) λ magic _.
    check-Gives (magic.0 == gguf_magic) _ λ _.
      >>=-Gives (known (read_pod file 4 magic.1)) λ version _.
        >>=-Gives (known (read_pod file 8 version.1)) λ tensor_count _.
          >>=-Gives (known (read_pod file 8 tensor_count.1)) λ metadata_count _.
            >>=-Gives (known (read_metadata file metadata_count.0 metadata_count.1 32 [])) λ meta _.
              >>=-Gives (read_tensors-IsRow file tensor_count.0 shard_index meta.1) λ table rows.
                let data_offset = align_up table.1 meta.0.0 in
                check-Gives (leb data_offset (length file)) _ λ low.
                  >>-Gives
                    (check_payloads-Inside data_offset (length file) shard_index table.0 rows.1)
                    λ u inside. gives _ record {
                      measured = refl;
                      data_in_file = leb→le data_offset (length file) low;
                      counted = rows.0;
                      rows = rows.1;
                      in_file = inside;
                    }

-- A file that `load_one_shard` accepts: the data begins in the file, there are as many tensors as
-- the header says, each with one to eight dimensions and the size that the GGML tables give, and
-- each payload lies in the file, with no overflow in the sum of its beginning and its size.
pub load_one_shard-IsLoaded :
    (path file : Bytes) (shard_index : ℕ) (sh : ShardInfo)
    → load_one_shard path file shard_index ≡ ok sh
    → IsLoaded file shard_index sh
load_one_shard-IsLoaded path file shard_index sh h = Gives-ok (loaded path file shard_index) h
