-- ===== src/Gguf/Shard.antt =====
-- `load_one_shard` of src/gguf.cpp: the header, the metadata and the tensor table of one file, and
-- the test that every payload lies in the file. Sums of offsets are `uint64_t`.
pub mod Bounds
use glmserve.Prelude.{
  ℕ, zero, suc, ◌+◌, ◌-◌, ◌*◌, ◌/◌, ◌%◌, ◌^◌, Bool, true, false, ◌&&◌, Option, none, some, List, [],
  ◌∷◌, ◌++◌, length, ltb, leb, ◌==◌, if◌then◌else◌,
}
use glmserve.Prelude.Bytes.{Bytes, codes, bytes_eq}
use glmserve.Prelude.Result.{Result, ok, err, ◌>>=◌, ◌>>◌, check}
use glmserve.Gguf.{
  Error, bad_magic, bad_ndim, past_eof, tensor_past_eof, Read, GgufValue, uint_value, read_pod,
  read_string, read_value,
}
use glmserve.Gguf.Types.{num_elements, ggml_type_size_bytes}

abbrev pub Metadata : Type 0
Metadata = List (Bytes × GgufValue)

-- `find` and `emplace` of the map: a key that is there stays as it is.
unfoldable pub find_key : Bytes → Metadata → Option GgufValue
find_key k [] = none
find_key k (e ∷ m) = let later = find_key k m in if bytes_eq k e.0 then some e.1 else later

unfoldable pub emplace : Bytes → GgufValue → Metadata → Metadata
emplace k v [] = (k, v) ∷ []
emplace k v (e ∷ m) = let after = emplace k v m in if bytes_eq k e.0 then e ∷ m else e ∷ after

pub record TensorInfo : Type 0 where
  pub name : Bytes
  pub shape : List ℕ
  pub type : ℕ
  pub offset : ℕ
  pub n_elements : ℕ
  pub n_bytes : ℕ
  pub shard_index : ℕ

-- `base` is the address that the file is mapped at, `fd` says that it is kept open.
pub record ShardInfo : Type 0 where
  pub path : Bytes
  pub version : ℕ
  pub tensor_count : ℕ
  pub metadata_count : ℕ
  pub file_size : ℕ
  pub data_offset : ℕ
  pub base : Option ℕ
  pub fd : Bool
  pub metadata : Metadata
  pub tensors : List TensorInfo

unfoldable pub align_up : ℕ → ℕ → ℕ
align_up x a = (x + a + 2 ^ 64 - 1) % 2 ^ 64 / a * a

abbrev pub alignment_of : Bytes → GgufValue → ℕ → ℕ
alignment_of key (uint_value u) alignment =
    if bytes_eq key (codes "general.alignment") && ltb 0 u then u else alignment
alignment_of key v alignment = alignment

module _ (file : Bytes) where
  -- The alignment and the map so far; the result has the position behind the entries too.
  unfoldable pub read_metadata : ℕ → ℕ → ℕ → Metadata → Read (ℕ × Metadata)
  read_metadata zero at alignment m = ok ((alignment, m), at)
  read_metadata (suc n) at alignment m = do
    key ← read_string file at
    type ← read_pod file 4 key.1
    v ← read_value file (length file) type.0 type.1
    read_metadata n v.1 (alignment_of key.0 v.0 alignment) (emplace key.0 v.0 m)

  unfoldable pub read_shape : ℕ → ℕ → Read (List ℕ)
  read_shape zero at = ok ([], at)
  read_shape (suc ndim) at = do
    d ← read_pod file 8 at
    rest ← read_shape ndim d.1
    ok (d.0 ∷ rest.0, rest.1)

  unfoldable pub read_tensor : ℕ → ℕ → Read TensorInfo
  read_tensor shard_index at = do
    name ← read_string file at
    ndim ← read_pod file 4 name.1
    check (ltb 0 ndim.0 && leb ndim.0 8) (bad_ndim ndim.0)
    shape ← read_shape ndim.0 ndim.1
    type ← read_pod file 4 shape.1
    offset ← read_pod file 8 type.1
    n_bytes ← ggml_type_size_bytes type.0 (num_elements shape.0)
    ok (
      record {
        name = name.0;
        shape = shape.0;
        type = type.0;
        offset = offset.0;
        n_elements = num_elements shape.0;
        n_bytes = n_bytes;
        shard_index = shard_index;
      },
      offset.1,
    )

  unfoldable pub read_tensors : ℕ → ℕ → ℕ → Read (List TensorInfo)
  read_tensors zero shard_index at = ok ([], at)
  read_tensors (suc n) shard_index at = do
    t ← read_tensor shard_index at
    rest ← read_tensors n shard_index t.1
    ok (t.0 ∷ rest.0, rest.1)

-- Where a payload begins, and whether it ends in the file: the test of `load_one_shard` and of
-- `tensor_data`.
unfoldable pub payload_begin : ℕ → TensorInfo → ℕ
payload_begin data_offset t = (data_offset + t.offset) % 2 ^ 64

unfoldable pub payload_fits : ℕ → ℕ → TensorInfo → Bool
payload_fits data_offset file_size t =
    let begin = payload_begin data_offset t in
    let end = (begin + t.n_bytes) % 2 ^ 64 in leb begin end && leb end file_size

unfoldable pub check_payloads : ℕ → ℕ → List TensorInfo → Result Error (Unit {0})
check_payloads data_offset file_size [] = ok tt
check_payloads data_offset file_size (t ∷ ts) = do
  check (payload_fits data_offset file_size t) tensor_past_eof
  check_payloads data_offset file_size ts

abbrev pub gguf_magic : ℕ
gguf_magic = 0x46554747

unfoldable pub load_one_shard : Bytes → Bytes → ℕ → Result Error ShardInfo
load_one_shard path file shard_index = do
  magic ← read_pod file 4 0
  check (magic.0 == gguf_magic) bad_magic
  version ← read_pod file 4 magic.1
  tensor_count ← read_pod file 8 version.1
  metadata_count ← read_pod file 8 tensor_count.1
  meta ← read_metadata file metadata_count.0 metadata_count.1 32 []
  tensors ← read_tensors file tensor_count.0 shard_index meta.1
  let data_offset = align_up tensors.1 meta.0.0
  check (leb data_offset (length file)) past_eof
  check_payloads data_offset (length file) tensors.0
  ok record {
    path = path;
    version = version.0;
    tensor_count = tensor_count.0;
    metadata_count = metadata_count.0;
    file_size = length file;
    data_offset = data_offset;
    base = none;
    fd = false;
    metadata = meta.0.1;
    tensors = tensors.0;
  }
