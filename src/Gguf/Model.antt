-- ===== src/Gguf/Model.antt =====
-- `GGUFModel` of src/gguf.cpp: the shards of a path, their payloads in memory, and the lookups. The
-- directory, the files, `mmap` and the page cache are the system's: a directory is the list of its
-- names, `file_of` gives the bytes of a path, `mmap` the address of a shard's mapping. An address or
-- an offset is a `uint64_t`.
pub mod Loaded
pub mod Evict
use glmserve.Prelude.{
  ℕ, zero, suc, ◌+◌, ◌-◌, ◌*◌, ◌/◌, ◌%◌, ◌^◌, Bool, true, false, not, ◌&&◌, ◌||◌, Option, none,
  some, List, [], ◌∷◌, ◌++◌, length, get_elem?, get_or, drop, ltb, leb, ◌==◌, if◌then◌else◌,
}
use glmserve.Prelude.Int.{ℤ, pos, negsuc}
use glmserve.Prelude.Bytes.{Bytes, codes, bytes_eq}
use glmserve.Prelude.Result.{Result, ok, err, ◌>>=◌, ◌>>◌, check}
use glmserve.Json.Parser.{bytes_lt}
use glmserve.Gguf.{
  Error, no_shards, not_found, bad_shard, not_mapped, outside_shard, GgufValue, uint_value,
  int_value,
}
use glmserve.Gguf.Shard.{
  Metadata, find_key, emplace, TensorInfo, ShardInfo, payload_begin, payload_fits, load_one_shard,
}

abbrev pub ends_with : Bytes → Bytes → Bool
ends_with s suffix =
    leb (length suffix) (length s) && bytes_eq (drop (length s - length suffix) s) suffix

pub data PathKind : Type 0 where
  directory : List Bytes → PathKind
  regular missing : PathKind

-- `std::sort` on texts: the result is the same whatever its method.
unfoldable pub insert_sorted : Bytes → List Bytes → List Bytes
insert_sorted x [] = x ∷ []
insert_sorted x (y ∷ ys) =
    let after = insert_sorted x ys in if bytes_lt y x then y ∷ after else x ∷ y ∷ ys

unfoldable pub sort : List Bytes → List Bytes
sort [] = []
sort (x ∷ xs) = insert_sorted x (sort xs)

abbrev pub slashed : Bytes → Bytes
slashed [] = []
slashed (c ∷ []) = if c == b'/' then c ∷ [] else c ∷ b'/' ∷ []
slashed (c ∷ d ∷ s) = c ∷ slashed (d ∷ s)

unfoldable pub gguf_names : Bytes → List Bytes → List Bytes
gguf_names path [] = []
gguf_names path (name ∷ names) =
    let rest = gguf_names path names in
    if ends_with name (codes ".gguf") then (slashed path ++ name) ∷ rest else rest

unfoldable pub discover_shards : Bytes → PathKind → Result Error (List Bytes)
discover_shards path (directory names) = do
  let out = sort (gguf_names path names)
  check (ltb 0 (length out)) no_shards
  ok out
discover_shards path regular = ok (path ∷ [])
discover_shards path missing = err not_found

pub record Model : Type 0 where
  pub shards : List ShardInfo
  pub tensors : List TensorInfo
  pub metadata : Metadata
  pub total_file_bytes : ℕ
  pub total_tensor_bytes : ℕ

abbrev pub emplace_all : Metadata → Metadata → Metadata
emplace_all [] m = m
emplace_all (e ∷ es) m = emplace_all es (emplace e.0 e.1 m)

abbrev pub sum_bytes : List TensorInfo → ℕ → ℕ
sum_bytes [] total = total
sum_bytes (t ∷ ts) total = sum_bytes ts ((total + t.n_bytes) % 2 ^ 64)

unfoldable pub add_shard : Model → ShardInfo → Model
add_shard m sh = record {
  shards = m.shards ++ sh ∷ [];
  tensors = m.tensors ++ sh.tensors;
  metadata = emplace_all sh.metadata m.metadata;
  total_file_bytes = (m.total_file_bytes + sh.file_size) % 2 ^ 64;
  total_tensor_bytes = sum_bytes sh.tensors m.total_tensor_bytes;
}

abbrev pub empty_model : Model
empty_model = record {
  shards = [];
  tensors = [];
  metadata = [];
  total_file_bytes = 0;
  total_tensor_bytes = 0;
}

-- The loop of `load`: the index of the next shard, and the model so far.
module _ (file_of : Bytes → Bytes) where
  unfoldable pub load_shards : List Bytes → ℕ → Model → Result Error Model
  load_shards [] i m = ok m
  load_shards (path ∷ paths) i m = do
    sh ← load_one_shard path (file_of path) i
    load_shards paths (i + 1) (add_shard m sh)

  unfoldable pub load : Bytes → PathKind → Result Error Model
  load path kind = do paths ← discover_shards path kind; load_shards paths 0 empty_model

-- The loop of `map_payloads`; a shard that is mapped is left alone.
module _ (mmap : ShardInfo → Result Error ℕ) where
  unfoldable pub map_shard : ShardInfo → Result Error ShardInfo
  map_shard sh = elim sh.base [
    | some b ↦ ok sh
    | none ↦ mmap sh >>= λ base. ok (record sh { base = some base; fd = true })
  ]

  unfoldable pub map_shards : List ShardInfo → Result Error (List ShardInfo)
  map_shards [] = ok []
  map_shards (sh ∷ shs) = do sh' ← map_shard sh; shs' ← map_shards shs; ok (sh' ∷ shs')

  unfoldable pub map_payloads : Model → Result Error Model
  map_payloads m = do shards ← map_shards m.shards; ok (record m { shards = shards })

-- The address of a payload.
unfoldable pub tensor_data : Model → TensorInfo → Result Error ℕ
tensor_data m t = elim (get_elem? m.shards t.shard_index) [
  | none ↦ err bad_shard
  | some sh ↦ elim sh.base [
    | none ↦ err not_mapped
    | some base ↦
        check (payload_fits sh.data_offset sh.file_size t) outside_shard
        >> ok (base + payload_begin sh.data_offset t)
  ]
]

unfoldable pub touch : (ℕ → ℕ) → ℕ → ℕ → ℕ → ℕ
touch memory checksum p n =
    let step =
      λ (sum : ℕ) (byte : ℕ). (Prim.Native.Nat.bit_xor sum byte * 1099511628211) % 2 ^ 64 in
    step (step checksum (memory p)) (memory (p + n - 1))

-- `memory` is what an address holds.
unfoldable pub touch_tensors : (ℕ → ℕ) → Model → List TensorInfo → ℕ → Result Error ℕ
touch_tensors memory m [] checksum = ok checksum
touch_tensors memory m (t ∷ ts) checksum = elim (t.n_bytes == 0) [
  | true ↦ touch_tensors memory m ts checksum
  | false ↦ tensor_data m t >>= λ p. touch_tensors memory m ts (touch memory checksum p t.n_bytes)
]

unfoldable pub find_tensor : Bytes → List TensorInfo → Option TensorInfo
find_tensor name [] = none
find_tensor name (t ∷ ts) =
    let later = find_tensor name ts in if bytes_eq t.name name then some t else later

abbrev pub tensor_info : Model → Bytes → Option TensorInfo
tensor_info m name = find_tensor name m.tensors

abbrev pub has_tensor : Model → Bytes → Bool
has_tensor m name = elim (tensor_info m name) [ none ↦ false | some t ↦ true ]

unfoldable pub metadata_u64 : Model → Bytes → ℕ → ℕ
metadata_u64 m key default = elim (find_key key m.metadata) [
  | some (uint_value u) ↦ u
  | some (int_value (pos i)) ↦ i
  | some v ↦ default
  | none ↦ default
]

unfoldable pub touch_payloads : (ShardInfo → Result Error ℕ) → (ℕ → ℕ) → Model → Result Error ℕ
touch_payloads mmap memory m = do
  m' ← map_payloads mmap m
  touch_tensors memory m' m'.tensors 1469598103934665603
