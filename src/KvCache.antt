-- ===== src/KvCache.antt =====
-- The paged KV cache of src/kv_cache.cpp and include/kv_cache.hpp: the block pool and the
-- per-sequence block tables. Pointers are offsets into the pool that they point into; the float
-- contents are not modelled. `free_list` and `block_table` hold the back of the vector first
-- and the front of the vector first.
pub mod Reserve
pub mod Pool
mod Tests
use glmserve.Prelude.{
  ℕ, zero, suc, ◌+◌, ◌-◌, ◌*◌, ◌/◌, ◌%◌, Bool, true, List, [], ◌∷◌, ◌++◌, none, some, ltb,
  if◌then◌else◌, length, get_elem?,
}
use glmserve.Prelude.Int.{ℤ, pos, negsuc, minus_one}
use glmserve.Prelude.Result.{Result, ok, err, ◌>>=◌, ◌>>◌, check}

pub record KvCache : Type 0 where
  pub num_layers : ℕ
  pub num_kv_heads : ℕ
  pub head_dim : ℕ
  pub block_size : ℕ
  pub num_blocks : ℕ
  pub indexer_dim : ℕ
  pub block_stride : ℕ
  pub layer_stride : ℕ
  pub index_block_stride : ℕ
  pub index_layer_stride : ℕ
  pub k_size : ℕ
  pub v_size : ℕ
  pub index_size : ℕ
  pub free_list : List ℕ

-- The ids that the constructor pushes, `num_blocks - 1` down to 0: the back of the vector is 0.
abbrev pub ids_from : ℕ → ℕ → List ℕ
ids_from i zero = []
ids_from i (suc n) = i ∷ ids_from (i + 1) n

pub new_cache : ℕ → ℕ → ℕ → ℕ → ℕ → ℕ → KvCache
new_cache num_layers num_kv_heads head_dim block_size num_blocks indexer_dim =
    let block_stride = block_size * num_kv_heads * head_dim in
    let layer_stride = num_blocks * block_stride in
    let enabled = ltb 0 indexer_dim in
    let index_block_stride = if enabled then block_size * indexer_dim else 0 in
    let index_layer_stride = if enabled then num_blocks * index_block_stride else 0 in
    record {
      num_layers = num_layers;
      num_kv_heads = num_kv_heads;
      head_dim = head_dim;
      block_size = block_size;
      num_blocks = num_blocks;
      indexer_dim = indexer_dim;
      block_stride = block_stride;
      layer_stride = layer_stride;
      index_block_stride = index_block_stride;
      index_layer_stride = index_layer_stride;
      k_size = num_layers * layer_stride;
      v_size = num_layers * layer_stride;
      index_size = if enabled then num_layers * index_layer_stride else 0;
      free_list = ids_from 0 num_blocks;
    }

abbrev pub kv_dim : KvCache → ℕ
kv_dim c = c.num_kv_heads * c.head_dim

-- `sizeof(float)` is 4.
pub bytes : KvCache → ℕ
bytes c = (c.k_size + c.v_size + c.index_size) * 4

pop_free : KvCache → List ℕ → KvCache × ℤ
pop_free c [] = (c, minus_one)
pop_free c (id ∷ rest) = (record c { free_list = rest }, pos id)

pub allocate_block : KvCache → KvCache × ℤ
unfolding pop_free
allocate_block c = pop_free c c.free_list

pub free_block : KvCache → ℤ → KvCache
free_block c (pos id) = record c { free_list = id ∷ c.free_list }
free_block c (negsuc _) = c

pub data Error : Type 0 where
  indexer_disabled not_attached : Error
  exhausted : Error
  -- a read of `block_table` past its end, which the source leaves undefined
  bad_block : Error

-- The offset of a physical block in the K pool of a layer; the V pool has the same shape.
unfoldable pub k_block : KvCache → ℕ → ℕ → ℕ
k_block c layer block_id = layer * c.layer_stride + block_id * c.block_stride

unfoldable pub v_block : KvCache → ℕ → ℕ → ℕ
v_block c layer block_id = layer * c.layer_stride + block_id * c.block_stride

unfoldable pub index_block : KvCache → ℕ → ℕ → Result Error ℕ
index_block c layer block_id = do
  check (ltb 0 c.indexer_dim) indexer_disabled
  ok (layer * c.index_layer_stride + block_id * c.index_block_stride)

-- The `cache` pointer of the source is the cache that each operation is given; `attached` says
-- that it is not null.
pub record SequenceKv : Type 0 where
  pub request_id : ℕ
  pub block_table : List ℕ
  pub length : ℕ
  pub attached : Bool

pub make_sequence : ℕ → SequenceKv
make_sequence request_id = record {
  request_id = request_id;
  block_table = [];
  length = 0;
  attached = true;
}

-- The cache and the sequence after a call, also after one that throws.
pub record Outcome : Type 0 where
  pub cache : KvCache
  pub sequence : SequenceKv
  pub result : Result Error (Unit {0})

-- The `while` loop of `reserve`, with the number of blocks that are still missing.
reserve_blocks : ℕ → KvCache → SequenceKv → Outcome
reserve_blocks zero c s = record { cache = c; sequence = s; result = ok tt }
reserve_blocks (suc missing) c s =
    let (c', blk) = allocate_block c in
    elim blk [
      | pos id ↦ reserve_blocks missing c' (record s { block_table = s.block_table ++ id ∷ [] })
      | negsuc _ ↦ record { cache = c'; sequence = s; result = err exhausted }
    ]

-- `(tokens + bs - 1) / bs`.
abbrev pub blocks_for : ℕ → ℕ → ℕ
blocks_for bs tokens = (tokens + bs - 1) / bs

pub reserve : KvCache → SequenceKv → ℕ → Outcome
unfolding reserve_blocks
reserve c s additional =
    if s.attached
    then reserve_blocks (blocks_for c.block_size (s.length + additional) - length s.block_table) c s
    else record { cache = c; sequence = s; result = err not_attached }

free_all : KvCache → List ℕ → KvCache
free_all c [] = c
free_all c (blk ∷ rest) = free_all (free_block c (pos blk)) rest

pub release : KvCache → SequenceKv → KvCache × SequenceKv
unfolding free_all
release c s =
    if s.attached
    then (free_all c s.block_table, record s { block_table = []; length = 0 })
    else (c, s)

physical : SequenceKv → KvCache → ℕ → Result Error ℕ
physical s c p = elim (get_elem? s.block_table (p / c.block_size)) [
  | none ↦ err bad_block
  | some phys ↦ ok phys
]

-- The offset of a token's K entries. The `const` overload has the same body.
pub k_slot : KvCache → SequenceKv → ℕ → ℕ → Result Error ℕ
unfolding physical
k_slot c s layer p = do
  phys ← physical s c p
  ok (k_block c layer phys + p % c.block_size * kv_dim c)

pub v_slot : KvCache → SequenceKv → ℕ → ℕ → Result Error ℕ
unfolding physical
v_slot c s layer p = do
  phys ← physical s c p
  ok (v_block c layer phys + p % c.block_size * kv_dim c)

pub index_slot : KvCache → SequenceKv → ℕ → ℕ → Result Error ℕ
unfolding physical
index_slot c s layer p = do
  phys ← physical s c p
  base ← index_block c layer phys
  ok (base + p % c.block_size * c.indexer_dim)
