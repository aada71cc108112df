-- ===== src/Gguf/Tests.antt =====
-- The reader of src/gguf.cpp run on small files, and the instances of its theorems.
use glmserve.Prelude.{
  ℕ, zero, suc, ◌/◌, ◌%◌, ◌≡◌, ◌↔◌, refl, true, false, none, some, [], ◌∷◌, ◌++◌, All, replicate,
  length, map, arith,
}
use glmserve.Prelude.Bytes.{digits, Bytes, codes}
use glmserve.Prelude.Result.{Result, ok, err}
use glmserve.Gguf.{
  Error, tensor_past_eof, read_bytes, read_pod, read_string, read_value, read_array,
  skip_value_payload,
}
use glmserve.Gguf.Types.{
  ggml_type_name, type_block, is_quant_type, many_elements, ggml_type_name-type_block,
  ggml_type_size_bytes, size_of_blocks, num_elements,
}
use glmserve.Gguf.Shard.{
  TensorInfo, ShardInfo, load_one_shard, read_metadata, read_tensors, read_tensor, read_shape,
  align_up, check_payloads, payload_fits, payload_begin, emplace,
}
use glmserve.Gguf.Shard.Bounds.{IsLoaded, load_one_shard-IsLoaded}
use glmserve.Gguf.Model.{
  Model, find_tensor, regular, load, load_shards, add_shard, discover_shards, map_payloads,
  map_shards, map_shard,
}
use glmserve.Gguf.Layout.{
  LayoutError, Layout, empty_layout, run_statements, run_statement, require_tensor_shape,
  add_module, layout_statements, global_statements, loop_statements, layer_statements,
  attention_statements, dense_statements,
}
use glmserve.Gguf.Modules.{Wanted, wanted, IsLayout, run_statements-IsLayout}
use glmserve.Gguf.Model.Loaded.{Located, load-Located}
use glmserve.Gguf.Model.Evict.{
  Drop, evict_range, evict_from, evict_in, IsInterior, BelowTop, evict_range-IsInterior,
}

abbrev le : ℕ → ℕ → Bytes
le zero n = []
le (suc w) n = n % 256 ∷ le w (n / 256)

abbrev text : Bytes → Bytes
text s = le 8 (length s) ++ s

-- One metadata entry, and a tensor of 2 x 2 floats at the offset given.
abbrev table : ℕ → Bytes
table offset =
    codes "GGUF"
    ++ le 4 3
    ++ le 8 1
    ++ le 8 1
    ++ text (codes "general.alignment")
    ++ le 4 4
    ++ le 4 8
    ++ text (codes "w")
    ++ le 4 2
    ++ le 8 2
    ++ le 8 2
    ++ le 4 0
    ++ le 8 offset

abbrev file : Bytes
file = table 0 ++ replicate 16 1 ++ replicate 16 7

abbrev w : TensorInfo
w = record {
  name = codes "w";
  shape = 2 ∷ 2 ∷ [];
  type = 0;
  offset = 0;
  n_elements = 4;
  n_bytes = 16;
  shard_index = 0;
}

abbrev shard : ShardInfo
shard = record {
  path = codes "m.gguf";
  version = 3;
  tensor_count = 1;
  metadata_count = 1;
  file_size = length file;
  data_offset = 104;
  base = none;
  fd = false;
  metadata = (codes "general.alignment", glmserve.Gguf.uint_value 8) ∷ [];
  tensors = w ∷ [];
}

load_test : load_one_shard (codes "m.gguf") file 0 ≡ ok shard
unfolding load_one_shard read_pod read_bytes read_metadata read_string read_value read_tensors
    read_tensor read_shape ggml_type_size_bytes type_block size_of_blocks num_elements align_up
    check_payloads payload_fits payload_begin emplace
load_test = refl

past_eof_test : load_one_shard (codes "m.gguf") (table 24 ++ replicate 32 1) 0 ≡ err tensor_past_eof
unfolding load_one_shard read_pod read_bytes read_metadata read_string read_value read_tensors
    read_tensor read_shape ggml_type_size_bytes type_block size_of_blocks num_elements align_up
    check_payloads payload_fits payload_begin emplace
past_eof_test = refl

load_one_shard-IsLoaded_example : IsLoaded file 0 shard
load_one_shard-IsLoaded_example = load_one_shard-IsLoaded (codes "m.gguf") file 0 shard load_test

abbrev model : Model
model = record {
  shards = shard ∷ [];
  tensors = w ∷ [];
  metadata = shard.metadata;
  total_file_bytes = length file;
  total_tensor_bytes = 16;
}

abbrev mapped_model : Model
mapped_model = record model { shards = record shard { base = some 0x7F0000; fd = true } ∷ [] }

model_test : load (λ path. file) (codes "m.gguf") regular ≡ ok model
unfolding load discover_shards load_shards add_shard emplace
model_test = rw load_test

map_test : map_payloads (λ sh. ok 0x7F0000) model ≡ ok mapped_model
unfolding map_payloads map_shards map_shard
map_test = refl

load-Located_example : All (Located mapped_model) (w ∷ [])
load-Located_example =
    load-Located (λ path. file) (λ sh. ok 0x7F0000) (codes "m.gguf") regular model mapped_model
      model_test map_test

ggml_type_name-type_block_example :
    ((type_block 12 ≡ none) ↔ (ggml_type_name 12 ≡ codes "UNKNOWN"))
    × (is_quant_type 12 ≡ many_elements (type_block 12))
ggml_type_name-type_block_example = ggml_type_name-type_block 12

-- A range of three pages and a half that starts within a page.
abbrev big_shard : ShardInfo
big_shard = record shard { file_size = 0x10000; base = some 0x7F0000; fd = true }

abbrev dropped : Drop
dropped = record { from = 0x7F1000; bytes = 0x2000; file_offset = some 0x1000 }

evict_test : evict_range (big_shard ∷ []) 0x7F0800 0x3000 ≡ some dropped
unfolding evict_range evict_from evict_in
evict_test = refl

evict_range-IsInterior_example :
    (sh : ShardInfo) × (base : ℕ) × (sh.base ≡ some base)
    × IsInterior 0x7F0800 0x3000 sh base dropped
evict_range-IsInterior_example =
    evict_range-IsInterior (big_shard ∷ []) 0x7F0800 0x3000 dropped (below, tt) evict_test
  where
    below : BelowTop big_shard
    below base e = ground arith

-- A model that has each tensor of three blocks, in the shape wanted.
abbrev as_tensor : Wanted → TensorInfo
as_tensor v = record {
  name = v.1;
  shape = v.2;
  type = 18;
  offset = 0;
  n_elements = 256;
  n_bytes = 98;
  shard_index = 0;
}

abbrev three_blocks : Model
three_blocks = record model { tensors = map as_tensor (wanted (layout_statements 3)) }

abbrev layout_or : Result LayoutError Layout → Layout
layout_or (ok l) = l
layout_or (err e) = empty_layout

abbrev three_layout : Layout
three_layout = layout_or (run_statements three_blocks empty_layout (layout_statements 3))

layout_test : run_statements three_blocks empty_layout (layout_statements 3) ≡ ok three_layout
unfolding run_statements run_statement require_tensor_shape add_module find_tensor wanted
    layout_statements global_statements loop_statements layer_statements attention_statements
    dense_statements digits
layout_test = refl

run_statements-IsLayout_example : IsLayout three_blocks 3 three_layout
run_statements-IsLayout_example =
    run_statements-IsLayout three_blocks 3 three_layout (omega arith) layout_test
