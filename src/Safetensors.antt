-- ===== src/Safetensors.antt =====
-- The safetensors reader of src/safetensors.cpp, and `dtype_from_string` of include/common.hpp. A
-- shard is the list of its bytes. The numbers of the JSON header are a parameter, with `std::stod`
-- and the cast of a `double` to `int64_t`; offsets are `size_t`, so that sums are modulo 2^64.
pub mod Header
mod Tests
use glmserve.Prelude.{
  ℕ, zero, suc, ◌+◌, ◌-◌, ◌*◌, ◌%◌, ◌^◌, Bool, true, false, not, Option, none, some, List, [], ◌∷◌,
  ◌++◌, take, drop, length, ltb, leb, ◌==◌, if◌then◌else◌, get_elem?,
}
use glmserve.Prelude.Int.{ℤ, pos, negsuc}
use glmserve.Prelude.Bytes.{Bytes, codes, bytes_eq, starts_with}
use glmserve.Prelude.Result.{Result, ok, err, ◌>>=◌, ◌>>◌, check}
use glmserve.Json as Json
use glmserve.Json.Parser.{
  Value, number, string, array, object, Values, no_values, value_then, Members, no_members,
  member_then, bytes_lt, at, parse,
}
use glmserve.Json.Access.{as_int, as_string, get_string}
use glmserve.Gguf.{le_value}

pub data Dtype : Type 0 where
  f32 f16 bf16 f8e4m3 f8e5m2 i32 i64 i8 u8 unknown : Dtype

unfoldable pub dtype_from_string : Bytes → Dtype
dtype_from_string s =
    if bytes_eq s (codes "F32")
    then f32
    else if bytes_eq s (codes "F16")
    then f16
    else if bytes_eq s (codes "BF16")
    then bf16
    else if bytes_eq s (codes "F8_E4M3")
    then f8e4m3
    else if bytes_eq s (codes "F8_E5M2")
    then f8e5m2
    else if bytes_eq s (codes "I32")
    then i32
    else if bytes_eq s (codes "I64")
    then i64
    else if bytes_eq s (codes "I8")
    then i8
    else if bytes_eq s (codes "U8")
    then u8
    else unknown

abbrev pub is_known : Dtype → Bool
is_known unknown = false
is_known d = true

pub data Error : Type 0 where
  too_small bad_length bad_json not_object no_index no_shards : Error
  bad_entry bad_dtype bad_shape bad_offsets past_shard not_found : Bytes → Error

pub record TensorInfo : Type 0 where
  pub name : Bytes
  pub dtype : Dtype
  pub shape : List ℤ
  pub shard_index : ℕ
  pub begin : ℕ
  pub end : ℕ

-- `index_[name] = ti` and `index_.find`, the keys in the order of the map.
abbrev pub Index : Type 0
Index = List (Bytes × TensorInfo)

unfoldable pub put : Bytes → TensorInfo → Index → Index
put k t [] = (k, t) ∷ []
put k t (e ∷ m) =
    let after = put k t m in
    if bytes_eq k e.0 then (k, t) ∷ m else if bytes_lt k e.0 then (k, t) ∷ e ∷ m else e ∷ after

unfoldable pub info : Bytes → Index → Option TensorInfo
info k [] = none
info k (e ∷ m) = let later = info k m in if bytes_eq k e.0 then some e.1 else later

pub record Shard : Type 0 where
  pub path : Bytes
  pub file_size : ℕ
  pub data_offset : ℕ

pub record SafeTensors : Type 0 where
  pub shards : List Shard
  pub index : Index
  pub total_bytes : ℕ

abbrev pub empty_reader : SafeTensors
empty_reader = record { shards = []; index = []; total_bytes = 0 }

-- `static_cast<size_t>` of an `int64_t`.
abbrev pub to_size : ℤ → ℕ
to_size (pos n) = n
to_size (negsuc n) = 2 ^ 64 - suc n

abbrev pub add_entry : SafeTensors → TensorInfo → SafeTensors
add_entry st ti = record st {
  index = put ti.name ti st.index;
  total_bytes = (st.total_bytes + (ti.end + 2 ^ 64 - ti.begin)) % 2 ^ 64;
}

-- A scalar has the shape [1].
abbrev pub one_dim : List ℤ → List ℤ
one_dim [] = pos 1 ∷ []
one_dim (d ∷ shape) = d ∷ shape

module _ {Num : Type 0} (to_int : Num → ℤ) where
  unfoldable pub as_ints : Values Num → List ℤ
  as_ints no_values = []
  as_ints (value_then v vs) = as_int to_int v (pos 0) ∷ as_ints vs

  unfoldable pub shape_of : Bytes → Option (Value Num) → Result Error (List ℤ)
  shape_of name (some (array ds)) = ok (one_dim (as_ints ds))
  shape_of name v = err (bad_shape name)

  unfoldable pub offsets_of : Bytes → Members Num → Result Error (ℕ × ℕ)
  offsets_of name v = elim (at v (codes "data_offsets")) [
    | some (array (value_then b (value_then e no_values))) ↦
        ok (to_size (as_int to_int b (pos 0)), to_size (as_int to_int e (pos 0)))
    | some w ↦ err (bad_offsets name)
    | none ↦ err (bad_offsets name)
  ]

  -- The body of the loop of `parse_header` for one object.
  unfoldable pub read_entry : ℕ → Shard → Bytes → Members Num → Result Error TensorInfo
  read_entry shard_idx sh name v = do
    let dtype = dtype_from_string (get_string (object v) (codes "dtype") [])
    check (is_known dtype) (bad_dtype name)
    shape ← shape_of name (at v (codes "shape"))
    off ← offsets_of name v
    check (leb ((sh.data_offset + off.1) % 2 ^ 64) sh.file_size) (past_shard name)
    ok record {
      name = name;
      dtype = dtype;
      shape = shape;
      shard_index = shard_idx;
      begin = off.0;
      end = off.1;
    }

  unfoldable pub object_entry :
      ℕ → Shard → SafeTensors → Bytes → Value Num → Result Error SafeTensors
  object_entry shard_idx sh st name (object entry) = do
    ti ← read_entry shard_idx sh name entry
    ok (add_entry st ti)
  object_entry shard_idx sh st name v = err (bad_entry name)

  unfoldable pub parse_entry :
      ℕ → Shard → SafeTensors → Bytes → Value Num → Result Error SafeTensors
  parse_entry shard_idx sh st name v =
      if bytes_eq name (codes "__metadata__") then ok st else object_entry shard_idx sh st name v

  unfoldable pub parse_entries : ℕ → Shard → Members Num → SafeTensors → Result Error SafeTensors
  parse_entries shard_idx sh no_members st = ok st
  parse_entries shard_idx sh (member_then name v rest) st = do
    st' ← parse_entry shard_idx sh st name v
    parse_entries shard_idx sh rest st'

-- A length that a `std::string` cannot have makes its constructor throw.
unfoldable pub header_text : Bytes → ℕ → Result Error Bytes
header_text file header_len = do
  check (leb ((8 + header_len) % 2 ^ 64) (length file)) bad_length
  check (ltb header_len (2 ^ 63)) bad_length
  ok (take header_len (drop 8 file))

module _ {Num : Type 0} (stod : Bytes → Option Num) (to_int : Num → ℤ) where
  unfoldable pub parse_root : Bytes → Result Error (Members Num)
  parse_root text = elim (parse stod text) [
    | ok (object root) ↦ ok root
    | ok w ↦ err not_object
    | err e ↦ err bad_json
  ]

  -- `load_shard` with the `parse_header` that it ends in.
  unfoldable pub load_shard : Bytes → Bytes → SafeTensors → Result Error SafeTensors
  load_shard path file st = do
    check (leb 8 (length file)) too_small
    let header_len = le_value (take 8 file)
    text ← header_text file header_len
    root ← parse_root text
    let sh : Shard = record {
      path = path;
      file_size = length file;
      data_offset = (8 + header_len) % 2 ^ 64;
    }
    parse_entries to_int (length st.shards) sh root (record st { shards = st.shards ++ sh ∷ [] })

  unfoldable pub load_shards : (Bytes → Bytes) → List Bytes → SafeTensors → Result Error SafeTensors
  load_shards file_of [] st = ok st
  load_shards file_of (path ∷ paths) st = do
    st' ← load_shard path (file_of path) st
    load_shards file_of paths st'

-- `std::set::insert` of a file name.
unfoldable pub add_name : Bytes → List Bytes → List Bytes
add_name x [] = x ∷ []
add_name x (y ∷ ys) =
    let after = add_name x ys in
    if bytes_eq x y then y ∷ ys else if bytes_lt x y then x ∷ y ∷ ys else y ∷ after

abbrev pub any_prefix : List Bytes → Bytes → Bool
any_prefix [] name = false
any_prefix (p ∷ ps) name = if starts_with p name then true else any_prefix ps name

-- The shards of `load_prefixes` that hold a tensor whose name begins with one of the prefixes.
module _ {Num : Type 0} where
  unfoldable pub shard_files : List Bytes → Members Num → List Bytes → List Bytes
  shard_files prefixes no_members files = files
  shard_files prefixes (member_then name v rest) files =
      shard_files prefixes rest
        (if any_prefix prefixes name then add_name (as_string v []) files else files)

-- Where `get` points, as a file offset.
unfoldable pub get_offset : SafeTensors → Bytes → Result Error (Shard × ℕ)
get_offset st name = elim (info name st.index) [
  | none ↦ err (not_found name)
  | some ti ↦ elim (get_elem? st.shards ti.shard_index) [
    | none ↦ err (not_found name)
    | some sh ↦ ok (sh, (sh.data_offset + ti.begin) % 2 ^ 64)
  ]
]
