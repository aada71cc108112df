-- ===== src/Safetensors/Header.antt =====
-- What src/safetensors.cpp guarantees of the tensors of the shards that it has read.
use glmserve.Prelude.{
  ℕ, ◌+◌, ◌%◌, ◌^◌, ◌≤◌, ◌<◌, ◌≡◌, refl, sym, ap, subst, ◌∙◌, true, Option, none, some, List, [],
  ◌∷◌, ◌++◌, All, take, length, get_elem?, get_elem?-append_left, get_elem?-lt, leb, leb→le,
  Bool-cases, inl, inr, arith,
}
use glmserve.Prelude.Int.{ℤ}
use glmserve.Prelude.Bytes.{Bytes, codes, bytes_eq}
use glmserve.Prelude.Result.{
  ok, Gives, gives, fails, known, >>=-Gives, check-Gives, Gives-weaken, Gives-ok,
}
use glmserve.Json.Parser.{
  Value, null, boolean, number, string, array, object, at, Members, no_members, member_then,
  bytes_lt,
}
use glmserve.Json.Access.{get_string}
use glmserve.Gguf.{le_value}
use glmserve.Safetensors.{
  TensorInfo, Shard, SafeTensors, Index, put, is_known, dtype_from_string, shape_of, offsets_of,
  one_dim, as_ints, read_entry, add_entry, object_entry, parse_entry, parse_entries, header_text,
  parse_root, load_shard, load_shards, empty_reader,
}

-- A tensor of the index: its shard is there, its type known, its shape not empty, its key its name,
-- and its end, as the source adds it up, within the file.
pub record IsEntry (shards : List Shard) (e : Bytes × TensorInfo) : Type 0 where
  pub shard : Shard
  pub found : get_elem? shards e.1.shard_index ≡ some shard
  pub named : e.0 ≡ e.1.name
  pub known_type : is_known e.1.dtype ≡ true
  pub some_dims : 0 < length e.1.shape
  pub ends_inside : (shard.data_offset + e.1.end) % 2 ^ 64 ≤ shard.file_size

put-All :
    (shards : List Shard) (ti : TensorInfo) (m : Index)
    → IsEntry shards (ti.name, ti)
    → All (IsEntry shards) m
    → All (IsEntry shards) (put ti.name ti m)
unfolding put
put-All shards ti [] p h = (p, tt)
put-All shards ti (e ∷ m) p h = elim (Bool-cases (bytes_eq ti.name e.0)) [
  | inl y ↦ rw y (p, h.1)
  | inr n ↦ elim (Bool-cases (bytes_lt ti.name e.0)) [
    | inl y ↦ rw (n, y) (p, (h.0, h.1))
    | inr k ↦ rw (n, k) (h.0, put-All shards ti m p h.1)
  ]
]

one_dim-length : (shape : List ℤ) → 0 < length (one_dim shape)
one_dim-length [] = omega arith
one_dim-length (d ∷ shape) = omega arith

module _ {Num : Type 0} (to_int : Num → ℤ) where
  shape_of-dims :
      (name : Bytes) (v : Option (Value Num))
      → Gives (λ shape. 0 < length shape) (shape_of to_int name v)
  unfolding shape_of
  shape_of-dims name none = fails _
  shape_of-dims name (some null) = fails _
  shape_of-dims name (some (boolean b)) = fails _
  shape_of-dims name (some (number x)) = fails _
  shape_of-dims name (some (string s)) = fails _
  shape_of-dims name (some (array ds)) = gives _ (one_dim-length (as_ints to_int ds))
  shape_of-dims name (some (object m)) = fails _

  read_entry-IsEntry :
      (shards : List Shard) (shard_idx : ℕ) (sh : Shard) (name : Bytes) (v : Members Num)
      → get_elem? shards shard_idx ≡ some sh
      → Gives (λ ti. IsEntry shards (ti.name, ti)) (read_entry to_int shard_idx sh name v)
  unfolding read_entry
  read_entry-IsEntry shards shard_idx sh name v there =
      check-Gives (is_known (dtype_from_string (get_string (object v) (codes "dtype") []))) _
        λ kind. >>=-Gives (shape_of-dims name (at v (codes "shape"))) λ shape dims.
          >>=-Gives (known (offsets_of to_int name v)) λ off _.
            check-Gives (leb ((sh.data_offset + off.1) % 2 ^ 64) sh.file_size) _ λ inside.
              gives _ record {
                shard = sh;
                found = there;
                named = refl;
                known_type = kind;
                some_dims = dims;
                ends_inside = leb→le _ sh.file_size inside;
              }

  -- What an entry does to the shards and to the index.
  Kept : SafeTensors → SafeTensors → Type 0
  Kept st st' = (st'.shards ≡ st.shards) × All (IsEntry st.shards) st'.index

  object_entry-Kept :
      (shard_idx : ℕ) (sh : Shard) (st : SafeTensors) (name : Bytes) (v : Value Num)
      → get_elem? st.shards shard_idx ≡ some sh
      → All (IsEntry st.shards) st.index
      → Gives (Kept st) (object_entry to_int shard_idx sh st name v)
  unfolding object_entry Kept
  object_entry-Kept shard_idx sh st name null there h = fails _
  object_entry-Kept shard_idx sh st name (boolean b) there h = fails _
  object_entry-Kept shard_idx sh st name (number x) there h = fails _
  object_entry-Kept shard_idx sh st name (string s) there h = fails _
  object_entry-Kept shard_idx sh st name (array ds) there h = fails _
  object_entry-Kept shard_idx sh st name (object m) there h =
      >>=-Gives (read_entry-IsEntry st.shards shard_idx sh name m there)
        λ ti p. gives (add_entry st ti) (refl, put-All st.shards ti st.index p h)

  parse_entry-Kept :
      (shard_idx : ℕ) (sh : Shard) (st : SafeTensors) (name : Bytes) (v : Value Num)
      → get_elem? st.shards shard_idx ≡ some sh
      → All (IsEntry st.shards) st.index
      → Gives (Kept st) (parse_entry to_int shard_idx sh st name v)
  unfolding parse_entry Kept
  parse_entry-Kept shard_idx sh st name v there h =
      elim (Bool-cases (bytes_eq name (codes "__metadata__"))) [
        | inl e ↦ rw e (gives st (refl, h))
        | inr e ↦ rw e (object_entry-Kept shard_idx sh st name v there h)
      ]

  -- Reading entries keeps the shards and what is known of the index.
  parse_entries-Kept :
      (shard_idx : ℕ) (sh : Shard) (root : Members Num) (st : SafeTensors)
      → get_elem? st.shards shard_idx ≡ some sh
      → All (IsEntry st.shards) st.index
      → Gives (Kept st) (parse_entries to_int shard_idx sh root st)
  unfolding parse_entries Kept
  parse_entries-Kept shard_idx sh no_members st there h = gives st (refl, h)
  parse_entries-Kept shard_idx sh (member_then name v rest) st there h =
      >>=-Gives (parse_entry-Kept shard_idx sh st name v there h) λ st' (same, k).
        Gives-weaken
          (parse_entries-Kept shard_idx sh rest st'
            (ap (λ shs. get_elem? shs shard_idx) same ∙ there)
            (subst (λ shs. All (IsEntry shs) st'.index) (sym same) k))
          λ st'' (same', k'). (same' ∙ same, subst (λ shs. All (IsEntry shs) st''.index) same k')

get_elem?-append_length {ℓ} :
    {A : Type ℓ} (xs : List A) (x : A) → get_elem? (xs ++ x ∷ []) (length xs) ≡ some x
get_elem?-append_length [] x = refl
get_elem?-append_length (y ∷ xs) x = get_elem?-append_length xs x

IsEntry-add :
    (shards : List Shard) (sh : Shard) (m : Index)
    → All (IsEntry shards) m
    → All (IsEntry (shards ++ sh ∷ [])) m
IsEntry-add shards sh [] h = tt
IsEntry-add shards sh (e ∷ m) h = (
  record {
    shard = h.0.shard;
    found =
        get_elem?-append_left shards (sh ∷ []) e.1.shard_index
          (get_elem?-lt shards e.1.shard_index h.0.found)
        ∙ h.0.found;
    named = h.0.named;
    known_type = h.0.known_type;
    some_dims = h.0.some_dims;
    ends_inside = h.0.ends_inside;
  },
  IsEntry-add shards sh m h.1,
)

-- Every tensor of the index is an entry of its shard.
abbrev pub IsIndexed : SafeTensors → Type 0
IsIndexed st = All (IsEntry st.shards) st.index

module _ {Num : Type 0} (stod : Bytes → Option Num) (to_int : Num → ℤ) where
  load_shard-IsIndexed :
      (path file : Bytes) (st : SafeTensors)
      → IsIndexed st
      → Gives IsIndexed (load_shard stod to_int path file st)
  unfolding load_shard Kept
  load_shard-IsIndexed path file st h =
      let header_len = le_value (take 8 file) in
      check-Gives (leb 8 (length file)) _ λ _.
        >>=-Gives (known (header_text file header_len)) λ text _.
          >>=-Gives (known (parse_root stod to_int text)) λ root _.
            let sh : Shard = record {
              path = path;
              file_size = length file;
              data_offset = (8 + header_len) % 2 ^ 64;
            } in
            Gives-weaken
              (parse_entries-Kept to_int (length st.shards) sh root
                (record st { shards = st.shards ++ sh ∷ [] }) (get_elem?-append_length st.shards sh)
                (IsEntry-add st.shards sh st.index h))
              λ st' (same, k). subst (λ shs. All (IsEntry shs) st'.index) (sym same) k

  load_shards-IsIndexed :
      (file_of : Bytes → Bytes) (paths : List Bytes) (st : SafeTensors)
      → IsIndexed st
      → Gives IsIndexed (load_shards stod to_int file_of paths st)
  unfolding load_shards
  load_shards-IsIndexed file_of [] st h = gives st h
  load_shards-IsIndexed file_of (path ∷ paths) st h =
      >>=-Gives (load_shard-IsIndexed path (file_of path) st h)
        λ st' h'. load_shards-IsIndexed file_of paths st' h'

-- After shards are read into an empty reader, every tensor of the index stands under its name, has a
-- known type and a shape that is not empty, and its end, as the source adds it up modulo 2^64, lies
-- in the file of its own shard.
pub load_shards-empty :
    {Num : Type 0} (stod : Bytes → Option Num) (to_int : Num → ℤ) (file_of : Bytes → Bytes)
    (paths : List Bytes) (st : SafeTensors)
    → load_shards stod to_int file_of paths empty_reader ≡ ok st
    → IsIndexed st
load_shards-empty stod to_int file_of paths st h =
    Gives-ok (load_shards-IsIndexed stod to_int file_of paths empty_reader tt) h
