-- ===== src/Tokenizer.antt =====
-- The class Tokenizer of src/tokenizer.cpp: loading, byte mode, and the chat template; the child
-- Bpe has the merging of byte pairs. A vocabulary is a list of entries, a string the list of its
-- bytes, an `int` id an integer. The file system, `std::stod` and the cast of a `double` to
-- `int64_t` are parameters.
pub mod Bpe
pub mod ByteMaps
pub mod Loading
pub mod Merging
pub mod RoundTrip
mod Tests
use glmserve.Prelude.{
  ℕ, zero, suc, ◌+◌, ◌-◌, ◌/◌, ◌%◌, Bool, true, false, not, ◌&&◌, Option, none, some, List, [], ◌∷◌,
  ◌++◌, ltb, leb, ◌==◌, if◌then◌else◌, take, drop,
}
use glmserve.Prelude.Int.{ℤ, pos, negsuc, to_int32, int_eq}
use glmserve.Prelude.Bytes.{Bytes, codes, bytes_eq, find}
use glmserve.Prelude.Maps.{lookup, assign}
use glmserve.Prelude.Result.{Result, ok, err, ◌>>=◌, ◌>>◌, check}
use glmserve.Json as Json
use glmserve.Json.Parser.{
  Value, array, Values, no_values, value_then, Members, no_members, member_then, at, parse,
}
use glmserve.Json.Access.{obj, has, is_array, arr, as_int, as_string, get_string, get_int}

pub data Mode : Type 0 where
  byte bpe : Mode

abbrev pub pair_eq : Bytes × Bytes → Bytes × Bytes → Bool
pair_eq p q = bytes_eq p.0 q.0 && bytes_eq p.1 q.1

abbrev pub byte_eq : ℕ → ℕ → Bool
byte_eq a b = a == b

pub record Tokenizer : Type 0 where
  pub mode : Mode
  pub vocab_size : ℤ
  pub bos_id : ℤ
  pub eos_id : ℤ
  pub vocab : List (Bytes × ℤ)
  pub id_to_token : List (ℤ × Bytes)
  pub merge_rank : List ((Bytes × Bytes) × ℕ)
  pub byte_encoder : List (ℕ × Bytes)
  pub byte_decoder : List (Bytes × ℕ)
  pub special_tokens : List (Bytes × ℤ)

abbrev pub new_tokenizer : Tokenizer
new_tokenizer = record {
  mode = byte;
  vocab_size = pos 256;
  bos_id = pos 1;
  eos_id = pos 2;
  vocab = [];
  id_to_token = [];
  merge_rank = [];
  byte_encoder = [];
  byte_decoder = [];
  special_tokens = [];
}

-- The numbers `from`, `from + 1`, ...
abbrev pub range : (from size : ℕ) → List ℕ
range from zero = []
range from (suc size) = from ∷ range (suc from) size

abbrev pub printable : List ℕ
printable = range b'!' (b'~' + 1 - b'!') ++ range 0xA1 (0xAD - 0xA1) ++ range 0xAE (0x100 - 0xAE)

abbrev pub is_in : ℕ → List ℕ → Bool
is_in b [] = false
is_in b (c ∷ bs) = if b == c then true else is_in b bs

-- The loop over the bytes that are not printable, which get the code points from 256.
unfoldable pub add_others : List ℕ → List ℕ × List ℕ × ℕ → List ℕ × List ℕ
add_others [] (bs, cs, n) = (bs, cs)
add_others (b ∷ rest) (bs, cs, n) =
    add_others rest
      (if is_in b bs then (bs, cs, n) else (bs ++ b ∷ [], cs ++ (256 + n) ∷ [], suc n))

abbrev pub to_utf8 : ℕ → Bytes
to_utf8 cp =
    if ltb cp 0x80
    then cp ∷ []
    else if ltb cp 0x800
    then (0xC0 + cp / 64) ∷ (0x80 + cp % 64) ∷ []
    else (0xE0 + cp / 4096) ∷ (0x80 + cp / 64 % 64) ∷ (0x80 + cp % 64) ∷ []

abbrev pub ByteMaps : Type 0
ByteMaps = List (ℕ × Bytes) × List (Bytes × ℕ)

unfoldable pub fill_maps : List ℕ → List ℕ → ByteMaps → ByteMaps
fill_maps (b ∷ bs) (c ∷ cs) maps =
    fill_maps bs cs (assign byte_eq b (to_utf8 c) maps.0, assign bytes_eq (to_utf8 c) b maps.1)
fill_maps bs cs maps = maps

unfoldable pub build_byte_maps : ByteMaps → ByteMaps
build_byte_maps maps =
    let lists = add_others (range 0 256) (printable, printable, 0) in fill_maps lists.0 lists.1 maps

-- What `load_bpe` throws; the tokenizer is left as it was, or with an empty vocabulary.
pub data LoadError : Type 0 where
  bad_json : Json.Error → LoadError
  no_model no_vocab empty_vocab : LoadError

abbrev pub add_token : Bytes → ℤ → Tokenizer → Tokenizer
add_token token id t = record t {
  vocab = assign bytes_eq token id t.vocab;
  id_to_token = assign int_eq id token t.id_to_token;
}

abbrev pub add_special : Bytes → ℤ → Tokenizer → Tokenizer
add_special [] id t = t
add_special (c ∷ s) id t =
    let content = c ∷ s in
    record (add_token content id t) { special_tokens = t.special_tokens ++ (content, id) ∷ [] }

unfoldable pub read_merges :
    {Num : Type 0} → Values Num → ℕ → List ((Bytes × Bytes) × ℕ) → List ((Bytes × Bytes) × ℕ)
read_merges no_values rank ranks = ranks
read_merges (value_then m rest) rank ranks =
    let s = as_string m [] in
    elim (find (b' ' ∷ []) s) [
      | none ↦ read_merges rest rank ranks
      | some sp ↦
          read_merges rest (suc rank) (assign pair_eq (take sp s, drop (suc sp) s) rank ranks)
    ]

abbrev pub merges_of :
    {Num : Type 0} → Value Num → List ((Bytes × Bytes) × ℕ) → List ((Bytes × Bytes) × ℕ)
merges_of model ranks = elim (at (obj model) (codes "merges")) [
  | none ↦ ranks
  | some merges ↦ read_merges (arr merges) 0 ranks
]

unfoldable pub fill_byte_maps : Tokenizer → Tokenizer
fill_byte_maps t =
    let maps = build_byte_maps (t.byte_encoder, t.byte_decoder) in
    record t { byte_encoder = maps.0; byte_decoder = maps.1 }

abbrev pub is_empty : List (Bytes × ℤ) → Bool
is_empty [] = true
is_empty (e ∷ m) = false

abbrev pub Loaded : Type 0
Loaded = Result (LoadError × Tokenizer) Tokenizer

unfoldable pub check_vocab : Tokenizer → Loaded
check_vocab t = if is_empty t.vocab then err (empty_vocab, t) else ok t

-- The mode that `load` ends in; what `load_bpe` throws is caught.
unfoldable pub mode_of : Loaded → Tokenizer
mode_of (ok t) = record t { mode = bpe }
mode_of (err (e, t)) = record t { mode = byte }

module _ {Num : Type 0} (to_int : Num → ℤ) where
  unfoldable pub read_vocab : Members Num → Tokenizer → Tokenizer
  read_vocab no_members t = t
  read_vocab (member_then token id rest) t =
      read_vocab rest (add_token token (to_int32 (as_int to_int id (pos 0))) t)

  unfoldable pub read_added : Values Num → Tokenizer → Tokenizer
  read_added no_values t = t
  read_added (value_then v rest) t =
      let id = to_int32 (get_int to_int v (codes "id") (pos 0)) in
      read_added rest (add_special (get_string v (codes "content") []) id t)

  abbrev pub added_of : Value Num → Values Num
  added_of root = elim (at (obj root) (codes "added_tokens")) [ none ↦ no_values | some v ↦ arr v ]

  -- The tokenizer once all of the file is read.
  unfoldable pub read_root : Value Num → Value Num → Value Num → Tokenizer → Tokenizer
  read_root root model vocab t =
      let t1 = read_vocab (obj vocab) t in
      fill_byte_maps
        (read_added (added_of root) (record t1 { merge_rank = merges_of model t1.merge_rank }))

  -- With a throw comes the tokenizer as it is then.
  unfoldable pub load_vocab : Value Num → Value Num → Tokenizer → Option (Value Num) → Loaded
  load_vocab root model t none = err (no_vocab, t)
  load_vocab root model t (some vocab) = check_vocab (read_root root model vocab t)

  unfoldable pub load_model : Value Num → Tokenizer → Option (Value Num) → Loaded
  load_model root t none = err (no_model, t)
  load_model root t (some model) = load_vocab root model t (at (obj model) (codes "vocab"))

  unfoldable pub load_parsed : Tokenizer → Result Json.Error (Value Num) → Loaded
  load_parsed t (err e) = err (bad_json e, t)
  load_parsed t (ok root) = load_model root t (at (obj root) (codes "model"))

  unfoldable pub load_bpe : (Bytes → Option Num) → (text : Bytes) → Tokenizer → Loaded
  load_bpe stod text t = load_parsed t (parse stod text)

  -- The argument is the text of tokenizer.json, where the file exists.
  unfoldable pub load : (Bytes → Option Num) → Option Bytes → (size : ℤ) → Tokenizer → Tokenizer
  load stod none size t = record t { vocab_size = size; mode = byte }
  load stod (some text) size t = mode_of (load_bpe stod text (record t { vocab_size = size }))

abbrev pub is_stop : Tokenizer → ℤ → Bool
is_stop t id = int_eq id t.eos_id

pub record ChatMessage : Type 0 where
  pub role : Bytes
  pub content : Bytes

unfoldable pub render_messages : List ChatMessage → Bytes
render_messages [] = []
render_messages (m ∷ rest) =
    (codes "<|" ++ m.role ++ codes "|>\n" ++ m.content) ++ render_messages rest

unfoldable pub apply_chat_template : List ChatMessage → Bool → Bytes
apply_chat_template msgs add_generation_prompt =
    codes "[gMASK]<sop>"
    ++ render_messages msgs
    ++ (if add_generation_prompt then codes "<|assistant|>\n" else [])
