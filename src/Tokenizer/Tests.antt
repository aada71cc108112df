-- ===== src/Tokenizer/Tests.antt =====
-- The tokenizer of src/tokenizer.cpp run on small inputs, and the instances of its theorems.
use glmserve.Prelude.{
  arith, ℕ, ◌≡◌, refl, ◌⊎◌, ◌-◌, true, false, Option, none, some, List, [], ◌∷◌, ◌++◌, map, length,
  concat,
}
use glmserve.Prelude.Int.{ℤ, pos}
use glmserve.Prelude.Bytes.{Bytes, codes, find}
use glmserve.Prelude.Maps.{lookup, assign}
use glmserve.Json.Parser.{
  parse, parse_value, parse_object, members_loop, parse_array, elements_loop, parse_number,
  number_text, number_loop, insert, parse_string_value, at,
}
use glmserve.Json.{skip_ws, parse_string, string_loop, string_turn}
use glmserve.Json.Access.{get_string, get_int}
use glmserve.Tokenizer.{
  Tokenizer, new_tokenizer, byte, bpe, range, apply_chat_template, render_messages, add_others,
  build_byte_maps, fill_maps, load, mode_of, load_bpe, load_parsed, load_model, load_vocab,
  check_vocab, fill_byte_maps, read_root, read_vocab, read_added, read_merges,
}
use glmserve.Tokenizer.Bpe.{
  symbol_of, symbol_ids, bpe_encode, encode, encode_in, decode, decode_token, decode_in, merge_loop,
  merge_at, best_pair, find_best, better,
}
use glmserve.Tokenizer.ByteMaps.{byte_maps, all_below}
use glmserve.Tokenizer.Merging.{Merges, IsMerged, merge_loop-IsMerged}
use glmserve.Tokenizer.RoundTrip.{AllBytes, IsComplete, decode-encode_byte, decode-encode_bpe}
use glmserve.Tokenizer.Loading.{IsReady, load-IsReady}

abbrev stod : Bytes → Option ℕ
stod [] = none
stod (c ∷ s) = some (c - b'0')

-- All bytes, and the merges of `h`, `i` and `hi`, `hi`.
abbrev complete : Tokenizer
complete = record new_tokenizer {
  mode = bpe;
  vocab =
      map (λ b. (symbol_of byte_maps.0 b, pos b)) (range 0 256)
      ++ (codes "hi", pos 256) ∷ (codes "hihi", pos 257) ∷ [];
  id_to_token =
      map (λ b. (pos b, symbol_of byte_maps.0 b)) (range 0 256)
      ++ (pos 256, codes "hi") ∷ (pos 257, codes "hihi") ∷ [];
  merge_rank = ((codes "hi", codes "hi"), 0) ∷ ((codes "h", codes "i"), 1) ∷ [];
  byte_encoder = byte_maps.0;
  byte_decoder = byte_maps.1;
}

encode_test :
    encode complete (codes "hihi ho") true ≡ pos 1 ∷ pos 257 ∷ pos 32 ∷ pos 104 ∷ pos 111 ∷ []
unfolding encode encode_in bpe_encode merge_loop best_pair find_best better merge_at symbol_ids
    lookup build_byte_maps fill_maps add_others assign
encode_test = refl

-- A byte of a text that is the id 1 of the model's `bos_id_` renders as itself, not as nothing.
decode_bos_test : decode new_tokenizer (encode new_tokenizer (codes "a") true) ≡ 1 ∷ b'a' ∷ []
unfolding decode decode_token decode_in encode encode_in
decode_bos_test = refl

template_test :
    apply_chat_template (record { role = codes "user"; content = codes "hi" } ∷ []) true
    ≡ codes "[gMASK]<sop><|user|>\nhi<|assistant|>\n"
unfolding apply_chat_template render_messages
template_test = refl

complete-IsComplete : IsComplete complete
unfolding all_below lookup build_byte_maps fill_maps add_others assign
complete-IsComplete = record {
  in_bpe = refl;
  encoder = refl;
  decoder = refl;
  has_bytes = refl;
  has_merged = refl;
  distinct_ids = refl;
}

abbrev number_of : ℕ → ℤ
number_of n = pos n

abbrev tokenizer_json : Bytes
tokenizer_json =
    codes
      "{\"model\":{\"vocab\":{\"a\":0,\"b\":1,\"ab\":2},\"merges\":[\"a b\"]},\"added_tokens\":[{\"content\":\"<s>\",\"id\":3}]}"

load_test :
    let t = load number_of stod (some tokenizer_json) (pos 8) new_tokenizer in
    (t.mode ≡ bpe)
    × (t.vocab
        ≡ (codes "a", pos 0) ∷ (codes "ab", pos 2) ∷ (codes "b", pos 1) ∷ (codes "<s>", pos 3) ∷ [])
    × (t.merge_rank ≡ ((codes "a", codes "b"), 0) ∷ [])
unfolding load mode_of load_bpe load_parsed load_model load_vocab check_vocab read_root read_vocab
    read_added read_merges fill_byte_maps assign at find get_string get_int parse parse_value
    skip_ws parse_object members_loop parse_array elements_loop parse_number number_text number_loop
    insert parse_string_value parse_string string_loop string_turn
load_test = (refl, refl, refl)

load-IsReady_example :
    let t = load number_of stod (some tokenizer_json) (pos 8) new_tokenizer in
    (t.mode ≡ byte) ⊎ ((t.mode ≡ bpe) × IsReady t)
load-IsReady_example = load-IsReady number_of stod (some tokenizer_json) (pos 8)

decode-encode_byte_example :
    decode new_tokenizer (encode new_tokenizer (0xC3 ∷ 0xA9 ∷ 0 ∷ []) false) ≡ 0xC3 ∷ 0xA9 ∷ 0 ∷ []
unfolding AllBytes
decode-encode_byte_example =
    decode-encode_byte new_tokenizer (0xC3 ∷ 0xA9 ∷ 0 ∷ []) refl
      (omega arith, (omega arith, (omega arith, tt)))

decode-encode_bpe_example :
    decode complete (encode complete (b'h' ∷ b'i' ∷ 0xFF ∷ []) false) ≡ b'h' ∷ b'i' ∷ 0xFF ∷ []
unfolding AllBytes
decode-encode_bpe_example =
    decode-encode_bpe complete complete-IsComplete (b'h' ∷ b'i' ∷ 0xFF ∷ [])
      (omega arith, (omega arith, (omega arith, tt)))

abbrev hi_hi : List Bytes
hi_hi = codes "h" ∷ codes "i" ∷ codes "h" ∷ codes "i" ∷ []

merge_loop-IsMerged_example :
    let merged = merge_loop complete.merge_rank (length hi_hi) hi_hi in
    Merges complete.merge_rank hi_hi merged
    × IsMerged complete.merge_rank merged
    × (concat merged ≡ concat hi_hi)
merge_loop-IsMerged_example = merge_loop-IsMerged complete.merge_rank hi_hi
