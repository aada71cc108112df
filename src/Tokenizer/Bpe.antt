-- ===== src/Tokenizer/Bpe.antt =====
-- Encoding and decoding of src/tokenizer.cpp: `bpe_encode` with its loop over the merges, `encode`,
-- `decode_token` and `decode`. Each turn of the loop of `bpe_encode` takes one symbol away, so that
-- their number is fuel enough.
use glmserve.Prelude.{
  ℕ, zero, suc, ◌-◌, ◌^◌, Bool, true, false, ◌&&◌, Option, none, some, List, [], ◌∷◌, ◌++◌, ltb,
  leb, if◌then◌else◌, take, drop, length, map,
}
use glmserve.Prelude.Int.{ℤ, pos, negsuc, int_eq}
use glmserve.Prelude.Bytes.{Bytes, bytes_eq}
use glmserve.Prelude.Maps.{lookup}
use glmserve.Tokenizer.{
  Mode, Tokenizer, byte, bpe, pair_eq, byte_eq, ChatMessage, apply_chat_template,
}

abbrev pub int_max : ℕ
int_max = 2 ^ 31 - 1

-- The variables of the search for the best pair.
pub record Best : Type 0 where
  pub rank : ℕ
  pub index : ℕ
  pub found : Bool

abbrev pub no_best : Best
no_best = record { rank = int_max; index = 0; found = false }

unfoldable pub better : Option ℕ → ℕ → Best → Best
better none i b = b
better (some r) i b = if ltb r b.rank then record { rank = r; index = i; found = true } else b

module _ (ranks : List ((Bytes × Bytes) × ℕ)) where
  -- The pairs from `(x, y)` on, which stands at `i`.
  unfoldable pub find_best : Bytes → List Bytes → ℕ → Best → Best
  find_best x [] i b = b
  find_best x (y ∷ rest) i b = find_best y rest (suc i) (better (lookup pair_eq (x, y) ranks) i b)

  unfoldable pub best_pair : List Bytes → Best
  best_pair [] = no_best
  best_pair (x ∷ rest) = find_best x rest 0 no_best

-- `symbols[i] += symbols[i + 1]` and the erasure of `symbols[i + 1]`.
unfoldable pub merge_at : ℕ → List Bytes → List Bytes
merge_at zero (x ∷ y ∷ rest) = (x ++ y) ∷ rest
merge_at (suc i) (x ∷ rest) = x ∷ merge_at i rest
merge_at i symbols = symbols

unfoldable pub merge_loop : List ((Bytes × Bytes) × ℕ) → ℕ → List Bytes → List Bytes
merge_loop ranks zero symbols = symbols
merge_loop ranks (suc fuel) symbols =
    let best = best_pair ranks symbols in
    let merged = merge_loop ranks fuel (merge_at best.index symbols) in
    if best.found then merged else symbols

abbrev pub symbol_of : List (ℕ × Bytes) → ℕ → Bytes
symbol_of encoder ch = elim (lookup byte_eq ch encoder) [ none ↦ ch ∷ [] | some s ↦ s ]

-- The ids of the bytes of a symbol that is not in the vocabulary.
unfoldable pub byte_ids : List (Bytes × ℤ) → Bytes → List ℤ
byte_ids vocab [] = []
byte_ids vocab (c ∷ s) =
    let rest = byte_ids vocab s in
    elim (lookup bytes_eq (c ∷ []) vocab) [ none ↦ rest | some id ↦ id ∷ rest ]

unfoldable pub symbol_ids : List (Bytes × ℤ) → List Bytes → List ℤ
symbol_ids vocab [] = []
symbol_ids vocab (s ∷ rest) =
    elim (lookup bytes_eq s vocab) [ none ↦ byte_ids vocab s | some id ↦ id ∷ [] ]
    ++ symbol_ids vocab rest

unfoldable pub bpe_encode : Tokenizer → Bytes → List ℤ
bpe_encode t text =
    let symbols = map (symbol_of t.byte_encoder) text in
    symbol_ids t.vocab (merge_loop t.merge_rank (length symbols) symbols)

abbrev pub is_nonneg : ℤ → Bool
is_nonneg (pos n) = true
is_nonneg (negsuc n) = false

unfoldable pub encode_in : Mode → Tokenizer → Bytes → List ℤ
encode_in byte t text = map pos text
encode_in bpe t text = bpe_encode t text

unfoldable pub encode : Tokenizer → Bytes → Bool → List ℤ
encode t text add_special =
    (if add_special && is_nonneg t.bos_id then t.bos_id ∷ [] else []) ++ encode_in t.mode t text

-- One of the three lengths tried at the front of a token.
unfoldable pub match_front : List (Bytes × ℕ) → ℕ → Bytes → Option ℕ
match_front decoder len tok =
    if leb len (length tok) then lookup bytes_eq (take len tok) decoder else none

-- The byte that the front of a token stands for, and how many bytes that takes.
unfoldable pub decode_front : List (Bytes × ℕ) → ℕ → Bytes → ℕ × ℕ
decode_front decoder c tok = elim (match_front decoder 3 tok) [
  | some b ↦ (b, 3)
  | none ↦ elim (match_front decoder 2 tok) [
    | some b ↦ (b, 2)
    | none ↦ elim (match_front decoder 1 tok) [ some b ↦ (b, 1) | none ↦ (c, 1) ]
  ]
]

-- The fuel is the length of the token.
unfoldable pub decode_loop : List (Bytes × ℕ) → ℕ → Bytes → Bytes
decode_loop decoder zero tok = []
decode_loop decoder (suc fuel) [] = []
decode_loop decoder (suc fuel) (c ∷ tok) =
    let front = decode_front decoder c (c ∷ tok) in
    front.0 ∷ decode_loop decoder fuel (drop front.1 (c ∷ tok))

abbrev pub decode_byte : ℤ → Bytes
decode_byte (pos n) = if ltb n 256 then n ∷ [] else []
decode_byte (negsuc n) = []

unfoldable pub decode_in : Mode → Tokenizer → ℤ → Bytes
decode_in byte t id = decode_byte id
decode_in bpe t id = elim (lookup int_eq id t.id_to_token) [
  | none ↦ []
  | some tok ↦ decode_loop t.byte_decoder (length tok) tok
]

unfoldable pub decode_token : Tokenizer → ℤ → Bytes
decode_token t id = decode_in t.mode t id

unfoldable pub decode : Tokenizer → List ℤ → Bytes
decode t [] = []
decode t (id ∷ ids) = decode_token t id ++ decode t ids

abbrev pub encode_chat : Tokenizer → List ChatMessage → List ℤ
encode_chat t msgs = encode t (apply_chat_template msgs true) false
