-- ===== src/Tokenizer/RoundTrip.antt =====
-- Decoding undoes the encoding of src/tokenizer.cpp, in byte mode, and in BPE mode for a vocabulary
-- that has the bytes and the merged pairs.
use glmserve.Prelude.{
  ℕ, zero, suc, ◌<◌, ◌≡◌, refl, sym, ap, subst, ◌∙◌, Bool, true, false, none, some, List, [], ◌∷◌,
  ◌++◌, length, map, concat, All, Option-cases, inl, inr, arith, lt→ltb, append-nil,
}
use glmserve.Prelude.Int.{ℤ, pos, int_eq}
use glmserve.Prelude.Bytes.{Bytes, bytes_eq, bytes_eq-eq}
use glmserve.Prelude.Maps.{lookup, every, lookup-every}
use glmserve.Tokenizer.{Tokenizer, byte, bpe, pair_eq}
use glmserve.Tokenizer.Bpe.{
  symbol_of, symbol_ids, bpe_encode, encode, decode_token, decode_in, encode_in, decode,
  decode_loop, merge_loop, merge_at,
}
use glmserve.Tokenizer.ByteMaps.{
  byte_maps, encoded, encoded-append, all_below, all_below-lt, encoded-injective,
  decode_loop-encoded,
}
use glmserve.Tokenizer.Merging.{pair_rank, merge, Merges, done, merge_then, merge_loop-IsMerged}

unfoldable pub AllBytes : Bytes → Type 0
AllBytes text = All (λ b. b < 256) text

decode_token-byte :
    (t : Tokenizer) (n : ℕ) → t.mode ≡ byte → n < 256 → decode_token t (pos n) ≡ n ∷ []
unfolding decode_token decode_in
decode_token-byte t n m h = ap (λ o. decode_in o t (pos n)) m ∙ rw (lt→ltb n 256 h) refl

decode-map :
    (t : Tokenizer) (text : Bytes) → t.mode ≡ byte → AllBytes text → decode t (map pos text) ≡ text
unfolding decode AllBytes
decode-map t [] m h = refl
decode-map t (b ∷ text) m h =
    rw (decode_token-byte t b m h.0) (ap (λ u. b ∷ u) (decode-map t text m h.1))

-- In byte mode every text of bytes comes back from its ids.
pub decode-encode_byte :
    (t : Tokenizer) (text : Bytes)
    → t.mode ≡ byte
    → AllBytes text
    → decode t (encode t text false) ≡ text
unfolding encode encode_in
decode-encode_byte t text m h = ap (λ o. decode t (encode_in o t text)) m ∙ decode-map t text m h

abbrev is_known : List (Bytes × ℤ) → Bytes → Bool
is_known vocab s = elim (lookup bytes_eq s vocab) [ none ↦ false | some id ↦ true ]

abbrev gives_back : List (ℤ × Bytes) → Bytes × ℤ → Bool
gives_back tokens e = elim (lookup int_eq e.1 tokens) [
  | none ↦ false
  | some token ↦ bytes_eq token e.0
]

-- A vocabulary in BPE mode with the symbols of all bytes and of all merges, whose ids give their tokens back.
pub record IsComplete (t : Tokenizer) : Type 0 where
  pub in_bpe : t.mode ≡ bpe
  pub encoder : t.byte_encoder ≡ byte_maps.0
  pub decoder : t.byte_decoder ≡ byte_maps.1
  pub has_bytes : all_below 256 (λ b. is_known t.vocab (symbol_of byte_maps.0 b)) ≡ true
  pub has_merged : every (λ e. is_known t.vocab (e.0.0 ++ e.0.1)) t.merge_rank ≡ true
  pub distinct_ids : every (gives_back t.id_to_token) t.vocab ≡ true

module _ (t : Tokenizer) (c : IsComplete t) where
  -- A symbol of the vocabulary that stands for a text.
  Spells : Bytes → Type 0
  Spells s = (is_known t.vocab s ≡ true) × ((u : Bytes) × AllBytes u × (s ≡ encoded u))

  map-Spells : (text : Bytes) → AllBytes text → All Spells (map (symbol_of byte_maps.0) text)
  unfolding Spells AllBytes encoded
  map-Spells [] h = tt
  map-Spells (b ∷ text) h = (
    (
      all_below-lt 256 (λ x. is_known t.vocab (symbol_of byte_maps.0 x)) b c.has_bytes h.0,
      (b ∷ [], (h.0, tt), sym (append-nil _)),
    ),
    map-Spells text h.1,
  )

  spells_more :
      (s rest u v : Bytes) → s ≡ encoded u → rest ≡ encoded v → s ++ rest ≡ encoded (u ++ v)
  spells_more s rest u v es er =
      ap (λ a. a ++ rest) es ∙ ap (λ b. encoded u ++ b) er ∙ sym (encoded-append u v)

  pair_known :
      (x y : Bytes) {q : ℕ}
      → lookup pair_eq (x, y) t.merge_rank ≡ some q
      → is_known t.vocab (x ++ y) ≡ true
  pair_known x y e =
      let (j, same, known) = lookup-every pair_eq _ (x, y) t.merge_rank c.has_merged e in
      let ex : x ≡ j.0 = bytes_eq-eq x j.0 (ground arith) in
      let ey : y ≡ j.1 = bytes_eq-eq y j.1 (ground arith) in rw (ex, ey) known

  AllBytes-append : (u v : Bytes) → AllBytes u → AllBytes v → AllBytes (u ++ v)
  unfolding AllBytes
  AllBytes-append [] v hu hv = hv
  AllBytes-append (b ∷ u) v hu hv = (hu.0, AllBytes-append u v hu.1 hv)

  merge_at-Spells :
      (symbols : List Bytes) (j : ℕ) {q : ℕ}
      → pair_rank t.merge_rank symbols j ≡ some q
      → All Spells symbols
      → All Spells (merge_at j symbols)
  unfolding merge_at Spells
  merge_at-Spells [] j e h = cc
  merge_at-Spells (x ∷ []) j e h = cc
  merge_at-Spells (x ∷ y ∷ rest) zero e h =
      let (kx, (u, hu, ex)) = h.0 in
      let (ky, (v, hv, ey)) = h.1.0 in
      ((pair_known x y e, (u ++ v, AllBytes-append u v hu hv, spells_more x y u v ex ey)), h.1.1)
  merge_at-Spells (x ∷ y ∷ rest) (suc j) e h = (h.0, merge_at-Spells (y ∷ rest) j e h.1)

  Merges-Spells : {r s : List Bytes} → Merges t.merge_rank r s → All Spells r → All Spells s
  Merges-Spells done h = h
  Merges-Spells {r} (merge_then (merge j q least lt) ms) h =
      Merges-Spells ms (merge_at-Spells r j least.here h)

  -- The ids of symbols of the vocabulary decode to what the symbols spell.
  Decodes : List Bytes → Type 0
  Decodes symbols =
      (text : Bytes) × AllBytes text
      × (concat symbols ≡ encoded text)
      × (decode t (symbol_ids t.vocab symbols) ≡ text)

  decode_token-bpe :
      (id : ℤ) {token : Bytes}
      → lookup int_eq id t.id_to_token ≡ some token
      → decode_token t id ≡ decode_loop byte_maps.1 (length token) token
  unfolding decode_token decode_in
  decode_token-bpe id e = ap (λ o. decode_in o t id) c.in_bpe ∙ rw (decode_in, e, c.decoder) refl

  decode_token-encoded :
      (id : ℤ) (u : Bytes)
      → AllBytes u
      → lookup bytes_eq (encoded u) t.vocab ≡ some id
      → decode_token t id ≡ u
  unfolding AllBytes
  decode_token-encoded id u h e =
      let (j, same, back) =
        lookup-every bytes_eq (gives_back t.id_to_token) (encoded u) t.vocab c.distinct_ids e in
      elim (Option-cases (lookup int_eq id t.id_to_token)) [
        | inl none_there ↦ absurd (ground arith)
        | inr (token, found) ↦
            let token_j : token ≡ j = bytes_eq-eq token j (ground arith) in
            let o : token ≡ encoded u = token_j ∙ sym (bytes_eq-eq (encoded u) j same) in
            decode_token-bpe id found
            ∙ ap (λ s. decode_loop byte_maps.1 (length s) s) o
            ∙ decode_loop-encoded (length (encoded u)) u h (omega arith)
      ]

  symbol_ids-Decodes : (symbols : List Bytes) → All Spells symbols → Decodes symbols
  unfolding symbol_ids decode Decodes Spells AllBytes encoded
  symbol_ids-Decodes [] h = ([], tt, refl, refl)
  symbol_ids-Decodes (s ∷ symbols) ((known, (u, hu, eu)), h) =
      let (text, ht, spelled, decoded) = symbol_ids-Decodes symbols h in
      elim (Option-cases (lookup bytes_eq s t.vocab)) [
        | inl e ↦ absurd (ground arith)
        | inr (id, e) ↦ (
          u ++ text,
          AllBytes-append u text hu ht,
          spells_more s (concat symbols) u text eu spelled,
          rw e (
              ap (λ w. w ++ decode t (symbol_ids t.vocab symbols))
                (decode_token-encoded id u hu
                  (subst (λ w. lookup bytes_eq w t.vocab ≡ some id) eu e))
              ∙ ap (λ w. u ++ w) decoded),
        )
      ]

  -- With a vocabulary that has a symbol for each byte and each merge and ids that give their tokens
  -- back, and with the byte maps, every text of bytes comes back from its ids in BPE mode.
  pub decode-encode_bpe : (text : Bytes) → AllBytes text → decode t (encode t text false) ≡ text
  unfolding Decodes AllBytes encode encode_in bpe_encode encoded
  decode-encode_bpe text h =
      let symbols = map (symbol_of byte_maps.0) text in
      let m = merge_loop-IsMerged t.merge_rank symbols in
      let (u, hu, spelled, decoded) =
        symbol_ids-Decodes _ (Merges-Spells m.0 (map-Spells text h)) in
      let ids : bpe_encode t text
          ≡ symbol_ids t.vocab (merge_loop t.merge_rank (length symbols) symbols) =
        rw c.encoder refl in
      ap (λ o. decode t (encode_in o t text)) c.in_bpe
      ∙ ap (decode t) ids
      ∙ decoded
      ∙ encoded-injective u text hu h (sym spelled ∙ m.2)
