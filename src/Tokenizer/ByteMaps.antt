-- ===== src/Tokenizer/ByteMaps.antt =====
-- The byte maps of `build_byte_maps` of src/tokenizer.cpp: a prefix code, which `decode_token` undoes.
use glmserve.Prelude.{
  ℕ, zero, suc, ◌≤◌, ◌<◌, ◌≡◌, refl, sym, ap, ◌∙◌, Bool, true, false, ◌&&◌, Option, none, some,
  List, [], ◌∷◌, ◌++◌, length, take-append-length, drop-append-length, ltb, leb, ◌==◌,
  if◌then◌else◌, map, concat, All, Bool-cases, inl, inr, arith, length-append, append_assoc,
}
use glmserve.Prelude.Bytes.{Bytes, bytes_eq, bytes_eq-eq}
use glmserve.Prelude.Maps.{lookup, assign}
use glmserve.Tokenizer.{build_byte_maps, fill_maps, add_others, ByteMaps}
use glmserve.Tokenizer.Bpe.{symbol_of, match_front, decode_front, decode_loop}

abbrev pub byte_maps : ByteMaps
byte_maps = build_byte_maps ([], [])

-- A one-byte code is ASCII, the lead of a two-byte code is not.
abbrev is_code : Bytes → Bool
is_code (x ∷ []) = ltb x 128
is_code (x ∷ y ∷ []) = leb 128 x
is_code s = false

abbrev codes_only : List (Bytes × ℕ) → Bool
codes_only [] = true
codes_only (e ∷ m) = is_code e.0 && codes_only m

abbrev found_as : ℕ → Option ℕ → Bool
found_as b none = false
found_as b (some c) = c == b

unfoldable pub all_below : ℕ → (ℕ → Bool) → Bool
all_below zero test = true
all_below (suc n) test = test n && all_below n test

pub all_below-lt :
    (n : ℕ) (test : ℕ → Bool) (b : ℕ) → all_below n test ≡ true → b < n → test b ≡ true
unfolding all_below
all_below-lt zero test b h l = absurd (omega arith)
all_below-lt (suc n) test b h l = elim (Bool-cases (b == n)) [
  | inl e ↦ let o : b ≡ n = ground arith in rw o (ground arith)
  | inr e ↦ all_below-lt n test b (ground arith) (ground arith)
]

abbrev codes_byte : ByteMaps → ℕ → Bool
codes_byte maps b =
    is_code (symbol_of maps.0 b) && found_as b (lookup bytes_eq (symbol_of maps.0 b) maps.1)

byte_maps-codes_byte : all_below 256 (codes_byte byte_maps) ≡ true
unfolding all_below build_byte_maps fill_maps add_others lookup assign
byte_maps-codes_byte = refl

byte_maps-codes_only : codes_only byte_maps.1 ≡ true
unfolding build_byte_maps fill_maps add_others assign
byte_maps-codes_only = refl

lookup-no_code :
    (m : List (Bytes × ℕ)) (k : Bytes)
    → codes_only m ≡ true
    → is_code k ≡ false
    → lookup bytes_eq k m ≡ none
unfolding lookup
lookup-no_code [] k h n = refl
lookup-no_code (e ∷ m) k h n = elim (Bool-cases (bytes_eq k e.0)) [
  | inl y ↦ let o : k ≡ e.0 = bytes_eq-eq k e.0 y in absurd (ground arith)
  | inr y ↦ rw y (lookup-no_code m k (ground arith) n)
]

found_as-eq : (b : ℕ) (o : Option ℕ) → found_as b o ≡ true → o ≡ some b
found_as-eq b none h = cc
found_as-eq b (some c) h = let e : c ≡ b = ground arith in rw e refl

module _ (m : List (Bytes × ℕ)) (only : codes_only m ≡ true) where
  if_no : {A : Type 0} (test : Bool) {o : Option A} → o ≡ none → (if test then o else none) ≡ none
  if_no true h = h
  if_no false h = refl

  match_front-3 : (tok : Bytes) → match_front m 3 tok ≡ none
  unfolding match_front
  match_front-3 [] = refl
  match_front-3 (x ∷ []) = refl
  match_front-3 (x ∷ y ∷ []) = refl
  match_front-3 (x ∷ y ∷ z ∷ tok) = if_no _ (lookup-no_code m (x ∷ y ∷ z ∷ []) only refl)

  match_front-2_ascii : (x : ℕ) (tok : Bytes) → ltb x 128 ≡ true → match_front m 2 (x ∷ tok) ≡ none
  unfolding match_front
  match_front-2_ascii x [] h = refl
  match_front-2_ascii x (y ∷ tok) h = if_no _ (lookup-no_code m (x ∷ y ∷ []) only (ground arith))

  match_front_here :
      (s : Bytes) {o : Option ℕ} (tok : Bytes)
      → lookup bytes_eq s m ≡ o
      → match_front m (length s) (s ++ tok) ≡ o
  unfolding match_front
  match_front_here s tok h =
      let fits : leb (length s) (length (s ++ tok)) ≡ true = ground (arith, length-append s tok) in
      rw (fits, take-append-length s tok) h

  -- A code in front of anything is read as its byte.
  decode_front-code :
      (s : Bytes) (b c : ℕ) (rest : Bytes)
      → is_code s ≡ true
      → lookup bytes_eq s m ≡ some b
      → decode_front m c (s ++ rest) ≡ (b, length s)
  unfolding decode_front
  decode_front-code [] b c rest h e = cc
  decode_front-code (x ∷ []) b c rest h e =
      rw
        (
          decode_front,
          match_front-3 (x ∷ rest),
          match_front-2_ascii x rest h,
          match_front_here (x ∷ []) rest e,
        )
        refl
  decode_front-code (x ∷ y ∷ []) b c rest h e =
      rw (decode_front, match_front-3 (x ∷ y ∷ rest), match_front_here (x ∷ y ∷ []) rest e) refl
  decode_front-code (x ∷ y ∷ z ∷ s) b c rest h e = cc

  decode_loop-code :
      (s : Bytes) (b fuel : ℕ) (rest : Bytes)
      → is_code s ≡ true
      → lookup bytes_eq s m ≡ some b
      → decode_loop m (suc fuel) (s ++ rest) ≡ b ∷ decode_loop m fuel rest
  unfolding decode_loop
  decode_loop-code [] b fuel rest h e = cc
  decode_loop-code (x ∷ s) b fuel rest h e =
      rw (decode_front-code (x ∷ s) b x rest h e, drop-append-length (x ∷ s) rest) refl

  is_code-pos : (s : Bytes) → is_code s ≡ true → 0 < length s
  is_code-pos [] h = cc
  is_code-pos (x ∷ s) h = omega arith

-- The text of the symbols of bytes.
unfoldable pub encoded : Bytes → Bytes
encoded text = concat (map (symbol_of byte_maps.0) text)

code_of :
    (b : ℕ)
    → b < 256
    → (is_code (symbol_of byte_maps.0 b) ≡ true)
      × (lookup bytes_eq (symbol_of byte_maps.0 b) byte_maps.1 ≡ some b)
code_of b h =
    let t = all_below-lt 256 (codes_byte byte_maps) b byte_maps-codes_byte h in
    (ground arith, found_as-eq b _ (ground arith))

encoded-lt : (b : ℕ) (text : Bytes) → b < 256 → length (encoded text) < length (encoded (b ∷ text))
unfolding encoded
encoded-lt b text h =
    let s = symbol_of byte_maps.0 b in
    let nonempty : 0 < length s = is_code-pos byte_maps.1 byte_maps-codes_only s (code_of b h).0 in
    omega (arith, length-append s (concat (map (symbol_of byte_maps.0) text)))

-- The loop of `decode_token` gives back the bytes behind the symbols.
pub decode_loop-encoded :
    (fuel : ℕ) (text : Bytes)
    → All (λ b. b < 256) text
    → length (encoded text) ≤ fuel
    → decode_loop byte_maps.1 fuel (encoded text) ≡ text
unfolding decode_loop encoded
decode_loop-encoded zero [] a h = refl
decode_loop-encoded (suc fuel) [] a h = refl
decode_loop-encoded zero (b ∷ text) a h = absurd (omega (arith, encoded-lt b text a.0))
decode_loop-encoded (suc fuel) (b ∷ text) a h =
    let c = code_of b a.0 in
    decode_loop-code byte_maps.1 byte_maps-codes_only (symbol_of byte_maps.0 b) b fuel
      (encoded text) c.0 c.1
    ∙ ap (λ t. b ∷ t) (decode_loop-encoded fuel text a.1 (omega (arith, encoded-lt b text a.0)))

pub encoded-append : (s t : Bytes) → encoded (s ++ t) ≡ encoded s ++ encoded t
unfolding encoded
encoded-append [] t = refl
encoded-append (b ∷ s) t =
    let c = symbol_of byte_maps.0 b in
    ap (λ u. c ++ u) (encoded-append s t) ∙ sym (append_assoc c _ _)

-- Two texts with the same symbols are the same.
pub encoded-injective :
    (s t : Bytes) → All (λ b. b < 256) s → All (λ b. b < 256) t → encoded s ≡ encoded t → s ≡ t
encoded-injective s t hs ht e =
    sym (decode_loop-encoded (length (encoded s)) s hs (omega arith))
    ∙ ap (λ u. decode_loop byte_maps.1 (length u) u) e
    ∙ decode_loop-encoded (length (encoded t)) t ht (omega arith)
