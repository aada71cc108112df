-- ===== src/Gguf/Types.antt =====
-- The tables of the GGML tensor types in src/gguf.cpp.
use glmserve.Prelude.{
  ◌↔◌, ◌||◌, ℕ, ◌*◌, ◌/◌, ◌%◌, ◌^◌, ◌≡◌, Bool, false, Option, none, some, List, [], ◌∷◌, ltb, ◌==◌,
  if◌then◌else◌, arith,
}
use glmserve.Prelude.Bytes.{Bytes, codes}
use glmserve.Prelude.Result.{Result, ok, err, ◌>>◌, check}
use glmserve.Gguf.{Error, unknown_type, bad_blocks}
use mathlib.Core.Option

-- A `switch` with one result for each case, and one with several labels for a case.
abbrev pub switch {ℓ} : {A : Type ℓ} → ℕ → List (ℕ × A) → Option A
switch type [] = none
switch type ((label, a) ∷ cases) =
    let later = switch type cases in if type == label then some a else later

abbrev pub any_label : ℕ → List ℕ → Bool
any_label type [] = false
any_label type (label ∷ labels) = type == label || any_label type labels

abbrev pub type_names : List (ℕ × Bytes)
type_names =
    (0, codes "F32")
    ∷ (1, codes "F16")
    ∷ (2, codes "Q4_0")
    ∷ (3, codes "Q4_1")
    ∷ (6, codes "Q5_0")
    ∷ (7, codes "Q5_1")
    ∷ (8, codes "Q8_0")
    ∷ (9, codes "Q8_1")
    ∷ (10, codes "Q2_K")
    ∷ (11, codes "Q3_K")
    ∷ (12, codes "Q4_K")
    ∷ (13, codes "Q5_K")
    ∷ (14, codes "Q6_K")
    ∷ (15, codes "Q8_K")
    ∷ (16, codes "IQ2_XXS")
    ∷ (17, codes "IQ2_XS")
    ∷ (18, codes "IQ3_XXS")
    ∷ (19, codes "IQ1_S")
    ∷ (20, codes "IQ4_NL")
    ∷ (21, codes "IQ3_S")
    ∷ (22, codes "IQ2_S")
    ∷ (23, codes "IQ4_XS")
    ∷ (24, codes "I8")
    ∷ (25, codes "I16")
    ∷ (26, codes "I32")
    ∷ (27, codes "I64")
    ∷ (28, codes "F64")
    ∷ (29, codes "IQ1_M")
    ∷ (30, codes "BF16")
    ∷ (34, codes "TQ1_0")
    ∷ (35, codes "TQ2_0")
    ∷ (39, codes "MXFP4")
    ∷ []

unfoldable pub ggml_type_name : ℕ → Bytes
ggml_type_name type = Option.get_or (switch type type_names) (codes "UNKNOWN")

-- The elements and the bytes of one block.
abbrev pub type_blocks : List (ℕ × (ℕ × ℕ))
type_blocks =
    (0, (1, 4))
    ∷ (1, (1, 2))
    ∷ (2, (32, 18))
    ∷ (3, (32, 20))
    ∷ (6, (32, 22))
    ∷ (7, (32, 24))
    ∷ (8, (32, 34))
    ∷ (9, (32, 40))
    ∷ (10, (256, 84))
    ∷ (11, (256, 110))
    ∷ (12, (256, 144))
    ∷ (13, (256, 176))
    ∷ (14, (256, 210))
    ∷ (15, (256, 292))
    ∷ (16, (256, 66))
    ∷ (17, (256, 74))
    ∷ (18, (256, 98))
    ∷ (19, (256, 50))
    ∷ (20, (32, 18))
    ∷ (21, (256, 106))
    ∷ (22, (256, 82))
    ∷ (23, (256, 136))
    ∷ (24, (1, 1))
    ∷ (25, (1, 2))
    ∷ (26, (1, 4))
    ∷ (27, (1, 8))
    ∷ (28, (1, 8))
    ∷ (29, (256, 46))
    ∷ (30, (1, 2))
    ∷ (34, (256, 54))
    ∷ (35, (256, 66))
    ∷ (39, (32, 17))
    ∷ []

unfoldable pub type_block : ℕ → Option (ℕ × ℕ)
type_block type = switch type type_blocks

unfoldable pub is_quant_type : ℕ → Bool
is_quant_type type = any_label type (
    2 ∷ 3 ∷ 6 ∷ 7 ∷ 8 ∷ 9 ∷ 10 ∷ 11 ∷ 12 ∷ 13 ∷ 14 ∷ 15 ∷ 16 ∷ 17 ∷ 18 ∷ 19 ∷ 20 ∷ 21 ∷ 22 ∷ 23 ∷ 29
    ∷ 34 ∷ 35 ∷ 39 ∷ [])

-- The product is a `uint64_t`.
unfoldable pub size_of_blocks : ℕ → ℕ → ℕ → Result Error ℕ
size_of_blocks block bytes n_elements = do
  check (n_elements % block == 0) (bad_blocks block)
  ok (n_elements / block * bytes % 2 ^ 64)

unfoldable pub ggml_type_size_bytes : ℕ → ℕ → Result Error ℕ
ggml_type_size_bytes type n_elements = elim (type_block type) [
  | none ↦ err (unknown_type type)
  | some (block, bytes) ↦ size_of_blocks block bytes n_elements
]

-- The loop of `num_elements`, the product so far first.
abbrev pub multiply : ℕ → List ℕ → ℕ
multiply n [] = n
multiply n (d ∷ shape) = multiply (n * d % 2 ^ 64) shape

unfoldable pub num_elements : List ℕ → ℕ
num_elements shape = multiply 1 shape

-- A type is named exactly when its size is known.
type_block-name : (type : ℕ) → (type_block type ≡ none) ↔ (ggml_type_name type ≡ codes "UNKNOWN")
unfolding type_block ggml_type_name
type_block-name type = ground arith

abbrev pub many_elements : Option (ℕ × ℕ) → Bool
many_elements none = false
many_elements (some r) = ltb 1 r.0

-- A type counts as quantized exactly when its size is known and a block holds several elements.
pub is_quant_type-block : (type : ℕ) → is_quant_type type ≡ many_elements (type_block type)
unfolding is_quant_type type_block
is_quant_type-block type = ground arith

-- The three tables agree for every type number: a type has a name exactly when its size is known,
-- and counts as quantized exactly when moreover its blocks hold several elements.
pub ggml_type_name-type_block :
    (type : ℕ)
    → ((type_block type ≡ none) ↔ (ggml_type_name type ≡ codes "UNKNOWN"))
      × (is_quant_type type ≡ many_elements (type_block type))
ggml_type_name-type_block type = (type_block-name type, is_quant_type-block type)
