-- ===== src/Gguf/Validate.antt =====
-- `validate_glm52` and the whole of `build_glm52_layout` of src/gguf.cpp.
use glmserve.Prelude.{
  ℕ, zero, suc, ◌+◌, Bool, true, false, none, some, List, [], ◌∷◌, ◌++◌, ltb, leb, ◌==◌,
  if◌then◌else◌,
}
use glmserve.Prelude.Bytes.{to_string, Bytes, codes, bytes_eq}
use glmserve.Prelude.Result.{Result, ok, ◌>>◌, check}
use glmserve.Gguf.{string_value}
use glmserve.Gguf.Shard.{find_key, TensorInfo}
use glmserve.Gguf.Types.{ggml_type_name}
use glmserve.Gguf.Model.{Model, has_tensor, metadata_u64}
use glmserve.Gguf.Layout.{
  LayoutError, bad_architecture, bad_experts, no_tensors, no_iq3, bad_block_count, missing_tensor,
  Layout, empty_layout, layout_statements, run_statements,
}

-- `quant_counts()[name]`.
unfoldable pub quant_count : Bytes → List TensorInfo → ℕ
quant_count name [] = 0
quant_count name (t ∷ ts) =
    (if bytes_eq (ggml_type_name t.type) name then 1 else 0) + quant_count name ts

unfoldable pub require_names : Model → List Bytes → Result LayoutError (Unit {0})
require_names m [] = ok tt
require_names m (name ∷ names) = do
  check (has_tensor m name) (missing_tensor name)
  require_names m names

abbrev pub layer_names : ℕ → List Bytes
layer_names i =
    let p = codes "blk." ++ to_string i ++ codes "." in
    (p ++ codes "attn_norm.weight")
    ∷ (p ++ codes "attn_q_a.weight")
    ∷ (p ++ codes "attn_q_a_norm.weight")
    ∷ (p ++ codes "attn_q_b.weight")
    ∷ (p ++ codes "attn_kv_a_mqa.weight")
    ∷ (p ++ codes "attn_kv_a_norm.weight")
    ∷ (p ++ codes "attn_output.weight")
    ∷ (p ++ codes "ffn_norm.weight")
    ∷ []

-- The layers `i`, `i + 1`, ... of the loop.
unfoldable pub require_layers : Model → ℕ → ℕ → Result LayoutError (Unit {0})
require_layers m zero i = ok tt
require_layers m (suc n) i = do require_names m (layer_names i); require_layers m n (i + 1)

-- The architecture is compared as `metadata_string` prints it; no number prints as "glm-dsa".
abbrev pub is_architecture : Model → Bytes → Bool
is_architecture m arch = elim (find_key (codes "general.architecture") m.metadata) [
  | some (string_value s) ↦ bytes_eq s arch
  | some v ↦ false
  | none ↦ false
]

abbrev pub is_empty : List TensorInfo → Bool
is_empty [] = true
is_empty (t ∷ ts) = false

abbrev pub global_names : List Bytes
global_names = codes "token_embd.weight" ∷ codes "output_norm.weight" ∷ codes "output.weight" ∷ []

abbrev pub block_count : Model → ℕ
block_count m = metadata_u64 m (codes "glm-dsa.block_count") 0

unfoldable pub validate_glm52 : Model → Result LayoutError (Unit {0})
validate_glm52 m = do
  check (is_architecture m (codes "glm-dsa")) bad_architecture
  check (leb 78 (block_count m)) (bad_block_count (block_count m))
  check (metadata_u64 m (codes "glm-dsa.expert_count") 0 == 256) bad_experts
  check (if is_empty m.tensors then false else true) no_tensors
  require_names m global_names
  check (ltb 0 (quant_count (codes "IQ3_XXS") m.tensors)) no_iq3
  require_layers m (block_count m) 0

unfoldable pub build_glm52_layout : Model → Result LayoutError Layout
build_glm52_layout m = do
  validate_glm52 m
  run_statements m empty_layout (layout_statements (block_count m))
