-- ===== src/Gguf/Layout.antt =====
-- `build_glm52_layout` and `validate_glm52` of src/gguf.cpp: which tensors of a GGUF file the engine
-- takes for GLM-5.2, and their shapes.
use glmserve.Prelude.{
  ℕ, zero, suc, ◌+◌, ◌*◌, ◌%◌, ◌^◌, Bool, true, false, none, some, List, [], ◌∷◌, ◌++◌, ltb,
  if◌then◌else◌,
}
use glmserve.Prelude.Bytes.{to_string, Bytes, codes, bytes_eq}
use glmserve.Prelude.Result.{Result, ok, err, ◌>>=◌, ◌>>◌, check}
use glmserve.Gguf.Shard.{TensorInfo}
use glmserve.Gguf.Types.{is_quant_type}
use glmserve.Gguf.Model.{Model, tensor_info}

pub data LayoutError : Type 0 where
  bad_architecture bad_experts no_tensors no_iq3 : LayoutError
  bad_block_count : ℕ → LayoutError
  missing_tensor : Bytes → LayoutError
  bad_shape : Bytes → List ℕ → LayoutError

abbrev pub hidden_size : ℕ
hidden_size = 6144

abbrev pub vocab_size : ℕ
vocab_size = 154880

abbrev pub heads : ℕ
heads = 64

abbrev pub q_lora : ℕ
q_lora = 2048

abbrev pub kv_lora : ℕ
kv_lora = 512

abbrev pub qk_head : ℕ
qk_head = 256

abbrev pub qk_nope : ℕ
qk_nope = 192

abbrev pub qk_rope : ℕ
qk_rope = 64

abbrev pub v_head : ℕ
v_head = 256

abbrev pub dense_ffn : ℕ
dense_ffn = 12288

abbrev pub experts : ℕ
experts = 256

abbrev pub moe_ffn : ℕ
moe_ffn = 2048

abbrev pub index_dim : ℕ
index_dim = 128

abbrev pub index_heads : ℕ
index_heads = 32

-- The statements of `build_glm52_layout`: a call of `add`, and the counters.
pub data Statement : Type 0 where
  add : Bytes → Bytes → List ℕ → Statement
  dense_layer moe_layer mtp : Statement

unfoldable pub global_statements : List Statement
global_statements =
    add (codes "model.embed_tokens.weight") (codes "token_embd.weight")
      (hidden_size ∷ vocab_size ∷ [])
    ∷ add (codes "model.norm.weight") (codes "output_norm.weight") (hidden_size ∷ [])
    ∷ add (codes "lm_head.weight") (codes "output.weight") (hidden_size ∷ vocab_size ∷ [])
    ∷ []

unfoldable pub attention_statements : Bytes → Bytes → List Statement
attention_statements hf gg =
    add (hf ++ codes "input_layernorm.weight") (gg ++ codes "attn_norm.weight") (hidden_size ∷ [])
    ∷ add (hf ++ codes "post_attention_layernorm.weight") (gg ++ codes "ffn_norm.weight")
        (hidden_size ∷ [])
    ∷ add (hf ++ codes "self_attn.q_a_proj.weight") (gg ++ codes "attn_q_a.weight")
        (hidden_size ∷ q_lora ∷ [])
    ∷ add (hf ++ codes "self_attn.q_a_layernorm.weight") (gg ++ codes "attn_q_a_norm.weight")
        (q_lora ∷ [])
    ∷ add (hf ++ codes "self_attn.q_b_proj.weight") (gg ++ codes "attn_q_b.weight")
        (q_lora ∷ (heads * qk_head) ∷ [])
    ∷ add (hf ++ codes "self_attn.kv_a_proj_with_mqa.weight") (gg ++ codes "attn_kv_a_mqa.weight")
        (hidden_size ∷ (kv_lora + qk_rope) ∷ [])
    ∷ add (hf ++ codes "self_attn.kv_a_layernorm.weight") (gg ++ codes "attn_kv_a_norm.weight")
        (kv_lora ∷ [])
    ∷ add (hf ++ codes "self_attn.kv_b_proj.weight[k]") (gg ++ codes "attn_k_b.weight")
        (qk_nope ∷ kv_lora ∷ heads ∷ [])
    ∷ add (hf ++ codes "self_attn.kv_b_proj.weight[v]") (gg ++ codes "attn_v_b.weight")
        (kv_lora ∷ v_head ∷ heads ∷ [])
    ∷ add (hf ++ codes "self_attn.o_proj.weight") (gg ++ codes "attn_output.weight")
        ((heads * v_head) ∷ hidden_size ∷ [])
    ∷ add (hf ++ codes "self_attn.indexer.wq_b.weight") (gg ++ codes "indexer.attn_q_b.weight")
        (q_lora ∷ (index_heads * index_dim) ∷ [])
    ∷ add (hf ++ codes "self_attn.indexer.wk.weight") (gg ++ codes "indexer.attn_k.weight")
        (hidden_size ∷ index_dim ∷ [])
    ∷ add (hf ++ codes "self_attn.indexer.weights_proj.weight") (gg ++ codes "indexer.proj.weight")
        (hidden_size ∷ index_heads ∷ [])
    ∷ add (hf ++ codes "self_attn.indexer.k_norm.weight") (gg ++ codes "indexer.k_norm.weight")
        (index_dim ∷ [])
    ∷ add (hf ++ codes "self_attn.indexer.k_norm.bias") (gg ++ codes "indexer.k_norm.bias")
        (index_dim ∷ [])
    ∷ []

unfoldable pub dense_statements : Bytes → Bytes → List Statement
dense_statements hf gg =
    dense_layer
    ∷ add (hf ++ codes "mlp.gate_proj.weight") (gg ++ codes "ffn_gate.weight")
        (hidden_size ∷ dense_ffn ∷ [])
    ∷ add (hf ++ codes "mlp.up_proj.weight") (gg ++ codes "ffn_up.weight")
        (hidden_size ∷ dense_ffn ∷ [])
    ∷ add (hf ++ codes "mlp.down_proj.weight") (gg ++ codes "ffn_down.weight")
        (dense_ffn ∷ hidden_size ∷ [])
    ∷ []

unfoldable pub moe_statements : Bytes → Bytes → List Statement
moe_statements hf gg =
    moe_layer
    ∷ add (hf ++ codes "mlp.gate.weight") (gg ++ codes "ffn_gate_inp.weight")
        (hidden_size ∷ experts ∷ [])
    ∷ add (hf ++ codes "mlp.gate.e_score_correction_bias") (gg ++ codes "exp_probs_b.bias")
        (experts ∷ [])
    ∷ add (hf ++ codes "mlp.experts.*.gate_proj.weight") (gg ++ codes "ffn_gate_exps.weight")
        (hidden_size ∷ moe_ffn ∷ experts ∷ [])
    ∷ add (hf ++ codes "mlp.experts.*.up_proj.weight") (gg ++ codes "ffn_up_exps.weight")
        (hidden_size ∷ moe_ffn ∷ experts ∷ [])
    ∷ add (hf ++ codes "mlp.experts.*.down_proj.weight") (gg ++ codes "ffn_down_exps.weight")
        (moe_ffn ∷ hidden_size ∷ experts ∷ [])
    ∷ add (hf ++ codes "mlp.shared_experts.gate_proj.weight") (gg ++ codes "ffn_gate_shexp.weight")
        (hidden_size ∷ moe_ffn ∷ [])
    ∷ add (hf ++ codes "mlp.shared_experts.up_proj.weight") (gg ++ codes "ffn_up_shexp.weight")
        (hidden_size ∷ moe_ffn ∷ [])
    ∷ add (hf ++ codes "mlp.shared_experts.down_proj.weight") (gg ++ codes "ffn_down_shexp.weight")
        (moe_ffn ∷ hidden_size ∷ [])
    ∷ []

unfoldable pub mtp_statements : List Statement
mtp_statements =
    let hf = codes "model.layers.78." in
    let gg = codes "blk.78.nextn." in
    mtp
    ∷ add (hf ++ codes "eh_proj.weight") (gg ++ codes "eh_proj.weight")
        ((2 * hidden_size) ∷ hidden_size ∷ [])
    ∷ add (hf ++ codes "enorm.weight") (gg ++ codes "enorm.weight") (hidden_size ∷ [])
    ∷ add (hf ++ codes "hnorm.weight") (gg ++ codes "hnorm.weight") (hidden_size ∷ [])
    ∷ add (hf ++ codes "shared_head.norm.weight") (gg ++ codes "shared_head_norm.weight")
        (hidden_size ∷ [])
    ∷ []

unfoldable pub layer_statements : ℕ → List Statement
layer_statements i =
    let hf = codes "model.layers." ++ to_string i ++ codes "." in
    let gg = codes "blk." ++ to_string i ++ codes "." in
    attention_statements hf gg ++ (if ltb i 3 then dense_statements hf gg else moe_statements hf gg)

-- The layers `i`, `i + 1`, ... of the loop.
unfoldable pub loop_statements : ℕ → ℕ → List Statement
loop_statements zero i = []
loop_statements (suc n) i = layer_statements i ++ loop_statements n (i + 1)

unfoldable pub layout_statements : ℕ → List Statement
layout_statements blocks =
    global_statements ++ loop_statements blocks 0 ++ (if ltb 78 blocks then mtp_statements else [])

pub record ModuleView : Type 0 where
  pub role : Bytes
  pub name : Bytes
  pub tensor : TensorInfo

pub record Layout : Type 0 where
  pub modules : List ModuleView
  pub tensor_bytes : ℕ
  pub quantized_tensor_bytes : ℕ
  pub quantized_tensors : ℕ
  pub dense_layers : ℕ
  pub moe_layers : ℕ
  pub has_mtp : Bool

abbrev pub empty_layout : Layout
empty_layout = record {
  modules = [];
  tensor_bytes = 0;
  quantized_tensor_bytes = 0;
  quantized_tensors = 0;
  dense_layers = 0;
  moe_layers = 0;
  has_mtp = false;
}

abbrev pub same_shape : List ℕ → List ℕ → Bool
same_shape = bytes_eq

unfoldable pub require_tensor_shape : Model → Bytes → List ℕ → Result LayoutError TensorInfo
require_tensor_shape m name shape = elim (tensor_info m name) [
  | none ↦ err (missing_tensor name)
  | some t ↦ check (same_shape t.shape shape) (bad_shape name t.shape) >> ok t
]

unfoldable pub add_module : Layout → Bytes → Bytes → TensorInfo → Layout
add_module l role name t =
    let quant = is_quant_type t.type in
    record l {
      modules = l.modules ++ record { role = role; name = name; tensor = t } ∷ [];
      tensor_bytes = (l.tensor_bytes + t.n_bytes) % 2 ^ 64;
      quantized_tensors = if quant then l.quantized_tensors + 1 else l.quantized_tensors;
      quantized_tensor_bytes =
          if quant
          then (l.quantized_tensor_bytes + t.n_bytes) % 2 ^ 64
          else l.quantized_tensor_bytes;
    }

unfoldable pub run_statement : Model → Layout → Statement → Result LayoutError Layout
run_statement m l (add role name shape) = do
  t ← require_tensor_shape m name shape
  ok (add_module l role name t)
run_statement m l dense_layer = ok (record l { dense_layers = l.dense_layers + 1 })
run_statement m l moe_layer = ok (record l { moe_layers = l.moe_layers + 1 })
run_statement m l mtp = ok (record l { has_mtp = true })

unfoldable pub run_statements : Model → Layout → List Statement → Result LayoutError Layout
run_statements m l [] = ok l
run_statements m l (s ∷ ss) = do l' ← run_statement m l s; run_statements m l' ss
