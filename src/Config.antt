-- ===== src/Config.antt =====
-- The configuration of include/config.hpp and its loader, src/config.cpp. An `int64_t` is an
-- integer; a `double` is an opaque number, and `std::stod`, the cast of a `double` to `int64_t`, the
-- three `double` literals of the defaults and the file system are parameters.
pub mod Valid
mod Tests
use glmserve.Prelude.{
  ℕ, ◌-◌, Bool, true, false, not, ◌&&◌, ◌||◌, Option, none, some, List, [], ◌∷◌, ◌++◌, ltb,
  if◌then◌else◌, length, drop, get_elem?, leb, ◌==◌,
}
use glmserve.Prelude.Int.{ℤ, pos, negsuc, int_eq, int_lt, int_le, ◌+ℤ◌, int_div, int_mod}
use glmserve.Prelude.Bytes.{Bytes, codes, bytes_eq}
use glmserve.Prelude.Result.{Result, ok, err, ◌>>=◌, ◌>>◌, check}
use glmserve.Json as Json
use glmserve.Json.Parser.{Value, array, object, Values, no_values, value_then, at, parse}
use glmserve.Json.Access.{
  obj, arr, has, is_object, is_array, as_int, as_string, get_int, get_bool, get_double, get_string,
}

pub record Glm52Config (Num : Type 0) : Type 0 where
  pub vocab_size : ℤ
  pub hidden_size : ℤ
  pub num_hidden_layers : ℤ
  pub num_attention_heads : ℤ
  pub num_key_value_heads : ℤ
  pub head_dim : ℤ
  pub intermediate_size : ℤ
  pub max_position_embeddings : ℤ
  pub q_lora_rank : ℤ
  pub kv_lora_rank : ℤ
  pub qk_nope_head_dim : ℤ
  pub qk_rope_head_dim : ℤ
  pub qk_head_dim : ℤ
  pub v_head_dim : ℤ
  pub attention_bias : Bool
  pub rope_interleave : Bool
  pub n_routed_experts : ℤ
  pub num_experts_per_tok : ℤ
  pub n_shared_experts : ℤ
  pub moe_intermediate_size : ℤ
  pub first_k_dense_replace : ℤ
  pub n_group : ℤ
  pub topk_group : ℤ
  pub routed_scaling_factor : Num
  pub norm_topk_prob : Bool
  pub scoring_func : Bytes
  pub rms_norm_eps : Num
  pub rope_theta : Num
  pub use_dsa : Bool
  pub index_n_heads : ℤ
  pub index_head_dim : ℤ
  pub index_topk : ℤ
  pub index_topk_freq : ℤ
  pub index_skip_topk_offset : ℤ
  pub indexer_rope_interleave : Bool
  pub indexer_types : List Bytes
  pub num_nextn_predict_layers : ℤ
  pub mtp_draft_tokens : ℤ
  pub model_type : Bytes
  pub architecture : Bytes
  pub torch_dtype : Bytes
  pub bos_token_id : ℤ
  pub eos_token_id : ℤ
  pub eos_token_ids : List ℤ
  pub pad_token_id : ℤ

unfoldable pub default_config :
    {Num : Type 0} → (routed_scaling norm_eps theta : Num) → Glm52Config Num
default_config routed_scaling norm_eps theta = record {
  vocab_size = pos 154880;
  hidden_size = pos 6144;
  num_hidden_layers = pos 78;
  num_attention_heads = pos 64;
  num_key_value_heads = pos 64;
  head_dim = pos 192;
  intermediate_size = pos 12288;
  max_position_embeddings = pos 1048576;
  q_lora_rank = pos 2048;
  kv_lora_rank = pos 512;
  qk_nope_head_dim = pos 192;
  qk_rope_head_dim = pos 64;
  qk_head_dim = pos 256;
  v_head_dim = pos 256;
  attention_bias = false;
  rope_interleave = true;
  n_routed_experts = pos 256;
  num_experts_per_tok = pos 8;
  n_shared_experts = pos 1;
  moe_intermediate_size = pos 2048;
  first_k_dense_replace = pos 3;
  n_group = pos 1;
  topk_group = pos 1;
  routed_scaling_factor = routed_scaling;
  norm_topk_prob = true;
  scoring_func = codes "sigmoid";
  rms_norm_eps = norm_eps;
  rope_theta = theta;
  use_dsa = true;
  index_n_heads = pos 64;
  index_head_dim = pos 128;
  index_topk = pos 2048;
  index_topk_freq = pos 4;
  index_skip_topk_offset = pos 3;
  indexer_rope_interleave = true;
  indexer_types = [];
  num_nextn_predict_layers = pos 1;
  mtp_draft_tokens = pos 5;
  model_type = codes "glm_moe_dsa";
  architecture = codes "GlmMoeDsaForCausalLM";
  torch_dtype = codes "bfloat16";
  bos_token_id = pos 1;
  eos_token_id = pos 154820;
  eos_token_ids = pos 154820 ∷ pos 154827 ∷ pos 154829 ∷ [];
  pad_token_id = pos 154820;
}

module _ {Num : Type 0} where
  abbrev pub is_dense_layer : Glm52Config Num → ℤ → Bool
  is_dense_layer c layer = int_lt layer c.first_k_dense_replace

  unfoldable pub has_full_indexer_layer : Glm52Config Num → ℤ → Bool
  has_full_indexer_layer c (negsuc n) = false
  has_full_indexer_layer c (pos n) = elim (get_elem? c.indexer_types n) [
    | none ↦ false
    | some kind ↦ bytes_eq kind (codes "full")
  ]

  -- The width that K and V both fit in.
  abbrev pub kv_cache_head_dim : Glm52Config Num → ℤ
  kv_cache_head_dim c = if int_lt c.qk_head_dim c.v_head_dim then c.v_head_dim else c.qk_head_dim

  unfoldable pub strings : Values Num → List Bytes
  strings no_values = []
  strings (value_then v vs) = as_string v [] ∷ strings vs

-- `division_by_zero` ends the program in the source.
pub data ConfigError : Type 0 where
  cannot_open not_object division_by_zero bad_size bad_heads bad_experts : ConfigError
  bad_json : Json.Error → ConfigError

-- The result of a division, or the end of the program.
abbrev pub divided : Option ℤ → Result ConfigError ℤ
divided none = err division_by_zero
divided (some q) = ok q

abbrev pub ends_in_json : Bytes → Bool
ends_in_json path = leb 5 (length path) && bytes_eq (drop (length path - 5) path) (codes ".json")

abbrev pub ends_in_slash : Bytes → Bool
ends_in_slash path = bytes_eq (drop (length path - 1) path) (codes "/")

unfoldable pub config_path : Bytes → Bytes
config_path path =
    if ends_in_json path
    then path
    else (if length path == 0 || ends_in_slash path then path else path ++ codes "/")
      ++ codes "config.json"

module _ {Num : Type 0} (to_int : Num → ℤ) where
  unfoldable pub id_list : Values Num → List ℤ
  id_list no_values = []
  id_list (value_then v vs) = as_int to_int v (pos 0) ∷ id_list vs

  unfoldable pub read_core : Value Num → Glm52Config Num → Glm52Config Num
  read_core r c =
      let heads = get_int to_int r (codes "num_attention_heads") c.num_attention_heads in
      record c {
        num_attention_heads = heads;
        num_key_value_heads = get_int to_int r (codes "num_key_value_heads") heads;
        vocab_size = get_int to_int r (codes "vocab_size") c.vocab_size;
        hidden_size = get_int to_int r (codes "hidden_size") c.hidden_size;
        num_hidden_layers = get_int to_int r (codes "num_hidden_layers") c.num_hidden_layers;
        intermediate_size = get_int to_int r (codes "intermediate_size") c.intermediate_size;
        max_position_embeddings =
            get_int to_int r (codes "max_position_embeddings") c.max_position_embeddings;
      }

  -- Without the key the width of a head is computed.
  unfoldable pub read_head_dim : Value Num → Glm52Config Num → Result ConfigError ℤ
  read_head_dim r c =
      if has r (codes "head_dim")
      then ok (get_int to_int r (codes "head_dim") c.head_dim)
      else divided (int_div c.hidden_size c.num_attention_heads)

  unfoldable pub read_mla : Value Num → Glm52Config Num → Glm52Config Num
  read_mla r c =
      let nope = get_int to_int r (codes "qk_nope_head_dim") c.qk_nope_head_dim in
      let rope = get_int to_int r (codes "qk_rope_head_dim") c.qk_rope_head_dim in
      record c {
        qk_nope_head_dim = nope;
        qk_rope_head_dim = rope;
        qk_head_dim = get_int to_int r (codes "qk_head_dim") (nope +ℤ rope);
        q_lora_rank = get_int to_int r (codes "q_lora_rank") c.q_lora_rank;
        kv_lora_rank = get_int to_int r (codes "kv_lora_rank") c.kv_lora_rank;
        v_head_dim = get_int to_int r (codes "v_head_dim") c.v_head_dim;
        attention_bias = get_bool r (codes "attention_bias") c.attention_bias;
        rope_interleave = get_bool r (codes "rope_interleave") c.rope_interleave;
      }

  unfoldable pub read_moe : Value Num → Glm52Config Num → Glm52Config Num
  read_moe r c = record c {
    n_routed_experts = get_int to_int r (codes "n_routed_experts") c.n_routed_experts;
    num_experts_per_tok = get_int to_int r (codes "num_experts_per_tok") c.num_experts_per_tok;
    n_shared_experts = get_int to_int r (codes "n_shared_experts") c.n_shared_experts;
    moe_intermediate_size =
        get_int to_int r (codes "moe_intermediate_size") c.moe_intermediate_size;
    first_k_dense_replace =
        get_int to_int r (codes "first_k_dense_replace") c.first_k_dense_replace;
    n_group = get_int to_int r (codes "n_group") c.n_group;
    topk_group = get_int to_int r (codes "topk_group") c.topk_group;
    routed_scaling_factor = get_double r (codes "routed_scaling_factor") c.routed_scaling_factor;
    norm_topk_prob = get_bool r (codes "norm_topk_prob") c.norm_topk_prob;
    scoring_func = get_string r (codes "scoring_func") c.scoring_func;
  }

  -- `rope_theta` may stand in an object `rope_parameters`.
  unfoldable pub theta_in : Value Num → Option (Value Num) → Num → Num
  theta_in r (some (object m)) def = get_double (object m) (codes "rope_theta") def
  theta_in r v def = get_double r (codes "rope_theta") def

  unfoldable pub types_in : Option (Value Num) → List Bytes → List Bytes
  types_in (some (array vs)) def = strings vs
  types_in v def = def

  unfoldable pub read_dsa : Value Num → Glm52Config Num → Glm52Config Num
  read_dsa r c = record c {
    rms_norm_eps = get_double r (codes "rms_norm_eps") c.rms_norm_eps;
    rope_theta = theta_in r (at (obj r) (codes "rope_parameters")) c.rope_theta;
    use_dsa = get_bool r (codes "use_dsa") (has r (codes "index_topk"));
    index_n_heads = get_int to_int r (codes "index_n_heads") c.index_n_heads;
    index_head_dim = get_int to_int r (codes "index_head_dim") c.index_head_dim;
    index_topk = get_int to_int r (codes "index_topk") c.index_topk;
    index_topk_freq = get_int to_int r (codes "index_topk_freq") c.index_topk_freq;
    index_skip_topk_offset =
        get_int to_int r (codes "index_skip_topk_offset") c.index_skip_topk_offset;
    indexer_rope_interleave =
        get_bool r (codes "indexer_rope_interleave") c.indexer_rope_interleave;
    indexer_types = types_in (at (obj r) (codes "indexer_types")) c.indexer_types;
  }

  -- One stop id, or a list of them with the first in `eos_token_id`.
  unfoldable pub eos_ids : List ℤ → Glm52Config Num → Glm52Config Num
  eos_ids [] c = record c { eos_token_ids = [] }
  eos_ids (id ∷ ids) c = record c { eos_token_id = id; eos_token_ids = id ∷ ids }

  unfoldable pub read_eos : Option (Value Num) → Glm52Config Num → Glm52Config Num
  read_eos none c = c
  read_eos (some (array vs)) c = eos_ids (id_list vs) c
  read_eos (some v) c = eos_ids (as_int to_int v (pos 0) ∷ []) c

  unfoldable pub architecture_in : Option (Value Num) → Bytes → Bytes
  architecture_in (some (array (value_then v vs))) def = as_string v def
  architecture_in v def = def

  unfoldable pub read_ids : Value Num → Glm52Config Num → Glm52Config Num
  read_ids r c =
      let c1 = record c {
        num_nextn_predict_layers =
            get_int to_int r (codes "num_nextn_predict_layers") c.num_nextn_predict_layers;
        model_type = get_string r (codes "model_type") c.model_type;
        torch_dtype =
            get_string r (codes "torch_dtype") (get_string r (codes "dtype") c.torch_dtype);
        bos_token_id = get_int to_int r (codes "bos_token_id") c.bos_token_id;
        pad_token_id = get_int to_int r (codes "pad_token_id") c.pad_token_id;
      } in
      let c2 = read_eos (at (obj r) (codes "eos_token_id")) c1 in
      record c2 {
        architecture = architecture_in (at (obj r) (codes "architectures")) c2.architecture;
      }

  unfoldable pub validate : Glm52Config Num → Result ConfigError (Glm52Config Num)
  validate c = do
    check (int_lt (pos 0) c.hidden_size && int_lt (pos 0) c.num_hidden_layers) bad_size
    rest ← divided (int_mod c.num_attention_heads c.num_key_value_heads)
    check (int_eq rest (pos 0)) bad_heads
    check (int_le c.num_experts_per_tok c.n_routed_experts) bad_experts
    ok c

  unfoldable pub read_config : Value Num → Glm52Config Num → Result ConfigError (Glm52Config Num)
  read_config r c = do
    let c1 = read_core r c
    head_dim ← read_head_dim r c1
    let c2 = record c1 { head_dim = head_dim }
    validate (read_ids r (read_dsa r (read_moe r (read_mla r c2))))

  abbrev pub parsed : Result Json.Error (Value Num) → Result ConfigError (Value Num)
  parsed (ok root) = ok root
  parsed (err e) = err (bad_json e)

  abbrev pub opened : Option Bytes → Result ConfigError Bytes
  opened none = err cannot_open
  opened (some text) = ok text

  unfoldable pub load_config :
      (Bytes → Option Num)
      → (read_file : Bytes → Option Bytes) → (default : Glm52Config Num) → (path : Bytes)
      → Result ConfigError (Glm52Config Num)
  load_config stod read_file default path = do
    text ← opened (read_file (config_path path))
    root ← parsed (parse stod text)
    check (is_object root) not_object
    read_config root default
