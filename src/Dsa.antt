-- ===== src/Dsa.antt =====
-- How GLM52Model::forward (src/model_glm52.cpp) hands the indices of sparse attention from one stage
-- of the pipeline to the next: the buffer of `int`, with -1 where a row is shorter. Layers, tokens
-- and positions are never negative, and a pipeline of several stages has its communicator.
pub mod Handover
mod Tests
use glmserve.Prelude.{
  ℕ, zero, suc, ◌-◌, ◌+◌, Bool, true, false, not, ◌&&◌, List, [], ◌∷◌, ◌++◌, Option, none, some,
  if◌then◌else◌, map, ltb, ◌==◌, length, take, drop, replicate, get_or,
}
use glmserve.Prelude.Int.{ℤ, pos, negsuc, minus_one, to_int32}
use glmserve.Prelude.Bytes.{Bytes, codes, bytes_eq}
use mathlib.Core.Option

-- The fields of the configuration that decide.
pub record DsaConfig : Type 0 where
  pub use_dsa : Bool
  pub index_topk : ℕ
  pub indexer_types : List Bytes

-- A layer that uses the indices of a layer before it.
unfoldable pub shared_dsa_layer : DsaConfig → (global_layer : ℕ) → Bool
shared_dsa_layer c global_layer =
    c.use_dsa
    && (ltb global_layer (length c.indexer_types)
        && not (bytes_eq (get_or c.indexer_types global_layer []) (codes "full")))

abbrev pub sparse_dsa : DsaConfig → (ctx_after : ℕ) → Bool
sparse_dsa c ctx_after = c.use_dsa && ltb c.index_topk ctx_after

-- The part of the buffer for one token: at most `topk` indices, then -1.
unfoldable pub flat_row : (topk : ℕ) → List ℕ → List ℤ
flat_row topk row =
    let m = take topk row in map (λ v. to_int32 (pos v)) m ++ replicate (topk - length m) minus_one

unfoldable pub flat : (topk : ℕ) → List (List ℕ) → List ℤ
flat topk [] = []
flat topk (row ∷ rows) = flat_row topk row ++ flat topk rows

-- The entries that are kept of the part for one token.
unfoldable pub kept : List ℤ → List ℕ
kept [] = []
kept (pos v ∷ vs) = v ∷ kept vs
kept (negsuc v ∷ vs) = kept vs

unfoldable pub rows_of : (n topk : ℕ) → List ℤ → List (List ℕ)
rows_of zero topk buffer = []
rows_of (suc n) topk buffer = kept (take topk buffer) ∷ rows_of n topk (drop topk buffer)

-- What a stage of `count` layers from `layer_begin` on sends for `n` tokens, if it sends.
unfoldable pub send_indices :
    DsaConfig → (n ctx_after layer_begin count : ℕ) → List (List ℕ) → Option (List ℤ)
send_indices c n ctx_after layer_begin count rows =
    if sparse_dsa c ctx_after && (shared_dsa_layer c (layer_begin + count) && length rows == n)
    then some (flat c.index_topk rows)
    else none

-- The indices that a stage starts with; `none` where it waits for a message that is never sent.
unfoldable pub receive_indices :
    DsaConfig
    → (n ctx_after : ℕ) (is_first_stage : Bool) (layer_begin : ℕ) → Option (List ℤ)
    → Option (List (List ℕ))
receive_indices c n ctx_after is_first_stage layer_begin message =
    if sparse_dsa c ctx_after && (not is_first_stage && shared_dsa_layer c layer_begin)
    then Option.map (rows_of n c.index_topk) message
    else some []
