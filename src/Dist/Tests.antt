-- ===== src/Dist/Tests.antt =====
-- Ranks of src/nccl_comm.cpp on small environments, and the instances of their theorems.
use glmserve.Prelude.{
  ◌/◌, ◌<◌, ◌≡◌, refl, ◌↔◌, Option, none, some, [], ◌∷◌, ◌++◌, if◌then◌else◌, arith,
}
use glmserve.Prelude.Int.{ℤ, pos, int_div, int_mod}
use glmserve.Prelude.Bytes.{Bytes, codes, bytes_eq}
use glmserve.Prelude.Result.{ok, err, Gives}
use glmserve.Dist.{
  DistConfig, bad_tp_size, dist_config_from_env, read_env, env_int, env_int_any, partition_layers,
}
use glmserve.Dist.Ranks.{IsGrid, IsPlaced, dist_config_from_env-IsPlaced}
use glmserve.Dist.Pipeline.{SendsOn, pipeline_send_next-SendsOn}
use glmserve.Dist.Layers.{Owns, per_stage, partition_layers-Owns}
use glmserve.Dist.Hex.{hex_to_id, id_to_hex, hex_to_id-id_to_hex}

-- Rank 5 of 16 with 8 ranks in a stage.
abbrev getenv : Bytes → Option Bytes
getenv name =
    if bytes_eq name (codes "RANK")
    then some (5 ∷ [])
    else if bytes_eq name (codes "SLURM_NTASKS")
    then some (16 ∷ [])
    else if bytes_eq name (codes "GLMSERVE_TP_SIZE")
    then some (8 ∷ [])
    else none

abbrev atoi : Bytes → ℤ
atoi [] = pos 0
atoi (n ∷ v) = pos n

abbrev rank_5 : DistConfig
rank_5 = record {
  rank = pos 5;
  world_size = pos 16;
  tp_size = pos 8;
  pp_size = pos 2;
  local_rank = pos 0;
}

env_test : dist_config_from_env getenv atoi ≡ ok rank_5
unfolding dist_config_from_env read_env env_int env_int_any int_div int_mod
env_test = refl

bad_env_test :
    dist_config_from_env
      (λ name. if bytes_eq name (codes "GLMSERVE_TP_SIZE") then some (3 ∷ []) else none)
      atoi
    ≡ err bad_tp_size
unfolding dist_config_from_env read_env env_int env_int_any int_div int_mod
bad_env_test = refl

-- The last stage of four has no layer of five, and its range ends before it begins.
partition_test : partition_layers 5 3 4 ≡ record { begin = 6; end = 5 }
unfolding partition_layers
partition_test = refl

abbrev rank_5_grid : IsGrid rank_5
rank_5_grid = record {
  rank = 5;
  width = 8;
  size = 2;
  rank_is = refl;
  width_is = refl;
  size_is = refl;
  world_is = refl;
  wide = omega arith;
  inside = omega arith;
}

dist_config_from_env-IsPlaced_example : Gives IsPlaced (dist_config_from_env getenv atoi)
dist_config_from_env-IsPlaced_example = dist_config_from_env-IsPlaced getenv atoi

pipeline_send_next-SendsOn_example : SendsOn rank_5 rank_5_grid
pipeline_send_next-SendsOn_example = pipeline_send_next-SendsOn rank_5 rank_5_grid (omega arith)

partition_layers-Owns_example :
    (70 / per_stage 78 2 < 2) × (Owns (partition_layers 78 1 2) 70 ↔ (1 ≡ 70 / per_stage 78 2))
partition_layers-Owns_example = partition_layers-Owns 78 2 1 70 (omega arith) (omega arith)

hex_to_id-id_to_hex_example :
    hex_to_id 2 (id_to_hex (0xAB ∷ 9 ∷ []) ++ codes "\n") ≡ some (0xAB ∷ 9 ∷ [])
hex_to_id-id_to_hex_example =
    hex_to_id-id_to_hex (0xAB ∷ 9 ∷ []) (codes "\n") (omega arith, (omega arith, tt))
