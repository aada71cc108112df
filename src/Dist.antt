-- ===== src/Dist.antt =====
-- The ranks of src/nccl_comm.cpp and include/nccl_comm.hpp: the configuration from the environment,
-- the layers of a pipeline stage, the neighbours in the pipeline, and the printed form of the id by
-- which the ranks meet. Products of `int`s do not overflow here.
pub mod Ranks
pub mod Pipeline
pub mod Layers
pub mod Hex
mod Tests
use glmserve.Prelude.{
  ℕ, zero, suc, ◌+◌, ◌-◌, ◌*◌, ◌/◌, ◌%◌, min, Bool, true, false, not, ◌&&◌, ◌||◌, Option, none,
  some, List, [], ◌∷◌, ltb, leb, ◌==◌, if◌then◌else◌,
}
use glmserve.Prelude.Int.{
  ℤ, pos, negsuc, int_eq, int_lt, int_le, int_div, int_mod, ◌*ℤ◌, ◌+ℤ◌, ◌-ℤ◌,
}
use glmserve.Prelude.Bytes.{Bytes, codes}
use glmserve.Prelude.Result.{Result, ok, err, ◌>>=◌, ◌>>◌, check}

pub record DistConfig : Type 0 where
  pub rank : ℤ
  pub world_size : ℤ
  pub tp_size : ℤ
  pub pp_size : ℤ
  pub local_rank : ℤ

abbrev pub one_rank : DistConfig
one_rank = record {
  rank = pos 0;
  world_size = pos 1;
  tp_size = pos 1;
  pp_size = pos 1;
  local_rank = pos 0;
}

pub data DistError : Type 0 where
  bad_rank bad_tp_size bad_pp_size last_stage first_stage : DistError

-- 0 in place of a quotient that is not there.
abbrev pub if_some : Option ℤ → ℤ
if_some none = pos 0
if_some (some z) = z

-- `getenv` and `atoi` are parameters; an empty value counts as none.
module _ (getenv : Bytes → Option Bytes) (atoi : Bytes → ℤ) where
  abbrev pub set_value : Option Bytes → Option Bytes
  set_value none = none
  set_value (some []) = none
  set_value (some (c ∷ v)) = some (c ∷ v)

  unfoldable pub env_int : Bytes → ℤ → ℤ
  env_int name fallback = elim (set_value (getenv name)) [ none ↦ fallback | some v ↦ atoi v ]

  unfoldable pub env_int_any : List Bytes → ℤ → ℤ
  env_int_any [] fallback = fallback
  env_int_any (name ∷ names) fallback = elim (set_value (getenv name)) [
    | none ↦ env_int_any names fallback
    | some v ↦ atoi v
  ]

  -- The quotient stands behind a test that the divisor is positive.
  abbrev pub quotient : ℤ → ℤ → ℤ
  quotient a b = if_some (int_div a b)

  unfoldable pub read_env : DistConfig
  read_env =
      let world =
        env_int_any (codes "GLMSERVE_WORLD_SIZE" ∷ codes "WORLD_SIZE" ∷ codes "SLURM_NTASKS" ∷ [])
          (pos 1) in
      let tp = env_int (codes "GLMSERVE_TP_SIZE") (if int_lt (pos 0) world then world else pos 1) in
      let pp =
        env_int (codes "GLMSERVE_PP_SIZE")
          (if int_lt (pos 0) tp then quotient world tp else pos 1) in
      record {
        rank =
            env_int_any (codes "GLMSERVE_RANK" ∷ codes "RANK" ∷ codes "SLURM_PROCID" ∷ []) (pos 0);
        world_size = world;
        tp_size = tp;
        pp_size = if int_le pp (pos 0) then pos 1 else pp;
        local_rank =
            env_int_any
              (codes "GLMSERVE_LOCAL_RANK" ∷ codes "LOCAL_RANK" ∷ codes "SLURM_LOCALID" ∷ [])
              (pos 0);
      }

  abbrev pub divides : ℤ → ℤ → Bool
  divides b a = elim (int_mod a b) [ none ↦ false | some r ↦ int_eq r (pos 0) ]

  -- `%` stands behind a test that the divisor is positive.
  unfoldable pub dist_config_from_env : Result DistError DistConfig
  dist_config_from_env = do
    let cfg = read_env
    check (int_le (pos 0) cfg.rank && int_lt cfg.rank cfg.world_size) bad_rank
    check (int_lt (pos 0) cfg.tp_size && divides cfg.tp_size cfg.world_size) bad_tp_size
    check (int_lt (pos 0) cfg.pp_size && int_eq (cfg.tp_size *ℤ cfg.pp_size) cfg.world_size)
        bad_pp_size
    ok cfg

-- With a size of 0 the stage and the rank in it are 0.
unfoldable pub pp_stage : DistConfig → ℤ
pp_stage cfg = if_some (int_div cfg.rank cfg.tp_size)

unfoldable pub tp_rank : DistConfig → ℤ
tp_rank cfg = if_some (int_mod cfg.rank cfg.tp_size)

abbrev pub is_first_stage : DistConfig → Bool
is_first_stage cfg = int_eq (pp_stage cfg) (pos 0)

abbrev pub is_last_stage : DistConfig → Bool
is_last_stage cfg = int_eq (pp_stage cfg) (cfg.pp_size -ℤ pos 1)

pub record LayerRange : Type 0 where
  pub begin : ℕ
  pub end : ℕ

-- The sizes and the stage are those of a configuration that was accepted, which are not negative.
unfoldable pub partition_layers : (num_layers stage stages : ℕ) → LayerRange
partition_layers num_layers stage stages =
    if leb stages 1
    then record { begin = 0; end = num_layers }
    else (let per = (num_layers + stages - 1) / stages in
        record { begin = stage * per; end = min num_layers (stage * per + per) })

-- The rank that `pipeline_send_next` sends to, and the one that `pipeline_recv_prev` receives from;
-- with one stage neither does anything.
unfoldable pub send_target : (rank width world stages : ℤ) → Result DistError (Option ℤ)
send_target rank width world stages =
    if int_le stages (pos 1)
    then ok none
    else (do check (int_lt (rank +ℤ width) world) last_stage; ok (some (rank +ℤ width)))

unfoldable pub recv_source : (rank width stages : ℤ) → Result DistError (Option ℤ)
recv_source rank width stages =
    if int_le stages (pos 1)
    then ok none
    else (do check (int_le (pos 0) (rank -ℤ width)) first_stage; ok (some (rank -ℤ width)))

abbrev pub pipeline_send_next : DistConfig → Result DistError (Option ℤ)
pipeline_send_next cfg = send_target cfg.rank cfg.tp_size cfg.world_size cfg.pp_size

abbrev pub pipeline_recv_prev : DistConfig → Result DistError (Option ℤ)
pipeline_recv_prev cfg = recv_source cfg.rank cfg.tp_size cfg.pp_size
