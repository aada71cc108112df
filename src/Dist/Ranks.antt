-- ===== src/Dist/Ranks.antt =====
-- The ranks of an accepted configuration of src/nccl_comm.cpp form a grid of pipeline stages by
-- tensor-parallel ranks, and neighbours in the pipeline send to and receive from each other.
use glmserve.Prelude.{
  ℕ, ◌+◌, ◌*◌, ◌/◌, ◌%◌, ◌<◌, ◌≡◌, refl, sym, ap, subst, ◌∙◌, Bool, true, false, ◌&&◌, Option,
  ltb→lt, arith,
}
use glmserve.Prelude.Int.{
  ℤ, pos, negsuc, int_eq, int_lt, int_le, int_eq-eq, int_div, int_mod, int_div-pos, int_mod-pos,
  ◌*ℤ◌,
}
use glmserve.Prelude.Bytes.{Bytes}
use glmserve.Prelude.Result.{Gives, gives, check-Gives}
use glmserve.Dist.{DistConfig, if_some, read_env, dist_config_from_env, divides, pp_stage, tp_rank}
use native.Mathlib.Nat.{div-lt_iff_lt-mul, mod-lt, div-add-mod', mul_comm}

-- `size` stages by `width` ranks, and the place of this rank.
pub record IsGrid (cfg : DistConfig) : Type 0 where
  pub rank : ℕ
  pub width : ℕ
  pub size : ℕ
  pub rank_is : cfg.rank ≡ pos rank
  pub width_is : cfg.tp_size ≡ pos width
  pub size_is : cfg.pp_size ≡ pos size
  pub world_is : cfg.world_size ≡ pos (width * size)
  pub wide : 0 < width
  pub inside : rank < width * size

-- The stage and the rank within it are the two digits of the rank.
pub record IsPlaced (cfg : DistConfig) : Type 0 where
  pub grid : IsGrid cfg
  pub stage_is : pp_stage cfg ≡ pos (grid.rank / grid.width)
  pub column_is : tp_rank cfg ≡ pos (grid.rank % grid.width)
  pub stage_below : grid.rank / grid.width < grid.size
  pub column_below : grid.rank % grid.width < grid.width
  pub rank_digits : grid.rank / grid.width * grid.width + grid.rank % grid.width ≡ grid.rank

nonneg : (z : ℤ) → int_le (pos 0) z ≡ true → (n : ℕ) × (z ≡ pos n)
nonneg (pos n) h = (n, refl)
nonneg (negsuc n) h = cc

positive : (z : ℤ) → int_lt (pos 0) z ≡ true → (n : ℕ) × (0 < n) × (z ≡ pos n)
positive (pos n) h = (n, ground arith, refl)
positive (negsuc n) h = cc

grid_of :
    (cfg : DistConfig) (r t p : ℕ)
    → cfg.rank ≡ pos r
    → cfg.tp_size ≡ pos t
    → cfg.pp_size ≡ pos p
    → 0 < t
    → int_lt cfg.rank cfg.world_size ≡ true
    → int_eq (cfg.tp_size *ℤ cfg.pp_size) cfg.world_size ≡ true
    → IsGrid cfg
grid_of cfg r t p er et ep ht below product =
    let world : cfg.world_size ≡ pos (t * p) =
      sym (int_eq-eq _ _ product) ∙ ap (λ z. z *ℤ cfg.pp_size) et ∙ ap (λ z. pos t *ℤ z) ep in
    let lt : int_lt (pos r) (pos (t * p)) ≡ true =
      subst (λ z. int_lt z (pos (t * p)) ≡ true) er
        (subst (λ z. int_lt cfg.rank z ≡ true) world below) in
    record {
      rank = r;
      width = t;
      size = p;
      rank_is = er;
      width_is = et;
      size_is = ep;
      world_is = world;
      wide = ht;
      inside = ltb→lt r (t * p) lt;
    }

both : (a b : Bool) → a && b ≡ true → (a ≡ true) × (b ≡ true)
both true b h = (refl, h)
both false b h = cc

IsGrid-checks :
    (cfg : DistConfig)
    → int_le (pos 0) cfg.rank && int_lt cfg.rank cfg.world_size ≡ true
    → int_lt (pos 0) cfg.tp_size ≡ true
    → int_lt (pos 0) cfg.pp_size && int_eq (cfg.tp_size *ℤ cfg.pp_size) cfg.world_size ≡ true
    → IsGrid cfg
IsGrid-checks cfg h k l =
    let (from, below) = both _ _ h in
    let (some_stages, product) = both _ _ l in
    let (r, er) = nonneg cfg.rank from in
    let (t, ht, et) = positive cfg.tp_size k in
    let (p, hp, ep) = positive cfg.pp_size some_stages in
    grid_of cfg r t p er et ep ht below product

pub pp_stage-pos : (cfg : DistConfig) (g : IsGrid cfg) → pp_stage cfg ≡ pos (g.rank / g.width)
unfolding pp_stage
pp_stage-pos cfg g =
    ap (λ z. if_some (int_div z cfg.tp_size)) g.rank_is
    ∙ ap (λ z. if_some (int_div (pos g.rank) z)) g.width_is
    ∙ ap if_some (int_div-pos g.rank g.width g.wide)

pub tp_rank-pos : (cfg : DistConfig) (g : IsGrid cfg) → tp_rank cfg ≡ pos (g.rank % g.width)
unfolding tp_rank
tp_rank-pos cfg g =
    ap (λ z. if_some (int_mod z cfg.tp_size)) g.rank_is
    ∙ ap (λ z. if_some (int_mod (pos g.rank) z)) g.width_is
    ∙ ap if_some (int_mod-pos g.rank g.width g.wide)

placed : (cfg : DistConfig) → IsGrid cfg → IsPlaced cfg
placed cfg g = record {
  grid = g;
  stage_is = pp_stage-pos cfg g;
  column_is = tp_rank-pos cfg g;
  stage_below =
      (div-lt_iff_lt-mul g.wide).1 (subst (λ x. g.rank < x) (mul_comm g.width g.size) g.inside);
  column_below = mod-lt g.rank g.wide;
  rank_digits = div-add-mod' g.rank g.width;
}

-- A configuration that is accepted is a grid of `pp_size` stages of `tp_size` ranks, with this rank
-- in it: its stage and its rank within the stage are in range and are the digits of the rank.
pub dist_config_from_env-IsPlaced :
    (getenv : Bytes → Option Bytes) (atoi : Bytes → ℤ)
    → Gives IsPlaced (dist_config_from_env getenv atoi)
unfolding dist_config_from_env
dist_config_from_env-IsPlaced getenv atoi =
    let cfg = read_env getenv atoi in
    check-Gives (int_le (pos 0) cfg.rank && int_lt cfg.rank cfg.world_size) _ λ h.
      check-Gives (int_lt (pos 0) cfg.tp_size && divides getenv atoi cfg.tp_size cfg.world_size) _
        λ k.
          check-Gives
            (int_lt (pos 0) cfg.pp_size && int_eq (cfg.tp_size *ℤ cfg.pp_size) cfg.world_size) _
            λ l. gives cfg (placed cfg (IsGrid-checks cfg h (both _ _ k).0 l))
