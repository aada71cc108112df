-- ===== src/Dist/Pipeline.antt =====
-- `pipeline_send_next` and `pipeline_recv_prev` of src/nccl_comm.cpp on a grid of ranks.
use glmserve.Prelude.{
  ℕ, suc, ◌+◌, ◌-◌, ◌*◌, ◌/◌, ◌≤◌, ◌<◌, ◌≡◌, refl, sym, ap, subst, ◌∙◌, false, some, ltb, lt→ltb,
  ltb→lt, Bool-cases, inl, inr, arith,
}
use glmserve.Prelude.Int.{pos}
use glmserve.Prelude.Result.{ok, err}
use glmserve.Dist.{
  DistConfig, last_stage, pp_stage, tp_rank, pipeline_send_next, pipeline_recv_prev, send_target,
  recv_source,
}
use glmserve.Dist.Ranks.{IsGrid, pp_stage-pos, tp_rank-pos}
use native.Mathlib.Nat.{
  add-div_right, add-mod_right, mul_comm, div-lt_iff_lt-mul, le-div_iff_mul-le,
}

-- Where a rank of a grid sends: the last stage throws, any other one sends to the rank of the same
-- place in the next stage, which receives from this rank.
pub data SendsOn (cfg : DistConfig) (g : IsGrid cfg) : Type 0 where
  at_end : suc (g.rank / g.width) ≡ g.size → pipeline_send_next cfg ≡ err last_stage → SendsOn cfg g
  onward :
      (dst : ℕ)
      → pipeline_send_next cfg ≡ ok (some (pos dst))
      → dst < g.width * g.size
      → pp_stage (record cfg { rank = pos dst }) ≡ pos (suc (g.rank / g.width))
      → tp_rank (record cfg { rank = pos dst }) ≡ tp_rank cfg
      → pipeline_recv_prev (record cfg { rank = pos dst }) ≡ ok (some cfg.rank)
      → SendsOn cfg g

-- The grid of another rank.
at_rank :
    (cfg : DistConfig) (g : IsGrid cfg) (r : ℕ)
    → r < g.width * g.size
    → IsGrid (record cfg { rank = pos r })
at_rank cfg g r h = record {
  rank = r;
  width = g.width;
  size = g.size;
  rank_is = refl;
  width_is = g.width_is;
  size_is = g.size_is;
  world_is = g.world_is;
  wide = g.wide;
  inside = h;
}

send_next :
    (cfg : DistConfig) (g : IsGrid cfg)
    → pipeline_send_next cfg
      ≡ send_target (pos g.rank) (pos g.width) (pos (g.width * g.size)) (pos g.size)
send_next cfg g =
    ap (λ z. send_target z cfg.tp_size cfg.world_size cfg.pp_size) g.rank_is
    ∙ ap (λ z. send_target (pos g.rank) z cfg.world_size cfg.pp_size) g.width_is
    ∙ ap (λ z. send_target (pos g.rank) (pos g.width) z cfg.pp_size) g.world_is
    ∙ ap (λ z. send_target (pos g.rank) (pos g.width) (pos (g.width * g.size)) z) g.size_is

recv_prev :
    (cfg : DistConfig) (g : IsGrid cfg)
    → pipeline_recv_prev cfg ≡ recv_source (pos g.rank) (pos g.width) (pos g.size)
recv_prev cfg g =
    ap (λ z. recv_source z cfg.tp_size cfg.pp_size) g.rank_is
    ∙ ap (λ z. recv_source (pos g.rank) z cfg.pp_size) g.width_is
    ∙ ap (λ z. recv_source (pos g.rank) (pos g.width) z) g.size_is

send_target-on :
    (r t w p : ℕ)
    → 1 < p
    → r + t < w
    → send_target (pos r) (pos t) (pos w) (pos p) ≡ ok (some (pos (r + t)))
unfolding send_target
send_target-on r t w p h l = rw (lt→ltb 1 p h, lt→ltb (r + t) w l) refl

send_target-end :
    (r t w p : ℕ) → 1 < p → w ≤ r + t → send_target (pos r) (pos t) (pos w) (pos p) ≡ err last_stage
unfolding send_target
send_target-end r t w p h l =
    let e : ltb (r + t) w ≡ false = ground arith in rw (lt→ltb 1 p h, e) refl

recv_source-back :
    (r t p : ℕ) → 1 < p → recv_source (pos (r + t)) (pos t) (pos p) ≡ ok (some (pos r))
unfolding recv_source
recv_source-back r t p h =
    let e : ltb (r + t) t ≡ false = ground arith in
    let o : r + t - t ≡ r = omega arith in
    let z : ltb r 0 ≡ false = ground arith in rw (lt→ltb 1 p h, e, o, z) refl

next_stage : (r t : ℕ) → 0 < t → (r + t) / t ≡ suc (r / t)
next_stage r t h = add-div_right r h ∙ (omega arith)

last_digit : (r t p : ℕ) → 0 < t → r < t * p → t * p ≤ r + t → suc (r / t) ≡ p
last_digit r t p h inside above =
    let upper : r / t < p = (div-lt_iff_lt-mul h).1 (subst (λ x. r < x) (mul_comm t p) inside) in
    let lower : p ≤ (r + t) / t =
      (le-div_iff_mul-le h).1 (subst (λ x. x ≤ r + t) (mul_comm t p) above) in
    omega (arith, next_stage r t h)

-- On a grid of more than one stage every rank but those of the last stage sends to the rank of the
-- same place in the next stage, which receives from it; a rank of the last stage throws.
pub pipeline_send_next-SendsOn : (cfg : DistConfig) (g : IsGrid cfg) → 1 < g.size → SendsOn cfg g
unfolding at_rank
pipeline_send_next-SendsOn cfg g h = elim (Bool-cases (ltb (g.rank + g.width) (g.width * g.size))) [
  | inl y ↦
      let below = ltb→lt (g.rank + g.width) (g.width * g.size) y in
      let next = at_rank cfg g (g.rank + g.width) below in
      onward (g.rank + g.width) (send_next cfg g ∙ send_target-on g.rank g.width _ g.size h below)
        below (pp_stage-pos _ next ∙ ap pos (next_stage g.rank g.width g.wide))
        (tp_rank-pos _ next ∙ ap pos (add-mod_right g.rank g.width) ∙ sym (tp_rank-pos cfg g))
        (recv_prev _ next
          ∙ recv_source-back g.rank g.width g.size h
          ∙ ap (λ z. ok (some z)) (sym g.rank_is))
  | inr n ↦
      let above : g.width * g.size ≤ g.rank + g.width = ground arith in
      at_end (last_digit g.rank g.width g.size g.wide g.inside above)
        (send_next cfg g ∙ send_target-end g.rank g.width _ g.size h above)
]
