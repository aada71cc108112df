-- ===== src/Dist/Layers.antt =====
-- `partition_layers` of src/nccl_comm.cpp gives every layer to exactly one stage.
use glmserve.Prelude.{
  ℕ, ◌+◌, ◌-◌, ◌*◌, ◌/◌, min, ◌≤◌, ◌<◌, ◌≡◌, sym, ap, ◌↔◌, leb, leb→le, Bool-cases, inl, inr, arith,
}
use glmserve.Dist.{LayerRange, partition_layers}
use native.Mathlib.Nat.{
  div-lt_iff_lt-mul, le-div_iff_mul-le, lt-div-mul-add, div-eq_of_lt-le, mul_comm, add-mul, one-mul,
}

-- The layers of a stage but the last, the quotient rounded up.
abbrev pub per_stage : ℕ → ℕ → ℕ
per_stage num_layers stages = (num_layers + stages - 1) / stages

unfoldable pub Owns : LayerRange → ℕ → Type 0
Owns range layer = (range.begin ≤ layer) × (layer < range.end)

per_stage-pos : (n stages : ℕ) → 0 < stages → 0 < n → 0 < per_stage n stages
per_stage-pos n stages h k =
    let e : 1 ≤ per_stage n stages = (le-div_iff_mul-le h).1 (omega arith) in omega arith

per_stage-enough : (n stages : ℕ) → 0 < stages → n ≤ stages * per_stage n stages
per_stage-enough n stages h =
    let e = lt-div-mul-add {a = n + stages - 1} h in
    let o = mul_comm stages (per_stage n stages) in omega arith

-- Within a stage.
digit_iff : (s l per : ℕ) → 0 < per → ((s * per ≤ l) × (l < s * per + per)) ↔ (s ≡ l / per)
digit_iff s l per h = (
  λ k.
      sym (div-eq_of_lt-le per k.0 (let e = add-mul s 1 per in let o = one-mul per in omega arith)),
  λ e.
      let low : s * per ≤ l = (le-div_iff_mul-le h).0 (omega arith) in
      let up = lt-div-mul-add {a = l} h in
      let o : l / per * per ≡ s * per = ap (λ q. q * per) (sym e) in (low, omega arith),
)

-- The last stage ends where the layers end.
Owns-iff :
    (n s l per : ℕ)
    → 0 < per
    → l < n
    → Owns (record { begin = s * per; end = min n (s * per + per) }) l ↔ (s ≡ l / per)
unfolding Owns
Owns-iff n s l per h k = (
  λ o. (digit_iff s l per h).0 (o.0, omega (arith, o.1)),
  λ e. let o = (digit_iff s l per h).1 e in (o.0, omega (arith, o.1)),
)

-- Every layer of the model has one stage that owns it: the quotient of the layer by the layers per
-- stage, which is a stage in range; no other stage owns the layer.
pub partition_layers-Owns :
    (num_layers stages stage layer : ℕ)
    → stage < stages
    → layer < num_layers
    → (layer / per_stage num_layers stages < stages)
      × (Owns (partition_layers num_layers stage stages) layer
          ↔ (stage ≡ layer / per_stage num_layers stages))
unfolding partition_layers Owns
partition_layers-Owns n p s l h k =
    let per = per_stage n p in
    let some = per_stage-pos n p (omega arith) (omega arith) in
    let below : l / per < p =
      (div-lt_iff_lt-mul some).1 (omega (arith, per_stage-enough n p (omega arith))) in
    elim (Bool-cases (leb p 1)) [
      | inl e ↦ rw e (below, (λ o. omega (arith, leb→le p 1 e), λ q. (omega arith, k)))
      | inr e ↦ rw e (below, Owns-iff n s l per some k)
    ]
