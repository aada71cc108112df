-- ===== src/Linear/Rows.antt =====
-- A row-parallel layer: what every rank computes for its share of the input, whatever the arithmetic
-- of the scalars.
use glmserve.Prelude.{
  ℕ, zero, suc, ◌+◌, ◌*◌, ◌/◌, ◌%◌, ◌≤◌, ◌<◌, ◌≡◌, refl, sym, ap, ◌∙◌, true, false, inl, inr, List,
  [], ◌∷◌, length, replicate, leb, ◌==◌, Bool-cases, arith,
}
use glmserve.Prelude.Result.{ok, ◌>>=◌}
use glmserve.Linear.{
  Scalar, Linear, slice, is_set, has_f32, has_bias, row_shard, shard_linear_rows, dot, with_bias,
  outputs, forward_token,
}
use glmserve.Linear.Columns.{IsShaped, is_set-pos}
use glmserve.Linear.Slices.{slice-slice, slice-gather}
use native.Mathlib.Omega.{div_any}
use native.Mathlib.Nat.{suc-mul, mul-pos, mul-le-mul_right}

module _ {S : Type 0} (s : Scalar S) (l : Linear S) where
  -- The bias of the layer counts on the first rank; the others add zeros.
  abbrev pub rank_bias : (rank : ℕ) → List S
  rank_bias zero = l.b
  rank_bias (suc rank) = replicate (length l.b) s.nil

  -- The sum over the `n` columns from `c0` on, for the outputs `o`, `o + 1`, ..., `m` of them.
  unfoldable pub partial_sums : List S → (rank c0 n o m : ℕ) → List S
  partial_sums xt rank c0 n o zero = []
  partial_sums xt rank c0 n o (suc m) =
      with_bias s (rank_bias rank) o
        (dot s s.nil (slice c0 n xt) (slice c0 n (slice (o * l.in_features) l.in_features l.w)))
      ∷ partial_sums xt rank c0 n (suc o) m

module _ {S : Type 0} (s : Scalar S) (l : Linear S) (shaped : IsShaped l) (xt : List S) where
  -- What rank `rank` keeps of a row.
  shard-row :
      (rank in_l c0 o : ℕ)
      → c0 + in_l ≤ l.in_features
      → o < l.out_features
      → slice (o * in_l) in_l (row_shard s l rank in_l c0).w
        ≡ slice c0 in_l (slice (o * l.in_features) l.in_features l.w)
  unfolding row_shard
  shard-row rank in_l c0 o h k =
      let set : has_f32 l ≡ true =
        is_set-pos l.w (omega (arith, shaped.weights, mul-pos shaped.rows shaped.columns)) in
      rw set (
        slice-gather o l.out_features l.in_features c0 in_l l.w k h (omega (arith, shaped.weights))
        ∙ sym (slice-slice c0 in_l (o * l.in_features) l.in_features l.w h))

  shard-bias : (rank in_l c0 : ℕ) → (row_shard s l rank in_l c0).b ≡ rank_bias s l rank
  unfolding row_shard
  shard-bias zero in_l c0 = elim (Bool-cases (has_bias l)) [ inl e ↦ rw e refl | inr e ↦ rw e refl ]
  shard-bias (suc rank) in_l c0 = elim shaped.biases [
    | inl e ↦ rw e refl
    | inr e ↦
        let set : has_bias l ≡ true = is_set-pos l.b (omega (arith, shaped.rows)) in
        let not_first : (suc rank == 0) ≡ false = ground arith in rw (set, not_first) refl
  ]

  outputs-partial_sums :
      (rank in_l c0 o m : ℕ)
      → c0 + in_l ≤ l.in_features
      → o + m ≤ l.out_features
      → outputs s (row_shard s l rank in_l c0) (slice c0 in_l xt) o m
        ≡ partial_sums s l xt rank c0 in_l o m
  unfolding outputs partial_sums row_shard
  outputs-partial_sums rank in_l c0 o zero h k = refl
  outputs-partial_sums rank in_l c0 o (suc m) h k =
      ap (λ y. y ∷ outputs s (row_shard s l rank in_l c0) (slice c0 in_l xt) (suc o) m)
        (ap
            (λ b. with_bias s b o (
              dot s s.nil (slice c0 in_l xt)
                (slice (o * in_l) in_l (row_shard s l rank in_l c0).w)))
            (shard-bias rank in_l c0)
          ∙ ap (λ ws. with_bias s (rank_bias s l rank) o (dot s s.nil (slice c0 in_l xt) ws))
              (shard-row rank in_l c0 o h (omega arith)))
      ∙ ap
          (λ ys.
            with_bias s (rank_bias s l rank) o (
              dot s s.nil (slice c0 in_l xt)
                (slice c0 in_l (slice (o * l.in_features) l.in_features l.w)))
            ∷ ys)
          (outputs-partial_sums rank in_l c0 (suc o) m h (omega arith))

  forward_token-partial_sums :
      (rank in_l c0 : ℕ)
      → c0 + in_l ≤ l.in_features
      → forward_token s (row_shard s l rank in_l c0) (slice c0 in_l xt)
        ≡ partial_sums s l xt rank c0 in_l 0 l.out_features
  unfolding row_shard
  forward_token-partial_sums rank in_l c0 fits =
      outputs-partial_sums rank in_l c0 0 l.out_features fits (omega arith)

  shard-ok :
      (rank tp : ℕ)
      → 1 < tp
      → l.in_features % tp ≡ 0
      → l.quantized_int4 ≡ false
      → shard_linear_rows s l rank tp
        ≡ ok (row_shard s l rank (l.in_features / tp) (rank * (l.in_features / tp)))
  unfolding shard_linear_rows
  shard-ok rank tp h d q =
      let one : leb tp 1 ≡ false = ground arith in
      let set : is_set l.w ≡ true =
        is_set-pos l.w (omega (arith, shaped.weights, mul-pos shaped.rows shaped.columns)) in
      rw (one, set, d, q) refl

  -- Where the group of ranks divides the columns of a layer in `float`s, whose weights and biases
  -- have its shape, every rank of the group gets a shard, and its outputs for its columns of a token
  -- are the sums over these columns of the layer's own rows, in the order of the columns, with the
  -- layer's bias on rank 0 and zeros in its place on the others, whatever the arithmetic.
  pub shard_linear_rows-partial_sums :
      (rank tp_size : ℕ)
      → rank < tp_size
      → 1 < tp_size
      → l.in_features % tp_size ≡ 0
      → l.quantized_int4 ≡ false
      → (shard_linear_rows s l rank tp_size >>= λ shard. ok (
          forward_token s shard
            (slice (rank * (l.in_features / tp_size)) (l.in_features / tp_size) xt)))
        ≡ ok (
            partial_sums s l xt rank
              (rank * (l.in_features / tp_size))
              (l.in_features / tp_size)
              0
              l.out_features)
  shard_linear_rows-partial_sums rank tp k h d q =
      let in_l = l.in_features / tp in
      let c0 = rank * in_l in
      let next : c0 + in_l ≡ suc rank * in_l = sym (suc-mul rank in_l) in
      let fits : c0 + in_l ≤ l.in_features =
        omega (arith, next, mul-le-mul_right in_l k, div_any l.in_features tp) in
      ap (λ r. r >>= λ shard. ok (forward_token s shard (slice c0 in_l xt)))
        (shard-ok rank tp h d q)
      ∙ ap ok (forward_token-partial_sums rank in_l c0 fits)
