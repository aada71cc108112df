-- ===== src/Linear/Columns.antt =====
-- A column-parallel layer: the ranks' outputs, one behind the other, are the outputs of the layer.
use glmserve.Prelude.{
  ℕ, zero, suc, ◌+◌, ◌*◌, ◌/◌, ◌%◌, ◌≤◌, ◌<◌, ◌≡◌, refl, sym, ap, ◌∙◌, true, false, ◌⊎◌, inl, inr,
  List, [], ◌∷◌, ◌++◌, length, drop, take, get_or, leb, arith,
}
use glmserve.Prelude.Result.{Result, ok, ◌>>=◌}
use glmserve.Linear.{
  Scalar, Linear, slice, is_set, has_f32, column_shard, shard_linear_columns, dot, with_bias,
  output, has_bias, outputs, forward_token, LinearError,
}
use glmserve.Linear.Slices.{slice-slice, length-slice}
use native.Mathlib.Omega.{div_any}
use native.Mathlib.Nat.{add-mul, suc-mul, mul-pos, mul-le-mul_right}

-- A layer in `float`s, of `out_features` rows of `in_features` weights, with a bias or without.
pub record IsShaped {S : Type 0} (l : Linear S) : Type 0 where
  pub rows : 0 < l.out_features
  pub columns : 0 < l.in_features
  pub weights : length l.w ≡ l.out_features * l.in_features
  pub biases : (l.b ≡ []) ⊎ (length l.b ≡ l.out_features)

module _ {S : Type 0} (s : Scalar S) (l : Linear S) where
  -- The outputs of the first `ranks` ranks of a group of `tp_size`, one behind the other.
  unfoldable pub gathered : List S → (ranks tp_size : ℕ) → Result LinearError (List S)
  gathered xt zero tp_size = ok []
  gathered xt (suc ranks) tp_size = do
    front ← gathered xt ranks tp_size
    shard ← shard_linear_columns l ranks tp_size
    ok (front ++ forward_token s shard xt)

module _ {S : Type 0} (s : Scalar S) (l : Linear S) (xt : List S) where
  outputs-add :
      (o m n : ℕ) → outputs s l xt o (m + n) ≡ outputs s l xt o m ++ outputs s l xt (o + m) n
  unfolding outputs
  outputs-add o zero n =
      let e : 0 + n ≡ n = omega arith in let i : o + 0 ≡ o = omega arith in rw (e, i) refl
  outputs-add o (suc m) n =
      let e : suc m + n ≡ suc (m + n) = omega arith in
      let i : o + suc m ≡ suc o + m = omega arith in
      rw (e, i) (ap (λ ys. output s l xt o ∷ ys) (outputs-add (suc o) m n))

pub is_set-pos : {A : Type 0} (xs : List A) → 0 < length xs → is_set xs ≡ true
is_set-pos [] h = absurd (omega arith)
is_set-pos (x ∷ xs) h = refl

get_or-take :
    {A : Type 0} (n o : ℕ) (xs : List A) (d : A) → o < n → get_or (take n xs) o d ≡ get_or xs o d
get_or-take zero o xs d h = absurd (omega arith)
get_or-take (suc n) o [] d h = refl
get_or-take (suc n) zero (x ∷ xs) d h = refl
get_or-take (suc n) (suc o) (x ∷ xs) d h = get_or-take n o xs d (omega arith)

get_or-drop :
    {A : Type 0} (r o : ℕ) (xs : List A) (d : A) → get_or (drop r xs) o d ≡ get_or xs (r + o) d
get_or-drop zero o xs d = let e : 0 + o ≡ o = omega arith in rw e refl
get_or-drop (suc r) o [] d = refl
get_or-drop (suc r) o (x ∷ xs) d =
    let e : suc r + o ≡ suc (r + o) = omega arith in rw e (get_or-drop r o xs d)

module _ {S : Type 0} (s : Scalar S) (l : Linear S) (shaped : IsShaped l) where
  with_bias-set :
      (b : List S) (o : ℕ) (acc : S)
      → 0 < length b
      → with_bias s b o acc ≡ s.plus acc (get_or b o s.nil)
  with_bias-set [] o acc h = absurd (omega arith)
  with_bias-set (c ∷ b) o acc h = refl

  -- The bias of a row of a rank.
  shard-bias :
      (n r o : ℕ) (acc : S)
      → r + n ≤ l.out_features
      → o < n
      → with_bias s (column_shard l n r).b o acc ≡ with_bias s l.b (r + o) acc
  unfolding column_shard
  shard-bias n r o acc h k = elim shaped.biases [
    | inl e ↦ rw e refl
    | inr e ↦
        let some : 0 < length l.b = omega (arith, shaped.rows) in
        let set : has_bias l ≡ true = is_set-pos l.b some in
        let part : 0 < length (slice r n l.b) = omega (arith, length-slice r n l.b (omega arith)) in
        rw set (
          with_bias-set (slice r n l.b) o acc part
          ∙ ap (s.plus acc) (get_or-take n o (drop r l.b) s.nil k ∙ get_or-drop r o l.b s.nil)
          ∙ sym (with_bias-set l.b (r + o) acc some))
  ]

  shard-weights :
      (n r o : ℕ)
      → r + n ≤ l.out_features
      → o < n
      → slice (o * l.in_features) l.in_features (column_shard l n r).w
        ≡ slice ((r + o) * l.in_features) l.in_features l.w
  unfolding column_shard
  shard-weights n r o h k =
      let in_f = l.in_features in
      let set : has_f32 l ≡ true =
        is_set-pos l.w (omega (arith, shaped.weights, mul-pos shaped.rows shaped.columns)) in
      let inside : o * in_f + in_f ≤ n * in_f =
        omega (arith, suc-mul o in_f, mul-le-mul_right in_f k) in
      let sum : r * in_f + o * in_f ≡ (r + o) * in_f = sym (add-mul r o in_f) in
      rw (set, slice-slice (o * in_f) in_f (r * in_f) (n * in_f) l.w inside, sum) refl

  output-shard :
      (xt : List S) (out_l r o : ℕ)
      → r + out_l ≤ l.out_features
      → o < out_l
      → output s (column_shard l out_l r) xt o ≡ output s l xt (r + o)
  unfolding column_shard
  output-shard xt out_l r o h k =
      shard-bias out_l r o _ h k
      ∙ ap (λ ws. with_bias s l.b (r + o) (dot s s.nil xt ws)) (shard-weights out_l r o h k)

  -- The outputs of a rank are those of its rows of the layer.
  outputs-shard :
      (xt : List S) (out_l r o n : ℕ)
      → r + out_l ≤ l.out_features
      → o + n ≤ out_l
      → outputs s (column_shard l out_l r) xt o n ≡ outputs s l xt (r + o) n
  unfolding outputs
  outputs-shard xt out_l r o zero h k = refl
  outputs-shard xt out_l r o (suc n) h k =
      let i : suc (r + o) ≡ r + suc o = omega arith in
      rw
        (
          output-shard xt out_l r o h (omega arith),
          outputs-shard xt out_l r (suc o) n h (omega arith),
          i,
        )
        refl

  shard-ok :
      (rank tp : ℕ)
      → 1 < tp
      → l.out_features % tp ≡ 0
      → shard_linear_columns l rank tp
        ≡ ok (column_shard l (l.out_features / tp) (rank * (l.out_features / tp)))
  unfolding shard_linear_columns
  shard-ok rank tp h d =
      let one : leb tp 1 ≡ false = ground arith in
      let set : is_set l.w ≡ true =
        is_set-pos l.w (omega (arith, shaped.weights, mul-pos shaped.rows shaped.columns)) in
      rw (one, set, d) refl

  -- The outputs of one more rank.
  rank_behind :
      (xt : List S) (out_l r : ℕ)
      → r + out_l ≤ l.out_features
      → outputs s l xt 0 r ++ forward_token s (column_shard l out_l r) xt
        ≡ outputs s l xt 0 (r + out_l)
  unfolding column_shard
  rank_behind xt out_l r h =
      let i : r + 0 ≡ 0 + r = omega arith in
      ap (λ ys. outputs s l xt 0 r ++ ys)
        (outputs-shard xt out_l r 0 out_l h (omega arith) ∙ ap (λ o. outputs s l xt o out_l) i)
      ∙ sym (outputs-add s l xt 0 r out_l)

  gathered-outputs :
      (xt : List S) (ranks tp : ℕ)
      → 1 < tp
      → l.out_features % tp ≡ 0
      → ranks ≤ tp
      → gathered s l xt ranks tp ≡ ok (outputs s l xt 0 (ranks * (l.out_features / tp)))
  unfolding gathered outputs
  gathered-outputs xt zero tp h d k =
      let e : 0 * (l.out_features / tp) ≡ 0 = omega arith in rw e refl
  gathered-outputs xt (suc ranks) tp h d k =
      let out_l = l.out_features / tp in
      let next : ranks * out_l + out_l ≡ suc ranks * out_l = sym (suc-mul ranks out_l) in
      let inside : ranks * out_l + out_l ≤ l.out_features =
        omega (arith, suc-mul ranks out_l, mul-le-mul_right out_l k, div_any l.out_features tp) in
      rw (gathered-outputs xt ranks tp h d (omega arith), shard-ok ranks tp h d)
        (ap ok (rank_behind xt out_l (ranks * out_l) inside ∙ ap (outputs s l xt 0) next))

  -- Where the group of ranks divides the rows of a layer, the ranks' outputs for a token, one behind
  -- the other, are the outputs of the layer.
  pub gathered-forward_token :
      (xt : List S) (tp_size : ℕ)
      → 1 < tp_size
      → l.out_features % tp_size ≡ 0
      → gathered s l xt tp_size tp_size ≡ ok (forward_token s l xt)
  gathered-forward_token xt tp h d =
      let whole : tp * (l.out_features / tp) ≡ l.out_features =
        omega (arith, div_any l.out_features tp) in
      gathered-outputs xt tp tp h d (omega arith) ∙ ap (λ n. ok (outputs s l xt 0 n)) whole
