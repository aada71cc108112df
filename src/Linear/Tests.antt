-- ===== src/Linear/Tests.antt =====
-- Linear layers of src/model_glm52.cpp over the natural numbers, and the instances of their theorems.
use glmserve.Prelude.{ℕ, ◌+◌, ◌*◌, ◌≡◌, refl, false, List, [], ◌∷◌, replicate, inr, arith}
use glmserve.Prelude.Result.{ok, err, ◌>>=◌}
use glmserve.Linear.{
  Scalar, Linear, not_divisible, linear_forward, forward_tokens, outputs, dot, repack, get_q, set_q,
  shard_linear_columns, shard_linear_rows, slice, forward_token,
}
use glmserve.Linear.Columns.{IsShaped, gathered, gathered-forward_token}
use glmserve.Linear.Rows.{partial_sums, shard_linear_rows-partial_sums}
use glmserve.Linear.Nibbles.{repack-get_q}

abbrev numbers : Scalar ℕ
numbers = record { nil = 0; plus = λ a b. a + b; times = λ a b. a * b }

-- Two outputs of four inputs.
abbrev layer : Linear ℕ
layer = record {
  w = 1 ∷ 2 ∷ 3 ∷ 4 ∷ 5 ∷ 6 ∷ 7 ∷ 8 ∷ [];
  b = 10 ∷ 20 ∷ [];
  qweight = [];
  scales = [];
  out_features = 2;
  in_features = 4;
  group_size = 0;
  quantized_int4 = false;
  has_q = false;
}

abbrev token : List ℕ
token = 1 ∷ 1 ∷ 0 ∷ 1 ∷ []

linear_forward_test :
    linear_forward numbers layer (1 ∷ 0 ∷ 0 ∷ 0 ∷ 0 ∷ 0 ∷ 0 ∷ 1 ∷ []) 2
    ≡ ok (11 ∷ 25 ∷ 14 ∷ 28 ∷ [])
unfolding linear_forward forward_tokens outputs dot
linear_forward_test = refl

not_divisible_test : shard_linear_columns layer 0 3 ≡ err not_divisible
unfolding shard_linear_columns
not_divisible_test = refl

-- Three packed columns from the second on.
repack_test : repack (0x21 ∷ 0x43 ∷ []) 1 0 3 (replicate 2 0) ≡ 0x32 ∷ 0x04 ∷ []
unfolding repack get_q set_q
repack_test = refl

layer-IsShaped : IsShaped layer
layer-IsShaped = record {
  rows = omega arith;
  columns = omega arith;
  weights = refl;
  biases = inr refl;
}

gathered-forward_token_example :
    gathered numbers layer token 2 2 ≡ ok (forward_token numbers layer token)
gathered-forward_token_example =
    gathered-forward_token numbers layer layer-IsShaped token 2 (omega arith) refl

shard_linear_rows-partial_sums_example :
    (shard_linear_rows numbers layer 1 2 >>= λ shard.
    ok (forward_token numbers shard (slice 2 2 token)))
    ≡ ok (partial_sums numbers layer token 1 2 2 0 2)
shard_linear_rows-partial_sums_example =
    shard_linear_rows-partial_sums numbers layer layer-IsShaped token 1 2 (omega arith)
      (omega arith) refl refl

repack-get_q_example :
    get_q (repack (0x21 ∷ 0x43 ∷ []) 1 0 3 (replicate 2 0)) 2 ≡ get_q (0x21 ∷ 0x43 ∷ []) 3
repack-get_q_example =
    repack-get_q (0x21 ∷ 0x43 ∷ []) 1 0 3 (replicate 2 0) 2 (omega arith, (omega arith, tt))
      (omega arith) (omega arith) (omega arith)
