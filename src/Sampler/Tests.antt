-- ===== src/Sampler/Tests.antt =====
-- `Sampler::sample` of src/sampler.cpp over natural numbers, and the instances of its theorems.
use glmserve.Prelude.{ℕ, ◌+◌, ◌-◌, ◌*◌, ◌/◌, ◌≡◌, refl, some, List, [], ◌∷◌, ltb, leb, ◌==◌, arith}
use glmserve.Prelude.Int.{pos}
use glmserve.Prelude.Maps.{lookup, assign}
use glmserve.Sampler.{
  Float, SampleParams, sample, sample_from, penalize, penalize_all, penalized, count_tokens,
  max_element, max_from, candidates, iota, weights, total, nucleus, draw, before,
}
use glmserve.Sampler.Sorting.{IsWeakOrder, sort_by, insert_by, sort_by-IsSort}
use glmserve.Sampler.Candidates.{Chosen, limit_of, sample-Chosen}
use glmserve.Sampler.Greedy.{IsStrict, IsLargest, sample-IsLargest}

-- Numbers with an `exp` of that name only.
abbrev numbers : Float ℕ
numbers = record {
  nought = 0;
  unit = 1;
  add = λ a b. a + b;
  sub = λ a b. a - b;
  mul = λ a b. a * b;
  div = λ a b. a / b;
  exp = λ a. a + 10;
  of_int = λ n. n;
  less = ltb;
  at_most = leb;
  same = ◌==◌;
}

abbrev top_2 : SampleParams ℕ
top_2 = record {
  temperature = 1;
  top_p = 1;
  top_k = pos 2;
  repetition_penalty = 1;
  frequency_penalty = 2;
  presence_penalty = 0;
}

abbrev cold : SampleParams ℕ
cold = record top_2 { temperature = 0 }

abbrev logits : List ℕ
logits = 3 ∷ 9 ∷ 5 ∷ 8 ∷ []

-- The token 1 has been seen once, so that its logit is 7.
greedy_test : sample numbers sort_by cold (pos 1 ∷ []) 0 logits ≡ (some 3, 3 ∷ 7 ∷ 5 ∷ 8 ∷ [])
unfolding sample penalize penalize_all penalized count_tokens lookup assign max_element max_from
greedy_test = refl

sample_test : (sample numbers sort_by top_2 (pos 1 ∷ []) 1 logits).0 ≡ some 1
unfolding sample sample_from penalize penalize_all penalized count_tokens lookup assign candidates
    iota sort_by insert_by weights total nucleus draw
sample_test = refl

ltb-IsStrict : IsStrict numbers
ltb-IsStrict = record { irreflexive = λ x. ground arith; transitive = λ x y z h k. ground arith }

before-IsWeakOrder : (l : List ℕ) → IsWeakOrder (before numbers l)
before-IsWeakOrder l = record {
  irreflexive = λ x. ground arith;
  asymmetric = λ x y h. ground arith;
  unrelated = λ x y z h k. ground arith;
}

sample-Chosen_example :
    Chosen numbers sort_by
      (penalize numbers top_2 (pos 1 ∷ []) logits)
      (limit_of (pos 2) 4)
      3
      (sample numbers sort_by top_2 (pos 1 ∷ []) 1 logits).0
sample-Chosen_example =
    sample-Chosen numbers sort_by sort_by-IsSort top_2 (pos 1 ∷ []) 1 logits 3 refl
      (before-IsWeakOrder (penalize numbers top_2 (pos 1 ∷ []) logits)) (omega arith)

sample-IsLargest_example :
    (m : ℕ) × ((sample numbers sort_by cold (pos 1 ∷ []) 0 logits).0 ≡ some m)
    × IsLargest numbers (penalize numbers cold (pos 1 ∷ []) logits) m
sample-IsLargest_example =
    sample-IsLargest numbers ltb-IsStrict sort_by cold (pos 1 ∷ []) 0 logits refl (omega arith)
