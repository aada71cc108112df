-- ===== src/Engine/Sampled.antt =====
-- The round of `Engine::run` (src/server.cpp) that calls the sampler, for requests whose sampling is
-- greedy.
use glmserve.Prelude.{◌≡◌, refl, ap, true, some, List, map, arith}
use glmserve.Prelude.Int.{ℤ, pos}
use glmserve.Sampler.{max_element, sample, penalize}
use glmserve.Engine.{Request}
use glmserve.Engine.Spec.{
  Trunk, Sampling, Loop, argmax_logits, sampled_token, decode_round, sampled_round,
}
use glmserve.Engine.Generate.{no_penalties}

-- A temperature of at most zero and no penalties.
pub record IsGreedy (T : Trunk) (q : Sampling T) : Type 0 where
  pub cold : T.floats.at_most q.params.temperature T.floats.nought ≡ true
  pub plain : no_penalties T q.params ≡ true

module _ (T : Trunk) (q : Sampling T) (g : IsGreedy T q) where
  open T use {S, floats, std_sort}

  penalize_none : (prev : List ℤ) (logits : List S) → penalize floats q.params prev logits ≡ logits
  unfolding penalize
  penalize_none prev logits =
      let r : floats.same q.params.repetition_penalty floats.unit ≡ true =
        ground (arith, g.plain) in
      let f : floats.same q.params.frequency_penalty floats.nought ≡ true =
        ground (arith, g.plain) in
      let p : floats.same q.params.presence_penalty floats.nought ≡ true =
        ground (arith, g.plain) in
      rw (r, f, p) refl

  sample_greedy :
      (prev : List ℤ) (r : S) (logits : List S)
      → sample floats std_sort q.params prev r logits ≡ (some (max_element floats logits), logits)
  unfolding sample
  sample_greedy prev r logits = rw (g.cold, penalize_none prev logits) refl

module _ (T : Trunk) (q : Sampling T) (p : Request) (s : Loop T) where
  pub sampled_round-decode_round :
      IsGreedy T q → sampled_round T q p s ≡ decode_round T p s (argmax_logits T s.logits)
  unfolding sampled_round
  sampled_round-decode_round g =
      ap (λ o. decode_round T p (record s { logits = o.1 }) (sampled_token T o.0))
        (sample_greedy T q g (map (λ t. pos t) s.run.all_tokens)
          (T.drawn q.seed s.run.completion_tokens) s.logits)
