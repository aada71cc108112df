-- ===== src/Engine/Delivery.antt =====
-- What every request on the GPU path delivers, whatever the device code answers.
use glmserve.Prelude.{
  ℕ, suc, ◌≡◌, ◌≤◌, refl, sym, ap, ◌∙◌, inl, inr, Bool, true, List, [], ◌∷◌, ◌++◌, none, some,
  length, concat, arith, append-nil, ◌⊎◌,
}
use glmserve.Prelude.Bytes.{Bytes, find}
use glmserve.Engine.{token_limit, Request, Run, flush, flush_to, send, start, stop_at}
use glmserve.Engine.Stream.{Clean, flush-sends_all}
use glmserve.Engine.Spec.{Trunk, SpecConfig, Sampling, Loop}
use glmserve.Engine.Generate.{
  clamp_prompt, EngineState, RunError, check_mtp, prefill, first_loop, close_request, run, closed,
  throws, completes, run-throws, run-closed,
}
use glmserve.Prelude.Result.{ok, err, Result-cases}
use glmserve.Engine.Rounds.{generate_loop-ends}

-- What the client of a streamed request gets.
pub record Delivered (T : Trunk) (cfg : SpecConfig) (e : EngineState T) (q : Sampling T)
    (p : Request) (prompt : List ℕ) : Type 0 where
  pub after : EngineState T
  pub last : Loop T
  pub run_is : run T cfg e q p prompt ≡ completes after last
  pub whole_text : concat last.run.deltas ≡ last.run.text
  pub tokens_are : last.run.all_tokens ≡ clamp_prompt e.max_model_len prompt ++ last.run.tokens
  pub count_is : last.run.completion_tokens ≡ length last.run.tokens
  pub at_most : last.run.completion_tokens ≤ token_limit p

-- A request that the checks refuse.
pub record Refused (T : Trunk) (cfg : SpecConfig) (e : EngineState T) (q : Sampling T) (p : Request)
    (prompt : List ℕ) : Type 0 where
  pub thrown : RunError
  pub after : EngineState T
  pub check_is : check_mtp T e q p ≡ err thrown
  pub run_is : run T cfg e q p prompt ≡ throws thrown after
  pub none_committed : after.gpu_committed ≡ []

start-Clean : (p : Request) (prompt : List ℕ) → Clean p (start prompt)
unfolding start stop_at find
start-Clean p prompt = record {
  streamed = record { sent = refl; within = omega arith };
  no_stop = empty_text p.stop;
  held = omega arith;
}
  where
    empty_text : (ss : List Bytes) → stop_at ss [] ≡ none
    empty_text [] = refl
    empty_text ([] ∷ ss) = empty_text ss
    empty_text ((x ∷ s) ∷ ss) = empty_text ss

flush_counts :
    (p : Request) (r : Run)
    → ((flush p r true).0.all_tokens ≡ r.all_tokens)
      × ((flush p r true).0.tokens ≡ r.tokens)
      × ((flush p r true).0.completion_tokens ≡ r.completion_tokens)
unfolding flush flush_to send
flush_counts p r = ground arith

-- For every device code, every sampling and every generator: a streamed request on the GPU path
-- either is refused by a check on its drafts, and then it throws and no token stays committed, or it
-- passes the checks and ends within the turns that `run` gives its loop, `max_tokens + 1`, or one for
-- a negative limit. Then the fragments that `on_delta` was given make up the final text, also where a stop
-- string cut it; the tokens of the completion are those behind the clamped prompt, they are counted,
-- and there are at most `max_tokens` (none for a negative limit).
pub run-Delivered :
    (T : Trunk) (cfg : SpecConfig) (e : EngineState T) (q : Sampling T) (p : Request)
    (prompt : List ℕ) (f : List Bytes → Bytes → Bool)
    → p.on_delta ≡ some f
    → Refused T cfg e q p prompt ⊎ ((check_mtp T e q p ≡ ok tt) × Delivered T cfg e q p prompt)
unfolding first_loop start close_request
run-Delivered T cfg e q p prompt f on = elim (Result-cases (check_mtp T e q p)) [
  | inr (x, h) ↦ inl (record {
    thrown = x;
    after = record e {
      device = (prefill T e p (clamp_prompt e.max_model_len prompt)).1;
      gpu_committed = [];
    };
    check_is = h;
    run_is = run-throws T cfg e q p prompt x h;
    none_committed = refl;
  })
  | inl (u, h) ↦ inr (
    h,
    let prompt' = clamp_prompt e.max_model_len prompt in
        let first = first_loop T p prompt' (prefill T e p prompt').0 (prefill T e p prompt').1 in
        let (last, loop_is, streamed, counted) =
          generate_loop-ends p prompt' f on T cfg q (suc (token_limit p)) first (omega arith)
            (start-Clean p prompt')
            (record {
              tokens_are = sym (append-nil prompt');
              count_is = refl;
              at_most = omega arith;
            }) in
        let sent = flush-sends_all p f last.run on streamed in
        let kept = flush_counts p last.run in
        record {
          after = (close_request T e p last).0;
          last = (close_request T e p last).1;
          run_is = run-closed T cfg e q p prompt h ∙ ap (closed T e p) loop_is;
          whole_text = sent.0 ∙ sym sent.1;
          tokens_are = kept.0 ∙ counted.tokens_are ∙ ap (λ ts. prompt' ++ ts) (sym kept.1);
          count_is = kept.2 ∙ counted.count_is ∙ ap length (sym kept.1);
          at_most = omega (arith, kept.2, counted.at_most);
        },
  )
]
