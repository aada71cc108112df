-- ===== src/Engine/Generate.antt =====
-- `Engine::run` on the GPU path around the loop: truncation of the prompt, reuse of the resident
-- prefix, prefill, the checks on a request for drafts, the first MTP absorb, the last flush, and the
-- token stream that the device cache holds for the next request.
use glmserve.Prelude.{
  ℕ, suc, ◌+◌, ◌-◌, ◌≡◌, refl, Bool, true, ◌&&◌, none, some, List, [], ◌∷◌, Option, ltb, ◌==◌,
  if◌then◌else◌, length, take, drop, min,
}
use glmserve.Prelude.Int.{pos, int_eq}
use glmserve.Prelude.Result.{Result, ok, err, ◌>>◌, check}
use glmserve.Sampler.{SampleParams}
use glmserve.Engine.{token_limit, Request, flush, start}
use glmserve.Engine.Spec.{
  Trunk, SpecConfig, Sampling, Loop, argmax_logits, mtp_gpu, no_counts, generate_loop,
}

-- How long the common prefix is: the `while` loop over `reuse`.
unfoldable pub common_prefix : List ℕ → List ℕ → ℕ
common_prefix [] ys = 0
common_prefix (x ∷ xs) [] = 0
common_prefix (x ∷ xs) (y ∷ ys) = if x == y then suc (common_prefix xs ys) else 0

-- `prompt.erase(prompt.begin(), prompt.end() - cap)`, to the last `max_model_len - 1` tokens.
unfoldable pub clamp_prompt : ℕ → List ℕ → List ℕ
clamp_prompt max_model_len prompt =
    let cap = max_model_len - 1 in
    if ltb cap (length prompt) then drop (length prompt - cap) prompt else prompt

-- What a `GLM_CHECK` of `run` throws.
pub data RunError : Type 0 where
  mtp_not_resident mtp_not_greedy mtp_with_penalties : RunError

module _ (T : Trunk) where
  open T use {
    Device, S, floats, set_mtp_prefill_absorb, forward_gpu_prefill_from, mtp_gpu_absorb,
    gpu_chunk_row0, gpu_cur_len,
  }

  -- The parts of the engine that outlive a request, and whether the MTP block is on the device.
  pub record EngineState : Type 0 where
    pub device : Device
    pub gpu_committed : List ℕ
    pub prefix_reuse : Bool
    pub max_model_len : ℕ
    pub mtp_gpu_ready : Bool

  unfoldable pub reuse_of : EngineState → List ℕ → ℕ
  reuse_of e prompt =
      if e.prefix_reuse then common_prefix e.gpu_committed (take (length prompt - 1) prompt) else 0

  -- The prefill, before the checks: the logits and the device.
  unfoldable pub prefill : EngineState → Request → List ℕ → List S × Device
  unfolding reuse_of
  prefill e p prompt =
      forward_gpu_prefill_from prompt (reuse_of e prompt)
        (set_mtp_prefill_absorb (mtp_gpu T p && e.mtp_gpu_ready) e.device)

  abbrev pub greedy_only : SampleParams S → Bool
  greedy_only q =
      floats.at_most q.temperature floats.nought
      && (int_eq q.top_k (pos 0) && floats.at_most floats.unit q.top_p)

  abbrev pub no_penalties : SampleParams S → Bool
  no_penalties q =
      floats.same q.repetition_penalty floats.unit
      && (floats.same q.frequency_penalty floats.nought
          && floats.same q.presence_penalty floats.nought)

  unfoldable pub check_mtp : EngineState → Sampling T → Request → Result RunError (Unit {0})
  check_mtp e q p =
      if mtp_gpu T p
      then (do
        check e.mtp_gpu_ready mtp_not_resident
        check (greedy_only q.params) mtp_not_greedy
        check (no_penalties q.params) mtp_with_penalties)
      else ok tt

  -- The loop's state before the first round; a request without drafts does not read the seed.
  unfoldable pub first_loop : Request → List ℕ → List S → Device → Loop T
  first_loop p prompt logits d = record {
    run = start prompt;
    seed = if mtp_gpu T p then argmax_logits T logits else 0;
    logits = logits;
    device =
        if mtp_gpu T p
        then mtp_gpu_absorb (drop (gpu_chunk_row0 d + 1) prompt) (gpu_chunk_row0 d) d
        else d;
    active = mtp_gpu T p;
    counters = no_counts;
  }

  unfoldable pub close_request : EngineState → Request → Loop T → EngineState × Loop T
  close_request e p s =
      let r = (flush p s.run true).0 in
      (
        record e {
          device = s.device;
          gpu_committed = take (min (gpu_cur_len s.device) (length r.all_tokens)) r.all_tokens;
        },
        record s { run = r },
      )

  -- What a request comes to: a throw leaves the device after the prefill, with nothing committed.
  pub data RunOutcome : Type 0 where
    out_of_fuel : RunOutcome
    throws : RunError → EngineState → RunOutcome
    completes : EngineState → Loop T → RunOutcome

  abbrev pub closed : EngineState → Request → Option (Loop T) → RunOutcome
  closed e p none = out_of_fuel
  closed e p (some s) = completes (close_request e p s).0 (close_request e p s).1

  unfoldable pub run : SpecConfig → EngineState → Sampling T → Request → List ℕ → RunOutcome
  run cfg e q p prompt_in =
      let prompt = clamp_prompt e.max_model_len prompt_in in
      let (logits, d) = prefill e p prompt in
      elim (check_mtp e q p) [
        | err thrown ↦ throws thrown (record e { device = d; gpu_committed = [] })
        | ok checked ↦
            closed e p
              (generate_loop T cfg q p (suc (token_limit p)) (first_loop p prompt logits d))
      ]

  -- A request whose checks throw, and one whose checks pass.
  pub run-throws :
      (cfg : SpecConfig) (e : EngineState) (q : Sampling T) (p : Request) (prompt : List ℕ)
      (thrown : RunError)
      → check_mtp e q p ≡ err thrown
      → run cfg e q p prompt
        ≡ throws thrown (record e {
          device = (prefill e p (clamp_prompt e.max_model_len prompt)).1;
          gpu_committed = [];
        })
  unfolding run
  run-throws cfg e q p prompt thrown h = rw (h, run) refl

  pub run-closed :
      (cfg : SpecConfig) (e : EngineState) (q : Sampling T) (p : Request) (prompt : List ℕ)
      → check_mtp e q p ≡ ok tt
      → run cfg e q p prompt ≡ (
          let prompt' = clamp_prompt e.max_model_len prompt in
          let s = prefill e p prompt' in
          closed e p (generate_loop T cfg q p (suc (token_limit p)) (first_loop p prompt' s.0 s.1)))
  unfolding run
  run-closed cfg e q p prompt h = rw (h, run) refl
