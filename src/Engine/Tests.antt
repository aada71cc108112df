-- ===== src/Engine/Tests.antt =====
-- A toy trunk whose cache is its list of tokens, runs of the engine over it, and the theorems there.
use glmserve.Prelude.{
  ℕ, ◌+◌, ◌*◌, ◌%◌, ◌≡◌, ◌⊎◌, refl, ap, true, false, List, [], ◌∷◌, ◌++◌, Option, none, some,
  length, take, arith, ltb, leb, ◌==◌, ◌∙◌, replicate, zero, suc, ◌-◌, ◌/◌,
}
use glmserve.Prelude.Int.{pos, minus_one, clip}
use glmserve.Prelude.Bytes.{Bytes, codes, find}
use glmserve.Engine.{
  Request, start, flush, utf8_trunc, is_stop_token, record_token, commit, stop_at, max_stop,
  flush_limit,
}
use glmserve.Engine.Ngram.{
  try_lengths, attempt, scan, improve, extend, suffix_hit, NgramConfig, ngram_config, ngram_draft,
}
use glmserve.Engine.Ngram.Slice.{Slice, ngram_draft-Slice}
use glmserve.Prelude.Result.{ok, err}
use glmserve.Sampler.{Float, sample, penalize, max_element, max_from}
use glmserve.Sampler.Sorting.{sort_by}
use glmserve.Engine.Spec.{
  Trunk, Sampling, gpu_spec_should_fallback, SpecConfig, generate_loop, round, decode_round,
  sampled_round, group_round, draft_tokens, verify_round, matched,
}
use glmserve.Engine.Generate.{
  reuse_of, EngineState, RunOutcome, completes, mtp_not_greedy, check_mtp, run, prefill, first_loop,
  clamp_prompt, common_prefix, close_request,
}
use glmserve.Engine.Laws.{TrunkLaws, nexts}
use glmserve.Engine.Delivery.{Delivered, Refused, run-Delivered}

-- The toy model counts: the next token is the length of the context, modulo 6.
abbrev count_up : List ℕ → ℕ
count_up ctx = length ctx % 6

-- Numbers with an `exp` of that name only, and logits with one largest, at a given token.
abbrev numbers : Float ℕ
numbers = record {
  nought = 0;
  unit = 1;
  add = λ a b. a + b;
  sub = λ a b. a - b;
  mul = λ a b. a * b;
  div = λ a b. a / b;
  exp = λ a. a + 10;
  of_int = λ n. n;
  less = ltb;
  at_most = leb;
  same = ◌==◌;
}

abbrev peak : ℕ → List ℕ
peak n = replicate n 0 ++ 1 ∷ []

max_from-peak : (best i n : ℕ) → max_from numbers best 0 i (peak n) ≡ i + n
unfolding max_from
max_from-peak best i zero = omega arith
max_from-peak best i (suc n) = max_from-peak best (suc i) n ∙ (omega arith)

max_element-peak : (n : ℕ) → max_element numbers (peak n) ≡ n
unfolding max_element max_from
max_element-peak zero = refl
max_element-peak (suc n) = max_from-peak 0 1 n ∙ (omega arith)

abbrev toy : Trunk
toy = record {
  Device = List ℕ;
  S = ℕ;
  floats = numbers;
  std_sort = sort_by;
  drawn = λ seed n. 1;
  set_mtp_prefill_absorb = λ on d. d;
  forward_gpu_prefill_from = λ tokens reuse d. (peak (count_up tokens), tokens);
  forward_gpu_decode = λ tok at d. (peak (count_up (d ++ tok ∷ [])), d ++ tok ∷ []);
  forward_gpu_chunk_greedy = λ chunk l d. (nexts count_up d chunk, d ++ chunk);
  gpu_rewind = λ n d. take n d;
  mtp_gpu_absorb = λ tokens row0 d. d;
  mtp_gpu_draft = λ seed k d. ((seed + 1) ∷ 9 ∷ [], d);
  gpu_chunk_row0 = λ d. 0;
  gpu_cur_len = λ d. length d;
  gpu_kv_ctx = 64;
}

toy_laws : TrunkLaws toy
toy_laws = record {
  next = count_up;
  Holds = λ d ctx. d ≡ ctx;
  set_law = λ d rows on h. h;
  prefill_law = λ d rows tokens reuse h a b c e. (refl, max_element-peak (count_up tokens));
  decode_law = λ d ctx tok h. (
    ap (λ xs. xs ++ tok ∷ []) h,
    max_element-peak (count_up (d ++ tok ∷ [])) ∙ ap (λ xs. count_up (xs ++ tok ∷ [])) h,
  );
  chunk_law = λ d ctx chunk h. (ap (λ xs. xs ++ chunk) h, ap (λ xs. nexts count_up xs chunk) h);
  rewind_law = λ d rows n h l. ap (take n) h;
  absorb_law = λ d rows tokens row0 h. h;
  draft_law = λ d rows seed k h. h;
  cur_len_law = λ d rows h. ap length h;
}

abbrev config : SpecConfig
config = record {
  adaptive = true;
  probe_groups = 1;
  low_acceptance = λ groups accepted. ltb accepted (2 * groups);
  gated = false;
  ngram = ngram_config true 3 8;
}

-- Token t is written as the letter t after `a`; "ef" stops.
abbrev letters : Request
letters = record {
  max_tokens = pos 9;
  mtp_draft_k = pos 3;
  ignore_eos = false;
  eos_id = minus_one;
  eos_token_ids = [];
  stop_token_ids = [];
  stop = codes "ef" ∷ [];
  decode_token = λ t. (b'a' + t) ∷ [];
  on_delta = some (λ before delta. true);
  cancelled = λ n. false;
}

abbrev sampling : Sampling toy
sampling = record {
  params = record {
    temperature = 0;
    top_p = 1;
    top_k = pos 0;
    repetition_penalty = 1;
    frequency_penalty = 0;
    presence_penalty = 0;
  };
  seed = 0;
}

abbrev warm : Sampling toy
warm = record sampling { params = record sampling.params { temperature = 1 } }

abbrev engine : EngineState toy
engine = record {
  device = 8 ∷ 7 ∷ 1 ∷ [];
  gpu_committed = 8 ∷ 7 ∷ [];
  prefix_reuse = true;
  max_model_len = 40;
  mtp_gpu_ready = true;
}

abbrev Shown : Type 0
Shown = Bytes × List Bytes × List ℕ

abbrev show : RunOutcome toy → Option Shown
show (completes e s) = some (s.run.text, s.run.deltas, e.gpu_committed)
show other = none

letters_run :
    show (run toy config engine sampling letters (8 ∷ 5 ∷ []))
    ≡ some (codes "cd", codes "c" ∷ codes "d" ∷ [], 8 ∷ 5 ∷ 2 ∷ 3 ∷ 4 ∷ 5 ∷ [])
unfolding run check_mtp clip generate_loop round decode_round sampled_round group_round draft_tokens
    verify_round prefill first_loop sample penalize max_element max_from clamp_prompt close_request
    common_prefix reuse_of start flush find matched ngram_draft try_lengths attempt scan improve
    extend suffix_hit ngram_config utf8_trunc gpu_spec_should_fallback is_stop_token record_token
    commit stop_at max_stop flush_limit
letters_run = refl

-- Without drafts the sampler takes the same tokens one by one, and the last one has no row.
plain_run :
    show (run toy config engine sampling (record letters { mtp_draft_k = pos 0 }) (8 ∷ 5 ∷ []))
    ≡ some (codes "cd", codes "c" ∷ codes "d" ∷ [], 8 ∷ 5 ∷ 2 ∷ 3 ∷ 4 ∷ [])
unfolding run check_mtp clip generate_loop round decode_round sampled_round group_round draft_tokens
    verify_round prefill first_loop sample penalize max_element max_from clamp_prompt close_request
    common_prefix reuse_of start flush find matched ngram_draft try_lengths attempt scan improve
    extend suffix_hit ngram_config utf8_trunc gpu_spec_should_fallback is_stop_token record_token
    commit stop_at max_stop flush_limit
plain_run = refl

-- Drafts with a positive temperature are refused.
warm_test : check_mtp toy engine warm letters ≡ err mtp_not_greedy
unfolding check_mtp clip
warm_test = refl

-- After 1 2 3 4 0 1 2 3 the seed 4 is found again, with 0 1 2 3 behind it.
abbrev repeating : List ℕ
repeating = 1 ∷ 2 ∷ 3 ∷ 4 ∷ 0 ∷ 1 ∷ 2 ∷ 3 ∷ []

abbrev lookup_config : NgramConfig
lookup_config = record { enabled = true; m_min = 3; min_evidence = 4 }

ngram_runs : ngram_draft lookup_config repeating 4 3 ≡ 0 ∷ 1 ∷ 2 ∷ []
unfolding ngram_draft try_lengths attempt scan improve extend suffix_hit
ngram_runs = refl

ngram_draft-Slice_example :
    (ngram_draft lookup_config repeating 4 3 ≡ [])
    ⊎ Slice lookup_config repeating 4 3 (ngram_draft lookup_config repeating 4 3)
ngram_draft-Slice_example = ngram_draft-Slice lookup_config repeating 4 3 (omega arith)

run-Delivered_example :
    Refused toy config engine sampling letters (8 ∷ 5 ∷ [])
    ⊎ ((check_mtp toy engine sampling letters ≡ ok tt)
        × Delivered toy config engine sampling letters (8 ∷ 5 ∷ []))
run-Delivered_example =
    run-Delivered toy config engine sampling letters (8 ∷ 5 ∷ []) (λ before delta. true) refl
