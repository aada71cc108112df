-- ===== src/Engine/Rounds.antt =====
-- Every round of the generation loop goes on with one token at least or ends, and what is streamed
-- stays in order, whatever the device code answers.
use glmserve.Prelude.{
  ℕ, zero, suc, ◌+◌, ◌-◌, ◌≡◌, ◌<◌, refl, inl, inr, Bool, true, false, not, List, some, ltb, leb,
  if◌then◌else◌, length, min, arith, Bool-cases, map, ◌&&◌,
}
use glmserve.Prelude.Bytes.{Bytes}
use glmserve.Engine.{
  token_limit, draft_length, Request, Run, stopped, reached_length, finish, record_token,
  is_stop_token,
}
use glmserve.Engine.Stream.{Streamed, Clean}
use glmserve.Engine.Spec.{
  Trunk, SpecConfig, Sampling, Loop, decode_round, sampled_round, group_round, verify_round,
  draft_tokens, round, generate_loop, Counters, spec_group_max, mtp_gpu, argmax_logits,
}
use glmserve.Prelude.Int.{pos}
use glmserve.Sampler.{sample}
use glmserve.Engine.Progress.{
  Counted, Progress, record_token-Progress, Progress-finish, commit-Progress,
}

module _ (p : Request) (prompt : List ℕ) (f : List Bytes → Bytes → Bool) (e : p.on_delta ≡ some f)
    (T : Trunk) where
  abbrev Rounds : ℕ → Loop T × Bool → Type 0
  Rounds n (s, b) = Progress p prompt n (s.run, b)

  decode_round-Rounds :
      (s : Loop T) (tok : ℕ)
      → Clean p s.run
      → Counted p prompt s.run
      → s.run.completion_tokens < token_limit p
      → Rounds s.run.completion_tokens (decode_round T p s tok)
  unfolding decode_round
  decode_round-Rounds s tok c v l = elim (Bool-cases (is_stop_token p tok)) [
    | inl h ↦ rw h (Progress-finish p prompt f e s.run.completion_tokens s.run stopped c.streamed v)
    | inr h ↦
        rw h (next (record_token p s.run tok) (record_token-Progress p prompt f e s.run tok c v l))
  ]
    where
      next :
          (o : Run × Bool)
          → Progress p prompt s.run.completion_tokens o
          → Rounds s.run.completion_tokens (
              if not o.1
              then (record s { run = o.0 }, false)
              else if leb T.gpu_kv_ctx (length o.0.all_tokens - 1)
              then (record s { run = finish o.0 reached_length }, false)
              else (let (logits, d) =
                    T.forward_gpu_decode tok (length o.0.all_tokens - 1) s.device in
                  (
                    record s {
                      run = o.0;
                      seed = if mtp_gpu T p then argmax_logits T logits else s.seed;
                      logits = logits;
                      device = d;
                    },
                    true,
                  )))
      next (q, false) w = w
      next (q, true) w = elim (Bool-cases (leb T.gpu_kv_ctx (length q.all_tokens - 1))) [
        | inl full ↦
            rw full (
              Progress-finish p prompt f e s.run.completion_tokens q reached_length w.0.streamed
                w.1)
        | inr room ↦ rw room w
      ]

  committed-Rounds :
      (n : ℕ) (s : Loop T) (seed : ℕ) (rewound absorbed : T.Device) (fall : Bool)
      (counters : Counters) (o : Run × Bool)
      → Progress p prompt n o
      → Rounds n (
          if not o.1
          then (record s { run = o.0; device = rewound; counters = counters }, false)
          else if fall
          then (
            record {
              run = o.0;
              seed = seed;
              logits = s.logits;
              device = rewound;
              active = false;
              counters = counters;
            },
            true,
          )
          else (
            record {
              run = o.0;
              seed = seed;
              logits = s.logits;
              device = absorbed;
              active = s.active;
              counters = counters;
            },
            true,
          ))
  committed-Rounds n s seed rewound absorbed fall counters (q, false) w = w
  committed-Rounds n s seed rewound absorbed true counters (q, true) w = w
  committed-Rounds n s seed rewound absorbed false counters (q, true) w = w

  verify_round-Rounds :
      (cfg : SpecConfig) (s : Loop T) (ds : List ℕ) (from_ngram : Bool) (d : T.Device)
      → Clean p s.run
      → Counted p prompt s.run
      → s.run.completion_tokens < token_limit p
      → Rounds s.run.completion_tokens (verify_round T cfg p s (ds, from_ngram, d))
  unfolding verify_round
  verify_round-Rounds cfg s ds from_ngram d c v l =
      committed-Rounds s.run.completion_tokens s _ _ _ _ _ _
        (commit-Progress p prompt f e s.seed _ s.run c v l)

  group_round-Rounds :
      (cfg : SpecConfig) (s : Loop T)
      → Clean p s.run
      → Counted p prompt s.run
      → s.run.completion_tokens < token_limit p
      → Rounds s.run.completion_tokens (group_round T cfg p s)
  unfolding group_round
  group_round-Rounds cfg s c v l =
      let remaining = token_limit p - s.run.completion_tokens in
      let group_k = min (min (draft_length p) remaining) spec_group_max in
      let t = draft_tokens T cfg p s remaining group_k in
      elim (Bool-cases (ltb T.gpu_kv_ctx (length s.run.all_tokens + group_k))) [
        | inl full ↦
            rw full (
              Progress-finish p prompt f e s.run.completion_tokens s.run reached_length c.streamed
                v)
        | inr room ↦ rw room (verify_round-Rounds cfg s t.0 t.1 t.2 c v l)
      ]

  sampled_round-Rounds :
      (q : Sampling T) (s : Loop T)
      → Clean p s.run
      → Counted p prompt s.run
      → s.run.completion_tokens < token_limit p
      → Rounds s.run.completion_tokens (sampled_round T q p s)
  unfolding sampled_round
  sampled_round-Rounds q s c v l =
      decode_round-Rounds
        (record s {
          logits =
              (sample T.floats T.std_sort q.params (map (λ t. pos t) s.run.all_tokens)
                (T.drawn q.seed s.run.completion_tokens) s.logits).1;
        })
        _ c v l

  round-Rounds :
      (cfg : SpecConfig) (q : Sampling T) (s : Loop T)
      → Clean p s.run
      → Counted p prompt s.run
      → s.run.completion_tokens < token_limit p
      → Rounds s.run.completion_tokens (round T cfg q p s)
  unfolding round
  round-Rounds cfg q s c v l = elim (Bool-cases (mtp_gpu T p && not s.active)) [
    | inl plain ↦ simp plain (decode_round-Rounds s s.seed c v l)
    | inr other ↦ simp other (elim (Bool-cases s.active) [
      | inl spec ↦ simp spec (group_round-Rounds cfg s c v l)
      | inr sampled ↦ simp sampled (sampled_round-Rounds q s c v l)
    ])
  ]

  -- The loop ends, with a run that is streamed and counted.
  pub generate_loop-ends :
      (cfg : SpecConfig) (q : Sampling T) (fuel : ℕ) (s : Loop T)
      → token_limit p < s.run.completion_tokens + fuel
      → Clean p s.run
      → Counted p prompt s.run
      → (last : Loop T) × (generate_loop T cfg q p fuel s ≡ some last)
        × Streamed last.run
        × Counted p prompt last.run
  unfolding generate_loop
  generate_loop-ends cfg q zero s h c v = absurd (omega (arith, v.at_most))
  generate_loop-ends cfg q (suc fuel) s h c v =
      elim (Bool-cases (ltb s.run.completion_tokens (token_limit p))) [
        | inr over ↦ (s, rw over, c.streamed, v)
        | inl under ↦ rw under (
            go (round T cfg q p s) (round-Rounds cfg q s c v (ground arith))
              (λ r l w x. generate_loop-ends cfg q fuel r l w x))
      ]
    where
      go :
          (o : Loop T × Bool)
          → Rounds s.run.completion_tokens o
          → ((r : Loop T)
              → token_limit p < r.run.completion_tokens + fuel
              → Clean p r.run
              → Counted p prompt r.run
              → (last : Loop T) × (generate_loop T cfg q p fuel r ≡ some last)
                × Streamed last.run
                × Counted p prompt last.run)
          → (last : Loop T) × ((if o.1 then generate_loop T cfg q p fuel o.0 else some o.0)
              ≡ some last)
            × Streamed last.run
            × Counted p prompt last.run
      go (r, false) w rest = (r, refl, w.0, w.1)
      go (r, true) (c', v', a, b) rest = rest r (omega arith) c' v'
