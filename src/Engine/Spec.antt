-- ===== src/Engine/Spec.antt =====
-- The generation loop of `Engine::run` (src/server.cpp) on the GPU path: speculative groups, the
-- fallback from them to plain decoding, and decoding with the sampler where a request asks for no
-- drafts. The model's device code is an interface, `Trunk`.
use glmserve.Prelude.{
  ℕ, zero, suc, ◌+◌, ◌-◌, Bool, true, false, not, ◌&&◌, List, [], ◌∷◌, Option, none, some, ltb, leb,
  ◌==◌, if◌then◌else◌, length, get_or, take, min, max, map,
}
use glmserve.Engine.{
  token_limit, draft_length, Request, Run, stopped, reached_length, is_stop_token, record_token,
  commit, finish,
}
use glmserve.Prelude.Int.{pos}
use glmserve.Sampler.{Float, SampleParams, max_element, sample}
use glmserve.Engine.Ngram.{NgramConfig, ngram_draft}

-- The entry points of `GLM52Model` that the loop calls, over the state of the device caches, with the
-- `float`s, `std::sort`, and the numbers that the generator of a sampler draws for a seed.
pub record Trunk : Type 1 where
  pub Device : Type 0
  pub S : Type 0
  pub floats : Float S
  pub std_sort : (ℕ → ℕ → Bool) → List ℕ → List ℕ
  pub drawn : (seed n : ℕ) → S
  pub set_mtp_prefill_absorb : Bool → Device → Device
  pub forward_gpu_prefill_from : List ℕ → ℕ → Device → List S × Device
  pub forward_gpu_decode : ℕ → ℕ → Device → List S × Device
  pub forward_gpu_chunk_greedy : List ℕ → ℕ → Device → List ℕ × Device
  pub gpu_rewind : ℕ → Device → Device
  pub mtp_gpu_absorb : List ℕ → ℕ → Device → Device
  pub mtp_gpu_draft : ℕ → ℕ → Device → List ℕ × Device
  pub gpu_chunk_row0 : Device → ℕ
  pub gpu_cur_len : Device → ℕ
  pub gpu_kv_ctx : ℕ

-- The environment variables of the speculative loop. `low_acceptance groups accepted` is the
-- floating-point test `accepted / groups < min_accept`, and `gated` is `tau > 0`.
pub record SpecConfig : Type 0 where
  pub adaptive : Bool
  pub probe_groups : ℕ
  pub low_acceptance : ℕ → ℕ → Bool
  pub gated : Bool
  pub ngram : NgramConfig

unfoldable pub gpu_spec_should_fallback : SpecConfig → ℕ → ℕ → Bool
gpu_spec_should_fallback cfg groups accepted =
    if not cfg.adaptive
    then false
    else if ltb groups (max 1 cfg.probe_groups)
    then false
    else cfg.low_acceptance groups accepted

abbrev pub spec_group_max : ℕ
spec_group_max = 64

-- The counters of `Completion`.
pub record Counters : Type 0 where
  pub mtp_groups : ℕ
  pub mtp_accepted : ℕ
  pub mtp_rejected : ℕ
  pub ngram_groups : ℕ

-- `while (a < chunk_n && chunk[a] == am[a - 1]) ++a`, less the first token: how many drafts equal
-- the greedy token before them.
unfoldable pub matched : List ℕ → List ℕ → ℕ
matched [] am = 0
matched (d ∷ ds) [] = 0
matched (d ∷ ds) (x ∷ am) = if d == x then suc (matched ds am) else 0

count_group : Bool → ℕ → ℕ → Counters → Counters
count_group from_ngram chunk_n a k =
    let drafted = ltb 1 chunk_n in
    record {
      mtp_groups = if drafted then k.mtp_groups + 1 else k.mtp_groups;
      mtp_accepted = if drafted then k.mtp_accepted + a else k.mtp_accepted;
      mtp_rejected = if drafted && ltb a chunk_n then k.mtp_rejected + 1 else k.mtp_rejected;
      ngram_groups = if from_ngram then k.ngram_groups + 1 else k.ngram_groups;
    }

abbrev pub no_counts : Counters
no_counts = record { mtp_groups = 0; mtp_accepted = 0; mtp_rejected = 0; ngram_groups = 0 }

module _ (T : Trunk) where
  open T use {
    Device, S, floats, std_sort, drawn, forward_gpu_prefill_from, forward_gpu_decode,
    forward_gpu_chunk_greedy, gpu_rewind, mtp_gpu_absorb, mtp_gpu_draft, gpu_chunk_row0,
    gpu_cur_len, gpu_kv_ctx,
  }

  -- The place of the first of the largest logits.
  abbrev pub argmax_logits : List S → ℕ
  argmax_logits logits = max_element floats logits

  -- The fields of `SamplingParams` for the sampler, and its seed.
  pub record Sampling : Type 0 where
    pub params : SampleParams S
    pub seed : ℕ

  -- `mtp_gpu`: the request asks for drafts, on the GPU path.
  abbrev pub mtp_gpu : Request → Bool
  mtp_gpu p = ltb 0 (draft_length p)

  -- `gpu_seed`, the logits, the device, `mtp_gpu_active`.
  pub record Loop : Type 0 where
    pub run : Run
    pub seed : ℕ
    pub logits : List S
    pub device : Device
    pub active : Bool
    pub counters : Counters

  -- What both rounds without drafts do with their token: the loop afterwards, and whether it goes on.
  unfoldable pub decode_round : Request → Loop → (tok : ℕ) → Loop × Bool
  decode_round p s tok =
      let (r, go_on) = record_token p s.run tok in
      if is_stop_token p tok
      then (record s { run = finish s.run stopped }, false)
      else if not go_on
      then (record s { run = r }, false)
      else if leb gpu_kv_ctx (length r.all_tokens - 1)
      then (record s { run = finish r reached_length }, false)
      else (let (logits, d) = forward_gpu_decode tok (length r.all_tokens - 1) s.device in
          (
            record s {
              run = r;
              seed = if mtp_gpu p then argmax_logits logits else s.seed;
              logits = logits;
              device = d;
            },
            true,
          ))

  -- The round after the fallback: the seed is the greedy token.
  abbrev pub plain_round : Request → Loop → Loop × Bool
  plain_round p s = decode_round p s s.seed

  -- What the sampler draws for its n-th token is its n-th number, since it draws one for each token
  -- or none. The logits are one for each token of the vocabulary, so that there is a candidate.
  abbrev pub sampled_token : Option ℕ → ℕ
  sampled_token none = 0
  sampled_token (some tok) = tok

  -- The round of a request without drafts. With other ranks the token is that of rank 0.
  unfoldable pub sampled_round : Sampling → Request → Loop → Loop × Bool
  sampled_round q p s =
      let (next, logits) =
        sample floats std_sort q.params (map (λ t. pos t) s.run.all_tokens)
          (drawn q.seed s.run.completion_tokens) s.logits in
      decode_round p (record s { logits = logits }) (sampled_token next)

  -- The draft of a group: n-gram lookup if it is long enough, else the MTP block.
  unfoldable pub draft_tokens : SpecConfig → Request → Loop → ℕ → ℕ → List ℕ × Bool × Device
  draft_tokens cfg p s remaining group_k =
      let l = length s.run.all_tokens in
      let draft_cap = min (min spec_group_max remaining) (gpu_kv_ctx - l) - 1 in
      let ds = ngram_draft cfg.ngram s.run.all_tokens s.seed draft_cap in
      let from_ngram = ltb 0 (length ds) && leb (group_k - 1) (length ds) in
      let (drafted, d) = mtp_gpu_draft s.seed (group_k - 1) s.device in
      if from_ngram
      then (ds, true, s.device)
      else if ltb 1 group_k
      then (drafted, false, d)
      else ([], false, s.device)

  -- What follows the draft: verify, accept the longest matching prefix, rewind, commit.
  unfoldable pub verify_round : SpecConfig → Request → Loop → List ℕ × Bool × Device → Loop × Bool
  unfolding count_group
  verify_round cfg p s (ds, from_ngram, d) =
      let l = length s.run.all_tokens in
      let chunk = s.seed ∷ ds in
      let (am, verified) = forward_gpu_chunk_greedy chunk l d in
      let a = suc (matched ds am) in
      let counters = count_group from_ngram (length chunk) a s.counters in
      let rewound = gpu_rewind (l + a) verified in
      let (r, go_on) = commit p s.run (take a chunk) in
      let seed = get_or am (a - 1) 0 in
      if not go_on
      then (record s { run = r; device = rewound; counters = counters }, false)
      else if not cfg.gated
          && gpu_spec_should_fallback cfg counters.mtp_groups counters.mtp_accepted
      then (
        record {
          run = r;
          seed = seed;
          logits = s.logits;
          device = rewound;
          active = false;
          counters = counters;
        },
        true,
      )
      else (
        record {
          run = r;
          seed = seed;
          logits = s.logits;
          device = mtp_gpu_absorb (take (a - 1) ds) l rewound;
          active = s.active;
          counters = counters;
        },
        true,
      )

  -- One speculative group.
  unfoldable pub group_round : SpecConfig → Request → Loop → Loop × Bool
  group_round cfg p s =
      let remaining = token_limit p - s.run.completion_tokens in
      let group_k = min (min (draft_length p) remaining) spec_group_max in
      if ltb gpu_kv_ctx (length s.run.all_tokens + group_k)
      then (record s { run = finish s.run reached_length }, false)
      else verify_round cfg p s (draft_tokens cfg p s remaining group_k)

  unfoldable pub round : SpecConfig → Sampling → Request → Loop → Loop × Bool
  round cfg q p s =
      if mtp_gpu p && not s.active
      then plain_round p s
      else if s.active
      then group_round cfg p s
      else sampled_round q p s

  -- The `while` loop; `none` means that the fuel ran out.
  unfoldable pub generate_loop : SpecConfig → Sampling → Request → ℕ → Loop → Option Loop
  generate_loop cfg q p zero s = none
  generate_loop cfg q p (suc fuel) s =
      let (s', go_on) = round cfg q p s in
      let rest = generate_loop cfg q p fuel s' in
      if ltb s.run.completion_tokens (token_limit p)
      then if go_on then rest else some s'
      else some s
