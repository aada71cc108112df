-- ===== src/Engine/Ready.antt =====
-- What holds between the rounds of the generation loop, and the rounds of one token.
use glmserve.Prelude.{
  ℕ, zero, suc, ◌+◌, ◌-◌, ◌≡◌, ◌≤◌, ◌<◌, refl, sym, ap, ◌∙◌, inl, inr, Bool, true, false, not, List,
  [], ◌∷◌, ◌++◌, if◌then◌else◌, leb, length, take, arith, Bool-cases, length-append,
  take-append_left,
}
use glmserve.Engine.{token_limit, Request, Run, reached_length, is_stop_token, record_token, finish}
use glmserve.Engine.Spec.{Trunk, Loop, decode_round, mtp_gpu, argmax_logits}
use glmserve.Engine.Laws.{TrunkLaws, greedy}
use glmserve.Engine.Greedy.{record_token-Recorded, greedy_stop, Recorded}

-- One of the two lists begins with the other.
abbrev pub Comparable : List ℕ → List ℕ → Type 0
Comparable xs ys = (n : ℕ) → n ≤ length xs → n ≤ length ys → take n xs ≡ take n ys

pub Comparable-append : (xs ys : List ℕ) → Comparable xs (xs ++ ys)
Comparable-append xs ys n h l = sym (take-append_left n xs ys h)

module _ (T : Trunk) (laws : TrunkLaws T) where
  open laws use {next, Holds, prefill_law, decode_law, chunk_law, rewind_law, absorb_law, draft_law}

  -- Before a round: room for `suc m` more tokens, the device holds the tokens so far, and only a
  -- request for drafts drafts.
  pub record Placed (p : Request) (m : ℕ) (s : Loop T) : Type 0 where
    pub counted : s.run.completion_tokens + suc m ≡ token_limit p
    pub holds : Holds s.device s.run.all_tokens
    pub room : length s.run.all_tokens + suc m ≤ T.gpu_kv_ctx
    pub inactive : mtp_gpu T p ≡ false → s.active ≡ false

  -- The seed is the greedy token, or without drafts the largest logit is its.
  pub record Ready (p : Request) (m : ℕ) (s : Loop T) : Type 0 where
    pub placed : Placed p m s
    pub seed_is : mtp_gpu T p ≡ true → s.seed ≡ next s.run.all_tokens
    pub logits_are : mtp_gpu T p ≡ false → argmax_logits T s.logits ≡ next s.run.all_tokens

  -- After the last round: the rows of the device and the tokens agree as far as both go.
  pub record Ended (s : Loop T) : Type 0 where
    pub rows : List ℕ
    pub holds : Holds s.device rows
    pub agree : Comparable rows s.run.all_tokens

  abbrev pub Rounded : Request → ℕ → Run → Loop T × Bool → Type 0
  Rounded p m r (s, true) =
      (k : ℕ) × (greedy next p (suc m) r ≡ greedy next p (suc k) s.run) × (k < m) × Ready p k s
  Rounded p m r (s, false) = (greedy next p (suc m) r ≡ s.run) × Ended s

  longer_by_one :
      (ctx : List ℕ) (tok : ℕ) (q : List ℕ) → q ≡ ctx ++ tok ∷ [] → length q ≡ length ctx + 1
  longer_by_one ctx tok q e = ap length e ∙ length-append ctx (tok ∷ [])

  decode-Recorded :
      (p : Request) (m : ℕ) (s : Loop T) (tok : ℕ) (o : Run × Bool)
      → Placed p m s
      → tok ≡ next s.run.all_tokens
      → Recorded next p m s.run o
      → Rounded p m s.run (
          if not o.1
          then (record s { run = o.0 }, false)
          else if leb T.gpu_kv_ctx (length o.0.all_tokens - 1)
          then (record s { run = finish o.0 reached_length }, false)
          else (let (logits, d) = T.forward_gpu_decode tok (length o.0.all_tokens - 1) s.device in
              (
                record s {
                  run = o.0;
                  seed = if mtp_gpu T p then argmax_logits T logits else s.seed;
                  logits = logits;
                  device = d;
                },
                true,
              )))
  decode-Recorded p m s tok (q, false) v t w = (
    w.steps,
    record {
      rows = s.run.all_tokens;
      holds = v.holds;
      agree = rw w.appends (Comparable-append s.run.all_tokens _);
    },
  )
  decode-Recorded p zero s tok (q, true) v t w = absurd (omega (arith, w.goes_on refl, v.counted))
  decode-Recorded p (suc k) s tok (q, true) v t w =
      let a : q.all_tokens ≡ s.run.all_tokens ++ tok ∷ [] = rw t w.appends in
      let longer = longer_by_one s.run.all_tokens tok q.all_tokens a in
      let len : length q.all_tokens - 1 ≡ length s.run.all_tokens = omega (arith, longer) in
      let below : leb T.gpu_kv_ctx (length s.run.all_tokens) ≡ false = ground (arith, v.room) in
      let d = decode_law s.device s.run.all_tokens tok v.holds in
      rw (len, below)
        (
          k,
          w.steps,
          omega arith,
          record {
            placed = record {
              counted = omega (arith, w.counts, v.counted);
              holds = rw a d.0;
              room = omega (arith, v.room, longer);
              inactive = v.inactive;
            };
            seed_is = λ on. rw (on, a) d.1;
            logits_are = λ off. rw a d.1;
          },
        )

  pub decode_round-Rounded :
      (p : Request) (m : ℕ) (s : Loop T) (tok : ℕ)
      → Placed p m s
      → tok ≡ next s.run.all_tokens
      → Rounded p m s.run (decode_round T p s tok)
  unfolding decode_round
  decode_round-Rounded p m s tok v t = elim (Bool-cases (is_stop_token p tok)) [
    | inl h ↦ rw h (
      greedy_stop next p m s.run (rw (← t) h),
      record { rows = s.run.all_tokens; holds = v.holds; agree = λ n a b. refl },
    )
    | inr h ↦ rw h (
        decode-Recorded p m s tok (record_token p s.run tok) v t
          (rw t (record_token-Recorded next p m s.run (rw (← t) h))))
  ]
