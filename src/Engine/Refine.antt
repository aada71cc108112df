-- ===== src/Engine/Refine.antt =====
-- The generation loop refines greedy decoding, round by round.
use glmserve.Prelude.{
  ℕ, zero, suc, ◌≡◌, ◌<◌, refl, sym, ◌∙◌, inl, inr, Bool, true, false, some, ltb, arith, Bool-cases,
}
use glmserve.Engine.{token_limit, Request, Run}
use glmserve.Engine.Spec.{
  Trunk, SpecConfig, Sampling, Loop, round, generate_loop, mtp_gpu, argmax_logits,
}
use glmserve.Engine.Sampled.{IsGreedy, sampled_round-decode_round}
use glmserve.Engine.Laws.{TrunkLaws, greedy}
use glmserve.Engine.Ready.{Ready, Ended, Rounded, decode_round-Rounded}
use glmserve.Engine.Group.{group_round-Rounded}

module _ (T : Trunk) (laws : TrunkLaws T) where
  open laws use {next, Holds, prefill_law, decode_law, chunk_law, rewind_law, absorb_law, draft_law}

  round-Rounded :
      (cfg : SpecConfig) (q : Sampling T) (p : Request) (m : ℕ) (s : Loop T)
      → IsGreedy T q
      → Ready T laws p m s
      → Rounded T laws p m s.run (round T cfg q p s)
  unfolding round
  round-Rounded cfg q p m s g v = elim (Bool-cases (mtp_gpu T p)) [
    | inl on ↦ elim (Bool-cases s.active) [
      | inl spec ↦ simp (on, spec) (group_round-Rounded T laws cfg p m s v.placed on (v.seed_is on))
      | inr plain ↦
          simp (on, plain) (decode_round-Rounded T laws p m s s.seed v.placed (v.seed_is on))
    ]
    | inr off ↦
        simp (off, v.placed.inactive off, sampled_round-decode_round T q p s g)
          (decode_round-Rounded T laws p m s (argmax_logits T s.logits) v.placed (v.logits_are off))
  ]

  -- The loop ends, with the run of greedy decoding.
  pub record Generated (cfg : SpecConfig) (q : Sampling T) (p : Request) (fuel : ℕ) (s : Loop T)
      (goal : Run) : Type 0 where
    pub last : Loop T
    pub loop_is : generate_loop T cfg q p fuel s ≡ some last
    pub run_is : last.run ≡ goal
    pub ended : Ended T laws last

  pub generate_loop-greedy :
      (cfg : SpecConfig) (q : Sampling T) (p : Request) (fuel m : ℕ) (s : Loop T)
      → IsGreedy T q
      → m < fuel
      → Ready T laws p m s
      → Generated cfg q p fuel s (greedy next p (suc m) s.run)
  unfolding generate_loop
  generate_loop-greedy cfg q p zero m s cold l v = elim l [ ]
  generate_loop-greedy cfg q p (suc fuel) m s cold l v =
      go (round T cfg q p s) refl (round-Rounded cfg q p m s cold v)
        (λ k r h w. generate_loop-greedy cfg q p fuel k r cold h w)
    where
      under : ltb s.run.completion_tokens (token_limit p) ≡ true
      under = ground (arith, v.placed.counted)

      go :
          (o : Loop T × Bool)
          → round T cfg q p s ≡ o
          → Rounded T laws p m s.run o
          → ((k : ℕ) (t : Loop T)
              → k < fuel
              → Ready T laws p k t
              → Generated cfg q p fuel t (greedy next p (suc k) t.run))
          → Generated cfg q p (suc fuel) s (greedy next p (suc m) s.run)
      go (t, false) e (g, w) rest = record {
        last = t;
        loop_is = rw (under, e);
        run_is = sym g;
        ended = w;
      }
      go (t, true) e (k, g, h, w) rest =
          let r = rest k t (omega arith) w in
          record {
            last = r.last;
            loop_is = rw (under, e) r.loop_is;
            run_is = r.run_is ∙ sym g;
            ended = r.ended;
          }
