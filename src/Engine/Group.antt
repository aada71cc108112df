-- ===== src/Engine/Group.antt =====
-- A speculative group of the generation loop is greedy decoding of the tokens that it accepts.
use glmserve.Prelude.{
  ℕ, suc, ◌+◌, ◌-◌, ◌≡◌, ◌≤◌, ◌<◌, refl, sym, ap, subst, Bool, true, false, not, ◌&&◌, List, [],
  ◌∷◌, ◌++◌, if◌then◌else◌, ltb, leb, length, take, min, arith, length-append, length-take,
  take-append_add, take-take,
}
use glmserve.Engine.{token_limit, draft_length, Request, Run, commit}
use glmserve.Engine.Spec.{
  spec_group_max, Trunk, SpecConfig, Loop, matched, draft_tokens, verify_round, group_round,
  Counters, mtp_gpu,
}
use glmserve.Engine.Ngram.{ngram_draft}
use glmserve.Engine.Laws.{TrunkLaws, nexts}
use glmserve.Engine.Greedy.{matched-Follows, Committed, commit-greedy}
use glmserve.Engine.Ready.{Comparable, Placed, Rounded}

module _ (T : Trunk) (laws : TrunkLaws T) where
  open laws use {next, Holds, prefill_law, decode_law, chunk_law, rewind_law, absorb_law, draft_law}

  matched-le : (ds am : List ℕ) → matched ds am ≤ length ds
  unfolding matched
  matched-le [] am = omega arith
  matched-le (d ∷ ds) [] = omega arith
  matched-le (d ∷ ds) (x ∷ am) = ground (arith, matched-le ds am)

  Comparable-take : (xs ts : List ℕ) (j : ℕ) → Comparable (xs ++ ts) (xs ++ take j ts)
  Comparable-take xs ts j n h l =
      let e = take-append_add xs ts j in
      let n_le : n ≤ length xs + j =
        omega (arith, l, length-append xs (take j ts), length-take j ts) in
      sym (rw (← e) (take-take n (length xs + j) (xs ++ ts) n_le))

  -- The verify pass, the rewind and the commit of a group.
  verify-Committed :
      (p : Request) (m : ℕ) (s : Loop T) (ts : List ℕ) (seed : ℕ) (rewound absorbed : T.Device)
      (fall : Bool) (counters : Counters) (o : Run × Bool)
      → Placed T laws p m s
      → mtp_gpu T p ≡ true
      → 0 < length ts
      → Holds rewound (s.run.all_tokens ++ ts)
      → Holds absorbed (s.run.all_tokens ++ ts)
      → seed ≡ next (s.run.all_tokens ++ ts)
      → Committed next p m s.run ts o
      → Rounded T laws p m s.run (
          if not o.1
          then (record s { run = o.0; device = rewound; counters = counters }, false)
          else if fall
          then (
            record {
              run = o.0;
              seed = seed;
              logits = s.logits;
              device = rewound;
              active = false;
              counters = counters;
            },
            true,
          )
          else (
            record {
              run = o.0;
              seed = seed;
              logits = s.logits;
              device = absorbed;
              active = s.active;
              counters = counters;
            },
            true,
          ))
  verify-Committed p m s ts seed rewound absorbed fall counters (q, false) v on ne hr ha e
        (j, g, a) =
      (
        g,
        record {
          rows = s.run.all_tokens ++ ts;
          holds = hr;
          agree = rw a (Comparable-take s.run.all_tokens ts j);
        },
      )
  verify-Committed p m s ts seed rewound absorbed true counters (q, true) v on ne hr ha e
        (k, g, a, c, l) =
      (
        k,
        g,
        omega (arith, l),
        record {
          placed = record {
            counted = c;
            holds = rw a hr;
            room = omega (arith, v.room, l, ap length a, length-append s.run.all_tokens ts);
            inactive = λ off. refl;
          };
          seed_is = λ o. rw a e;
          logits_are = λ off. cc;
        },
      )
  verify-Committed p m s ts seed rewound absorbed false counters (q, true) v on ne hr ha e
        (k, g, a, c, l) =
      (
        k,
        g,
        omega (arith, l),
        record {
          placed = record {
            counted = c;
            holds = rw a ha;
            room = omega (arith, v.room, l, ap length a, length-append s.run.all_tokens ts);
            inactive = λ off. cc;
          };
          seed_is = λ o. rw a e;
          logits_are = λ off. cc;
        },
      )

  verify_round-Rounded :
      (cfg : SpecConfig) (p : Request) (m : ℕ) (s : Loop T) (ds : List ℕ) (from_ngram : Bool)
      (d : T.Device)
      → Placed T laws p m s
      → mtp_gpu T p ≡ true
      → s.seed ≡ next s.run.all_tokens
      → Holds d s.run.all_tokens
      → Rounded T laws p m s.run (verify_round T cfg p s (ds, from_ngram, d))
  unfolding verify_round
  verify_round-Rounded cfg p m s ds from_ngram d v on t h =
      let ctx = s.run.all_tokens in
      let c = chunk_law d ctx (s.seed ∷ ds) h in
      let k = matched ds (nexts next ctx (s.seed ∷ ds)) in
      let f = matched-Follows next ctx s.seed ds t in
      let inside : length ctx + suc k ≤ length (ctx ++ s.seed ∷ ds) =
        omega
          (arith, matched-le ds (nexts next ctx (s.seed ∷ ds)), length-append ctx (s.seed ∷ ds)) in
      let back = rewind_law _ (ctx ++ s.seed ∷ ds) (length ctx + suc k) c.0 inside in
      let held = subst (Holds _) (take-append_add ctx (s.seed ∷ ds) (suc k)) back in
      let one : suc k - 1 ≡ k = omega arith in
      rw (c.1, one)
        (verify-Committed p m s (s.seed ∷ take k ds) _ _ _ _ _ (commit p s.run (s.seed ∷ take k ds))
          v on (omega arith) held (absorb_law _ _ _ _ held) f.1
          (commit-greedy next p m s.run (s.seed ∷ take k ds) v.counted f.0))

  draft_tokens-Holds :
      (cfg : SpecConfig) (p : Request) (s : Loop T) (remaining group_k : ℕ)
      → Holds s.device s.run.all_tokens
      → Holds (draft_tokens T cfg p s remaining group_k).2 s.run.all_tokens
  unfolding draft_tokens
  draft_tokens-Holds cfg p s remaining group_k h =
      pick (ltb 0 (length (drafts s remaining)) && leb (group_k - 1) (length (drafts s remaining)))
        (ltb 1 group_k)
    where
      drafts : Loop T → ℕ → List ℕ
      drafts s remaining =
          ngram_draft cfg.ngram s.run.all_tokens s.seed
            (min (min spec_group_max remaining) (T.gpu_kv_ctx - length s.run.all_tokens) - 1)

      pick :
          (a b : Bool)
          → Holds
              (let (drafted, d) = T.mtp_gpu_draft s.seed (group_k - 1) s.device in
                let t : List ℕ × Bool × T.Device =
                  if a
                  then (drafts s remaining, true, s.device)
                  else if b
                  then (drafted, false, d)
                  else ([], false, s.device) in
                t).2
              s.run.all_tokens
      pick true b = h
      pick false true = draft_law s.device s.run.all_tokens s.seed (group_k - 1) h
      pick false false = h

  pub group_round-Rounded :
      (cfg : SpecConfig) (p : Request) (m : ℕ) (s : Loop T)
      → Placed T laws p m s
      → mtp_gpu T p ≡ true
      → s.seed ≡ next s.run.all_tokens
      → Rounded T laws p m s.run (group_round T cfg p s)
  unfolding group_round
  group_round-Rounded cfg p m s v on t =
      let remaining = token_limit p - s.run.completion_tokens in
      let group_k = min (min (draft_length p) remaining) 64 in
      let fits : ltb T.gpu_kv_ctx (length s.run.all_tokens + group_k) ≡ false =
        ground (arith, v.room, v.counted) in
      let ds = draft_tokens T cfg p s remaining group_k in
      rw fits (
        verify_round-Rounded cfg p m s ds.0 ds.1 ds.2 v on t
          (draft_tokens-Holds cfg p s remaining group_k v.holds))
