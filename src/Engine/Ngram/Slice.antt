-- ===== src/Engine/Ngram/Slice.antt =====
-- What the n-gram drafter proposes.
use glmserve.Prelude.{
  ℕ, zero, suc, ◌+◌, ◌-◌, ◌≤◌, ◌<◌, ◌≡◌, ◌⊎◌, inl, inr, refl, ap, subst, true, not, ◌&&◌, ◌||◌,
  List, [], some, ltb, leb, ◌==◌, ==_iff, length, get_or, take, drop, min, arith, Bool-cases,
  Option-cases, length-take, length-drop,
}
use glmserve.Engine.Ngram.{
  NgramConfig, Best, no_best, suffix_hit, improve, scan, extend, attempt, try_lengths, ngram_draft,
}

-- The tokens before place `j` agree with those at the end of the context, as far as `e - 1` tokens.
abbrev pub Agrees : List ℕ → ℕ → ℕ → Type 0
Agrees ctx j e = (t : ℕ) → 0 < t → t < e → get_or ctx (j - t) 0 ≡ get_or ctx (length ctx - t) 0

-- A draft: the tokens behind an earlier occurrence of the seed, whose predecessors agree with the
-- end of the context.
pub record Slice (cfg : NgramConfig) (ctx : List ℕ) (seed max_k : ℕ) (ds : List ℕ) : Type 0 where
  pub at : ℕ
  pub evidence : ℕ
  pub slice : ds ≡ take (length ds) (drop (at + 1) ctx)
  pub nonempty : 0 < length ds
  pub short : length ds ≤ max_k
  pub inside : at + 1 + length ds ≤ length ctx
  pub seed_at : get_or ctx at 0 ≡ seed
  pub agrees : Agrees ctx at evidence
  pub pattern : cfg.m_min ≤ evidence
  pub enough : cfg.min_evidence ≤ evidence
  pub within : evidence ≤ at + 1

suffix_hit-Agrees : (ctx : List ℕ) (j k : ℕ) → suffix_hit ctx j k ≡ true → Agrees ctx j (suc k)
unfolding suffix_hit
suffix_hit-Agrees ctx j zero h t a b = absurd (omega arith)
suffix_hit-Agrees ctx j (suc k) h t a b = elim (last t k b) [
  | inl e ↦ rw e (ground arith)
  | inr l ↦ suffix_hit-Agrees ctx j k (ground arith) t a l
]
  where
    last : (t k : ℕ) → t < suc (suc k) → (t ≡ suc k) ⊎ (t < suc k)
    last t k l = omega arith

-- What the scan knows of its best match.
record IsHit (ctx : List ℕ) (seed max_k m j len : ℕ) : Type 0 where
  some_len : 0 < len
  len_is : len ≡ min (length ctx - (j + 1)) max_k
  above : m ≤ j + 1
  below : j + 1 < length ctx
  seed_here : get_or ctx j 0 ≡ seed
  hit : suffix_hit ctx j (m - 1) ≡ true

abbrev HasHit : List ℕ → ℕ → ℕ → ℕ → Best → Type 0
HasHit ctx seed max_k m b = (j : ℕ) → b.best_j ≡ some j → IsHit ctx seed max_k m j b.best_len

improve-HasHit :
    (ctx : List ℕ) (seed max_k m j : ℕ) (b : Best)
    → m ≤ j + 1
    → j + 1 < length ctx
    → get_or ctx j 0 ≡ seed
    → suffix_hit ctx j (m - 1) ≡ true
    → HasHit ctx seed max_k m b
    → HasHit ctx seed max_k m (improve ctx max_k j b)
unfolding improve
improve-HasHit ctx seed max_k m j b lo hi e h w =
    elim (Bool-cases (ltb b.best_len (min (length ctx - (j + 1)) max_k))) [
      | inr worse ↦ rw worse w
      | inl better ↦ rw better (λ i q.
          let same : j ≡ i = cc in
          subst (λ k. IsHit ctx seed max_k m k (min (length ctx - (j + 1)) max_k)) same
            (record {
              some_len = ground arith;
              len_is = refl;
              above = lo;
              below = hi;
              seed_here = e;
              hit = h;
            }))
    ]

scan-HasHit :
    (ctx : List ℕ) (seed max_k m rounds : ℕ) (b : Best)
    → 0 < m
    → m + rounds ≤ length ctx
    → HasHit ctx seed max_k m b
    → HasHit ctx seed max_k m (scan ctx seed max_k m rounds b)
unfolding scan
scan-HasHit ctx seed max_k m zero b p l w = w
scan-HasHit ctx seed max_k m (suc rounds) b p l w =
    let j = m - 1 + rounds in
    elim (Bool-cases (get_or ctx j 0 == seed && suffix_hit ctx j (m - 1))) [
      | inr miss ↦ rw miss (scan-HasHit ctx seed max_k m rounds b p (omega arith) w)
      | inl hit ↦
          let better =
            improve-HasHit ctx seed max_k m j b (omega arith) (omega arith)
              ((==_iff _ _).0 (ground arith)) (ground arith) w in
          rw hit (elim (Bool-cases (leb max_k (improve ctx max_k j b).best_len)) [
            | inl full ↦ rw full better
            | inr more ↦ rw more (scan-HasHit ctx seed max_k m rounds _ p (omega arith) better)
          ])
    ]

record Extended (ctx : List ℕ) (j agree e : ℕ) : Type 0 where
  further : agree ≤ e
  within : e ≤ j + 1
  agrees : Agrees ctx j e

extend-Extended :
    (ctx : List ℕ) (j rounds agree : ℕ)
    → agree + rounds ≡ j + 1
    → Agrees ctx j agree
    → Extended ctx j agree (extend ctx j rounds agree)
unfolding extend
extend-Extended ctx j zero agree e w = record {
  further = omega arith;
  within = omega arith;
  agrees = w;
}
extend-Extended ctx j (suc rounds) agree e w =
    elim (Bool-cases (get_or ctx (j - agree) 0 == get_or ctx (length ctx - agree) 0)) [
      | inr differ ↦ rw differ (record { further = omega arith; within = omega arith; agrees = w })
      | inl same ↦
          let r =
            extend-Extended ctx j rounds (agree + 1) (omega arith)
              (λ t a b. one_more t a b ((==_iff _ _).0 same)) in
          rw same
            (record { further = omega (arith, r.further); within = r.within; agrees = r.agrees })
    ]
  where
    last : (t k : ℕ) → t < k + 1 → (t ≡ k) ⊎ (t < k)
    last t k l = omega arith

    one_more :
        (t : ℕ)
        → 0 < t
        → t < agree + 1
        → get_or ctx (j - agree) 0 ≡ get_or ctx (length ctx - agree) 0
        → get_or ctx (j - t) 0 ≡ get_or ctx (length ctx - t) 0
    one_more t a b q = elim (last t agree b) [ inl x ↦ rw x q | inr l ↦ w t a l ]

attempt-Slice :
    (cfg : NgramConfig) (ctx : List ℕ) (seed max_k m : ℕ) (ds : List ℕ)
    → 0 < m
    → cfg.m_min ≤ m
    → attempt cfg ctx seed max_k m ≡ some ds
    → Slice cfg ctx seed max_k ds
unfolding attempt
attempt-Slice cfg ctx seed max_k m ds p lo h = elim (Bool-cases (ltb (length ctx) m)) [
  | inl few ↦ absurd (ground arith)
  | inr many ↦
      let b = scan ctx seed max_k m (length ctx - m) no_best in
      let hits : HasHit ctx seed max_k m b =
        scan-HasHit ctx seed max_k m (length ctx - m) no_best p (ground arith) (λ j q. cc) in
      elim (Option-cases b.best_j) [
        | inl nothing ↦ absurd (ground arith)
        | inr (j, q) ↦
            let w = hits j q in
            let x =
              extend-Extended ctx j (j + 1 - m) m (omega (arith, w.above))
                (λ t a l. suffix_hit-Agrees ctx j (m - 1) w.hit t a (omega arith)) in
            let is : ds ≡ take b.best_len (drop (j + 1) ctx) = ground arith in
            let len : length ds ≡ b.best_len = omega (
              arith,
              ap length is,
              length-take b.best_len (drop (j + 1) ctx),
              length-drop (j + 1) ctx,
              w.len_is,
            ) in
            record {
              at = j;
              evidence = extend ctx j (j + 1 - m) m;
              slice = rw len is;
              nonempty = omega (arith, len, w.some_len);
              short = omega (arith, len, w.len_is);
              inside = omega (arith, len, w.len_is, w.below);
              seed_at = w.seed_here;
              agrees = x.agrees;
              pattern = omega (arith, x.further);
              enough = ground arith;
              within = x.within;
            }
      ]
]

try_lengths-Slice :
    (cfg : NgramConfig) (ctx : List ℕ) (seed max_k rounds : ℕ)
    → 0 < cfg.m_min
    → (try_lengths cfg ctx seed max_k rounds ≡ [])
      ⊎ Slice cfg ctx seed max_k (try_lengths cfg ctx seed max_k rounds)
unfolding try_lengths
try_lengths-Slice cfg ctx seed max_k zero p = inl refl
try_lengths-Slice cfg ctx seed max_k (suc rounds) p =
    elim (Option-cases (attempt cfg ctx seed max_k (cfg.m_min + rounds))) [
      | inl nothing ↦ rw (nothing, try_lengths) (try_lengths-Slice cfg ctx seed max_k rounds p)
      | inr (ds, found) ↦
          rw (found, try_lengths)
            (inr (
              attempt-Slice cfg ctx seed max_k (cfg.m_min + rounds) ds (omega arith) (omega arith)
                found))
    ]

-- For a minimum pattern of at least one token, the drafter proposes nothing, or a non-empty run of
-- at most `max_k` tokens of the context itself: those behind an earlier occurrence of the seed whose
-- preceding tokens agree with the end of the context. The agreement, the seed included, is at least
-- as long as the minimum pattern and as the required evidence, and lies inside the context.
pub ngram_draft-Slice :
    (cfg : NgramConfig) (ctx : List ℕ) (seed max_k : ℕ)
    → 0 < cfg.m_min
    → (ngram_draft cfg ctx seed max_k ≡ [])
      ⊎ Slice cfg ctx seed max_k (ngram_draft cfg ctx seed max_k)
unfolding ngram_draft
ngram_draft-Slice cfg ctx seed max_k p = elim (Bool-cases (not cfg.enabled || max_k == 0)) [
  | inl off ↦ rw off (inl refl)
  | inr on ↦ rw on (try_lengths-Slice cfg ctx seed max_k _ p)
]
