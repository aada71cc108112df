-- ===== src/Sampler/Candidates.antt =====
-- Which tokens `Sampler::sample` of src/sampler.cpp chooses from.
use glmserve.Prelude.{
  ℕ, zero, suc, ◌+◌, ◌≤◌, ◌<◌, ◌≡◌, refl, sym, subst, ◌∙◌, ap, Bool, false, ◌&&◌, ◌⊎◌, inl, inr,
  Option, some, List, [], ◌∷◌, length, take, get_elem?, take_all, count, count_pos, length-take,
  ltb, ltb→lt, ◌==◌, Bool-cases, if◌then◌else◌, arith,
}
use glmserve.Prelude.Int.{ℤ, pos, negsuc}
use glmserve.Sampler.{Float, SampleParams, before, iota, candidates, sample, sample_from, penalize}
use glmserve.Sampler.Sorting.{IsSort, IsWeakOrder}
use glmserve.Sampler.Draw.{Stands, get_elem?-take, sample_from-Stands, penalize-length}

count-Stands : (t : ℕ) (xs : List ℕ) → 0 < count t xs → Stands t xs
count-Stands t [] h = absurd (omega arith)
count-Stands t (x ∷ xs) h = elim (Bool-cases (t == x)) [
  | inl e ↦ let o : x ≡ t = ground arith in (0, ap some o)
  | inr e ↦ let r = count-Stands t xs (ground arith) in (suc r.0, r.1)
]

iota-count : (t from n : ℕ) → from ≤ t → t < from + n → 0 < count t (iota from n)
unfolding iota
iota-count t from zero h k = absurd (omega arith)
iota-count t from (suc n) h k = elim (Bool-cases (t == from)) [
  | inl e ↦ rw e (omega arith)
  | inr e ↦ let r = iota-count t (suc from) n (ground arith) (omega arith) in omega arith
]

count-iota : (t from n : ℕ) → 0 < count t (iota from n) → t < from + n
unfolding iota
count-iota t from zero h = absurd (omega arith)
count-iota t from (suc n) h = elim (Bool-cases (t == from)) [
  | inl e ↦ ground arith
  | inr e ↦ let r = count-iota t (suc from) n (ground arith) in omega arith
]

-- How many candidates there are.
abbrev pub limit_of : ℤ → ℕ → ℕ
limit_of (negsuc n) vocab = vocab
limit_of (pos k) vocab = if ltb 0 k && ltb k vocab then k else vocab

iota-length : (from n : ℕ) → length (iota from n) ≡ n
unfolding iota
iota-length from zero = refl
iota-length from (suc n) = ap suc (iota-length (suc from) n)

module _ {S : Type 0} (f : Float S) (sort : (ℕ → ℕ → Bool) → List ℕ → List ℕ) where
  -- All tokens, the largest logit first.
  unfoldable pub ranking : List S → List ℕ
  ranking l = sort (before f l) (iota 0 (length l))

  -- A token that stands among the first `limit` of the ranking, and no token `u` that does not stand
  -- in front of it has a larger logit.
  pub data Chosen (l : List S) (limit u : ℕ) : Option ℕ → Type 0 where
    chosen :
        (token place : ℕ)
        → token < length l
        → get_elem? (ranking l) place ≡ some token
        → place < limit
        → (before f l u token ≡ false)
          ⊎ ((j : ℕ) × (j < place) × (get_elem? (ranking l) j ≡ some u))
        → Chosen l limit u (some token)

module _ {S : Type 0} (f : Float S) (sort : (ℕ → ℕ → Bool) → List ℕ → List ℕ)
    (law : IsSort sort) where
  ranking-length : (l : List S) → length (ranking f sort l) ≡ length l
  unfolding ranking
  ranking-length l = law.same_length (before f l) (iota 0 (length l)) ∙ iota-length 0 (length l)

  ranking-lt : (l : List S) (i : ℕ) {t : ℕ} → get_elem? (ranking f sort l) i ≡ some t → t < length l
  unfolding ranking
  ranking-lt l i {t} e =
      let c = count_pos (ranking f sort l) i e in
      let o = law.same_counts (before f l) (iota 0 (length l)) t in
      omega (arith, count-iota t 0 (length l) (omega arith))

  ranking-Stands : (l : List S) (t : ℕ) → t < length l → Stands t (ranking f sort l)
  unfolding ranking
  ranking-Stands l t h =
      let o = law.same_counts (before f l) (iota 0 (length l)) t in
      count-Stands t (ranking f sort l)
        (omega (arith, iota-count t 0 (length l) (omega arith) (omega arith)))

  candidates-take :
      (l : List S) (k : ℤ) → candidates f sort l k ≡ take (limit_of k (length l)) (ranking f sort l)
  unfolding candidates ranking
  candidates-take l (negsuc n) =
      sym (take_all (length l) (ranking f sort l) (omega (arith, ranking-length l)))
  candidates-take l (pos k) = elim (Bool-cases (ltb 0 k && ltb k (length l))) [
    | inl e ↦ rw e refl
    | inr e ↦ rw e (sym (take_all (length l) (ranking f sort l) (omega (arith, ranking-length l))))
  ]

  limit_of-pos : (k : ℤ) (vocab : ℕ) → 0 < vocab → 0 < limit_of k vocab
  limit_of-pos (negsuc n) vocab h = h
  limit_of-pos (pos k) vocab h = elim (Bool-cases (ltb 0 k && ltb k vocab)) [
    | inl e ↦ rw e (ground arith)
    | inr e ↦ rw e h
  ]

  behind :
      (l : List S) (u token place : ℕ)
      → IsWeakOrder (before f l)
      → u < length l
      → get_elem? (ranking f sort l) place ≡ some token
      → (before f l u token ≡ false)
        ⊎ ((j : ℕ) × (j < place) × (get_elem? (ranking f sort l) j ≡ some u))
  unfolding ranking
  behind l u token place w h e =
      let (j, there) = ranking-Stands l u h in
      elim (Bool-cases (ltb j place)) [
        | inl front ↦ inr (j, ltb→lt j place front, there)
        | inr n ↦ elim (Bool-cases (j == place)) [
          | inl same ↦
              let o : j ≡ place = ground arith in
              let q : some u ≡ some token = sym there ∙ ap (get_elem? (ranking f sort l)) o ∙ e in
              let z : u ≡ token = cc in
              inl (subst (λ t. before f l u t ≡ false) z (w.irreflexive u))
          | inr differ ↦
              inl (law.ordered (before f l) (iota 0 (length l)) place j w (ground arith) e there)
        ]
      ]

  sample_ids :
      (p : SampleParams S) (r : S) (l : List S) (limit u : ℕ) (ids : List ℕ)
      → IsWeakOrder (before f l)
      → u < length l
      → 0 < limit
      → ids ≡ take limit (ranking f sort l)
      → Chosen f sort l limit u (sample_from f p r l ids)
  sample_ids p r l limit u [] w h k e =
      let o = ap length e ∙ length-take limit (ranking f sort l) in
      absurd (omega (arith, ranking-length l))
  sample_ids p r l limit u (first ∷ idx) w h k e =
      let (t, drawn, (i, there)) = sample_from-Stands f p r l first idx in
      let (ranked, within) =
        get_elem?-take limit (ranking f sort l) i (ap (λ xs. get_elem? xs i) (sym e) ∙ there) in
      subst (Chosen f sort l limit u) (sym drawn)
        (chosen t i (ranking-lt l i ranked) ranked within (behind l u t i w h ranked))

  -- At a positive temperature `sample` gives a token of the vocabulary that stands among the first
  -- `top_k` of the logits after the penalties, or among all where `top_k` sets no limit, whatever is
  -- drawn; and a token `u` with a larger logit stands in front of it. The sort keeps what
  -- `std::sort` promises and the logits are in a weak order.
  pub sample-Chosen :
      (p : SampleParams S) (prev : List ℤ) (r : S) (logits : List S) (u : ℕ)
      → f.at_most p.temperature f.nought ≡ false
      → IsWeakOrder (before f (penalize f p prev logits))
      → u < length logits
      → Chosen f sort
          (penalize f p prev logits)
          (limit_of p.top_k (length logits))
          u
          (sample f sort p prev r logits).0
  unfolding sample
  sample-Chosen p prev r logits u warm w h =
      let l = penalize f p prev logits in
      let o : length l ≡ length logits = penalize-length f p prev logits in
      let some_limit = limit_of-pos p.top_k (length logits) (omega arith) in
      rw warm (
        sample_ids p r l (limit_of p.top_k (length logits)) u _ w (omega arith) some_limit
          (candidates-take l p.top_k ∙ ap (λ n. take (limit_of p.top_k n) (ranking f sort l)) o))
