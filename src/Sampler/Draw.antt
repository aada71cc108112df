-- ===== src/Sampler/Draw.antt =====
-- The token drawn by `Sampler::sample` of src/sampler.cpp is one of the candidates.
use glmserve.Prelude.{
  ℕ, zero, suc, ◌<◌, ◌≡◌, refl, sym, ◌∙◌, ap, Bool, true, false, ◌⊎◌, inl, inr, some, List, [], ◌∷◌,
  length, take, get_elem?, length-set, Bool-cases, if◌then◌else◌, arith,
}
use glmserve.Prelude.Int.{ℤ}
use glmserve.Sampler.{Float, SampleParams, draw, sample_from, penalize, penalize_all}

-- A place of a list.
abbrev pub Stands : ℕ → List ℕ → Type 0
Stands t xs = (i : ℕ) × (get_elem? xs i ≡ some t)

pub get_elem?-take :
    {A : Type 0} (n : ℕ) (xs : List A) (i : ℕ) {x : A}
    → get_elem? (take n xs) i ≡ some x
    → (get_elem? xs i ≡ some x) × (i < n)
get_elem?-take zero xs i e = cc
get_elem?-take (suc n) [] i e = cc
get_elem?-take (suc n) (y ∷ xs) zero e = (e, omega arith)
get_elem?-take (suc n) (y ∷ xs) (suc i) e =
    let r = get_elem?-take n xs i e in (r.0, omega (arith, r.1))

module _ {S : Type 0} (f : Float S) where
  draw-Stands :
      (r cum : S) (token : ℕ) (probs : List S) (idx : List ℕ)
      → (draw f r cum token probs idx ≡ token) ⊎ Stands (draw f r cum token probs idx) idx
  unfolding draw
  draw-Stands r cum token [] idx = inl refl
  draw-Stands r cum token (x ∷ probs) [] = inl refl
  draw-Stands r cum token (x ∷ probs) (i ∷ idx) = elim (Bool-cases (f.at_most r (f.add cum x))) [
    | inl e ↦ rw e (inr (0, refl))
    | inr e ↦ rw e (elim (draw-Stands r (f.add cum x) i probs idx) [
      | inl here ↦ inr (0, ap some (sym here))
      | inr (j, there) ↦ inr (suc j, there)
    ])
  ]

  drawn :
      (r : S) (first : ℕ) (idx : List ℕ) (probs : List S)
      → Stands (draw f r f.nought first probs (first ∷ idx)) (first ∷ idx)
  drawn r first idx probs = elim (draw-Stands r f.nought first probs (first ∷ idx)) [
    | inl e ↦ (0, ap some (sym e))
    | inr there ↦ there
  ]

  drawn-front :
      (r : S) (first : ℕ) (idx : List ℕ) (probs : List S) (keep : ℕ)
      → Stands (draw f r f.nought first probs (take keep (first ∷ idx))) (first ∷ idx)
  drawn-front r first idx probs keep =
      elim (draw-Stands r f.nought first probs (take keep (first ∷ idx))) [
        | inl e ↦ (0, ap some (sym e))
        | inr (j, there) ↦ (j, (get_elem?-take keep (first ∷ idx) j there).0)
      ]

  either :
      (test : Bool) (a b : ℕ) (xs : List ℕ)
      → Stands a xs
      → Stands b xs
      → (t : ℕ) × ((if test then some a else some b) ≡ some t) × Stands t xs
  either true a b xs h k = (a, refl, h)
  either false a b xs h k = (b, refl, k)

  -- Whatever is drawn, one of the candidates comes out.
  pub sample_from-Stands :
      (p : SampleParams S) (r : S) (logits : List S) (first : ℕ) (idx : List ℕ)
      → (t : ℕ) × (sample_from f p r logits (first ∷ idx) ≡ some t) × Stands t (first ∷ idx)
  unfolding sample_from
  sample_from-Stands p r logits first idx =
      either (f.less p.top_p f.unit) _ _ (first ∷ idx) (drawn-front r first idx _ _)
        (drawn r first idx _)

  penalize_all-length :
      (p : SampleParams S) (counts : List (ℕ × ℕ)) (logits : List S)
      → length (penalize_all f p counts logits) ≡ length logits
  unfolding penalize_all
  penalize_all-length p [] logits = refl
  penalize_all-length p ((token, count) ∷ counts) logits =
      penalize_all-length p counts _ ∙ length-set logits token _

  pub penalize-length :
      (p : SampleParams S) (prev : List ℤ) (logits : List S)
      → length (penalize f p prev logits) ≡ length logits
  unfolding penalize
  penalize-length p prev logits = if_length _ _ _ (penalize_all-length p _ logits)
    where
      if_length :
          (test : Bool) (a b : List S)
          → length a ≡ length b
          → length (if test then a else b) ≡ length b
      if_length true a b h = h
      if_length false a b h = refl
