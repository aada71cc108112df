-- ===== src/Sampler/Greedy.antt =====
-- The greedy branch of `Sampler::sample` of src/sampler.cpp takes a largest logit.
use glmserve.Prelude.{
  ℕ, suc, ◌+◌, ◌<◌, ◌≡◌, refl, ap, ◌∙◌, Bool, true, false, some, List, [], ◌∷◌, length, get_elem?,
  All, Bool-cases, inl, inr, arith,
}
use glmserve.Prelude.Int.{ℤ}
use glmserve.Sampler.{Float, SampleParams, max_from, max_element, sample, penalize}
use glmserve.Sampler.Draw.{penalize-length}

pub record IsStrict {S : Type 0} (f : Float S) : Type 0 where
  pub irreflexive : (x : S) → f.less x x ≡ false
  pub transitive : (x y z : S) → f.less x y ≡ true → f.less y z ≡ true → f.less x z ≡ true

module _ {S : Type 0} (f : Float S) where
  abbrev pub NoneAbove : S → List S → Type 0
  NoneAbove y zs = All (λ z. f.less y z ≡ false) zs

  -- A place of a largest element.
  unfoldable pub IsLargest : List S → ℕ → Type 0
  IsLargest l m = (y : S) × (get_elem? l m ≡ some y) × NoneAbove y l

module _ {S : Type 0} (f : Float S) (strict : IsStrict f) where
  -- What the search through `ys`, from the place `i`, leaves of the best so far.
  data Max (best : ℕ) (x : S) (i : ℕ) (ys : List S) : ℕ → Type 0 where
    stays : NoneAbove f x ys → Max best x i ys best
    moves :
        (m k : ℕ) (y : S)
        → m ≡ i + k
        → get_elem? ys k ≡ some y
        → f.less x y ≡ true
        → NoneAbove f y ys
        → Max best x i ys m

  not_below : (x y z : S) → f.less x z ≡ true → f.less x y ≡ false → f.less z y ≡ false
  not_below x y z h k = elim (Bool-cases (f.less z y)) [
    | inl e ↦ let o = strict.transitive x z y h e in absurd (ground arith)
    | inr e ↦ e
  ]

  max_from-Max : (best : ℕ) (x : S) (i : ℕ) (ys : List S) → Max best x i ys (max_from f best x i ys)
  unfolding max_from
  max_from-Max best x i [] = stays tt
  max_from-Max best x i (y ∷ ys) = elim (Bool-cases (f.less x y)) [
    | inl e ↦ rw e (above (max_from-Max i y (suc i) ys) e)
    | inr e ↦ rw e (behind (max_from-Max best x (suc i) ys) e)
  ]
    where
      above : {m : ℕ} → Max i y (suc i) ys m → f.less x y ≡ true → Max best x i (y ∷ ys) m
      above (stays h) e = moves i 0 y (omega arith) refl e (strict.irreflexive y, h)
      above (moves m k z o p q h) e =
          moves m (suc k) z (omega arith) p (strict.transitive x y z e q)
            (not_below y y z q (strict.irreflexive y), h)

      behind : {m : ℕ} → Max best x (suc i) ys m → f.less x y ≡ false → Max best x i (y ∷ ys) m
      behind (stays h) e = stays (e, h)
      behind (moves m k z o p q h) e = moves m (suc k) z (omega arith) p q (not_below x y z q e, h)

  largest : (x : S) (ys : List S) (m : ℕ) → Max 0 x 1 ys m → IsLargest f (x ∷ ys) m
  unfolding IsLargest
  largest x ys _ (stays h) = (x, refl, (strict.irreflexive x, h))
  largest x ys _ (moves m k y o p q h) =
      let e : m ≡ suc k = omega arith in
      (y, ap (get_elem? (x ∷ ys)) e ∙ p, (not_below x x y q (strict.irreflexive x), h))

  max_element-IsLargest : (l : List S) → 0 < length l → IsLargest f l (max_element f l)
  unfolding max_element
  max_element-IsLargest [] h = absurd (omega arith)
  max_element-IsLargest (x ∷ ys) h = largest x ys _ (max_from-Max 0 x 1 ys)

  -- At a temperature of at most zero `sample` gives a token with a largest logit after the penalties,
  -- for a strict order of the logits and one logit at least.
  pub sample-IsLargest :
      (sort : (ℕ → ℕ → Bool) → List ℕ → List ℕ) (p : SampleParams S) (prev : List ℤ) (r : S)
      (logits : List S)
      → f.at_most p.temperature f.nought ≡ true
      → 0 < length logits
      → (m : ℕ) × ((sample f sort p prev r logits).0 ≡ some m)
        × IsLargest f (penalize f p prev logits) m
  unfolding sample
  sample-IsLargest sort p prev r logits cold h = (
    max_element f (penalize f p prev logits),
    rw cold refl,
    max_element-IsLargest (penalize f p prev logits)
        (omega (arith, penalize-length f p prev logits)),
  )
