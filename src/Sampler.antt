-- ===== src/Sampler.antt =====
-- `Sampler::sample` of src/sampler.cpp. The `float`s are a parameter with their operations and tests,
-- as are the random numbers and `std::sort`, which may order equal elements either way. What
-- `std::partial_sort` leaves in front is the front of such an order.
pub mod Sorting
pub mod Draw
pub mod Candidates
pub mod Greedy
mod Tests
use glmserve.Prelude.{
  ℕ, zero, suc, ◌+◌, Bool, true, false, not, ◌&&◌, ◌||◌, Option, none, some, List, [], ◌∷◌, ◌++◌,
  take, length, get_or, set, map, ltb, leb, ◌==◌, if◌then◌else◌,
}
use glmserve.Prelude.Int.{ℤ, pos, negsuc}
use glmserve.Prelude.Maps.{lookup, assign}

pub record Float (S : Type 0) : Type 0 where
  pub nought : S
  pub unit : S
  pub add : S → S → S
  pub sub : S → S → S
  pub mul : S → S → S
  pub div : S → S → S
  pub exp : S → S
  pub of_int : ℕ → S
  pub less : S → S → Bool
  pub at_most : S → S → Bool
  pub same : S → S → Bool

-- The fields of `SamplingParams` that `sample` reads.
pub record SampleParams (S : Type 0) : Type 0 where
  pub temperature : S
  pub top_p : S
  pub top_k : ℤ
  pub repetition_penalty : S
  pub frequency_penalty : S
  pub presence_penalty : S

-- How often each token of the vocabulary occurs; a loop over the map meets each token once.
abbrev pub count_token : (vocab : ℕ) → ℤ → List (ℕ × ℕ) → List (ℕ × ℕ)
count_token vocab (negsuc n) counts = counts
count_token vocab (pos t) counts =
    if ltb t vocab
    then elim (lookup ◌==◌ t counts) [
      | none ↦ assign ◌==◌ t 1 counts
      | some c ↦ assign ◌==◌ t (suc c) counts
    ]
    else counts

unfoldable pub count_tokens : (vocab : ℕ) → List ℤ → List (ℕ × ℕ) → List (ℕ × ℕ)
count_tokens vocab [] counts = counts
count_tokens vocab (t ∷ prev) counts = count_tokens vocab prev (count_token vocab t counts)

-- The indices 0, 1, ...
unfoldable pub iota : (from size : ℕ) → List ℕ
iota from zero = []
iota from (suc size) = from ∷ iota (suc from) size

module _ {S : Type 0} (f : Float S) where
  unfoldable pub penalized : SampleParams S → (count : ℕ) → S → S
  penalized p count l =
      let scaled =
        if f.same p.repetition_penalty f.unit
        then l
        else if f.less f.nought l
        then f.div l p.repetition_penalty
        else f.mul l p.repetition_penalty in
      f.sub (f.sub scaled (f.mul p.frequency_penalty (f.of_int count))) p.presence_penalty

  unfoldable pub penalize_all : SampleParams S → List (ℕ × ℕ) → List S → List S
  penalize_all p [] logits = logits
  penalize_all p ((token, count) ∷ counts) logits =
      penalize_all p counts (set logits token (penalized p count (get_or logits token f.nought)))

  unfoldable pub penalize : SampleParams S → List ℤ → List S → List S
  penalize p prev logits =
      if not (f.same p.repetition_penalty f.unit)
        || not (f.same p.frequency_penalty f.nought)
        || not (f.same p.presence_penalty f.nought)
      then penalize_all p (count_tokens (length logits) prev []) logits
      else logits

  -- `std::max_element`: the first of the largest, from the best so far at `best`.
  unfoldable pub max_from : (best : ℕ) → S → (i : ℕ) → List S → ℕ
  max_from best x i [] = best
  max_from best x i (y ∷ logits) =
      if f.less x y then max_from i y (suc i) logits else max_from best x (suc i) logits

  unfoldable pub max_element : List S → ℕ
  max_element [] = 0
  max_element (x ∷ logits) = max_from 0 x 1 logits

  -- The order of the candidates: the larger logit first.
  abbrev pub before : List S → ℕ → ℕ → Bool
  before logits a b = f.less (get_or logits b f.nought) (get_or logits a f.nought)

  module _ (sort : (ℕ → ℕ → Bool) → List ℕ → List ℕ) where
    unfoldable pub candidates : List S → (top_k : ℤ) → List ℕ
    candidates logits (negsuc n) = sort (before logits) (iota 0 (length logits))
    candidates logits (pos k) =
        let idx = sort (before logits) (iota 0 (length logits)) in
        if ltb 0 k && ltb k (length logits) then take k idx else idx

  unfoldable pub weights : List S → (inv_t maxl : S) → List ℕ → List S
  weights logits inv_t maxl [] = []
  weights logits inv_t maxl (i ∷ idx) =
      f.exp (f.mul (f.sub (get_or logits i f.nought) maxl) inv_t) ∷ weights logits inv_t maxl idx

  unfoldable pub total : S → List S → S
  total sum [] = sum
  total sum (x ∷ xs) = total (f.add sum x) xs

  abbrev pub normalized : List S → List S
  normalized ws = let sum = total f.nought ws in map (λ w. f.div w sum) ws

  -- How many of the probabilities are kept: those up to the one that reaches `top_p`.
  unfoldable pub nucleus : (top_p cum : S) → List S → ℕ
  nucleus top_p cum [] = 0
  nucleus top_p cum (x ∷ probs) =
      let rest = nucleus top_p (f.add cum x) probs in
      if f.at_most top_p (f.add cum x) then 1 else suc rest

  -- The token at which the sum of the probabilities reaches the number drawn, else the last one.
  unfoldable pub draw : (r cum : S) → (token : ℕ) → List S → List ℕ → ℕ
  draw r cum token [] idx = token
  draw r cum token (x ∷ probs) [] = token
  draw r cum token (x ∷ probs) (i ∷ idx) =
      let rest = draw r (f.add cum x) i probs idx in if f.at_most r (f.add cum x) then i else rest

  -- Sampling from the candidates, of which there is one at least.
  unfoldable pub sample_from : SampleParams S → (r : S) → List S → List ℕ → Option ℕ
  sample_from p r logits [] = none
  sample_from p r logits (first ∷ idx) =
      let inv_t = f.div f.unit p.temperature in
      let probs = normalized (weights logits inv_t (get_or logits first f.nought) (first ∷ idx)) in
      let keep = nucleus p.top_p f.nought probs in
      if f.less p.top_p f.unit
      then some (draw r f.nought first (normalized (take keep probs)) (take keep (first ∷ idx)))
      else some (draw r f.nought first probs (first ∷ idx))

  -- The token and the logits, which are changed in place. `none` is a read of the first of no
  -- candidates. The number `r` is what the generator draws, which the greedy branch does not use.
  unfoldable pub sample :
      ((ℕ → ℕ → Bool) → List ℕ → List ℕ)
      → SampleParams S
      → (prev : List ℤ) → (r : S) → List S
      → Option ℕ × List S
  sample sort p prev r logits =
      let changed = penalize p prev logits in
      if f.at_most p.temperature f.nought
      then (some (max_element changed), changed)
      else (sample_from p r changed (candidates sort changed p.top_k), changed)
