-- ===== src/Engine/Ngram.antt =====
-- The n-gram lookup drafter `ngram_draft` of src/server.cpp. A read `ctx[i]` is `get_or ctx i 0`:
-- every index that the loops form lies in the context.
pub mod Slice
use glmserve.Prelude.{
  ℕ, zero, suc, ◌+◌, ◌-◌, Bool, true, not, ◌&&◌, ◌||◌, List, [], Option, none, some, ltb, leb, ◌==◌,
  if◌then◌else◌, length, get_or, take, drop, min, max,
}

-- The environment variables, `m_min` after its lower bound of 2.
pub record NgramConfig : Type 0 where
  pub enabled : Bool
  pub m_min : ℕ
  pub min_evidence : ℕ

-- `GLMSERVE_SPEC_NGRAM_MIN` and `GLMSERVE_SPEC_NGRAM_EVIDENCE` as read, negative values as 0.
unfoldable pub ngram_config : Bool → ℕ → ℕ → NgramConfig
ngram_config enabled env_min env_evidence = record {
  enabled = enabled;
  m_min = max 2 env_min;
  min_evidence = env_evidence;
}

-- `best_j` (none for -1) and `best_len`.
pub record Best : Type 0 where
  pub best_j : Option ℕ
  pub best_len : ℕ

abbrev pub no_best : Best
no_best = record { best_j = none; best_len = 0 }

-- The inner loop over `t`: `ctx[j - t] == ctx[n - t]` for every t from 1 to the bound.
unfoldable pub suffix_hit : List ℕ → ℕ → ℕ → Bool
suffix_hit ctx j zero = true
suffix_hit ctx j (suc t) =
    get_or ctx (j - suc t) 0 == get_or ctx (length ctx - suc t) 0 && suffix_hit ctx j t

unfoldable pub improve : List ℕ → ℕ → ℕ → Best → Best
improve ctx max_k j b =
    let len = min (length ctx - (j + 1)) max_k in
    if ltb b.best_len len then record { best_j = some j; best_len = len } else b

-- The loop over `j` with the number of rounds left: `j` runs down from n - 2 to m - 1.
unfoldable pub scan : List ℕ → ℕ → ℕ → ℕ → ℕ → Best → Best
scan ctx seed max_k m zero b = b
scan ctx seed max_k m (suc rounds) b =
    let j = m - 1 + rounds in
    let b' = improve ctx max_k j b in
    let missed = scan ctx seed max_k m rounds b in
    let improved = scan ctx seed max_k m rounds b' in
    if get_or ctx j 0 == seed && suffix_hit ctx j (m - 1)
    then if leb max_k b'.best_len then b' else improved
    else missed

-- The `while` loop that extends the agreement, with `best_j + 1 - agree` rounds left.
unfoldable pub extend : List ℕ → ℕ → ℕ → ℕ → ℕ
extend ctx best_j zero agree = agree
extend ctx best_j (suc rounds) agree =
    let further = extend ctx best_j rounds (agree + 1) in
    if get_or ctx (best_j - agree) 0 == get_or ctx (length ctx - agree) 0 then further else agree

-- One length of the pattern; `none` goes on to the next.
unfoldable pub attempt : NgramConfig → List ℕ → ℕ → ℕ → ℕ → Option (List ℕ)
attempt cfg ctx seed max_k m =
    if ltb (length ctx) m
    then none
    else (let b = scan ctx seed max_k m (length ctx - m) no_best in
        elim b.best_j [
          | none ↦ none
          | some j ↦
              if ltb (extend ctx j (j + 1 - m) m) cfg.min_evidence
              then none
              else some (take b.best_len (drop (j + 1) ctx))
        ])

-- The loop over `m`, down to `m_min`, with the rounds left.
unfoldable pub try_lengths : NgramConfig → List ℕ → ℕ → ℕ → ℕ → List ℕ
try_lengths cfg ctx seed max_k zero = []
try_lengths cfg ctx seed max_k (suc rounds) =
    let shorter = try_lengths cfg ctx seed max_k rounds in
    elim (attempt cfg ctx seed max_k (cfg.m_min + rounds)) [ some ds ↦ ds | none ↦ shorter ]

unfoldable pub ngram_draft : NgramConfig → List ℕ → ℕ → ℕ → List ℕ
ngram_draft cfg ctx seed max_k =
    if not cfg.enabled || max_k == 0
    then []
    else try_lengths cfg ctx seed max_k (max cfg.m_min 4 + 1 - cfg.m_min)
