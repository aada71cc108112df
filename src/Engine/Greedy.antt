-- ===== src/Engine/Greedy.antt =====
-- Committing tokens that greedy decoding would choose is greedy decoding.
use glmserve.Prelude.{
  ℕ, zero, suc, ◌+◌, ◌≡◌, ◌<◌, refl, sym, ap, ◌∙◌, inl, inr, Bool, true, false, List, [], ◌∷◌, ◌++◌,
  if◌then◌else◌, ◌==◌, length, take, get_or, arith, Bool-cases, append_assoc, append-nil,
}
use glmserve.Engine.{
  token_limit, Request, Run, stopped, is_stop_token, record_token, stream_token, push_token, flush,
  flush_to, send, finish, commit,
}
use glmserve.Engine.Spec.{matched}
use glmserve.Engine.Laws.{nexts, greedy}

-- Every token of the list is the greedy one after the context and the tokens before it.
abbrev pub Follows : (List ℕ → ℕ) → List ℕ → List ℕ → Type 0
Follows next ctx [] = Unit
Follows next ctx (t ∷ ts) = (t ≡ next ctx) × Follows next (ctx ++ t ∷ []) ts

-- The drafts that the verify pass accepts follow, and its last answer is the next greedy token.
pub matched-Follows :
    (next : List ℕ → ℕ) (ctx : List ℕ) (seed : ℕ) (ds : List ℕ)
    → seed ≡ next ctx
    → let am = nexts next ctx (seed ∷ ds) in
      Follows next ctx (seed ∷ take (matched ds am) ds)
      × (get_or am (matched ds am) 0 ≡ next (ctx ++ seed ∷ take (matched ds am) ds))
unfolding matched
matched-Follows next ctx seed [] e = ((e, tt), refl)
matched-Follows next ctx seed (d ∷ ds) e =
    let ctx' = ctx ++ seed ∷ [] in
    elim (Bool-cases (d == next ctx')) [
      | inl hit ↦
          let r = matched-Follows next ctx' d ds (ground arith) in
          rw hit ((e, r.0), r.1 ∙ ap next (append_assoc ctx (seed ∷ []) _))
      | inr miss ↦ rw miss ((e, tt), refl)
    ]

pub flush_keeps :
    (p : Request) (r : Run) (b : Bool)
    → ((flush p r b).0.all_tokens ≡ r.all_tokens)
      × ((flush p r b).0.completion_tokens ≡ r.completion_tokens)
unfolding flush flush_to send
flush_keeps p r b = ground arith

-- A token that is recorded is appended; decoding goes on only below the limit.
pub record_token_keeps :
    (p : Request) (r : Run) (tok : ℕ)
    → ((record_token p r tok).0.all_tokens ≡ r.all_tokens ++ tok ∷ [])
      × ((record_token p r tok).0.completion_tokens ≡ r.completion_tokens + 1)
      × ((record_token p r tok).1 ≡ true → r.completion_tokens + 1 < token_limit p)
unfolding record_token stream_token push_token
record_token_keeps p r tok = ground (arith, flush_keeps p (push_token p r tok) false)

-- What committing `ts` from `r`, with room for `suc m` tokens, comes to.
abbrev pub Committed : (List ℕ → ℕ) → Request → ℕ → Run → List ℕ → Run × Bool → Type 0
Committed next p m r ts (r', true) =
    (k : ℕ) × (greedy next p (suc m) r ≡ greedy next p (suc k) r')
    × (r'.all_tokens ≡ r.all_tokens ++ ts)
    × (r'.completion_tokens + suc k ≡ token_limit p)
    × (k + length ts ≡ m)
Committed next p m r ts (r', false) =
    (k : ℕ) × (greedy next p (suc m) r ≡ r') × (r'.all_tokens ≡ r.all_tokens ++ take k ts)

pub greedy_stop :
    (next : List ℕ → ℕ) (p : Request) (m : ℕ) (r : Run)
    → is_stop_token p (next r.all_tokens) ≡ true
    → greedy next p (suc m) r ≡ finish r stopped
unfolding greedy
greedy_stop next p m r h = rw h

greedy_go :
    (next : List ℕ → ℕ) (p : Request) (m : ℕ) (r : Run)
    → is_stop_token p (next r.all_tokens) ≡ false
    → greedy next p (suc m) r
      ≡ (let o = record_token p r (next r.all_tokens) in if o.1 then greedy next p m o.0 else o.0)
unfolding greedy
greedy_go next p m r h = rw h

-- One recorded token, in both decoders.
pub record Recorded (next : List ℕ → ℕ) (p : Request) (m : ℕ) (r : Run) (o : Run × Bool)
    : Type 0 where
  pub steps : greedy next p (suc m) r ≡ (if o.1 then greedy next p m o.0 else o.0)
  pub appends : o.0.all_tokens ≡ r.all_tokens ++ next r.all_tokens ∷ []
  pub counts : o.0.completion_tokens ≡ r.completion_tokens + 1
  pub goes_on : o.1 ≡ true → r.completion_tokens + 1 < token_limit p

pub record_token-Recorded :
    (next : List ℕ → ℕ) (p : Request) (m : ℕ) (r : Run)
    → is_stop_token p (next r.all_tokens) ≡ false
    → Recorded next p m r (record_token p r (next r.all_tokens))
record_token-Recorded next p m r s =
    let k = record_token_keeps p r (next r.all_tokens) in
    record { steps = greedy_go next p m r s; appends = k.0; counts = k.1; goes_on = k.2 }

module _ (next : List ℕ → ℕ) (p : Request) (r : Run) (t : ℕ) (ts : List ℕ) where
  Committed-cons :
      (m k : ℕ) (q : Run) (o : Run × Bool)
      → greedy next p (suc m) r ≡ greedy next p (suc k) q
      → q.all_tokens ≡ r.all_tokens ++ t ∷ []
      → m ≡ suc k
      → Committed next p k q ts o
      → Committed next p m r (t ∷ ts) o
  Committed-cons m k q (q', true) e a n (j, g, b, c, d) =
      (j, e ∙ g, b ∙ rw a (append_assoc r.all_tokens (t ∷ []) ts), c, omega (arith, d, n))
  Committed-cons m k q (q', false) e a n (j, g, b) =
      (suc j, e ∙ g, b ∙ rw a (append_assoc r.all_tokens (t ∷ []) (take j ts)))

  commit_cons :
      (m : ℕ) (o : Run × Bool)
      → t ≡ next r.all_tokens
      → Recorded next p m r o
      → r.completion_tokens + suc m ≡ token_limit p
      → ((k : ℕ) (q : Run)
          → q.completion_tokens + suc k ≡ token_limit p
          → q.all_tokens ≡ r.all_tokens ++ t ∷ []
          → Committed next p k q ts (commit p q ts))
      → Committed next p m r (t ∷ ts) (elim o.1 [ true ↦ commit p o.0 ts | false ↦ (o.0, false) ])
  commit_cons m (q, false) f w c rest = (1, w.steps, rw f w.appends)
  commit_cons zero (q, true) f w c rest = absurd (omega (arith, w.goes_on refl))
  commit_cons (suc k) (q, true) f w c rest =
      let a : q.all_tokens ≡ r.all_tokens ++ t ∷ [] = rw f w.appends in
      Committed-cons (suc k) k q (commit p q ts) w.steps a refl
        (rest k q (omega (arith, w.counts)) a)

-- Committing tokens that follow greedily is greedy decoding.
pub commit-greedy :
    (next : List ℕ → ℕ) (p : Request) (m : ℕ) (r : Run) (ts : List ℕ)
    → r.completion_tokens + suc m ≡ token_limit p
    → Follows next r.all_tokens ts
    → Committed next p m r ts (commit p r ts)
unfolding commit
commit-greedy next p m r [] c f = (m, refl, sym (append-nil r.all_tokens), c, omega arith)
commit-greedy next p m r (t ∷ ts) c (e, f) = elim (Bool-cases (is_stop_token p t)) [
  | inl s ↦ rw (s, commit) (0, greedy_stop next p m r (rw (← e) s), sym (append-nil r.all_tokens))
  | inr s ↦
      rw (s, commit)
        (commit_cons next p r t ts m (record_token p r t) e
          (rw e (record_token-Recorded next p m r (rw (← e) s))) c
          (λ k q d a. commit-greedy next p k q ts d (rw a f)))
]
