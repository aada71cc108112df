-- ===== src/Engine/Progress.antt =====
-- One token, and the tokens of a group: each one recorded is one step on, and what is streamed stays in order.
use glmserve.Prelude.{
  ℕ, ◌+◌, ◌≡◌, ◌≤◌, ◌<◌, refl, ap, ◌∙◌, inl, inr, Bool, true, false, List, [], ◌∷◌, ◌++◌, some,
  length, arith, Bool-cases, length-append, append_assoc,
}
use glmserve.Prelude.Bytes.{Bytes}
use glmserve.Engine.{
  token_limit, Request, Run, FinishReason, stopped, finish, flush, flush_to, send, record_token,
  stream_token, push_token, commit, is_stop_token,
}
use glmserve.Engine.Stream.{
  Streamed, Clean, record_token-Recorded, finish-Streamed, flush-sends_all,
}
use glmserve.Engine.Stream

-- The tokens of the completion are those behind the prompt, and they are counted.
pub record Counted (p : Request) (prompt : List ℕ) (r : Run) : Type 0 where
  pub tokens_are : r.all_tokens ≡ prompt ++ r.tokens
  pub count_is : r.completion_tokens ≡ length r.tokens
  pub at_most : r.completion_tokens ≤ token_limit p

abbrev pub Progress : Request → List ℕ → ℕ → Run × Bool → Type 0
Progress p prompt n (r, true) =
    Clean p r
    × Counted p prompt r
    × (n < r.completion_tokens)
    × (r.completion_tokens < token_limit p)
Progress p prompt n (r, false) = Streamed r × Counted p prompt r

record_token_fields :
    (p : Request) (r : Run) (tok : ℕ)
    → ((record_token p r tok).0.all_tokens ≡ r.all_tokens ++ tok ∷ [])
      × ((record_token p r tok).0.tokens ≡ r.tokens ++ tok ∷ [])
      × ((record_token p r tok).0.completion_tokens ≡ r.completion_tokens + 1)
      × ((record_token p r tok).1 ≡ true → r.completion_tokens + 1 < token_limit p)
unfolding record_token stream_token push_token flush flush_to send
record_token_fields p r tok = ground arith

record_token-Counted :
    (p : Request) (prompt : List ℕ) (r : Run) (tok : ℕ)
    → Counted p prompt r
    → r.completion_tokens < token_limit p
    → Counted p prompt (record_token p r tok).0
record_token-Counted p prompt r tok v l =
    let f = record_token_fields p r tok in
    record {
      tokens_are = f.0 ∙ rw (f.1, v.tokens_are) (append_assoc prompt r.tokens (tok ∷ []));
      count_is = omega (arith, f.2, v.count_is, ap length f.1, length-append r.tokens (tok ∷ []));
      at_most = omega (arith, f.2, l);
    }

module _ (p : Request) (prompt : List ℕ) (f : List Bytes → Bytes → Bool)
    (e : p.on_delta ≡ some f) where
  to_Progress :
      (n : ℕ) (o : Run × Bool)
      → Stream.Recorded p o
      → Counted p prompt o.0
      → (o.1 ≡ true → (n < o.0.completion_tokens) × (o.0.completion_tokens < token_limit p))
      → Progress p prompt n o
  to_Progress n (r, true) c v h = (c, v, (h refl).0, (h refl).1)
  to_Progress n (r, false) c v h = (c, v)

  pub record_token-Progress :
      (r : Run) (tok : ℕ)
      → Clean p r
      → Counted p prompt r
      → r.completion_tokens < token_limit p
      → Progress p prompt r.completion_tokens (record_token p r tok)
  record_token-Progress r tok c v l =
      let k = record_token_fields p r tok in
      to_Progress r.completion_tokens (record_token p r tok) (record_token-Recorded p f r tok e c)
        (record_token-Counted p prompt r tok v l) (λ h. omega (arith, k.2, k.3 h))

  pub Progress-finish :
      (n : ℕ) (r : Run) (why : FinishReason)
      → Streamed r
      → Counted p prompt r
      → Progress p prompt n (finish r why, false)
  Progress-finish n r why s v = (
    finish-Streamed r why s,
    record { tokens_are = v.tokens_are; count_is = v.count_is; at_most = v.at_most },
  )

  Progress-after :
      (n m : ℕ) (o : Run × Bool) → n < m → Progress p prompt m o → Progress p prompt n o
  Progress-after n m (r, true) l (c, v, a, b) = (c, v, omega arith, b)
  Progress-after n m (r, false) l w = w

  commit_next :
      (toks : List ℕ) (n : ℕ) (o : Run × Bool)
      → Progress p prompt n o
      → ((q : Run) → Progress p prompt n (q, true) → Progress p prompt n (commit p q toks))
      → Progress p prompt n (elim o.1 [ true ↦ commit p o.0 toks | false ↦ (o.0, false) ])
  commit_next toks n (q, true) w rest = rest q w
  commit_next toks n (q, false) w rest = w

  pub commit-Progress :
      (tok : ℕ) (toks : List ℕ) (r : Run)
      → Clean p r
      → Counted p prompt r
      → r.completion_tokens < token_limit p
      → Progress p prompt r.completion_tokens (commit p r (tok ∷ toks))
  unfolding commit
  commit-Progress tok [] r c v l = elim (Bool-cases (is_stop_token p tok)) [
    | inl h ↦ rw h (Progress-finish r.completion_tokens r stopped c.streamed v)
    | inr h ↦ rw h (
        commit_next [] r.completion_tokens (record_token p r tok)
          (record_token-Progress r tok c v l) (λ q w. w))
  ]
  commit-Progress tok (t ∷ toks) r c v l = elim (Bool-cases (is_stop_token p tok)) [
    | inl h ↦ rw h (Progress-finish r.completion_tokens r stopped c.streamed v)
    | inr h ↦ rw h (
        commit_next (t ∷ toks) r.completion_tokens (record_token p r tok)
          (record_token-Progress r tok c v l)
          (λ q w.
            Progress-after r.completion_tokens q.completion_tokens (commit p q (t ∷ toks)) w.2
              (commit-Progress t toks q w.0 w.1 w.3)))
  ]
