-- ===== src/Engine/Stream.antt =====
-- What the client of a stream is sent.
use glmserve.Prelude.{
  ℕ, zero, suc, ◌+◌, ◌-◌, ◌≤◌, ◌<◌, ◌≡◌, refl, sym, ap, ◌∙◌, inl, inr, Bool, true, false, List, [],
  ◌∷◌, ◌++◌, none, some, ltb, leb, length, take, drop, max, concat, concat-append, take_slice,
  take-take, take_all, take-append_left, arith, Bool-cases, Option-cases, length-append,
  length-take,
}
use glmserve.Prelude.Bytes.{Bytes, find, find-append}
use glmserve.Engine.{
  token_limit, Request, Run, FinishReason, stopped, trunc_from, utf8_trunc, max_stop, hold_back,
  flush_limit, send, flush_to, flush, stop_at, finish, push_token, stream_token, record_token,
  commit, is_stop_token,
}

-- The fragments sent so far make up the first `emitted` bytes of the text.
pub record Streamed (r : Run) : Type 0 where
  pub sent : concat r.deltas ≡ take r.emitted r.text
  pub within : r.emitted ≤ length r.text

-- Between two tokens: no stop string stands in the text, and bytes that may begin one are held back.
pub record Clean (p : Request) (r : Run) : Type 0 where
  pub streamed : Streamed r
  pub no_stop : stop_at p.stop r.text ≡ none
  pub held : r.emitted ≤ length r.text - hold_back p

trunc_from-le : (s : Bytes) (l : ℕ) → trunc_from s l ≤ l
unfolding trunc_from
trunc_from-le s zero = omega arith
trunc_from-le s (suc l) = ground (arith, trunc_from-le s l)

pub utf8_trunc-le : (s : Bytes) (l : ℕ) → (utf8_trunc s l ≤ l) × (utf8_trunc s l ≤ length s)
unfolding utf8_trunc
utf8_trunc-le s l = ground (arith, trunc_from-le s l)

flush_limit-le : (p : Request) (r : Run) → flush_limit p r false ≤ length r.text - hold_back p
unfolding flush_limit
flush_limit-le p r =
    ground (arith, utf8_trunc-le r.text (length r.text - hold_back p), utf8_trunc-le r.text 0)

send-Streamed :
    (f : List Bytes → Bytes → Bool) (r : Run) (upto : ℕ)
    → Streamed r
    → r.emitted ≤ upto
    → upto ≤ length r.text
    → Streamed (send f r upto).0
unfolding send
send-Streamed f r upto v l h = record {
  sent =
      concat-append r.deltas _
      ∙ ap (λ xs. xs ++ take (upto - r.emitted) (drop r.emitted r.text)) v.sent
      ∙ take_slice r.emitted upto r.text l;
  within = h;
}

-- `flush` sends the bytes up to the limit, and changes nothing else.
record Flushed (r s : Run) (upto : ℕ) : Type 0 where
  streamed : Streamed s
  text_is : s.text ≡ r.text
  emitted_is : s.emitted ≡ max r.emitted upto

flush_to-Flushed :
    (f : List Bytes → Bytes → Bool) (r : Run) (upto : ℕ)
    → Streamed r
    → upto ≤ length r.text
    → Flushed r (flush_to (some f) r upto).0 upto
unfolding flush_to
flush_to-Flushed f r upto v h = elim (Bool-cases (ltb r.emitted upto)) [
  | inl more ↦ rw more (record {
    streamed = send-Streamed f r upto v (ground arith) h;
    text_is = refl;
    emitted_is = ground arith;
  })
  | inr done ↦ rw done (record {
    streamed =
        let e : max r.emitted upto ≡ r.emitted = ground arith in
        record { sent = rw e v.sent; within = rw e v.within };
    text_is = refl;
    emitted_is = refl;
  })
]

-- The last `flush` sends what is left.
pub flush-sends_all :
    (p : Request) (f : List Bytes → Bytes → Bool) (r : Run)
    → p.on_delta ≡ some f
    → Streamed r
    → (concat (flush p r true).0.deltas ≡ r.text) × ((flush p r true).0.text ≡ r.text)
unfolding flush flush_limit
flush-sends_all p f r e v =
    let w = flush_to-Flushed f r (length r.text) v (omega arith) in
    rw e (
      w.streamed.sent
          ∙ ap (λ t. take (flush_to (some f) r (length r.text)).0.emitted t) w.text_is
          ∙ take_all _ r.text (omega (arith, w.emitted_is)),
      w.text_is,
    )

length-le-max_stop :
    (ss : List Bytes) (t d : Bytes) (q : ℕ)
    → stop_at ss t ≡ none
    → stop_at ss (t ++ d) ≡ some q
    → length t < q + max_stop ss
unfolding stop_at max_stop
length-le-max_stop [] t d q h e = cc
length-le-max_stop ([] ∷ ss) t d q h e = omega (arith, length-le-max_stop ss t d q h e)
length-le-max_stop ((x ∷ s) ∷ ss) t d q h e = elim (Option-cases (find (x ∷ s) t)) [
  | inr (i, f) ↦ absurd (ground (arith, f))
  | inl f ↦ elim (Option-cases (find (x ∷ s) (t ++ d))) [
    | inl g ↦ ground (arith, length-le-max_stop ss t d q)
    | inr (i, g) ↦ ground (arith, find-append (x ∷ s) t d i f g)
  ]
]

push-Streamed : (p : Request) (r : Run) (tok : ℕ) → Streamed r → Streamed (push_token p r tok)
unfolding push_token
push-Streamed p r tok v = record {
  sent = v.sent ∙ sym (take-append_left r.emitted r.text (p.decode_token tok) v.within);
  within = omega (arith, v.within, length-append r.text (p.decode_token tok));
}

-- What a token leaves behind: `Clean` to go on from, and in any case `Streamed`.
abbrev pub Recorded : Request → Run × Bool → Type 0
Recorded p (r, true) = Clean p r
Recorded p (r, false) = Streamed r

Clean-Streamed : (p : Request) (r : Run) (go_on : Bool) → Recorded p (r, go_on) → Streamed r
Clean-Streamed p r true v = v.streamed
Clean-Streamed p r false v = v

pub finish-Streamed : (r : Run) (why : FinishReason) → Streamed r → Streamed (finish r why)
finish-Streamed r why v = record { sent = v.sent; within = v.within }

stream_token-Recorded :
    (p : Request) (f : List Bytes → Bytes → Bool) (r : Run)
    → p.on_delta ≡ some f
    → Streamed r
    → stop_at p.stop r.text ≡ none
    → r.emitted ≤ length r.text - hold_back p
    → Recorded p (stream_token p r)
unfolding stream_token flush
stream_token-Recorded p f r e v n h =
    let upto = flush_limit p r false in
    let w : Flushed r (flush_to p.on_delta r upto).0 upto =
      simp e (flush_to-Flushed f r upto v (omega (arith, flush_limit-le p r))) in
    let s = (flush_to p.on_delta r upto).0 in
    let clean : Clean p s = record {
      streamed = w.streamed;
      no_stop = rw w.text_is n;
      held = rw w.text_is (omega (arith, w.emitted_is, flush_limit-le p r));
    } in
    elim (Bool-cases (flush_to p.on_delta r upto).1) [
      | inr halted ↦ rw halted (finish-Streamed s _ w.streamed)
      | inl goes ↦ rw goes (elim (Bool-cases (p.cancelled s.completion_tokens)) [
        | inl c ↦ rw c (finish-Streamed s _ w.streamed)
        | inr c ↦ rw c (elim (Bool-cases (leb (token_limit p) s.completion_tokens)) [
          | inl m ↦ rw m (finish-Streamed s _ w.streamed)
          | inr m ↦ rw m clean
        ])
      ])
    ]

pub record_token-Recorded :
    (p : Request) (f : List Bytes → Bytes → Bool) (r : Run) (tok : ℕ)
    → p.on_delta ≡ some f
    → Clean p r
    → Recorded p (record_token p r tok)
unfolding record_token push_token
record_token-Recorded p f r tok e v =
    let r' = push_token p r tok in
    elim (Option-cases (stop_at p.stop r'.text)) [
      | inl none_in ↦
          rw (none_in, record_token)
            (stream_token-Recorded p f r' e (push-Streamed p r tok v.streamed) none_in
              (omega (arith, v.held, length-append r.text (p.decode_token tok))))
      | inr (at, hit) ↦
          rw (hit, record_token) (cut r' at (push-Streamed p r tok v.streamed) (before at hit))
    ]
  where
    cut :
        (s : Run) (at : ℕ)
        → Streamed s
        → s.emitted ≤ at
        → Streamed (finish (record s { text = take at s.text }) stopped)
    cut s at w l = record {
      sent = w.sent ∙ sym (take-take s.emitted at s.text l);
      within = omega (arith, length-take at s.text, w.within);
    }

    before : (at : ℕ) → stop_at p.stop (r.text ++ p.decode_token tok) ≡ some at → r.emitted ≤ at
    before at hit =
        ground
          (arith, length-le-max_stop p.stop r.text (p.decode_token tok) at v.no_stop hit, v.held)

pub commit-Recorded :
    (p : Request) (f : List Bytes → Bytes → Bool) (r : Run) (toks : List ℕ)
    → p.on_delta ≡ some f
    → Clean p r
    → Recorded p (commit p r toks)
unfolding commit
commit-Recorded p f r [] e v = v
commit-Recorded p f r (tok ∷ toks) e v = elim (Bool-cases (is_stop_token p tok)) [
  | inl s ↦ rw s (finish-Streamed r stopped v.streamed)
  | inr s ↦ rw s (
      next (record_token p r tok) (λ q w. commit-Recorded p f q toks e w)
        (record_token-Recorded p f r tok e v))
]
  where
    next :
        (o : Run × Bool)
        → ((q : Run) → Clean p q → Recorded p (commit p q toks))
        → Recorded p o
        → Recorded p (elim o.1 [ true ↦ commit p o.0 toks | false ↦ (o.0, false) ])
    next (q, true) rest w = rest q w
    next (q, false) rest w = w
