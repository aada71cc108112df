-- ===== src/Engine.antt =====
-- What `Engine::run` (src/server.cpp) does with each generated token: stop tokens, stop strings,
-- UTF-8 safe streaming, cancellation and the token limit. Token ids are numbers, as they come from
-- an argmax; ids that a request or a configuration names are signed.
pub mod Stream
pub mod Ngram
pub mod Spec
pub mod Generate
pub mod Laws
pub mod Sampled
pub mod Greedy
pub mod Ready
pub mod Group
pub mod Refine
pub mod Requests
pub mod Progress
pub mod Rounds
pub mod Delivery
mod Tests
use Prim.Native.Nat.{bit_and}
use glmserve.Prelude.{
  ℕ, zero, suc, ◌+◌, ◌-◌, Bool, true, false, not, ◌&&◌, ◌||◌, List, [], ◌∷◌, ◌++◌, Option, none,
  some, ltb, leb, ◌==◌, if◌then◌else◌, length, get_or, take, drop, max, map,
}
use glmserve.Prelude.Int.{ℤ, pos, clip, int_eq, to_int32}
use glmserve.Prelude.Bytes.{Bytes, find}

-- What a request brings, and what its surroundings answer. `on_delta` sees the fragments sent
-- before and the new one; `cancelled` is the scheduler's flag after so many completion tokens.
pub record Request : Type 0 where
  pub max_tokens : ℤ
  pub mtp_draft_k : ℤ
  pub ignore_eos : Bool
  pub eos_id : ℤ
  pub eos_token_ids : List ℤ
  pub stop_token_ids : List ℤ
  pub stop : List Bytes
  pub decode_token : ℕ → Bytes
  pub on_delta : Option (List Bytes → Bytes → Bool)
  pub cancelled : ℕ → Bool

-- The two counts of the request where they are compared with counts: a loop up to a negative limit
-- makes no turn, and a negative draft length is no draft length.
abbrev pub token_limit : Request → ℕ
token_limit p = clip p.max_tokens

abbrev pub draft_length : Request → ℕ
draft_length p = clip p.mtp_draft_k

pub data FinishReason : Type 0 where
  stopped reached_length cancelled_by : FinishReason

-- `all_tokens`, the fields of `Completion` that a client sees, `emitted`, and the fragments that
-- `on_delta` was given.
pub record Run : Type 0 where
  pub all_tokens : List ℕ
  pub tokens : List ℕ
  pub completion_tokens : ℕ
  pub text : Bytes
  pub finish_reason : FinishReason
  pub emitted : ℕ
  pub deltas : List Bytes

any_eq : ℕ → List ℤ → Bool
any_eq tok [] = false
any_eq tok (e ∷ es) = int_eq (pos tok) e || any_eq tok es

pub is_stop_token : Request → ℕ → Bool
unfolding any_eq
is_stop_token p tok =
    (not p.ignore_eos && (int_eq (pos tok) p.eos_id || any_eq tok (map to_int32 p.eos_token_ids)))
    || any_eq tok p.stop_token_ids

-- `(c & 0xC0) == 0x80`: a byte inside a character.
abbrev pub is_continuation : ℕ → Bool
is_continuation c = bit_and c 0xC0 == 0x80

-- The loop of `utf8_trunc`.
trunc_from : Bytes → ℕ → ℕ
trunc_from s zero = 0
trunc_from s (suc l) = if is_continuation (get_or s (suc l) 0) then trunc_from s l else suc l

pub utf8_trunc : Bytes → ℕ → ℕ
unfolding trunc_from
utf8_trunc s l = if leb (length s) l then length s else trunc_from s l

-- The longest stop string.
pub max_stop : List Bytes → ℕ
max_stop [] = 0
max_stop (s ∷ ss) = max (length s) (max_stop ss)

-- The bytes at the end of the text that may begin a stop string.
abbrev pub hold_back : Request → ℕ
hold_back p = let m = max_stop p.stop in if ltb 0 m then m - 1 else 0

pub flush_limit : Request → Run → Bool → ℕ
flush_limit p r final_flush =
    let size = length r.text in
    if final_flush
    then size
    else utf8_trunc r.text (if ltb (hold_back p) size then size - hold_back p else 0)

-- The call of `on_delta` with the bytes from `emitted` to `upto`.
send : (List Bytes → Bytes → Bool) → Run → ℕ → Run × Bool
send f r upto =
    let delta = take (upto - r.emitted) (drop r.emitted r.text) in
    (record r { emitted = upto; deltas = r.deltas ++ delta ∷ [] }, f r.deltas delta)

flush_to : Option (List Bytes → Bytes → Bool) → Run → ℕ → Run × Bool
unfolding send
flush_to none r upto = (record r { emitted = max r.emitted upto }, true)
flush_to (some f) r upto =
    if ltb r.emitted upto then send f r upto else (record r { emitted = max r.emitted upto }, true)

-- The lambda `flush`: the run afterwards, and whether to go on.
pub flush : Request → Run → Bool → Run × Bool
unfolding flush_to
flush p r final_flush = flush_to p.on_delta r (flush_limit p r final_flush)

-- The place of the first stop string of the list that the text contains.
pub stop_at : List Bytes → Bytes → Option ℕ
stop_at [] text = none
stop_at ([] ∷ ss) text = stop_at ss text
stop_at ((x ∷ s) ∷ ss) text = elim (find (x ∷ s) text) [
  | some at ↦ some at
  | none ↦ stop_at ss text
]

abbrev pub finish : Run → FinishReason → Run
finish r why = record r { finish_reason = why }

push_token : Request → Run → ℕ → Run
push_token p r tok = record r {
  all_tokens = r.all_tokens ++ tok ∷ [];
  tokens = r.tokens ++ tok ∷ [];
  completion_tokens = r.completion_tokens + 1;
  text = r.text ++ p.decode_token tok;
}

-- What `record_token` does with a token that completes no stop string.
stream_token : Request → Run → Run × Bool
stream_token p r =
    let (r', go_on) = flush p r false in
    if not go_on
    then (finish r' cancelled_by, false)
    else if p.cancelled r'.completion_tokens
    then (finish r' cancelled_by, false)
    else if leb (token_limit p) r'.completion_tokens
    then (finish r' reached_length, false)
    else (r', true)

-- The lambda `record_token`: the run afterwards, and whether to go on.
pub record_token : Request → Run → ℕ → Run × Bool
unfolding push_token stream_token
record_token p r tok =
    let r' = push_token p r tok in
    elim (stop_at p.stop r'.text) [
      | some at ↦ (finish (record r' { text = take at r'.text }) stopped, false)
      | none ↦ stream_token p r'
    ]

-- The loop over accepted tokens: the run afterwards, and whether to go on.
pub commit : Request → Run → List ℕ → Run × Bool
commit p r [] = (r, true)
commit p r (tok ∷ toks) =
    let (r', go_on) = record_token p r tok in
    if is_stop_token p tok
    then (finish r stopped, false)
    else elim go_on [ true ↦ commit p r' toks | false ↦ (r', false) ]

-- The state before the first token: `c.finish_reason = "length"`.
pub start : List ℕ → Run
start prompt = record {
  all_tokens = prompt;
  tokens = [];
  completion_tokens = 0;
  text = [];
  finish_reason = reached_length;
  emitted = 0;
  deltas = [];
}
