-- ===== src/Handlers/Stream.antt =====
-- A client that reads the events which the chat handler of src/server.cpp writes: by lines, with an
-- event at each blank line, as the format of event streams has it.
use glmserve.Prelude.{
  ℕ, suc, ◌+◌, ◌/◌, ◌%◌, zero, ◌≡◌, refl, ap, ◌∙◌, inl, inr, Bool, true, false, not, ◌&&◌, List, [],
  ◌∷◌, ◌++◌, Option, none, some, if◌then◌else◌, map, ltb, ◌==◌, drop, arith, Bool-cases,
  append_assoc, append-nil,
}
use glmserve.Prelude.Maps.{every}
use glmserve.Prelude.Bytes.{Bytes, codes, starts_with, digits, to_string}
use glmserve.Json.Escape.{escape_char, json_escape}
use glmserve.Engine.{FinishReason, stopped, reached_length, cancelled_by}
use glmserve.Http.Respond.{sse, sse_done}
use glmserve.Handlers.{Completion, reason_text}
use glmserve.Handlers.Answers.{
  opening, usage, chunk_name, role_chunk, before_delta, delta_chunk, final_chunk, delta_events,
}

-- The line adds to the event's payload where it begins with "data: ".
abbrev pub add_line : Option Bytes → Bytes → Option Bytes
add_line payload line =
    if starts_with (codes "data: ") line
    then (elim payload [
      | none ↦ some (drop 6 line)
      | some before ↦ some (before ++ b'\n' ∷ drop 6 line)
    ])
    else payload

abbrev pub dispatch : Option Bytes → List Bytes → List Bytes
dispatch none later = later
dispatch (some payload) later = payload ∷ later

-- The payloads of the events, from the line and the payload read so far.
unfoldable pub read_events : Bytes → Option Bytes → Bytes → List Bytes
read_events line payload [] = []
read_events line payload (c ∷ s) = elim (c == b'\n') [
  | false ↦ read_events (line ++ c ∷ []) payload s
  | true ↦ elim line [
    | [] ↦ dispatch payload (read_events [] none s)
    | (x ∷ xs) ↦ read_events [] (add_line payload (x ∷ xs)) s
  ]
]

abbrev pub one_line : Bytes → Bool
one_line s = every (λ (c : ℕ). not (c == b'\n')) s

pub every-append :
    {A : Type 0} (test : A → Bool) (xs ys : List A)
    → every test (xs ++ ys) ≡ every test xs && every test ys
every-append test [] ys = refl
every-append test (x ∷ xs) ys = elim (Bool-cases (test x)) [
  | inl y ↦ rw y (every-append test xs ys)
  | inr n ↦ rw n refl
]

pub one_line-append :
    (s t : Bytes) → one_line s ≡ true → one_line t ≡ true → one_line (s ++ t) ≡ true
one_line-append s t h k = every-append _ s t ∙ rw (h, k) refl

pub read_events-line :
    (t line : Bytes) (payload : Option Bytes) (s : Bytes)
    → one_line t ≡ true
    → read_events line payload (t ++ b'\n' ∷ s) ≡ read_events (line ++ t) payload (b'\n' ∷ s)
unfolding read_events
read_events-line [] line payload s h = rw (append-nil line) refl
read_events-line (c ∷ t) line payload s h =
    let e : (c == b'\n') ≡ false = ground arith in
    let h' : one_line t ≡ true = ground arith in
    rw (e, read_events)
      (read_events-line t (line ++ c ∷ []) payload s h'
        ∙ ap (λ l. read_events l payload (b'\n' ∷ s)) (append_assoc line (c ∷ []) t))

-- One event is read back whole.
pub read_events-sse :
    (d s : Bytes) → one_line d ≡ true → read_events [] none (sse d ++ s) ≡ d ∷ read_events [] none s
unfolding read_events sse
read_events-sse d s h =
    rw (append_assoc d (b'\n' ∷ b'\n' ∷ []) s)
      (read_events-line d (codes "data: ") none (b'\n' ∷ s) h)

pub read_events-sse_done : read_events [] none sse_done ≡ codes "[DONE]" ∷ []
unfolding read_events sse_done
read_events-sse_done = refl

digits-one_line : (f n : ℕ) → one_line (digits f n) ≡ true
unfolding digits
digits-one_line zero n = refl
digits-one_line (suc f) n =
    let last : one_line ((b'0' + n % 10) ∷ []) ≡ true = ground arith in
    elim (Bool-cases (ltb n 10)) [
      | inl one ↦ rw one last
      | inr more ↦ rw more (
          one_line-append (digits f (n / 10)) ((b'0' + n % 10) ∷ []) (digits-one_line f (n / 10))
            last)
    ]

pub json_escape-one_line : (s : Bytes) → one_line (json_escape s) ≡ true
unfolding json_escape escape_char
json_escape-one_line [] = refl
json_escape-one_line (c ∷ s) =
    one_line-append (escape_char c) (json_escape s) (each c) (json_escape-one_line s)
  where
    each : (c : ℕ) → one_line (escape_char c) ≡ true
    each c = ground arith

pub to_string-one_line : (n : ℕ) → one_line (to_string n) ≡ true
to_string-one_line n = digits-one_line 20 n

module _ (cid : Bytes) (created : ℕ) (model : Bytes) (cid_one : one_line cid ≡ true)
    (model_one : one_line model ≡ true) where
  opening-one_line :
      (object_name : Bytes)
      → one_line object_name ≡ true
      → one_line (opening cid object_name created model) ≡ true
  unfolding opening
  opening-one_line object_name h =
      simp (every-append {A = ℕ}, cid_one, model_one, h, to_string-one_line)

  pub role_chunk-one_line : one_line (role_chunk cid created model) ≡ true
  unfolding role_chunk
  role_chunk-one_line = simp (every-append {A = ℕ}, opening-one_line chunk_name refl)

  pub delta_chunk-one_line : (delta : Bytes) → one_line (delta_chunk cid created model delta) ≡ true
  unfolding delta_chunk before_delta
  delta_chunk-one_line delta =
      simp (every-append {A = ℕ}, opening-one_line chunk_name refl, json_escape-one_line delta)

  reason_text-one_line : (why : FinishReason) → one_line (reason_text why) ≡ true
  unfolding reason_text
  reason_text-one_line stopped = refl
  reason_text-one_line reached_length = refl
  reason_text-one_line cancelled_by = refl

  pub final_chunk-one_line : (c : Completion) → one_line (final_chunk cid created model c) ≡ true
  unfolding final_chunk usage
  final_chunk-one_line c = simp (
    every-append {A = ℕ},
    opening-one_line chunk_name refl,
    reason_text-one_line c.finish_reason,
    to_string-one_line,
  )

-- The events of fragments, one for each while the client is there.
pub read_events-delta_events :
    (alive : ℕ → Bool) (chunk : Bytes → Bytes) (i : ℕ) (ds : List Bytes) (s : Bytes)
    → ((j : ℕ) → alive j ≡ true)
    → ((d : Bytes) → one_line (chunk d) ≡ true)
    → read_events [] none (delta_events alive chunk i ds ++ s)
      ≡ map chunk ds ++ read_events [] none s
unfolding delta_events
read_events-delta_events alive chunk i [] s h k = refl
read_events-delta_events alive chunk i (d ∷ ds) s h k =
    rw (h i, append_assoc (sse (chunk d)) (delta_events alive chunk (suc i) ds) s)
      (read_events-sse (chunk d) (delta_events alive chunk (suc i) ds ++ s) (k d)
        ∙ ap (λ r. chunk d ∷ r) (read_events-delta_events alive chunk (suc i) ds s h k))
