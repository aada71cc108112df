-- ===== src/Handlers/Failures.antt =====
-- What a client reads of a streamed chat that fails (`handle_chat` of src/server.cpp under
-- `handle_connection` of src/http_server.cpp).
use glmserve.Prelude.{
  ℕ, ◌≡◌, refl, ap, ◌∙◌, true, false, List, [], ◌∷◌, ◌++◌, none, some, map, length, ◌==◌, arith,
  append_assoc, append-nil, subst,
}
use glmserve.Prelude.Bytes.{Bytes, codes, starts_with, digits, to_string}
use glmserve.Prelude.Result.{ok, err}
use glmserve.Tokenizer.{ChatMessage}
use glmserve.Http.{HttpRequest}
use glmserve.Http.Respond.{Handled, send, send_json, start_sse, sse, run_handler, error_body, crlf}
use glmserve.Handlers.{SamplingParams, Generated, Numbers, Session, read_chat}
use glmserve.Handlers.Answers.{Service, role_chunk, delta_chunk, delta_events, handle_chat, ending}
use glmserve.Handlers.Stream.{
  read_events, one_line, every-append, to_string-one_line, read_events-line, read_events-sse,
  read_events-delta_events, role_chunk-one_line, delta_chunk-one_line,
}
use glmserve.Handlers.Chat.{chat_id, chat_id-one_line, streamed}

-- A client reads no event in these bytes.
record Skips (t : Bytes) : Type 0 where
  skips : (s : Bytes) → read_events [] none (t ++ s) ≡ read_events [] none s

Skips-append : {t u : Bytes} → Skips t → Skips u → Skips (t ++ u)
Skips-append {t} {u} h k = record {
  skips = λ s. ap (read_events [] none) (append_assoc t u s) ∙ h.skips (u ++ s) ∙ k.skips s;
}

Skips-line :
    (t : Bytes)
    → one_line t ≡ true
    → starts_with (codes "data: ") t ≡ false
    → Skips (t ++ b'\n' ∷ [])
unfolding read_events
Skips-line [] h k = record { skips = λ s. refl }
Skips-line (c ∷ t) h k = record {
  skips = λ s.
      ap (read_events [] none) (append_assoc (c ∷ t) (b'\n' ∷ []) s)
      ∙ read_events-line (c ∷ t) [] none s h
      ∙ rw (k, read_events) refl;
}

read_events-rest : (t line : Bytes) → one_line t ≡ true → read_events line none t ≡ []
unfolding read_events
read_events-rest [] line h = refl
read_events-rest (c ∷ t) line h =
    let e : (c == b'\n') ≡ false = ground arith in
    let h' : one_line t ≡ true = ground arith in
    rw (e, read_events) (read_events-rest t (line ++ c ∷ []) h')

status_line-Skips :
    Skips (codes "HTTP/1.1 " ++ to_string 500 ++ codes " " ++ codes "Internal Server Error" ++ crlf)
unfolding read_events digits
status_line-Skips = record { skips = λ s. refl }

content_type-Skips : Skips (codes "Content-Type: " ++ codes "application/json" ++ crlf)
unfolding read_events
content_type-Skips = record { skips = λ s. refl }

content_length-Skips : (n : ℕ) → Skips (codes "Content-Length: " ++ to_string n ++ crlf)
content_length-Skips n =
    let t : Bytes = codes "Content-Length: " ++ to_string n in
    let l : one_line (t ++ b'\r' ∷ []) ≡ true = simp (every-append {A = ℕ}, to_string-one_line n) in
    subst Skips (append_assoc t (b'\r' ∷ []) (b'\n' ∷ [])) (Skips-line (t ++ b'\r' ∷ []) l refl)

origin-Skips : Skips (codes "Access-Control-Allow-Origin: *" ++ crlf)
unfolding read_events
origin-Skips = record { skips = λ s. refl }

connection-Skips : Skips (codes "Connection: close" ++ crlf ++ crlf)
unfolding read_events
connection-Skips = record { skips = λ s. refl }

-- A response with status 500 that follows an event stream is no event.
read_events-send_json :
    (body : Bytes) → one_line body ≡ true → read_events [] none (send_json 500 body) ≡ []
unfolding send
read_events-send_json body h =
    (Skips-append
        (Skips-append
          (Skips-append (Skips-append status_line-Skips content_type-Skips)
            (content_length-Skips (length body)))
          origin-Skips)
        connection-Skips).skips
      body
    ∙ read_events-rest body [] h

module _ {Num F : Type 0} (n : Numbers Num F) (e : Service n) (s : Session) where
  -- What a client gets of a stream that breaks off.
  pub record BrokenOff (req : HttpRequest) (g : Generated) : Type 0 where
    pub events : Bytes
    pub output_is : run_handler (handle_chat n e s) req ≡ start_sse ++ events
    pub payloads_are :
        read_events [] none events
        ≡ role_chunk (chat_id n e s) s.created e.served_model_name
          ∷ map (delta_chunk (chat_id n e s) s.created e.served_model_name) g.deltas

  stream_of : List Bytes → Bytes
  stream_of ds =
      sse (role_chunk (chat_id n e s) s.created e.served_model_name)
      ++ delta_events s.client_alive (delta_chunk (chat_id n e s) s.created e.served_model_name) 0
          ds

  handle_chat_throws :
      (req : HttpRequest) (p : SamplingParams F) (msgs : List ChatMessage) (what : Bytes)
      → read_chat n req.body ≡ ok (true, p, msgs)
      → (streamed n e s p msgs).result ≡ err what
      → handle_chat n e s req ≡ record {
        output = start_sse ++ stream_of (streamed n e s p msgs).deltas;
        thrown = some what;
      }
  unfolding handle_chat ending stream_of
  handle_chat_throws req p msgs what asked failed =
      rw (asked, failed, handle_chat, ending)
        (ap (λ o. record { output = o; thrown = some what }) (append_assoc start_sse _ _))

  -- A streamed chat whose generation throws a message without a line feed while the client stays
  -- connected, and a served model name without a line feed: of the bytes behind the head of the
  -- stream, the response with status 500 that the connection adds among them, a client of event
  -- streams reads the role chunk and one chunk for each fragment that generation gave, in order,
  -- and no other event, so that neither a final chunk nor the mark of the end tells it that the
  -- answer is whole.
  pub handle_chat-BrokenOff :
      (req : HttpRequest) (p : SamplingParams F) (msgs : List ChatMessage) (what : Bytes)
      → read_chat n req.body ≡ ok (true, p, msgs)
      → (streamed n e s p msgs).result ≡ err what
      → ((i : ℕ) → s.client_alive i ≡ true)
      → one_line e.served_model_name ≡ true
      → one_line what ≡ true
      → BrokenOff req (streamed n e s p msgs)
  unfolding run_handler stream_of error_body
  handle_chat-BrokenOff req p msgs what asked failed alive name line =
      let model = e.served_model_name in
      let role = role_chunk (chat_id n e s) s.created model in
      let chunk = delta_chunk (chat_id n e s) s.created model in
      let ds = (streamed n e s p msgs).deltas in
      let deltas : Bytes = delta_events s.client_alive chunk 0 ds in
      let last : Bytes = send_json 500 (error_body what) in
      let id = chat_id-one_line n e s in
      let body : one_line (error_body what) ≡ true = simp (every-append {A = ℕ}, line) in
      record {
        events = sse role ++ (deltas ++ last);
        output_is =
            ap
              (λ (h : Handled). elim h.thrown as (λ t. Bytes) [
                | none ↦ h.output
                | some w ↦ h.output ++ send_json 500 (error_body w)
              ])
              (handle_chat_throws req p msgs what asked failed)
            ∙ append_assoc start_sse (sse role ++ deltas) last
            ∙ ap (λ r. start_sse ++ r) (append_assoc (sse role) deltas last);
        payloads_are =
            read_events-sse role (deltas ++ last)
              (role_chunk-one_line (chat_id n e s) s.created model id name)
            ∙ ap (λ r. role ∷ r)
                (read_events-delta_events s.client_alive chunk 0 ds last alive
                    (delta_chunk-one_line (chat_id n e s) s.created model id name)
                  ∙ ap (λ r. map chunk ds ++ r) (read_events-send_json (error_body what) body)
                  ∙ append-nil (map chunk ds));
      }
