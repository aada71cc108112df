-- ===== src/Handlers/Chat.antt =====
-- What a client reads of a streamed chat (`handle_chat` of src/server.cpp).
use glmserve.Prelude.{
  ℕ, ◌≡◌, refl, ap, ◌∙◌, true, List, [], ◌∷◌, ◌++◌, none, some, map, length, drop, append_assoc,
  drop-append-length,
}
use glmserve.Prelude.Bytes.{Bytes, codes}
use glmserve.Prelude.Result.{ok}
use glmserve.Json.Parser.{parse, string}
use glmserve.Json.Escape.{json_escape}
use glmserve.Json.Escape.Text.{parse-json_escape}
use glmserve.Http.{HttpRequest}
use glmserve.Http.Respond.{start_sse, sse, sse_done}
use glmserve.Tokenizer.{ChatMessage}
use glmserve.Handlers.{SamplingParams, Completion, Generated, Numbers, Session, gen_id, read_chat}
use glmserve.Handlers.Answers.{
  Service, role_chunk, before_delta, delta_chunk, final_chunk, delta_events, chat_on_delta, ending,
  handle_chat,
}
use glmserve.Handlers.Stream.{
  read_events, one_line, every-append, to_string-one_line, read_events-sse, read_events-sse_done,
  read_events-delta_events, role_chunk-one_line, delta_chunk-one_line, final_chunk-one_line,
}

module _ {Num F : Type 0} (n : Numbers Num F) (e : Service n) (s : Session) where
  abbrev pub chat_id : Bytes
  chat_id = gen_id (codes "chatcmpl-") s

  pub chat_id-one_line : one_line chat_id ≡ true
  chat_id-one_line = simp (every-append {A = ℕ}, to_string-one_line)

  -- What the engine does for a streamed chat.
  abbrev pub streamed : SamplingParams F → List ChatMessage → Generated
  streamed p msgs = e.generate msgs p (some (chat_on_delta s.client_alive))

  -- The events that a client reads of a streamed chat, as payloads.
  pub record ChatEvents (req : HttpRequest) (g : Generated) (c : Completion) : Type 0 where
    pub events : Bytes
    pub output_is : (handle_chat n e s req).output ≡ start_sse ++ events
    pub thrown_is : (handle_chat n e s req).thrown ≡ none
    pub payloads_are :
        read_events [] none events
        ≡ role_chunk chat_id s.created e.served_model_name
            ∷ map (delta_chunk chat_id s.created e.served_model_name) g.deltas
          ++ final_chunk chat_id s.created e.served_model_name c ∷ codes "[DONE]" ∷ []
    pub fragment_is :
        (delta : Bytes)
        → parse n.stod (
            drop
              (length (before_delta chat_id s.created e.served_model_name))
              (delta_chunk chat_id s.created e.served_model_name delta))
          ≡ ok (string delta)

  -- A chat request that asks for a stream, whose generation completes while the client stays
  -- connected, and a served model name without a line feed: nothing is thrown; behind the head of
  -- the stream a client of event streams reads the role chunk, one chunk for each fragment that
  -- generation gave, in order, the final chunk and the mark of the end, and no other event; the JSON string
  -- at the place of the content in a fragment's chunk is the fragment, whatever bytes it has.
  pub handle_chat-ChatEvents :
      (req : HttpRequest) (p : SamplingParams F) (msgs : List ChatMessage) (c : Completion)
      → read_chat n req.body ≡ ok (true, p, msgs)
      → (streamed p msgs).result ≡ ok c
      → ((i : ℕ) → s.client_alive i ≡ true)
      → one_line e.served_model_name ≡ true
      → ChatEvents req (streamed p msgs) c
  unfolding handle_chat ending delta_chunk
  handle_chat-ChatEvents req p msgs c asked completed alive name =
      let model = e.served_model_name in
      let chunk = delta_chunk chat_id s.created model in
      let role = role_chunk chat_id s.created model in
      let ds = (streamed p msgs).deltas in
      let final = final_chunk chat_id s.created model c in
      let deltas : Bytes = delta_events s.client_alive chunk 0 ds in
      let last : Bytes = sse final ++ sse_done in
      record {
        events = sse role ++ (deltas ++ last);
        output_is =
            rw (asked, completed, handle_chat, ending)
              (append_assoc (start_sse ++ sse role) deltas last
                ∙ append_assoc start_sse (sse role) (deltas ++ last));
        thrown_is = rw (asked, completed, handle_chat, ending) refl;
        payloads_are =
            read_events-sse role (deltas ++ last)
              (role_chunk-one_line chat_id s.created model chat_id-one_line name)
            ∙ ap (λ r. role ∷ r)
                (read_events-delta_events s.client_alive chunk 0 ds last alive
                    (delta_chunk-one_line chat_id s.created model chat_id-one_line name)
                  ∙ ap (λ r. map chunk ds ++ r)
                      (read_events-sse final sse_done
                          (final_chunk-one_line chat_id s.created model chat_id-one_line name c)
                        ∙ ap (λ r. final ∷ r) read_events-sse_done));
        fragment_is = λ delta.
            rw
              (drop-append-length (before_delta chat_id s.created model)
                (b'"' ∷ json_escape delta ++ b'"' ∷ codes "},\"finish_reason\":null}]}"))
              (parse-json_escape n.stod delta (codes "},\"finish_reason\":null}]}"));
      }
