-- ===== src/Handlers/Answers.antt =====
-- The answers of the handlers of src/server.cpp, as one JSON document or as events. The engine is
-- what the handlers call: `generate` on messages and `generate_text` on a prompt.
use glmserve.Prelude.{
  ℕ, suc, ◌+◌, true, false, Bool, List, [], ◌∷◌, ◌++◌, none, some, if◌then◌else◌, length,
}
use glmserve.Prelude.Bytes.{Bytes, codes, to_string}
use glmserve.Prelude.Result.{Result, ok, err}
use glmserve.Json.Escape.{json_escape}
use glmserve.Http.Respond.{Handled, Handler, Routes, route, send_json, start_sse, sse, sse_done}
use glmserve.Tokenizer.{ChatMessage}
use glmserve.Handlers.{
  SamplingParams, Completion, Generated, OnDelta, Refusal, Numbers, Session, gen_id, reason_text,
  read_chat, read_completions,
}

-- The beginning of every answer, up to the model's name, which is put in as it is.
unfoldable pub opening : (cid object_name : Bytes) (created : ℕ) (model : Bytes) → Bytes
opening cid object_name created model =
    codes "{\"id\":\""
    ++ cid
    ++ codes "\",\"object\":\""
    ++ object_name
    ++ codes "\",\"created\":"
    ++ to_string created
    ++ codes ",\"model\":\""
    ++ model

unfoldable pub usage : Completion → Bytes
usage c =
    codes ",\"usage\":{\"prompt_tokens\":"
    ++ to_string c.prompt_tokens
    ++ codes ",\"completion_tokens\":"
    ++ to_string c.completion_tokens
    ++ codes ",\"total_tokens\":"
    ++ to_string (c.prompt_tokens + c.completion_tokens)
    ++ codes "}"

abbrev pub chunk_name : Bytes
chunk_name = codes "chat.completion.chunk"

abbrev pub text_name : Bytes
text_name = codes "text_completion"

unfoldable pub role_chunk : (cid : Bytes) (created : ℕ) (model : Bytes) → Bytes
role_chunk cid created model =
    opening cid chunk_name created model
    ++ codes
        "\",\"choices\":[{\"index\":0,\"delta\":{\"role\":\"assistant\"},\"finish_reason\":null}]}"

-- What stands before the escaped fragment in the chunk of a fragment.
unfoldable pub before_delta : (cid : Bytes) (created : ℕ) (model : Bytes) → Bytes
before_delta cid created model =
    opening cid chunk_name created model
    ++ codes "\",\"choices\":[{\"index\":0,\"delta\":{\"content\":"

unfoldable pub delta_chunk : (cid : Bytes) (created : ℕ) (model delta : Bytes) → Bytes
delta_chunk cid created model delta =
    before_delta cid created model
    ++ (b'"' ∷ json_escape delta ++ b'"' ∷ codes "},\"finish_reason\":null}]}")

unfoldable pub final_chunk : (cid : Bytes) (created : ℕ) (model : Bytes) → Completion → Bytes
final_chunk cid created model c =
    opening cid chunk_name created model
    ++ codes "\",\"choices\":[{\"index\":0,\"delta\":{},\"finish_reason\":\""
    ++ reason_text c.finish_reason
    ++ codes "\"}]"
    ++ usage c
    ++ codes "}"

unfoldable pub chat_document : (cid : Bytes) (created : ℕ) (model : Bytes) → Completion → Bytes
chat_document cid created model c =
    opening cid (codes "chat.completion") created model
    ++ codes "\",\"choices\":[{\"index\":0,\"message\":{\"role\":\"assistant\",\"content\":\""
    ++ json_escape c.text
    ++ codes "\"},\"finish_reason\":\""
    ++ reason_text c.finish_reason
    ++ codes "\"}]"
    ++ usage c
    ++ codes "}"

unfoldable pub before_text : (cid : Bytes) (created : ℕ) (model : Bytes) → Bytes
before_text cid created model =
    opening cid text_name created model ++ codes "\",\"choices\":[{\"index\":0,\"text\":"

unfoldable pub text_chunk : (cid : Bytes) (created : ℕ) (model delta : Bytes) → Bytes
text_chunk cid created model delta =
    before_text cid created model
    ++ (b'"' ∷ json_escape delta ++ b'"' ∷ codes ",\"finish_reason\":null}]}")

unfoldable pub final_text_chunk : (cid : Bytes) (created : ℕ) (model : Bytes) → Completion → Bytes
final_text_chunk cid created model c =
    before_text cid created model
    ++ codes "\"\",\"finish_reason\":\""
    ++ reason_text c.finish_reason
    ++ codes "\"}]}"

unfoldable pub text_document : (cid : Bytes) (created : ℕ) (model : Bytes) → Completion → Bytes
text_document cid created model c =
    before_text cid created model
    ++ b'"' ∷ json_escape c.text
    ++ codes "\",\"finish_reason\":\""
    ++ reason_text c.finish_reason
    ++ codes "\"}]"
    ++ usage c
    ++ codes "}"

-- The events of the fragments that the lambda of `handle_chat` is given, from the `i`-th on: none
-- once the client is gone. The lambda of `handle_completions` writes before it asks.
unfoldable pub delta_events :
    (alive : ℕ → Bool) (chunk : Bytes → Bytes) (i : ℕ) → List Bytes → Bytes
delta_events alive chunk i [] = []
delta_events alive chunk i (d ∷ ds) =
    (if alive i then sse (chunk d) else []) ++ delta_events alive chunk (suc i) ds

abbrev pub chat_on_delta : (alive : ℕ → Bool) → List Bytes → Bytes → Bool
chat_on_delta alive before delta =
    if alive (length before) then alive (suc (length before)) else false

abbrev pub text_on_delta : (alive : ℕ → Bool) → List Bytes → Bytes → Bool
text_on_delta alive before delta = alive (suc (length before))

-- An exception leaves what was written.
unfoldable pub ending :
    (written : Bytes) (last : Completion → Bytes) → Result Bytes Completion → Handled
ending written last (ok c) = record { output = written ++ last c; thrown = none }
ending written last (err what) = record { output = written; thrown = some what }

module _ {Num F : Type 0} (n : Numbers Num F) where
  pub record Service : Type 0 where
    pub served_model_name : Bytes
    pub generate : List ChatMessage → SamplingParams F → OnDelta → Generated
    pub generate_text : Bytes → SamplingParams F → OnDelta → Generated
    pub message : Refusal → Bytes

  unfoldable pub handle_chat : Service → Session → Handler
  handle_chat e s req = elim (read_chat n req.body) [
    | err refusal ↦ record { output = []; thrown = some (e.message refusal) }
    | ok (true, p, msgs) ↦
        let cid = gen_id (codes "chatcmpl-") s in
        let model = e.served_model_name in
        let g = e.generate msgs p (some (chat_on_delta s.client_alive)) in
        ending
          (start_sse
            ++ sse (role_chunk cid s.created model)
            ++ delta_events s.client_alive (delta_chunk cid s.created model) 0 g.deltas)
          (λ c. sse (final_chunk cid s.created model c) ++ sse_done) g.result
    | ok (false, p, msgs) ↦
        let cid = gen_id (codes "chatcmpl-") s in
        ending [] (λ c. send_json 200 (chat_document cid s.created e.served_model_name c))
          (e.generate msgs p none).result
  ]

  unfoldable pub handle_completions : Service → Session → Handler
  handle_completions e s req = elim (read_completions n req.body) [
    | err refusal ↦ record { output = []; thrown = some (e.message refusal) }
    | ok (true, p, prompt) ↦
        let cid = gen_id (codes "cmpl-") s in
        let model = e.served_model_name in
        let g = e.generate_text prompt p (some (text_on_delta s.client_alive)) in
        ending (start_sse ++ delta_events (λ i. true) (text_chunk cid s.created model) 0 g.deltas)
          (λ c. sse (final_text_chunk cid s.created model c) ++ sse_done) g.result
    | ok (false, p, prompt) ↦
        let cid = gen_id (codes "cmpl-") s in
        ending [] (λ c. send_json 200 (text_document cid s.created e.served_model_name c))
          (e.generate_text prompt p none).result
  ]

  unfoldable pub handle_models : Service → Session → Handler
  handle_models e s req = record {
    output = send_json 200 (
        codes "{\"object\":\"list\",\"data\":[{\"id\":\""
        ++ e.served_model_name
        ++ codes "\",\"object\":\"model\",\"created\":"
        ++ to_string s.created
        ++ codes ",\"owned_by\":\"glmserve\"}]}");
    thrown = none;
  }

  abbrev pub handle_health : Handler
  handle_health req = record { output = send_json 200 (codes "{\"status\":\"ok\"}"); thrown = none }

  unfoldable pub register_routes : Service → Session → Routes → Routes
  register_routes e s server = route (codes "GET") (codes "/health") handle_health (
      route (codes "GET") (codes "/v1/models") (handle_models e s) (
        route (codes "POST") (codes "/v1/completions") (handle_completions e s)
          (route (codes "POST") (codes "/v1/chat/completions") (handle_chat e s) server)))
