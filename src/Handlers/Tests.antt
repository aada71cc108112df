-- ===== src/Handlers/Tests.antt =====
-- The handlers of src/server.cpp run on small requests, and the instance of their theorem.
use glmserve.Prelude.{ℕ, ◌≡◌, refl, true, false, List, [], ◌∷◌, some}
use glmserve.Prelude.Int.{pos}
use glmserve.Prelude.Bytes.{Bytes, codes}
use glmserve.Prelude.Result.{ok, err}
use glmserve.Json.{skip_ws, parse_string, string_loop, string_turn, unescape}
use glmserve.Json.Parser.{
  parse, parse_value, parse_object, members_loop, parse_array, elements_loop, parse_string_value,
  insert, at, parse_bool,
}
use glmserve.Json.Access.{has, get_double, get_bool, get_string, get_int}
use glmserve.Engine.{stopped}
use glmserve.Http.{HttpRequest}
use glmserve.Tokenizer.{ChatMessage}
use glmserve.Handlers.{
  SamplingParams, Completion, Numbers, Session, no_messages, parse_body, parse_params,
  parse_messages, messages_of, content_of, text_parts, read_chat,
}
use glmserve.Handlers.Answers.{Service}
use glmserve.Handlers.Failures.{BrokenOff, handle_chat-BrokenOff}
use glmserve.Handlers.Chat.{ChatEvents, streamed, handle_chat-ChatEvents}

abbrev numbers : Numbers ℕ ℕ
numbers = record {
  stod = λ s. some 7;
  to_int = λ x. pos x;
  to_float = λ x. x;
  one_point_zero = 1;
  zero_point_zero = 0;
}

abbrev session : Session
session = record { id_time = 12; created = 12; counter = 3; client_alive = λ i. true }

abbrev said : Completion
said = record {
  text = codes "a\nb\"";
  prompt_tokens = 2;
  completion_tokens = 2;
  finish_reason = stopped;
}

-- The text comes in two fragments, one with a line feed.
abbrev service : Service numbers
service = record {
  served_model_name = codes "glm";
  generate =
      λ msgs p on_delta. record { deltas = codes "a\nb" ∷ codes "\"" ∷ []; result = ok said };
  generate_text = λ prompt p on_delta. record { deltas = []; result = ok said };
  message = λ refusal. codes "refused";
}

-- The engine throws after one fragment.
abbrev failing : Service numbers
failing = record service {
  generate =
      λ msgs p on_delta. record { deltas = codes "a" ∷ []; result = err (codes "device lost") };
}

abbrev post : Bytes → HttpRequest
post body = record {
  method = codes "POST";
  path = codes "/v1/chat/completions";
  query = [];
  body = body;
  headers = [];
}

abbrev body : Bytes
body =
    codes
      "{\"stream\":true,\"stop\":\"x\",\"messages\":[{\"content\":[{\"type\":\"text\",\"text\":\"hi\"}]}]}"

abbrev params : SamplingParams ℕ
params = record {
  temperature = 1;
  top_p = 1;
  top_k = pos 0;
  max_tokens = pos 512;
  repetition_penalty = 1;
  frequency_penalty = 0;
  presence_penalty = 0;
  seed = 0;
  ignore_eos = false;
  mtp_draft_k = pos 0;
  stop = codes "x" ∷ [];
}

abbrev messages : List ChatMessage
messages = record { role = codes "user"; content = codes "hi" } ∷ []

read_chat_test : read_chat numbers body ≡ ok (true, params, messages)
unfolding read_chat parse_body parse_params parse_messages messages_of content_of text_parts has
    get_double get_bool get_string get_int parse parse_value parse_object members_loop parse_array
    elements_loop parse_string_value parse_string string_loop string_turn unescape skip_ws insert at
    parse_bool
read_chat_test = refl

no_messages_test : read_chat numbers (codes "{}") ≡ err no_messages
unfolding read_chat parse_body parse_messages parse parse_value parse_object members_loop skip_ws at
no_messages_test = refl

handle_chat-ChatEvents_example :
    ChatEvents numbers service session
      (post body)
      (streamed numbers service session params messages)
      said
handle_chat-ChatEvents_example =
    handle_chat-ChatEvents numbers service session (post body) params messages said read_chat_test
      refl (λ i. refl) refl

handle_chat-BrokenOff_example :
    BrokenOff numbers failing session (post body) (streamed numbers failing session params messages)
handle_chat-BrokenOff_example =
    handle_chat-BrokenOff numbers failing session (post body) params messages (codes "device lost")
      read_chat_test refl (λ i. refl) refl refl
