-- ===== src/Handlers.antt =====
-- The HTTP handlers of src/server.cpp: the request body read into sampling parameters and messages,
-- and the answers of the chat, completion, model and health routes, as one document or as events.
pub mod Answers
pub mod Stream
pub mod Chat
pub mod Failures
mod Tests
use glmserve.Prelude.{
  ℕ, zero, suc, ◌+◌, Bool, true, false, List, [], ◌∷◌, ◌++◌, Option, none, some, if◌then◌else◌,
  concat,
}
use glmserve.Prelude.Int.{ℤ, pos, to_word, to_int32}
use glmserve.Prelude.Bytes.{Bytes, codes, bytes_eq, to_string}
use glmserve.Prelude.Result.{Result, ok, err, ◌>>=◌}
use glmserve.Json.{Error}
use glmserve.Json.Parser.{Value, string, array, Values, no_values, value_then, parse, at}
use glmserve.Json.Access.{obj, is_object, has, as_string, get_double, get_bool, get_string, get_int}
use glmserve.Json.Escape.{json_escape}
use glmserve.Tokenizer.{ChatMessage}
use glmserve.Engine.{FinishReason, stopped, reached_length, cancelled_by}
use glmserve.Http.{HttpRequest}
use glmserve.Http.Respond.{Handled, Handler, Routes, route, send_json, start_sse, sse, sse_done}

pub record SamplingParams (F : Type 0) : Type 0 where
  pub temperature : F
  pub top_p : F
  pub top_k : ℤ
  pub max_tokens : ℤ
  pub repetition_penalty : F
  pub frequency_penalty : F
  pub presence_penalty : F
  pub seed : ℕ
  pub ignore_eos : Bool
  pub mtp_draft_k : ℤ
  pub stop : List Bytes

-- The fields of `Completion` that an answer shows.
pub record Completion : Type 0 where
  pub text : Bytes
  pub prompt_tokens : ℕ
  pub completion_tokens : ℕ
  pub finish_reason : FinishReason

unfoldable pub reason_text : FinishReason → Bytes
reason_text stopped = codes "stop"
reason_text reached_length = codes "length"
reason_text cancelled_by = codes "cancel"

-- What generation does: the fragments that it gives to `on_delta`, and the completion, or the
-- message of an exception. `on_delta` sees the fragments before and the new one.
pub record Generated : Type 0 where
  pub deltas : List Bytes
  pub result : Result Bytes Completion

abbrev pub OnDelta : Type 0
OnDelta = Option (List Bytes → Bytes → Bool)

-- Why a body is refused.
pub data Refusal : Type 0 where
  bad_json : Error → Refusal
  not_object no_messages : Refusal

-- `std::stod`, the casts of a `double` to `int64_t` and `float`, and the defaults 1.0 and 0.0.
pub record Numbers (Num F : Type 0) : Type 0 where
  pub stod : Bytes → Option Num
  pub to_int : Num → ℤ
  pub to_float : Num → F
  pub one_point_zero : Num
  pub zero_point_zero : Num

-- What one request meets: the two readings of the clock, the counter of `gen_id`, and
-- `client_alive` after so many fragments.
pub record Session : Type 0 where
  pub id_time : ℕ
  pub created : ℕ
  pub counter : ℕ
  pub client_alive : ℕ → Bool

abbrev pub gen_id : Bytes → Session → Bytes
gen_id prefix s = prefix ++ to_string s.id_time ++ codes "-" ++ to_string s.counter

module _ {Num F : Type 0} (n : Numbers Num F) where
  -- The entries of the array: one that is no string is an empty stop string.
  abbrev pub stop_entries : Values Num → List Bytes
  stop_entries no_values = []
  stop_entries (value_then e rest) = as_string e [] ∷ stop_entries rest

  abbrev pub stop_strings : Option (Value Num) → List Bytes
  stop_strings (some (string s)) = s ∷ []
  stop_strings (some (array es)) = stop_entries es
  stop_strings other = []

  unfoldable pub parse_params : Value Num → SamplingParams F
  parse_params r = record {
    temperature = n.to_float (get_double r (codes "temperature") n.one_point_zero);
    top_p = n.to_float (get_double r (codes "top_p") n.one_point_zero);
    top_k = to_int32 (get_int n.to_int r (codes "top_k") (pos 0));
    max_tokens = to_int32 (
        get_int n.to_int r (codes "max_tokens")
          (get_int n.to_int r (codes "max_completion_tokens") (pos 512)));
    repetition_penalty = n.to_float (get_double r (codes "repetition_penalty") n.one_point_zero);
    frequency_penalty = n.to_float (get_double r (codes "frequency_penalty") n.zero_point_zero);
    presence_penalty = n.to_float (get_double r (codes "presence_penalty") n.zero_point_zero);
    seed = to_word 64 (get_int n.to_int r (codes "seed") (pos 0));
    ignore_eos = get_bool r (codes "ignore_eos") false;
    mtp_draft_k = to_int32 (get_int n.to_int r (codes "mtp_draft_k") (pos 0));
    stop = if has r (codes "stop") then stop_strings (at (obj r) (codes "stop")) else [];
  }

  -- The text parts of a content that is an array.
  unfoldable pub text_parts : Values Num → Bytes
  text_parts no_values = []
  text_parts (value_then part rest) =
      let after = text_parts rest in
      if bytes_eq (get_string part (codes "type") []) (codes "text")
      then get_string part (codes "text") [] ++ after
      else after

  unfoldable pub content_of : Option (Value Num) → Bytes
  content_of (some (string s)) = s
  content_of (some (array parts)) = text_parts parts
  content_of other = []

  unfoldable pub messages_of : Values Num → List ChatMessage
  messages_of no_values = []
  messages_of (value_then e rest) =
      record {
        role = get_string e (codes "role") (codes "user");
        content = content_of (at (obj e) (codes "content"));
      }
      ∷ messages_of rest

  unfoldable pub parse_messages : Value Num → Result Refusal (List ChatMessage)
  parse_messages r = elim (at (obj r) (codes "messages")) [
    | some (array es) ↦ ok (messages_of es)
    | other ↦ err no_messages
  ]

  unfoldable pub parse_body : Bytes → Result Refusal (Value Num)
  parse_body body = elim (parse n.stod body) [
    | err e ↦ err (bad_json e)
    | ok root ↦ if is_object root then ok root else err not_object
  ]

  -- What the chat handler reads before it answers: whether to stream, the parameters, the messages.
  unfoldable pub read_chat : Bytes → Result Refusal (Bool × SamplingParams F × List ChatMessage)
  read_chat body = do
    root ← parse_body body
    msgs ← parse_messages root
    ok (get_bool root (codes "stream") false, parse_params root, msgs)

  unfoldable pub read_completions : Bytes → Result Refusal (Bool × SamplingParams F × Bytes)
  read_completions body = do
    root ← parse_body body
    ok (
      get_bool root (codes "stream") false,
      parse_params root,
      get_string root (codes "prompt") [],
    )
