-- ===== src/Http/Respond.antt =====
-- The responses and `handle_connection` of src/http_server.cpp. What the `write` calls on the socket
-- accept is a list of counts; where it ends, `write` fails. A handler is a function of the request:
-- what it puts out, and the message of the exception that it ends with, if any.
use glmserve.Prelude.{
  ℕ, zero, suc, ◌≡◌, refl, ap, ◌∙◌, Bool, true, false, Option, none, some, List, [], ◌∷◌, ◌++◌,
  take, drop, length, min, ◌==◌, if◌then◌else◌, take-append-drop, append_assoc,
}
use glmserve.Prelude.Bytes.{Bytes, codes, bytes_eq, to_string}
use glmserve.Prelude.Result.{ok, err}
use glmserve.Http.{HttpRequest, Error, read_request}

-- `write_all`: what was sent, and whether all of it was. A `write` of nothing fails it.
unfoldable pub write_all : List ℕ → Bytes → Bytes × Bool
write_all accepts [] = ([], true)
write_all [] (c ∷ cs) = ([], false)
write_all (zero ∷ accepts) (c ∷ cs) = ([], false)
write_all (suc w ∷ accepts) (c ∷ cs) =
    let n = min (suc w) (length (c ∷ cs)) in
    let r = write_all accepts (drop n (c ∷ cs)) in (take n (c ∷ cs) ++ r.0, r.1)

abbrev pub crlf : Bytes
crlf = b'\r' ∷ b'\n' ∷ []

abbrev pub reason : ℕ → Bytes
reason status =
    if status == 200
    then codes "OK"
    else if status == 404
    then codes "Not Found"
    else if status == 400
    then codes "Bad Request"
    else if status == 500
    then codes "Internal Server Error"
    else codes "OK"

-- The bytes of `send`, the head and the body.
unfoldable pub send : ℕ → Bytes → Bytes → Bytes
send status ctype body =
    (codes "HTTP/1.1 " ++ to_string status ++ codes " " ++ reason status ++ crlf)
    ++ (codes "Content-Type: " ++ ctype ++ crlf)
    ++ (codes "Content-Length: " ++ to_string (length body) ++ crlf)
    ++ (codes "Access-Control-Allow-Origin: *" ++ crlf)
    ++ (codes "Connection: close" ++ crlf ++ crlf)
    ++ body

abbrev pub send_json : ℕ → Bytes → Bytes
send_json status json = send status (codes "application/json") json

unfoldable pub start_sse : Bytes
start_sse =
    (codes "HTTP/1.1 200 OK" ++ crlf)
    ++ (codes "Content-Type: text/event-stream" ++ crlf)
    ++ (codes "Cache-Control: no-cache" ++ crlf)
    ++ (codes "Connection: keep-alive" ++ crlf)
    ++ (codes "Access-Control-Allow-Origin: *" ++ crlf ++ crlf)

unfoldable pub sse : Bytes → Bytes
sse data_text = codes "data: " ++ data_text ++ b'\n' ∷ b'\n' ∷ []

unfoldable pub sse_done : Bytes
sse_done = codes "data: [DONE]" ++ b'\n' ∷ b'\n' ∷ []

pub record Handled : Type 0 where
  pub output : Bytes
  pub thrown : Option Bytes

abbrev pub Handler : Type 0
Handler = HttpRequest → Handled

abbrev pub Routes : Type 0
Routes = List (Bytes × Handler)

-- `routes_[method + " " + path] = h`: a later route takes the place of an earlier one.
unfoldable pub route : Bytes → Bytes → Handler → Routes → Routes
route method path h routes = (method ++ codes " " ++ path, h) ∷ routes

unfoldable pub find_route : Bytes → Routes → Option Handler
find_route key [] = none
find_route key (r ∷ routes) =
    let later = find_route key routes in if bytes_eq key r.0 then some r.1 else later

-- The message is put between the quotes as it is.
unfoldable pub error_body : Bytes → Bytes
error_body what = codes "{\"error\":{\"message\":\"" ++ what ++ codes "\"}}"

unfoldable pub run_handler : Handler → HttpRequest → Bytes
run_handler h req = elim (h req).thrown [
  | none ↦ (h req).output
  | some what ↦ (h req).output ++ send_json 500 (error_body what)
]

-- What is put out for a request, and for a connection; an exception of `read_request` is none of
-- these, since it ends the program.
unfoldable pub answer : Routes → HttpRequest → Bytes
answer routes req =
    if bytes_eq req.method (codes "OPTIONS")
    then send 200 (codes "text/plain") []
    else elim (find_route (req.method ++ codes " " ++ req.path) routes) [
      | some h ↦ run_handler h req
      | none ↦ send_json 404 (codes "{\"error\":{\"message\":\"not found\"}}")
    ]

pub data Connection : Type 0 where
  ends : Bytes → Connection
  terminates : Connection

unfoldable pub handle_connection : (Bytes → Option ℕ) → Routes → List Bytes → Connection
handle_connection stoul routes chunks = elim (read_request stoul chunks) [
  | ok req ↦ ends (answer routes req)
  | err Error.closed ↦ ends []
  | err Error.bad_length ↦ terminates
]

-- What `write_all` has sent is a beginning of the buffer, and the whole buffer where it says so.
pub write_all-prefix :
    (accepts : List ℕ) (buf : Bytes)
    → (rest : Bytes) × ((write_all accepts buf).0 ++ rest ≡ buf)
      × ((write_all accepts buf).1 ≡ true → rest ≡ [])
unfolding write_all
write_all-prefix accepts [] = ([], refl, λ _. refl)
write_all-prefix [] (c ∷ cs) = (c ∷ cs, refl, λ e. cc)
write_all-prefix (zero ∷ accepts) (c ∷ cs) = (c ∷ cs, refl, λ e. cc)
write_all-prefix (suc w ∷ accepts) (c ∷ cs) =
    let n = min (suc w) (length (c ∷ cs)) in
    let (rest, e, full) = write_all-prefix accepts (drop n (c ∷ cs)) in
    (
      rest,
      append_assoc (take n (c ∷ cs)) (write_all accepts (drop n (c ∷ cs))).0 rest
          ∙ ap (λ s. take n (c ∷ cs) ++ s) e
          ∙ take-append-drop n (c ∷ cs),
      full,
    )
