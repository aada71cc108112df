-- ===== src/Http.antt =====
-- `read_request` and the routing of src/http_server.cpp. What the `read` calls on the socket return
-- is a list of chunks; where it ends, or has an empty chunk, `read` returns zero or fails.
-- `std::stoul` is a parameter; none is what it throws.
pub mod Chunks
pub mod Respond
mod Tests
use glmserve.Prelude.{
  ℕ, zero, suc, ◌+◌, ◌-◌, ◌^◌, Bool, true, false, ◌&&◌, ◌||◌, Option, none, some, List, [], ◌∷◌,
  ◌++◌, take, drop, length, ltb, leb, ◌==◌, if◌then◌else◌,
}
use glmserve.Prelude.Bytes.{Bytes, codes, bytes_eq, find}
use glmserve.Prelude.Result.{Result, ok, err, ◌>>=◌, ◌>>◌}
use glmserve.Json.Parser.{bytes_lt}

-- `closed` is `return false`; `bad_length` is the exception of `std::stoul`, which nothing catches.
pub data Error : Type 0 where
  closed bad_length : Error

abbrev pub Headers : Type 0
Headers = List (Bytes × Bytes)

pub record HttpRequest : Type 0 where
  pub method : Bytes
  pub path : Bytes
  pub query : Bytes
  pub body : Bytes
  pub headers : Headers

abbrev pub blank_line : Bytes
blank_line = b'\r' ∷ b'\n' ∷ b'\r' ∷ b'\n' ∷ []

-- The loop up to the blank line: where it stands, the bytes read, and the chunks that are left.
unfoldable pub read_head : Bytes → List Bytes → Result Error (ℕ × Bytes × List Bytes)
read_head buf [] = err closed
read_head buf ([] ∷ chunks) = err closed
read_head buf ((c ∷ cs) ∷ chunks) = elim (find blank_line (buf ++ c ∷ cs)) [
  | some header_end ↦ ok (header_end, buf ++ c ∷ cs, chunks)
  | none ↦ elim (ltb (2 ^ 20) (length (buf ++ c ∷ cs))) [
    | true ↦ err closed
    | false ↦ read_head (buf ++ c ∷ cs) chunks
  ]
]

-- `std::getline`: the lines of a text, without what follows a last line end.
unfoldable pub lines : Bytes → List Bytes
lines [] = []
lines (c ∷ s) = grow c s (lines s)
  where
    grow : ℕ → Bytes → List Bytes → List Bytes
    grow c s rest = if c == b'\n' then [] ∷ rest else elim s [
      | [] ↦ (c ∷ []) ∷ []
      | (d ∷ s') ↦ elim rest [ [] ↦ (c ∷ []) ∷ [] | (l ∷ ls) ↦ (c ∷ l) ∷ ls ]
    ]

-- `line.pop_back()` where the line ends in '\r'.
unfoldable pub strip_cr : Bytes → Bytes
strip_cr [] = []
strip_cr (c ∷ []) = if c == b'\r' then [] else c ∷ []
strip_cr (c ∷ d ∷ s) = c ∷ strip_cr (d ∷ s)

abbrev pub is_space : ℕ → Bool
is_space c = c == b' ' || leb 9 c && leb c 13

-- `ls >> word`: the word, and what follows it.
unfoldable pub word_here : Bytes → Bytes × Bytes
word_here [] = ([], [])
word_here (c ∷ s) = let r = word_here s in if is_space c then ([], c ∷ s) else (c ∷ r.0, r.1)

unfoldable pub skip_spaces : (ℕ → Bool) → Bytes → Bytes
skip_spaces space [] = []
skip_spaces space (c ∷ s) = let rest = skip_spaces space s in if space c then rest else c ∷ s

abbrev pub next_word : Bytes → Bytes × Bytes
next_word s = word_here (skip_spaces is_space s)

-- The text before the first such byte and the text after it.
unfoldable pub split_at : ℕ → Bytes → Option (Bytes × Bytes)
split_at sep [] = none
split_at sep (c ∷ s) =
    let later = split_at sep s in
    if c == sep then some ([], s) else elim later [ none ↦ none | some r ↦ some (c ∷ r.0, r.1) ]

unfoldable pub request_line : Bytes → HttpRequest
request_line line =
    let method = next_word (strip_cr line) in
    let target = (next_word method.1).0 in
    let parts : Bytes × Bytes = elim (split_at b'?' target) [ none ↦ (target, []) | some r ↦ r ] in
    record { method = method.0; path = parts.0; query = parts.1; body = []; headers = [] }

abbrev pub to_lower : Bytes → Bytes
to_lower [] = []
to_lower (c ∷ s) = (if leb b'A' c && leb c b'Z' then c + 32 else c) ∷ to_lower s

-- `headers[k] = v`.
unfoldable pub set_header : Bytes → Bytes → Headers → Headers
set_header k v [] = (k, v) ∷ []
set_header k v (h ∷ hs) =
    let after = set_header k v hs in
    if bytes_eq k h.0 then (k, v) ∷ hs else if bytes_lt k h.0 then (k, v) ∷ h ∷ hs else h ∷ after

abbrev pub is_blank : ℕ → Bool
is_blank c = c == b' ' || c == b'\t'

unfoldable pub read_body : Bytes → ℕ → List Bytes → Bytes
read_body body content_length [] = body
read_body body content_length ([] ∷ chunks) = body
read_body body content_length ((c ∷ cs) ∷ chunks) = elim (ltb (length body) content_length) [
  | true ↦ read_body (body ++ c ∷ cs) content_length chunks
  | false ↦ body
]

module _ (stoul : Bytes → Option ℕ) where
  unfoldable pub header_line : Bytes → HttpRequest → ℕ → Result Error (HttpRequest × ℕ)
  header_line line req content_length = elim (split_at b':' (strip_cr line)) [
    | none ↦ ok (req, content_length)
    | some r ↦ set_line (to_lower r.0) (skip_spaces is_blank r.1)
  ]
    where
      set_line : Bytes → Bytes → Result Error (HttpRequest × ℕ)
      set_line k v =
          let req' = record req { headers = set_header k v req.headers } in
          if bytes_eq k (codes "content-length")
          then elim (stoul v) [ none ↦ err bad_length | some n ↦ ok (req', n) ]
          else ok (req', content_length)

  unfoldable pub header_lines : List Bytes → HttpRequest → ℕ → Result Error (HttpRequest × ℕ)
  header_lines [] req content_length = ok (req, content_length)
  header_lines (line ∷ rest) req content_length = do
    r ← header_line line req content_length
    header_lines rest r.0 r.1

  -- The request line and the headers, with the content length.
  unfoldable pub parse_head : Bytes → Result Error (HttpRequest × ℕ)
  parse_head head = elim (lines head) [
    | [] ↦ ok (request_line [], 0)
    | (line ∷ rest) ↦ header_lines rest (request_line line) 0
  ]

  unfoldable pub read_request : List Bytes → Result Error HttpRequest
  read_request chunks = do
    r ← read_head [] chunks
    parsed ← parse_head (take r.0 r.1)
    ok (record parsed.0 { body = read_body (drop (r.0 + 4) r.1) parsed.1 r.2 })
