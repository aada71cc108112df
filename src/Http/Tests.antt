-- ===== src/Http/Tests.antt =====
-- src/http_server.cpp run on small requests, and the instances of its theorems.
use glmserve.Prelude.{ℕ, ◌-◌, ◌≡◌, true, refl, Option, none, some, [], ◌∷◌, ◌++◌, arith}
use glmserve.Prelude.Bytes.{Bytes, codes, find}
use glmserve.Prelude.Result.{ok}
use glmserve.Http.{
  HttpRequest, blank_line, read_request, parse_head, lines, request_line, strip_cr, word_here,
  skip_spaces, split_at, header_lines, header_line, set_header,
}
use glmserve.Http.Chunks.{read_request-chunks}
use glmserve.Http.Respond.{write_all, write_all-prefix}

-- A `stoul` for one digit.
abbrev stoul : Bytes → Option ℕ
stoul [] = none
stoul (c ∷ s) = some (c - b'0')

abbrev head : Bytes
head = codes "POST /v1/chat?a=1 HTTP/1.1\r\nHost: x\r\nContent-Length: 2"

abbrev request : HttpRequest
request = record {
  method = codes "POST";
  path = codes "/v1/chat";
  query = codes "a=1";
  body = [];
  headers = (codes "content-length", codes "2") ∷ (codes "host", codes "x") ∷ [];
}

head_test : parse_head stoul head ≡ ok (request, 2)
unfolding parse_head lines request_line strip_cr word_here skip_spaces split_at header_lines
    header_line set_header
head_test = refl

found_test : find blank_line (head ++ (blank_line ++ codes "{}")) ≡ some 54
unfolding find
found_test = refl

-- The request comes in three pieces, cut within the blank line and within the body.
read_request-chunks_example :
    read_request stoul ((head ++ codes "\r\n\r") ∷ codes "\n{" ∷ codes "}" ∷ [])
    ≡ ok (record request { body = codes "{}" })
read_request-chunks_example =
    read_request-chunks stoul ((head ++ codes "\r\n\r") ∷ codes "\n{" ∷ codes "}" ∷ []) head
      (codes "{}") request (omega arith, (omega arith, (omega arith, tt))) refl (omega arith)
      found_test head_test

write_all-prefix_example :
    (rest : Bytes) × ((write_all (2 ∷ 0 ∷ []) (codes "abc")).0 ++ rest ≡ codes "abc")
    × ((write_all (2 ∷ 0 ∷ []) (codes "abc")).1 ≡ true → rest ≡ [])
write_all-prefix_example = write_all-prefix (2 ∷ 0 ∷ []) (codes "abc")
