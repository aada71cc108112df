-- ===== src/Http/Chunks.antt =====
-- `read_request` of src/http_server.cpp does not depend on how the network cuts the request.
use glmserve.Prelude.{
  ℕ, zero, suc, ◌+◌, ◌^◌, ◌≤◌, ◌<◌, ◌≡◌, refl, sym, ap, subst, ◌∙◌, true, false, Option, none, some,
  List, [], ◌∷◌, ◌++◌, take, drop, length, ltb, All, concat, append_assoc, append-nil,
  length-append, take-append_left, take-append-length, Bool-cases, Option-cases, inl, inr, arith,
  lt→ltb,
}
use glmserve.Prelude.Bytes.{Bytes, find, starts_with}
use glmserve.Prelude.Result.{ok}
use glmserve.Http.{HttpRequest, blank_line, read_head, parse_head, read_body, read_request}

starts_with-append : (s t d : Bytes) → starts_with s t ≡ true → starts_with s (t ++ d) ≡ true
starts_with-append [] t d h = refl
starts_with-append (x ∷ s) [] d h = cc
starts_with-append (x ∷ s) (y ∷ t) d h = ground (arith, starts_with-append s t d)

starts_with-shorter :
    (s t d : Bytes) → starts_with s (t ++ d) ≡ true → length s ≤ length t → starts_with s t ≡ true
starts_with-shorter [] t d h l = refl
starts_with-shorter (x ∷ s) [] d h l = absurd (omega arith)
starts_with-shorter (x ∷ s) (y ∷ t) d h l = ground (arith, starts_with-shorter s t d)

starts_with-le : (s t : Bytes) → starts_with s t ≡ true → length s ≤ length t
starts_with-le [] t h = omega arith
starts_with-le (x ∷ s) [] h = cc
starts_with-le (x ∷ s) (y ∷ t) h = ground (arith, starts_with-le s t)

find-le : (s t : Bytes) (q : ℕ) → find s t ≡ some q → q + length s ≤ length t
unfolding find
find-le s [] q h = elim (Bool-cases (starts_with s [])) [
  | inl e ↦ ground (arith, starts_with-le s [] e)
  | inr e ↦ ground arith
]
find-le s (y ∷ t) q h = elim (Bool-cases (starts_with s (y ∷ t))) [
  | inl e ↦ ground (arith, starts_with-le s (y ∷ t) e)
  | inr e ↦ elim (Option-cases (find s t)) [
    | inl f ↦ absurd (ground arith)
    | inr (q', f) ↦ ground (arith, find-le s t q')
  ]
]

-- An occurrence that is found stays the first one when more text comes.
find_stays : (s t d : Bytes) (q : ℕ) → find s t ≡ some q → find s (t ++ d) ≡ some q
unfolding find
find_stays [] [] [] q h = h
find_stays [] [] (x ∷ d) q h = h
find_stays (x ∷ s) [] d q h = absurd (ground arith)
find_stays s (y ∷ t) d q h = elim (Bool-cases (starts_with s (y ∷ t))) [
  | inl e ↦
      let f : starts_with s (y ∷ t ++ d) ≡ true = starts_with-append s (y ∷ t) d e in ground arith
  | inr e ↦ elim (Option-cases (find s t)) [
    | inl f ↦ absurd (ground arith)
    | inr (q', f) ↦
        let room : q' + length s ≤ length t = find-le s t q' f in
        let miss : starts_with s (y ∷ t ++ d) ≡ false =
          elim (Bool-cases (starts_with s (y ∷ t ++ d))) [
            | inl g ↦ absurd (ground (arith, starts_with-shorter s (y ∷ t) d g))
            | inr g ↦ g
          ] in
        let later : find s (t ++ d) ≡ some q' = find_stays s t d q' f in ground arith
  ]
]

abbrev NotEmpty : Bytes → Type 0
NotEmpty s = 0 < length s

read_head-stop :
    (c : ℕ) (cs buf : Bytes) (chunks : List Bytes) (q : ℕ)
    → find blank_line (buf ++ c ∷ cs) ≡ some q
    → read_head buf ((c ∷ cs) ∷ chunks) ≡ ok (q, buf ++ c ∷ cs, chunks)
unfolding read_head
read_head-stop c cs buf chunks q f = rw (read_head, f)

read_head-more :
    (c : ℕ) (cs buf : Bytes) (chunks : List Bytes)
    → find blank_line (buf ++ c ∷ cs) ≡ none
    → ltb (2 ^ 20) (length (buf ++ c ∷ cs)) ≡ false
    → read_head buf ((c ∷ cs) ∷ chunks) ≡ read_head (buf ++ c ∷ cs) chunks
unfolding read_head
read_head-more c cs buf chunks f low = rw (read_head, f, low)

-- Where the blank line is first found at `q` in all of the text, `read_head` stops there.
read_head-find :
    (chunks : List Bytes) (buf whole : Bytes) (q : ℕ)
    → All NotEmpty chunks
    → buf ++ concat chunks ≡ whole
    → length whole ≤ 2 ^ 20
    → find blank_line buf ≡ none
    → find blank_line whole ≡ some q
    → (read : Bytes) × (left : List Bytes) × (read_head buf chunks ≡ ok (q, read, left))
      × (read ++ concat left ≡ whole)
      × All NotEmpty left
      × (q + 4 ≤ length read)
unfolding read_head
read_head-find [] buf whole q n e small miss hit =
    let same : buf ≡ whole = sym (append-nil buf) ∙ e in absurd (cc)
read_head-find ([] ∷ chunks) buf whole q n e small miss hit = absurd (omega (arith, n.0))
read_head-find ((c ∷ cs) ∷ chunks) buf whole q n e small miss hit =
    let all : (buf ++ c ∷ cs) ++ concat chunks ≡ whole =
      append_assoc buf (c ∷ cs) (concat chunks) ∙ e in
    let fits : length (buf ++ c ∷ cs) ≤ 2 ^ 20 =
      omega (arith, ap length all, length-append (buf ++ c ∷ cs) (concat chunks)) in
    elim (Option-cases (find blank_line (buf ++ c ∷ cs))) [
      | inl f ↦
          let low : ltb (2 ^ 20) (length (buf ++ c ∷ cs)) ≡ false = ground arith in
          let (read, left, h, r1, r2, r3) =
            read_head-find chunks (buf ++ c ∷ cs) whole q n.1 all small f hit in
          (read, left, read_head-more c cs buf chunks f low ∙ h, r1, r2, r3)
      | inr (q', f) ↦
          let stays : find blank_line whole ≡ some q' =
            subst (λ w. find blank_line w ≡ some q') all
              (find_stays blank_line (buf ++ c ∷ cs) (concat chunks) q' f) in
          let same : q' ≡ q = ground arith in
          (
            buf ++ c ∷ cs,
            chunks,
            read_head-stop c cs buf chunks q (f ∙ ap some same),
            all,
            n.1,
            omega (arith, find-le blank_line (buf ++ c ∷ cs) q' f),
          )
    ]

-- `read_body` takes all that comes where the chunks hold just what is missing.
read_body_whole :
    (chunks : List Bytes) (body : Bytes) (n : ℕ)
    → All NotEmpty chunks
    → length (body ++ concat chunks) ≡ n
    → read_body body n chunks ≡ body ++ concat chunks
unfolding read_body
read_body_whole [] body n k e = sym (append-nil body)
read_body_whole ([] ∷ chunks) body n k e = absurd (omega (arith, k.0))
read_body_whole ((c ∷ cs) ∷ chunks) body n k e =
    let short : ltb (length body) n ≡ true = lt→ltb (length body) n (
      omega (
        arith,
        e,
        length-append body ((c ∷ cs) ++ concat chunks),
        length-append (c ∷ cs) (concat chunks),
      )) in
    let assoc = append_assoc body (c ∷ cs) (concat chunks) in
    rw (read_body, short)
      (read_body_whole chunks (body ++ c ∷ cs) n k.1 (ap length assoc ∙ e) ∙ assoc)

drop-append_left {ℓ} :
    {A : Type ℓ} (n : ℕ) (xs ys : List A) → n ≤ length xs → drop n (xs ++ ys) ≡ drop n xs ++ ys
drop-append_left zero xs ys h = refl
drop-append_left (suc n) [] ys h = absurd (omega arith)
drop-append_left (suc n) (x ∷ xs) ys h = drop-append_left n xs ys (omega arith)

drop-append_add {ℓ} :
    {A : Type ℓ} (xs ys : List A) (n : ℕ) → drop (length xs + n) (xs ++ ys) ≡ drop n ys
drop-append_add [] ys n = let e : 0 + n ≡ n = omega arith in rw e
drop-append_add (x ∷ xs) ys n =
    let e : suc (length xs) + n ≡ suc (length xs + n) = omega arith in
    rw e (drop-append_add xs ys n)

-- However the network cuts a request into chunks, `read_request` reads the same: where the bytes are
-- a head, the blank line and a body, the blank line is found first behind the head, the head parses
-- and its content length is that of the body, and there are at most 2^20 bytes, the result is the
-- request of the head with that body.
pub read_request-chunks :
    (stoul : Bytes → Option ℕ) (chunks : List Bytes) (head body : Bytes) (req : HttpRequest)
    → All NotEmpty chunks
    → concat chunks ≡ head ++ (blank_line ++ body)
    → length (head ++ (blank_line ++ body)) ≤ 2 ^ 20
    → find blank_line (head ++ (blank_line ++ body)) ≡ some (length head)
    → parse_head stoul head ≡ ok (req, length body)
    → read_request stoul chunks ≡ ok (record req { body = body })
unfolding read_request find
read_request-chunks stoul chunks head body req n e small hit parsed =
    let (read, left, h, whole, k, room) =
      read_head-find chunks [] (head ++ (blank_line ++ body)) (length head) n e small refl hit in
    let start : take (length head) read ≡ head =
      sym (take-append_left (length head) read (concat left) (omega arith))
      ∙ ap (take (length head)) whole
      ∙ take-append-length head (blank_line ++ body) in
    let rest : drop (length head + 4) read ++ concat left ≡ body =
      sym (drop-append_left (length head + 4) read (concat left) room)
      ∙ ap (drop (length head + 4)) whole
      ∙ drop-append_add head (blank_line ++ body) 4 in
    let whole_body : read_body (drop (length head + 4) read) (length body) left ≡ body =
      read_body_whole left (drop (length head + 4) read) (length body) k (ap length rest) ∙ rest in
    rw (h, start, parsed, whole_body)
