-- ===== src/Json/Termination.antt =====
-- The parser of include/json.hpp ends: the fuel that `parse` starts with is enough for every text.
pub mod Descent
use glmserve.Prelude.{
  ◌&&◌, ℕ, zero, suc, ◌+◌, ◌≤◌, ◌<◌, ◌≡◌, refl, Bool, true, false, Option, none, some, [], ◌∷◌,
  drop, leb, ltb, ◌==◌, if◌then◌else◌, length, length-drop, Bool-cases, Option-cases, inl, inr,
  arith, take,
}
use glmserve.Prelude.Bytes.{Bytes, bytes_eq, codes}
use glmserve.Prelude.Result.{Result, ok, err, ◌>>=◌}
use glmserve.Json.{
  Error, Message, fail, bad_number, out_of_fuel, Parsed, get, peek, skip_ws, expect, hex_value,
  parse_hex4, skip2, low_half, starts_pair, parse_code_point, unescape, Turn, again, finished,
  string_turn, string_loop, parse_string,
}
use glmserve.Json.Parser.{
  Value, Values, Members, number_text, number_loop, is_number_char, parse_number, parse_bool,
  parse_null, members_loop, parse_object, elements_loop, parse_array, parse_string_value,
  parse_value, parse,
}

-- The result is not out of fuel, and a value leaves less text than `k`.
pub data Within {ℓ} {A : Type ℓ} (left : A → ℕ) (k : ℕ) : Result Error A → Type ℓ where
  gives : (a : A) → left a < k → Within left k (ok a)
  fails : (s : Bytes) (m : Message) → Within left k (err (fail s m))
  throws : (s : Bytes) → Within left k (err (bad_number s))

abbrev pub unread : {A : Type 0} → A × Bytes → ℕ
unread r = length r.1

pub bind_lem {ℓ κ} :
    {A : Type ℓ} {B : Type κ} {m : Result Error A} {f : A → Result Error B} {left : A → ℕ}
    {after : B → ℕ} {j k : ℕ}
    → Within left j m
    → ((a : A) → left a < j → Within after k (f a))
    → Within after k (m >>= f)
bind_lem (gives a h) g = g a h
bind_lem (fails s m) g = fails s m
bind_lem (throws s) g = throws s

pub if_lem {ℓ} :
    {A : Type ℓ} {left : A → ℕ} {k : ℕ} (test : Bool) {x y : Result Error A}
    → ((test ≡ true) → Within left k x)
    → ((test ≡ false) → Within left k y)
    → Within left k (if test then x else y)
if_lem true f g = f refl
if_lem false f g = g refl

pub wider {ℓ} :
    {A : Type ℓ} {left : A → ℕ} {j k : ℕ} {m : Result Error A}
    → Within left j m
    → j ≤ k
    → Within left k m
wider (gives a h) l = gives a (omega arith)
wider (fails s m) l = fails s m
wider (throws s) l = throws s

pub get-le : (s : Bytes) → length (get s).1 ≤ length s
get-le [] = omega arith
get-le (c ∷ s) = omega arith

-- A character other than '\0' was there to be read.
pub get-lt : (s : Bytes) (c : ℕ) → ((get s).0 == suc c) ≡ true → length (get s).1 < length s
get-lt [] c h = absurd (ground arith)
get-lt (x ∷ s) c h = omega arith

pub skip_ws-le : (s : Bytes) → length (skip_ws s) ≤ length s
unfolding skip_ws
skip_ws-le [] = omega arith
skip_ws-le (c ∷ s) = ground (arith, skip_ws-le s)

pub expect-Within : (c : ℕ) (s : Bytes) → Within length (length s) (expect (suc c) s)
expect-Within c s = if_lem ((get s).0 == suc c) (λ e. gives (get s).1 (get-lt s c e)) λ e. fails _ _

hex_value-Within : (s : Bytes) (c : ℕ) → Within (λ v. 0) 1 (hex_value s c)
hex_value-Within s c =
    if_lem (leb b'0' c && leb c b'9') (λ e. gives _ (omega arith))
      λ e.
        if_lem (leb b'a' c && leb c b'f') (λ e. gives _ (omega arith))
          λ e. if_lem (leb b'A' c && leb c b'F') (λ e. gives _ (omega arith)) λ e. fails _ _

parse_hex4-Within : (s : Bytes) → Within unread (suc (length s)) (parse_hex4 s)
unfolding parse_hex4
parse_hex4-Within s =
    let s1 = (get s).1 in
    let s2 = (get s1).1 in
    let s3 = (get s2).1 in
    bind_lem (hex_value-Within s1 (get s).0) λ a _. bind_lem (hex_value-Within s2 (get s1).0) λ b _.
      bind_lem (hex_value-Within s3 (get s2).0) λ c _.
        bind_lem (hex_value-Within (get s3).1 (get s3).0)
          λ d _. gives _ (omega (arith, get-le s, get-le s1, get-le s2, get-le s3))

parse_code_point-Within : (s : Bytes) → Within unread (suc (length s)) (parse_code_point s)
unfolding parse_code_point
parse_code_point-Within s = bind_lem (parse_hex4-Within s) λ r h.
    if_lem (starts_pair r.0 r.1)
      (λ e.
        bind_lem (parse_hex4-Within (skip2 r.1))
          λ l k. gives _ (omega (arith, get-le r.1, get-le (get r.1).1)))
      λ e. gives r h

unescape-Within :
    (out : Bytes) (e : ℕ) (s : Bytes) → Within unread (suc (length s)) (unescape out e s)
unfolding unescape
unescape-Within out e s = if_lem (e == b'"') here λ _. if_lem (e == b'\\') here λ _.
    if_lem (e == b'/') here λ _. if_lem (e == b'b') here λ _. if_lem (e == b'f') here λ _.
      if_lem (e == b'n') here λ _. if_lem (e == b'r') here λ _. if_lem (e == b't') here λ _.
        if_lem (e == b'u') (λ _. bind_lem (parse_code_point-Within s) λ r h. gives _ h)
          λ _. fails _ _
  where
    here :
        {test : Bool} {more : Bytes} → (test ≡ true) → Within unread (suc (length s)) (ok (more, s))
    here _ = gives _ (omega arith)

abbrev unread_turn : Turn → ℕ
unread_turn (again out s) = length s
unread_turn (finished out s) = length s

string_turn-Within : (out s : Bytes) → Within unread_turn (length s) (string_turn out s)
unfolding string_turn
string_turn-Within out s =
    if_lem ((get s).0 == 0) (λ e. fails _ _)
      λ nonzero.
        if_lem ((get s).0 == b'"') (λ e. gives _ (get-lt s _ e))
          λ _.
            if_lem ((get s).0 == b'\\')
              (λ e.
                bind_lem (unescape-Within out (get (get s).1).0 (get (get s).1).1)
                  λ r h. gives _ (omega (arith, get-lt s _ e, get-le (get s).1)))
              λ _. gives _ (read s nonzero)
  where
    read : (s : Bytes) → ((get s).0 == 0) ≡ false → length (get s).1 < length s
    read [] h = absurd (ground arith)
    read (c ∷ s) h = omega arith

string_loop-Within :
    (n : ℕ) (out s : Bytes) → length s < n → Within unread (length s) (string_loop n out s)
unfolding string_loop
string_loop-Within zero out s h = elim h [ ]
string_loop-Within (suc n) out s h =
    bind_lem (string_turn-Within out s)
      λ turn l. go turn l λ out' s' k. string_loop-Within n out' s' (omega arith)
  where
    go :
        (turn : Turn)
        → unread_turn turn < length s
        → ((out' s' : Bytes)
            → length s' < length s
            → Within unread (length s') (string_loop n out' s'))
        → Within unread
            (length s)
            (elim turn [ again out' s' ↦ string_loop n out' s' | finished out' s' ↦ ok (out', s') ])
    go (again out' s') l rest = wider (rest out' s' l) (omega arith)
    go (finished out' s') l rest = gives _ l

pub parse_string-Within :
    (n : ℕ) (s : Bytes) → length s ≤ n → Within unread (length s) (parse_string n s)
unfolding parse_string
parse_string-Within n s h =
    bind_lem (expect-Within _ s)
      λ s1 l. wider (string_loop-Within n [] s1 (omega arith)) (omega arith)
