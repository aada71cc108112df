-- ===== src/Json/Termination/Descent.antt =====
-- The recursive descent of include/json.hpp ends.
use glmserve.Prelude.{
  ℕ, zero, suc, ◌+◌, ◌≤◌, ◌<◌, ◌≡◌, ◌≢◌, refl, Bool, true, false, ◌||◌, Option, none, some, [], ◌∷◌,
  drop, ◌==◌, length, length-drop, Bool-cases, Option-cases, inl, inr, arith, take,
}
use glmserve.Prelude.Bytes.{Bytes, bytes_eq, codes}
use glmserve.Prelude.Result.{Result, ok, err}
use glmserve.Json.{Error, fail, bad_number, out_of_fuel, invalid_number, Parsed, get, peek, skip_ws}
use glmserve.Json.Parser.{
  Value, Values, Members, number_text, number_loop, parse_number, parse_bool, parse_null,
  members_loop, parse_object, elements_loop, parse_array, parse_string_value, parse_value, parse,
  insert, push_back, no_members, no_values, number,
}
use glmserve.Json.Termination.{
  Within, gives, fails, throws, unread, bind_lem, if_lem, wider, get-le, skip_ws-le, expect-Within,
  parse_string-Within,
}

number_loop-le : (s : Bytes) → length (number_loop s).0 + length (number_loop s).1 ≤ length s
unfolding number_loop
number_loop-le [] = omega arith
number_loop-le (c ∷ s) = ground (arith, number_loop-le s)

number_text-le : (s : Bytes) → length (number_text s).0 + length (number_text s).1 ≤ length s
unfolding number_text
number_text-le [] = omega arith
number_text-le (c ∷ s) = elim (Bool-cases (c == b'-' || c == b'+')) [
  | inl e ↦ rw e (omega (arith, number_loop-le s))
  | inr e ↦ rw e (number_loop-le (c ∷ s))
]

literal-lt :
    (n : ℕ) (s : Bytes) (x : ℕ) (text : Bytes)
    → bytes_eq (take (suc n) s) (x ∷ text) ≡ true
    → length (drop (suc n) s) < length s
literal-lt n [] x text h = cc
literal-lt n (c ∷ s) x text h = omega (arith, length-drop n s)

module _ {Num : Type 0} where
  parse_number-Within :
      (stod : Bytes → Option Num) (s : Bytes) → Within unread (length s) (parse_number stod s)
  unfolding parse_number
  parse_number-Within stod s = go (number_text s).0 (number_text-le s)
    where
      go :
          (text : Bytes)
          → length text + length (number_text s).1 ≤ length s
          → Within unread (length s) (elim text [
            | [] ↦ err (fail s invalid_number)
            | (c ∷ text) ↦ elim (stod (c ∷ text)) [
              | none ↦ err (bad_number s)
              | some x ↦ ok (number x, (number_text s).1)
            ]
          ])
      go [] h = fails s _
      go (c ∷ text) h = elim (Option-cases (stod (c ∷ text))) [
        | inl e ↦ rw e (throws s)
        | inr (x, e) ↦ rw e (gives _ (omega arith))
      ]

  parse_bool-Within : (s : Bytes) → Within unread (length s) (parse_bool {Num = Num} s)
  unfolding parse_bool
  parse_bool-Within s =
      if_lem (bytes_eq (take 4 s) (codes "true")) (λ e. gives _ (literal-lt 3 s _ _ e))
        λ _.
          if_lem (bytes_eq (take 5 s) (codes "false")) (λ e. gives _ (literal-lt 4 s _ _ e))
            λ _. fails _ _

  parse_null-Within : (s : Bytes) → Within unread (length s) (parse_null {Num = Num} s)
  unfolding parse_null
  parse_null-Within s =
      if_lem (bytes_eq (take 4 s) (codes "null")) (λ e. gives _ (literal-lt 3 s _ _ e))
        λ _. fails _ _

  parse_string_value-Within :
      (n : ℕ) (s : Bytes)
      → length s ≤ n
      → Within unread (length s) (parse_string_value {Num = Num} n s)
  unfolding parse_string_value
  parse_string_value-Within n s h = bind_lem (parse_string-Within n s h) λ r l. gives _ l

turn_lem {ℓ} :
    {A : Type ℓ} {left : A → ℕ} {k : ℕ} (test : Bool) {x y : Result Error A}
    → ((test ≡ true) → Within left k x)
    → ((test ≡ false) → Within left k y)
    → Within left k (elim test [ true ↦ x | false ↦ y ])
turn_lem true f g = f refl
turn_lem false f g = g refl

-- The loops, where a value inside them ends.
module _ {Num : Type 0} (inner : Bytes → Parsed (Value Num)) (k : ℕ)
    (inner-Within : (s : Bytes) → length s < k → Within unread (length s) (inner s)) where
  members_loop-Within :
      (n : ℕ) (obj : Members Num) (s : Bytes)
      → length s < n
      → n ≤ k
      → Within unread (length s) (members_loop inner n obj s)
  unfolding members_loop
  members_loop-Within zero obj s h l = elim h [ ]
  members_loop-Within (suc n) obj s h l =
      bind_lem (parse_string-Within n (skip_ws s) (omega (arith, skip_ws-le s))) λ key h1.
        bind_lem (expect-Within _ (skip_ws key.1)) λ s1 h2.
          bind_lem (inner-Within s1 (omega (arith, skip_ws-le s, skip_ws-le key.1))) λ v h3.
            let obj' = insert key.0 v.0 obj in
            let rest = (get (skip_ws v.1)).1 in
            let less : length rest < length s =
              omega (arith, skip_ws-le s, skip_ws-le key.1, skip_ws-le v.1, get-le (skip_ws v.1)) in
            turn_lem ((get (skip_ws v.1)).0 == b',')
              (λ e.
                wider (members_loop-Within n obj' rest (omega arith) (omega arith)) (omega arith))
              λ e. if_lem ((get (skip_ws v.1)).0 == b'}') (λ _. gives _ less) λ _. fails _ _

  parse_object-Within :
      (n : ℕ) (s : Bytes) → length s ≤ n → n ≤ k → Within unread (length s) (parse_object inner n s)
  unfolding parse_object
  parse_object-Within n s h l = bind_lem (expect-Within _ s) λ s1 less.
      if_lem (peek (skip_ws s1) == b'}')
        (λ _. gives _ (omega (arith, skip_ws-le s1, get-le (skip_ws s1))))
        λ _.
          wider (members_loop-Within n no_members (skip_ws s1) (omega (arith, skip_ws-le s1)) l)
            (omega (arith, skip_ws-le s1))

  elements_loop-Within :
      (n : ℕ) (arr : Values Num) (s : Bytes)
      → length s < n
      → n ≤ k
      → Within unread (length s) (elements_loop inner n arr s)
  unfolding elements_loop
  elements_loop-Within zero arr s h l = elim h [ ]
  elements_loop-Within (suc n) arr s h l = bind_lem (inner-Within s (omega arith)) λ v h3.
      let arr' = push_back arr v.0 in
      let rest = (get (skip_ws v.1)).1 in
      let less : length rest < length s = omega (arith, skip_ws-le v.1, get-le (skip_ws v.1)) in
      turn_lem ((get (skip_ws v.1)).0 == b',')
        (λ e. wider (elements_loop-Within n arr' rest (omega arith) (omega arith)) (omega arith))
        λ e. if_lem ((get (skip_ws v.1)).0 == b']') (λ _. gives _ less) λ _. fails _ _

  parse_array-Within :
      (n : ℕ) (s : Bytes) → length s ≤ n → n ≤ k → Within unread (length s) (parse_array inner n s)
  unfolding parse_array
  parse_array-Within n s h l = bind_lem (expect-Within _ s) λ s1 less.
      if_lem (peek (skip_ws s1) == b']')
        (λ _. gives _ (omega (arith, skip_ws-le s1, get-le (skip_ws s1))))
        λ _.
          wider (elements_loop-Within n no_values (skip_ws s1) (omega (arith, skip_ws-le s1)) l)
            (omega (arith, skip_ws-le s1))

parse_value-Within :
    {Num : Type 0} (stod : Bytes → Option Num) (n : ℕ) (s : Bytes)
    → length s < n
    → Within unread (length s) (parse_value stod n s)
unfolding parse_value
parse_value-Within stod zero s h = elim h [ ]
parse_value-Within stod (suc n) s h =
    let c = peek (skip_ws s) in
    let fits : length (skip_ws s) ≤ n = omega (arith, skip_ws-le s) in
    let inner : (t : Bytes) → length t < n → Within unread (length t) (parse_value stod n t) =
      λ t l. parse_value-Within stod n t l in
    wider
      (if_lem (c == b'{')
        (λ _. parse_object-Within (parse_value stod n) n inner n (skip_ws s) fits (omega arith))
        λ _.
          if_lem (c == b'[')
            (λ _. parse_array-Within (parse_value stod n) n inner n (skip_ws s) fits (omega arith))
            λ _.
              if_lem (c == b'"') (λ _. parse_string_value-Within n (skip_ws s) fits)
                λ _.
                  if_lem (c == b't' || c == b'f') (λ _. parse_bool-Within (skip_ws s))
                    λ _.
                      if_lem (c == b'n') (λ _. parse_null-Within (skip_ws s))
                        λ _. parse_number-Within stod (skip_ws s))
      (skip_ws-le s)

Within-fuel {ℓ} :
    {A : Type ℓ} {left : A → ℕ} {k : ℕ} {m : Result Error A} → Within left k m → m ≢ err out_of_fuel
Within-fuel (gives a h) e = cc
Within-fuel (fails s m) e = cc
Within-fuel (throws s) e = cc

-- The parser returns a value or throws for every text: the fuel of the model does not run out.
pub parse-ends :
    {Num : Type 0} (stod : Bytes → Option Num) (s : Bytes) → parse stod s ≢ err out_of_fuel
unfolding parse
parse-ends stod s = Within-fuel {left = λ v. 0} {k = 1} (
    bind_lem (parse_value-Within stod (length s + 2) (skip_ws s) (omega (arith, skip_ws-le s)))
      λ r h. gives _ (omega arith))
