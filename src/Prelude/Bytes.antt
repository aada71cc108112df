-- ===== src/Prelude/Bytes.antt =====
-- What the source uses of `std::string`: bytes as numbers below 256.
use glmserve.Prelude.Tests.{ltb, ◌==◌, if◌then◌else◌, Bool-cases, Option-cases}
use glmserve.Prelude.Lists.{length}
use Prim.Native.Nat.{ℕ, zero, suc, ◌+◌, ◌/◌, ◌%◌, ◌≤◌, ◌<◌}
use Prim.Native.Char.{code}
use Prim.Native.String.{String}
use mathlib.Core.Path.{◌≡◌, refl}
use mathlib.Core.Logic.{inl, inr}
use mathlib.Core.Bool.{Bool, true, false, ◌&&◌}
use mathlib.Core.List.{List, [], ◌∷◌, ◌++◌}
use mathlib.Core.Option.{Option, none, some}
use mathlib.Core.Option
use native.Mathlib.Omega.{arith}

abbrev pub Bytes : Type 0
Bytes = List ℕ

-- The bytes of an ASCII literal.
abbrev pub codes : String → Bytes
codes String.[] = []
codes (String.◌∷◌ c s) = code c ∷ codes s

abbrev pub bytes_eq : Bytes → Bytes → Bool
bytes_eq [] [] = true
bytes_eq [] (y ∷ ys) = false
bytes_eq (x ∷ xs) [] = false
bytes_eq (x ∷ xs) (y ∷ ys) = x == y && bytes_eq xs ys

pub bytes_eq-eq : (s t : Bytes) → bytes_eq s t ≡ true → s ≡ t
bytes_eq-eq [] [] e = refl
bytes_eq-eq [] (y ∷ t) e = cc
bytes_eq-eq (x ∷ s) [] e = cc
bytes_eq-eq (x ∷ s) (y ∷ t) e = elim (Bool-cases (x == y)) [
  | inl o ↦ let h : x ≡ y = ground arith in let r = bytes_eq-eq s t (ground arith) in rw (h, r)
  | inr n ↦ absurd (ground arith)
]

-- `s.compare(0, pref.size(), pref) == 0`.
abbrev pub starts_with : Bytes → Bytes → Bool
starts_with [] s = true
starts_with (x ∷ xs) [] = false
starts_with (x ∷ xs) (y ∷ ys) = x == y && starts_with xs ys

-- `std::string::find`.
unfoldable pub find : Bytes → Bytes → Option ℕ
find pat [] = if starts_with pat [] then some 0 else none
find pat (x ∷ xs) =
    if starts_with pat (x ∷ xs) then some 0 else Option.map (λ i. suc i) (find pat xs)

starts_with-append :
    (s t d : Bytes) → starts_with s (t ++ d) ≡ true → length s ≤ length t → starts_with s t ≡ true
starts_with-append [] t d h l = refl
starts_with-append (x ∷ s) [] d h l = absurd (omega arith)
starts_with-append (x ∷ s) (y ∷ t) d h l = ground (arith, starts_with-append s t d)

-- Where more text completes an occurrence, it ends in the new text.
pub find-append :
    (s t d : Bytes) (q : ℕ) → find s t ≡ none → find s (t ++ d) ≡ some q → length t < q + length s
unfolding find
find-append [] [] d q h e = cc
find-append (x ∷ s) [] d q h e = omega arith
find-append s (y ∷ t) d q h e = elim (Bool-cases (starts_with s (y ∷ t ++ d))) [
  | inl hit ↦ ground (arith, starts_with-append s (y ∷ t) d hit)
  | inr miss ↦ elim (Option-cases (find s (t ++ d))) [
    | inl f ↦ absurd (ground arith)
    | inr (q', f) ↦ ground (arith, find-append s t d q')
  ]
]

-- `std::to_string` of an unsigned number; the first argument bounds the digits.
unfoldable pub digits : ℕ → ℕ → Bytes
digits zero n = []
digits (suc f) n =
    let front = digits f (n / 10) in (if ltb n 10 then [] else front) ++ (b'0' + n % 10) ∷ []

abbrev pub to_string : ℕ → Bytes
to_string n = digits 20 n
