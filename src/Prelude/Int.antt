-- ===== src/Prelude/Int.antt =====
-- Signed integers over the native numbers: what the `-1` sentinels and `int` ids of the source use.
use Prim.Native.Nat.{ℕ, zero, suc, ◌+◌, ◌-◌, ◌*◌, ◌/◌, ◌%◌, ◌^◌, ◌<◌}
use mathlib.Core.Path.{◌≡◌, refl}
use native.Mathlib.Omega.{arith}
use mathlib.Core.Option.{Option, none, some}
use mathlib.Core.Bool.{Bool, true, false, not}
use glmserve.Prelude.Tests.{ltb, ◌==◌, if◌then◌else◌}

-- `negsuc n` is -(n + 1).
pub data ℤ : Type 0 where
  pos : ℕ → ℤ
  negsuc : ℕ → ℤ

abbrev pub minus_one : ℤ
minus_one = negsuc 0

-- The two's complement value of `w` bits, and the `w` bits that a cast keeps.
abbrev pub signed : ℕ → ℕ → ℤ
signed w u = if ltb u (2 ^ (w - 1)) then pos u else negsuc (2 ^ w - u - 1)

abbrev pub to_word : ℕ → ℤ → ℕ
to_word w (pos n) = n % 2 ^ w
to_word w (negsuc n) = 2 ^ w - 1 - n % 2 ^ w

-- `static_cast<int>` and `static_cast<int32_t>`.
abbrev pub to_int32 : ℤ → ℤ
to_int32 z = signed 32 (to_word 32 z)

abbrev pub int_eq : ℤ → ℤ → Bool
int_eq (pos a) (pos b) = a == b
int_eq (negsuc a) (negsuc b) = a == b
int_eq a b = false

abbrev pub int_lt : ℤ → ℤ → Bool
int_lt (pos a) (pos b) = ltb a b
int_lt (pos a) (negsuc b) = false
int_lt (negsuc a) (pos b) = true
int_lt (negsuc a) (negsuc b) = ltb b a

abbrev pub int_le : ℤ → ℤ → Bool
int_le a b = not (int_lt b a)

-- The difference of two numbers, and the sum of two integers.
abbrev pub diff : ℕ → ℕ → ℤ
diff a b = if ltb a b then negsuc (b - a - 1) else pos (a - b)

infixl 60 ◌+ℤ◌
abbrev pub ◌+ℤ◌ : ℤ → ℤ → ℤ
pos a +ℤ pos b = pos (a + b)
pos a +ℤ negsuc b = diff a (suc b)
negsuc a +ℤ pos b = diff b (suc a)
negsuc a +ℤ negsuc b = negsuc (suc (a + b))

abbrev pub abs : ℤ → ℕ
abs (pos n) = n
abs (negsuc n) = suc n

abbrev pub negate : ℕ → ℤ
negate n = diff 0 n

-- `/` and `%` of the source round towards zero. A division by zero ends the program: `none`.
unfoldable pub int_div : ℤ → ℤ → Option ℤ
int_div a (pos zero) = none
int_div (pos a) (pos (suc b)) = some (pos (a / suc b))
int_div (pos a) (negsuc b) = some (negate (a / suc b))
int_div (negsuc a) (pos (suc b)) = some (negate (suc a / suc b))
int_div (negsuc a) (negsuc b) = some (pos (suc a / suc b))

unfoldable pub int_mod : ℤ → ℤ → Option ℤ
int_mod a (pos zero) = none
int_mod (pos a) b = some (pos (a % abs b))
int_mod (negsuc a) b = some (negate (suc a % abs b))

infixl 60 ◌-ℤ◌
abbrev pub ◌-ℤ◌ : ℤ → ℤ → ℤ
pos a -ℤ pos b = diff a b
pos a -ℤ negsuc b = pos (a + suc b)
negsuc a -ℤ pos b = negsuc (a + b)
negsuc a -ℤ negsuc b = diff b a

infixl 70 ◌*ℤ◌
abbrev pub ◌*ℤ◌ : ℤ → ℤ → ℤ
pos a *ℤ pos b = pos (a * b)
pos a *ℤ negsuc b = negate (a * suc b)
negsuc a *ℤ pos b = negate (suc a * b)
negsuc a *ℤ negsuc b = pos (suc a * suc b)

-- A bound or a count that the source only compares with counts: a negative one is never reached.
unfoldable pub clip : ℤ → ℕ
clip (pos n) = n
clip (negsuc n) = 0

ltb-clip : (n : ℕ) (z : ℤ) → ltb n (clip z) ≡ int_lt (pos n) z
unfolding clip
ltb-clip n (pos m) = refl
ltb-clip n (negsuc m) = let e : ltb n 0 ≡ false = ground arith in e

pub int_div-pos : (a b : ℕ) → 0 < b → int_div (pos a) (pos b) ≡ some (pos (a / b))
unfolding int_div
int_div-pos a zero h = absurd (omega arith)
int_div-pos a (suc b) h = refl

pub int_mod-pos : (a b : ℕ) → 0 < b → int_mod (pos a) (pos b) ≡ some (pos (a % b))
unfolding int_mod
int_mod-pos a zero h = absurd (omega arith)
int_mod-pos a (suc b) h = refl

pub int_eq-eq : (a b : ℤ) → int_eq a b ≡ true → a ≡ b
int_eq-eq (pos a) (pos b) h = let e : a ≡ b = ground arith in rw e refl
int_eq-eq (pos a) (negsuc b) h = cc
int_eq-eq (negsuc a) (pos b) h = cc
int_eq-eq (negsuc a) (negsuc b) h = let e : a ≡ b = ground arith in rw e refl
