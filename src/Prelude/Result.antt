-- ===== src/Prelude/Result.antt =====
-- Fallible code: a failed `GLM_CHECK` or another `throw` is an error value.

use mathlib.Core.Path.{◌≡◌, refl, subst}
use mathlib.Core.Bool.{Bool, true, false}
use mathlib.Core.Logic.{◌⊎◌, inl, inr}

pub data Result {ℓ} (E : Type 0) (A : Type ℓ) : Type ℓ where
  err : E → Result E A
  ok : A → Result E A

infixl 5 ◌>>=◌ ◌>>◌
-- A throw ends the block; otherwise the next statement runs on the value.
abbrev pub ◌>>=◌ {ℓ κ} :
    {E : Type 0} {A : Type ℓ} {B : Type κ} → Result E A → (A → Result E B) → Result E B
err thrown >>= next = err thrown
ok value >>= next = next value

abbrev pub ◌>>◌ {ℓ κ} :
    {E : Type 0} {A : Type ℓ} {B : Type κ} → Result E A → Result E B → Result E B
err thrown >> next = err thrown
ok value >> next = next

pub >>=-eq-ok {ℓ κ} :
    {E : Type 0} {A : Type ℓ} {B : Type κ} {b : B} (first : Result E A) (next : A → Result E B)
    → (first >>= next) ≡ ok b
    → (value : A) × (first ≡ ok value) × (next value ≡ ok b)
>>=-eq-ok (err thrown) next e = cc
>>=-eq-ok (ok value) next e = (value, refl, e)

-- `GLM_CHECK(test, ...)`.
abbrev pub check : {E : Type 0} → Bool → E → Result E (Unit {0})
check false thrown = err thrown
check true thrown = ok tt

pub Result-cases {ℓ} :
    {E : Type 0} {A : Type ℓ} (r : Result E A) → ((a : A) × (r ≡ ok a)) ⊎ ((e : E) × (r ≡ err e))
Result-cases (ok a) = inl (a, refl)
Result-cases (err e) = inr (e, refl)

-- What a value that comes out satisfies, shown along the statements of a block.
pub data Gives {ℓ κ} {E : Type 0} {A : Type ℓ} (P : A → Type κ) : Result E A → Type (ℓ ⊔ κ) where
  gives : (a : A) → P a → Gives P (ok a)
  fails : (thrown : E) → Gives P (err thrown)

pub known {ℓ} : {E : Type 0} {A : Type ℓ} (m : Result E A) → Gives (λ a. m ≡ ok a) m
known (ok a) = gives a refl
known (err thrown) = fails thrown

pub >>=-Gives {ℓ κ μ ν} :
    {E : Type 0} {A : Type ℓ} {B : Type κ} {P : A → Type μ} {Q : B → Type ν} {m : Result E A}
    {next : A → Result E B}
    → Gives P m
    → ((a : A) → P a → Gives Q (next a))
    → Gives Q (m >>= next)
>>=-Gives (gives a p) f = f a p
>>=-Gives (fails thrown) f = fails thrown

pub >>-Gives {ℓ κ μ ν} :
    {E : Type 0} {A : Type ℓ} {B : Type κ} {P : A → Type μ} {Q : B → Type ν} {m : Result E A}
    {next : Result E B}
    → Gives P m
    → ((a : A) → P a → Gives Q next)
    → Gives Q (m >> next)
>>-Gives (gives a p) f = f a p
>>-Gives (fails thrown) f = fails thrown

pub Gives-weaken {ℓ κ μ} :
    {E : Type 0} {A : Type ℓ} {P : A → Type κ} {Q : A → Type μ} {m : Result E A}
    → Gives P m
    → ((a : A) → P a → Q a)
    → Gives Q m
Gives-weaken (gives a p) f = gives a (f a p)
Gives-weaken (fails thrown) f = fails thrown

pub check-Gives {ℓ κ} :
    {E : Type 0} {A : Type ℓ} {P : A → Type κ} (test : Bool) {m : Result E A} (thrown : E)
    → ((test ≡ true) → Gives P m)
    → Gives P (check test thrown >> m)
check-Gives true thrown f = f refl
check-Gives false thrown f = fails thrown

pub Gives-ok {ℓ κ} :
    {E : Type 0} {A : Type ℓ} {P : A → Type κ} {m : Result E A} {a : A} → Gives P m → m ≡ ok a → P a
Gives-ok {P} (gives a p) e = subst P (cc) p
Gives-ok (fails thrown) e = cc
