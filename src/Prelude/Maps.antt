-- ===== src/Prelude/Maps.antt =====
-- `std::map` and `std::unordered_map` with a test of equal keys, as lists of entries.
use glmserve.Prelude.Tests.{if◌then◌else◌, Bool-cases}
use mathlib.Core.Path.{◌≡◌, refl, subst}
use mathlib.Core.Logic.{inl, inr}
use mathlib.Core.Bool.{Bool, true, ◌&&◌}
use mathlib.Core.List.{List, [], ◌∷◌}
use mathlib.Core.Option.{Option, none, some}
use native.Mathlib.Omega.{arith}

module _ {K A : Type 0} (same : K → K → Bool) where
  -- `find`.
  unfoldable pub lookup : K → List (K × A) → Option A
  lookup k [] = none
  lookup k (e ∷ m) = let later = lookup k m in if same k e.0 then some e.1 else later

  -- `m[k] = a`.
  unfoldable pub assign : K → A → List (K × A) → List (K × A)
  assign k a [] = (k, a) ∷ []
  assign k a (e ∷ m) = let after = assign k a m in if same k e.0 then (e.0, a) ∷ m else e ∷ after

  pub lookup-assign_self :
      (k : K) (a : A) (m : List (K × A)) → same k k ≡ true → lookup k (assign k a m) ≡ some a
  unfolding lookup assign
  lookup-assign_self k a [] s = rw s refl
  lookup-assign_self k a (e ∷ m) s = elim (Bool-cases (same k e.0)) [
    | inl y ↦ rw (y, y) refl
    | inr n ↦ rw (n, n) (lookup-assign_self k a m s)
  ]

abbrev pub every {ℓ} : {A : Type ℓ} → (A → Bool) → List A → Bool
every test [] = true
every test (x ∷ xs) = test x && every test xs

-- What every entry satisfies, an entry that is found does.
pub lookup-every :
    {K A : Type 0} (same : K → K → Bool) (test : K × A → Bool) (k : K) {a : A} (m : List (K × A))
    → every test m ≡ true
    → lookup same k m ≡ some a
    → (j : K) × (same k j ≡ true) × (test (j, a) ≡ true)
unfolding lookup
lookup-every same test k [] h e = cc
lookup-every same test k {a} (x ∷ m) h e = elim (Bool-cases (same k x.0)) [
  | inl y ↦
      let found : x.1 ≡ a = ground arith in
      (x.0, y, subst (λ b. test (x.0, b) ≡ true) found (ground arith))
  | inr n ↦ lookup-every same test k m (ground arith) (ground arith)
]
