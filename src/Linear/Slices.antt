-- ===== src/Linear/Slices.antt =====
-- Slices of slices, and of the rows that `gather` takes.
use glmserve.Prelude.{
  ℕ, zero, suc, ◌+◌, ◌-◌, ◌*◌, ◌≤◌, ◌<◌, ◌≡◌, refl, sym, ap, ◌∙◌, List, [], ◌∷◌, ◌++◌, take, drop,
  length, length-take, length-drop, take-take, take-append-length, drop-append-length, arith,
}
use glmserve.Linear.{slice, gather}
use native.Mathlib.Nat.{suc-mul}

module _ {A : Type 0} where
  drop_nil : (n : ℕ) → drop {A = A} n [] ≡ []
  drop_nil zero = refl
  drop_nil (suc n) = refl

  pub drop-drop : (m n : ℕ) (xs : List A) → drop m (drop n xs) ≡ drop (n + m) xs
  drop-drop m zero xs = let e : 0 + m ≡ m = omega arith in rw e refl
  drop-drop m (suc n) [] = drop_nil m ∙ sym (drop_nil (suc n + m))
  drop-drop m (suc n) (x ∷ xs) =
      let e : suc n + m ≡ suc (n + m) = omega arith in rw e (drop-drop m n xs)

  drop-take : (m n : ℕ) (xs : List A) → drop m (take n xs) ≡ take (n - m) (drop m xs)
  drop-take zero n xs = let e : n - 0 ≡ n = omega arith in rw e refl
  drop-take (suc m) zero xs = let e : 0 - suc m ≡ 0 = omega arith in rw e refl
  drop-take (suc m) (suc n) [] = take_nil (suc n - suc m)
    where
      take_nil : (k : ℕ) → [] ≡ take {A = A} k []
      take_nil zero = refl
      take_nil (suc k) = refl
  drop-take (suc m) (suc n) (x ∷ xs) =
      let e : suc n - suc m ≡ n - m = omega arith in rw e (drop-take m n xs)

  pub slice-slice :
      (a n b m : ℕ) (xs : List A) → a + n ≤ m → slice a n (slice b m xs) ≡ slice (b + a) n xs
  slice-slice a n b m xs h =
      ap (take n) (drop-take a m (drop b xs))
      ∙ take-take n (m - a) (drop a (drop b xs)) (omega arith)
      ∙ ap (take n) (drop-drop a b xs)

  pub length-slice : (a n : ℕ) (xs : List A) → a + n ≤ length xs → length (slice a n xs) ≡ n
  length-slice a n xs h = omega (arith, length-take n (drop a xs), length-drop a xs)

  slice_front : (p q : List A) (n : ℕ) → length p ≡ n → slice 0 n (p ++ q) ≡ p
  slice_front p q n h = ap (λ k. take k (p ++ q)) (sym h) ∙ take-append-length p q

  slice_behind : (p q : List A) (n a : ℕ) → length p ≡ n → slice (n + a) n (p ++ q) ≡ slice a n q
  slice_behind p q n a h = ap (take n) (
      sym (drop-drop a n (p ++ q))
      ∙ ap (λ k. drop a (drop k (p ++ q))) (sym h)
      ∙ ap (drop a) (drop-append-length p q))

  -- A row of what `gather` takes.
  pub slice-gather :
      (o rows stride from n : ℕ) (xs : List A)
      → o < rows
      → from + n ≤ stride
      → rows * stride ≤ length xs
      → slice (o * n) n (gather rows stride from n xs) ≡ slice (o * stride + from) n xs
  unfolding gather
  slice-gather o zero stride from n xs h k l = absurd (omega arith)
  slice-gather zero (suc rows) stride from n xs h k l =
      let e : 0 * n ≡ 0 = omega arith in
      let o : 0 * stride + from ≡ from = omega arith in
      rw (e, o)
        (slice_front (slice from n xs) _ n
          (length-slice from n xs (omega (arith, suc-mul rows stride))))
  slice-gather (suc o) (suc rows) stride from n xs h k l =
      let e : suc o * n ≡ n + o * n = omega (arith, suc-mul o n) in
      let i : suc o * stride + from ≡ stride + (o * stride + from) =
        omega (arith, suc-mul o stride) in
      let long : rows * stride ≤ length (drop stride xs) =
        omega (arith, suc-mul rows stride, length-drop stride xs) in
      rw (e, i)
        (slice_behind (slice from n xs) _ n (o * n)
            (length-slice from n xs (omega (arith, suc-mul rows stride)))
          ∙ slice-gather o rows stride from n (drop stride xs) (omega arith) k long
          ∙ ap (take n) (drop-drop (o * stride + from) stride xs))
