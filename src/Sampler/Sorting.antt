-- ===== src/Sampler/Sorting.antt =====
-- What `std::sort` promises, for the order that it is given, and a sort that keeps it.
use glmserve.Prelude.{
  ℕ, zero, suc, ◌<◌, ◌≡◌, refl, Bool, true, false, inl, inr, some, List, [], ◌∷◌, length, get_elem?,
  count, All, All-get_elem?, if◌then◌else◌, Bool-cases, arith,
}

-- A strict weak order, which `std::sort` asks for.
pub record IsWeakOrder (b : ℕ → ℕ → Bool) : Type 0 where
  pub irreflexive : (x : ℕ) → b x x ≡ false
  pub asymmetric : (x y : ℕ) → b x y ≡ true → b y x ≡ false
  pub unrelated : (x y z : ℕ) → b x y ≡ false → b y z ≡ false → b x z ≡ false

pub record IsSort (sort : (ℕ → ℕ → Bool) → List ℕ → List ℕ) : Type 0 where
  pub same_counts : (b : ℕ → ℕ → Bool) (xs : List ℕ) (x : ℕ) → count x (sort b xs) ≡ count x xs
  pub same_length : (b : ℕ → ℕ → Bool) (xs : List ℕ) → length (sort b xs) ≡ length xs
  pub ordered :
      (b : ℕ → ℕ → Bool) (xs : List ℕ) (i j : ℕ) {x y : ℕ}
      → IsWeakOrder b
      → i < j
      → get_elem? (sort b xs) i ≡ some x
      → get_elem? (sort b xs) j ≡ some y
      → b y x ≡ false

unfoldable pub insert_by : (ℕ → ℕ → Bool) → ℕ → List ℕ → List ℕ
insert_by b x [] = x ∷ []
insert_by b x (y ∷ ys) = let rest = insert_by b x ys in if b y x then y ∷ rest else x ∷ y ∷ ys

unfoldable pub sort_by : (ℕ → ℕ → Bool) → List ℕ → List ℕ
sort_by b [] = []
sort_by b (x ∷ xs) = insert_by b x (sort_by b xs)

insert_by-count :
    (b : ℕ → ℕ → Bool) (x n : ℕ) (ys : List ℕ) → count n (insert_by b x ys) ≡ count n (x ∷ ys)
unfolding insert_by
insert_by-count b x n [] = refl
insert_by-count b x n (y ∷ ys) = elim (Bool-cases (b y x)) [
  | inl e ↦ rw e (omega (arith, insert_by-count b x n ys))
  | inr e ↦ rw e refl
]

insert_by-length :
    (b : ℕ → ℕ → Bool) (x : ℕ) (ys : List ℕ) → length (insert_by b x ys) ≡ suc (length ys)
unfolding insert_by
insert_by-length b x [] = refl
insert_by-length b x (y ∷ ys) = elim (Bool-cases (b y x)) [
  | inl e ↦ rw e (omega (arith, insert_by-length b x ys))
  | inr e ↦ rw e refl
]

sort_by-count : (b : ℕ → ℕ → Bool) (xs : List ℕ) (n : ℕ) → count n (sort_by b xs) ≡ count n xs
unfolding sort_by
sort_by-count b [] n = refl
sort_by-count b (x ∷ xs) n =
    omega (arith, insert_by-count b x n (sort_by b xs), sort_by-count b xs n)

sort_by-length : (b : ℕ → ℕ → Bool) (xs : List ℕ) → length (sort_by b xs) ≡ length xs
unfolding sort_by
sort_by-length b [] = refl
sort_by-length b (x ∷ xs) = omega (arith, insert_by-length b x (sort_by b xs), sort_by-length b xs)

Sorted : (ℕ → ℕ → Bool) → List ℕ → Type 0
Sorted b [] = Unit
Sorted b (x ∷ xs) = All (λ y. b y x ≡ false) xs × Sorted b xs

module _ (b : ℕ → ℕ → Bool) (w : IsWeakOrder b) where
  below-All :
      (x y : ℕ) (ys : List ℕ)
      → b y x ≡ false
      → All (λ z. b z y ≡ false) ys
      → All (λ z. b z x ≡ false) ys
  below-All x y [] h a = tt
  below-All x y (z ∷ ys) h a = (w.unrelated z y x a.0 h, below-All x y ys h a.1)

  insert-All :
      (x y : ℕ) (ys : List ℕ)
      → b x y ≡ false
      → All (λ z. b z y ≡ false) ys
      → All (λ z. b z y ≡ false) (insert_by b x ys)
  unfolding insert_by
  insert-All x y [] h a = (h, tt)
  insert-All x y (z ∷ ys) h a = elim (Bool-cases (b z x)) [
    | inl e ↦ rw e (a.0, insert-All x y ys h a.1)
    | inr e ↦ rw e (h, (a.0, a.1))
  ]

  insert_by-Sorted : (x : ℕ) (ys : List ℕ) → Sorted b ys → Sorted b (insert_by b x ys)
  unfolding insert_by Sorted
  insert_by-Sorted x [] h = (tt, tt)
  insert_by-Sorted x (y ∷ ys) h = elim (Bool-cases (b y x)) [
    | inl e ↦ rw e (insert-All x y ys (w.asymmetric y x e) h.0, insert_by-Sorted x ys h.1)
    | inr e ↦ rw e ((e, below-All x y ys e h.0), h)
  ]

  sort_by-Sorted : (xs : List ℕ) → Sorted b (sort_by b xs)
  unfolding sort_by Sorted
  sort_by-Sorted [] = tt
  sort_by-Sorted (x ∷ xs) = insert_by-Sorted x (sort_by b xs) (sort_by-Sorted xs)

  Sorted-get :
      (xs : List ℕ) (i j : ℕ) {x y : ℕ}
      → Sorted b xs
      → i < j
      → get_elem? xs i ≡ some x
      → get_elem? xs j ≡ some y
      → b y x ≡ false
  unfolding Sorted
  Sorted-get [] i j h l e k = cc
  Sorted-get (x ∷ xs) i zero h l e k = absurd (omega arith)
  Sorted-get (x ∷ xs) zero (suc j) {y} h l e k =
      let o = All-get_elem? (λ z. b z x ≡ false) xs j h.0 k in ground arith
  Sorted-get (x ∷ xs) (suc i) (suc j) h l e k = Sorted-get xs i j h.1 (omega arith) e k

pub sort_by-IsSort : IsSort sort_by
sort_by-IsSort = record {
  same_counts = sort_by-count;
  same_length = sort_by-length;
  ordered = λ b xs i j w l e k. Sorted-get b w (sort_by b xs) i j (sort_by-Sorted b w xs) l e k;
}
