-- ===== src/Linear/Nibbles.antt =====
-- The packed weights of a row-parallel rank: `repack` moves the nibbles of its columns.
use glmserve.Prelude.{
  ℕ, zero, suc, ◌+◌, ◌*◌, ◌/◌, ◌%◌, ◌≤◌, ◌<◌, ◌≡◌, ◌≢◌, refl, sym, ap, ◌∙◌, Bool, true, false, inl,
  inr, [], ◌∷◌, length, length-set, get_or, set, ◌==◌, Bool-cases, All, arith,
}
use glmserve.Prelude.Bytes.{Bytes}
use glmserve.Linear.{half, put_half, get_q, set_q, repack}

get_or-set_self : (xs : Bytes) (i v : ℕ) → i < length xs → get_or (set xs i v) i 0 ≡ v
get_or-set_self [] i v h = absurd (omega arith)
get_or-set_self (x ∷ xs) zero v h = refl
get_or-set_self (x ∷ xs) (suc i) v h = get_or-set_self xs i v (omega arith)

get_or-set_ne : (xs : Bytes) (i j v : ℕ) → i ≢ j → get_or (set xs i v) j 0 ≡ get_or xs j 0
get_or-set_ne [] i j v h = refl
get_or-set_ne (x ∷ xs) zero zero v h = absurd (h refl)
get_or-set_ne (x ∷ xs) zero (suc j) v h = refl
get_or-set_ne (x ∷ xs) (suc i) zero v h = refl
get_or-set_ne (x ∷ xs) (suc i) (suc j) v h = get_or-set_ne xs i j v (λ e. h (ap suc e))

half-put_half : (odd : Bool) (byte v : ℕ) → v < 16 → half odd (put_half odd byte v) ≡ v
half-put_half true byte v h = omega arith
half-put_half false byte v h = omega arith

half-put_other :
    (odd even : Bool) (byte v : ℕ)
    → v < 16
    → odd ≢ even
    → half even (put_half odd byte v) ≡ half even byte
half-put_other true true byte v h ne = absurd (ne refl)
half-put_other true false byte v h ne = omega arith
half-put_other false true byte v h ne = omega arith
half-put_other false false byte v h ne = absurd (ne refl)

get_q-set_q :
    (row : Bytes) (col v : ℕ) → col / 2 < length row → v < 16 → get_q (set_q row col v) col ≡ v
unfolding get_q set_q
get_q-set_q row col v h k =
    ap (half (col % 2 == 1)) (get_or-set_self row (col / 2) _ h)
    ∙ half-put_half (col % 2 == 1) _ v k

-- Columns that share a byte differ in their parity.
other_half : (col j : ℕ) → col ≢ j → col / 2 ≡ j / 2 → (col % 2 == 1) ≢ (j % 2 == 1)
other_half col j ne e same = ne (ground arith)

get_q-set_q_ne :
    (row : Bytes) (col j v : ℕ)
    → col / 2 < length row
    → v < 16
    → col ≢ j
    → get_q (set_q row col v) j ≡ get_q row j
unfolding get_q set_q
get_q-set_q_ne row col j v h k ne = elim (Bool-cases (col / 2 == j / 2)) [
  | inl same ↦
      let e : col / 2 ≡ j / 2 = ground arith in
      ap
        (λ i.
          half (j % 2 == 1)
            (get_or (set row (col / 2) (put_half (col % 2 == 1) (get_or row (col / 2) 0) v)) i 0))
        (sym e)
      ∙ ap (half (j % 2 == 1)) (get_or-set_self row (col / 2) _ h)
      ∙ half-put_other (col % 2 == 1) (j % 2 == 1) _ v k (other_half col j ne e)
      ∙ ap (λ i. half (j % 2 == 1) (get_or row i 0)) e
  | inr differ ↦
      let e : col / 2 ≢ j / 2 = λ q. absurd (ground arith) in
      ap (half (j % 2 == 1)) (get_or-set_ne row (col / 2) (j / 2) _ e)
]

get_or-lt : (row : Bytes) (i : ℕ) → All (λ b. b < 256) row → get_or row i 0 < 256
get_or-lt [] i h = omega arith
get_or-lt (b ∷ row) zero h = h.0
get_or-lt (b ∷ row) (suc i) h = get_or-lt row i h.1

get_q-lt : (row : Bytes) (col : ℕ) → All (λ b. b < 256) row → get_q row col < 16
unfolding get_q
get_q-lt row col h = elim (Bool-cases (col % 2 == 1)) [
  | inl e ↦ rw e (omega (arith, get_or-lt row (col / 2) h))
  | inr e ↦ rw e (omega arith)
]

set_q-length : (row : Bytes) (col v : ℕ) → length (set_q row col v) ≡ length row
unfolding set_q
set_q-length row col v = length-set row (col / 2) _

-- The columns before the loop's place stay, the later ones come from `c0` on.
repack-kept :
    (src : Bytes) (c0 i n : ℕ) (dst : Bytes) (j : ℕ)
    → All (λ b. b < 256) src
    → i + n ≤ 2 * length dst
    → j < i
    → get_q (repack src c0 i n dst) j ≡ get_q dst j
unfolding repack
repack-kept src c0 i zero dst j h k l = refl
repack-kept src c0 i (suc n) dst j h k l =
    let v = get_q src (c0 + i) in
    repack-kept src c0 (suc i) n (set_q dst i v) j h (omega (arith, set_q-length dst i v))
      (omega arith)
    ∙ get_q-set_q_ne dst i j v (omega arith) (get_q-lt src (c0 + i) h) (λ e. absurd (omega arith))

-- Every column of a rank's packed row is the nibble that the whole row has `c0` columns further on,
-- where the new row has room for the columns.
pub repack-get_q :
    (src : Bytes) (c0 i n : ℕ) (dst : Bytes) (j : ℕ)
    → All (λ b. b < 256) src
    → i + n ≤ 2 * length dst
    → i ≤ j
    → j < i + n
    → get_q (repack src c0 i n dst) j ≡ get_q src (c0 + j)
unfolding repack
repack-get_q src c0 i zero dst j h k l m = absurd (omega arith)
repack-get_q src c0 i (suc n) dst j h k l m =
    let v = get_q src (c0 + i) in
    elim (Bool-cases (i == j)) [
      | inl same ↦
          let e : i ≡ j = ground arith in
          let here =
            repack-kept src c0 (suc i) n (set_q dst i v) i h (omega (arith, set_q-length dst i v))
              (omega arith) in
          ap (get_q (repack src c0 (suc i) n (set_q dst i v))) (sym e)
          ∙ here
          ∙ get_q-set_q dst i v (omega arith) (get_q-lt src (c0 + i) h)
          ∙ ap (λ x. get_q src (c0 + x)) e
      | inr differ ↦
          repack-get_q src c0 (suc i) n (set_q dst i v) j h (omega (arith, set_q-length dst i v))
            (ground arith) (omega arith)
    ]
