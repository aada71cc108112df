-- ===== src/Dsa/Handover.antt =====
-- That the indices of sparse attention (src/model_glm52.cpp) reach the next stage.
use glmserve.Prelude.{
  ℕ, zero, suc, ◌-◌, ◌+◌, ◌%◌, ◌^◌, ◌<◌, ◌≡◌, refl, sym, ap, ◌∙◌, inl, inr, true, false, ◌&&◌, List,
  [], ◌∷◌, ◌++◌, some, if◌then◌else◌, map, ltb, ◌==◌, length, take, drop, replicate, All, arith,
  Bool-cases, length-append, length-take, length-map, length-replicate, take-append-length,
  drop-append-length,
}
use glmserve.Prelude.Int.{ℤ, pos, minus_one, to_int32}
use glmserve.Dsa.{
  DsaConfig, shared_dsa_layer, sparse_dsa, flat_row, flat, kept, rows_of, send_indices,
  receive_indices,
}

abbrev pub Small : List ℕ → Type 0
Small row = All (λ v. v < 2 ^ 31) row

to_int32-pos : (v : ℕ) → v < 2 ^ 31 → to_int32 (pos v) ≡ pos v
to_int32-pos v h =
    let e : v % 2 ^ 32 ≡ v = omega arith in
    let l : ltb v (2 ^ 31) ≡ true = ground arith in rw (e, l) refl

kept-replicate : (k : ℕ) → kept (replicate k minus_one) ≡ []
unfolding kept
kept-replicate zero = refl
kept-replicate (suc k) = kept-replicate k

kept-row :
    (topk k : ℕ) (row : List ℕ)
    → Small row
    → kept (map (λ v. to_int32 (pos v)) (take topk row) ++ replicate k minus_one) ≡ take topk row
unfolding kept
kept-row zero k row h = kept-replicate k
kept-row (suc topk) k [] h = kept-replicate k
kept-row (suc topk) k (v ∷ row) h =
    rw (to_int32-pos v h.0) (ap (λ r. v ∷ r) (kept-row topk k row h.1))

length-flat_row : (topk : ℕ) (row : List ℕ) → length (flat_row topk row) ≡ topk
unfolding flat_row
length-flat_row topk row =
    let m = take topk row in
    let f : ℕ → ℤ = λ v. to_int32 (pos v) in
    omega (
      arith,
      length-append (map f m) (replicate (topk - length m) minus_one),
      length-map m f,
      length-replicate (topk - length m) minus_one,
      length-take topk row,
    )

kept-flat_row : (topk : ℕ) (row : List ℕ) → Small row → kept (flat_row topk row) ≡ take topk row
unfolding flat_row
kept-flat_row topk row h = kept-row topk (topk - length (take topk row)) row h

take-prefix :
    {A : Type 0} (n : ℕ) (xs ys : List A)
    → length xs ≡ n
    → (take n (xs ++ ys) ≡ xs) × (drop n (xs ++ ys) ≡ ys)
take-prefix n xs ys e = rw (sym e) (take-append-length xs ys, drop-append-length xs ys)

rows_of-flat :
    (topk : ℕ) (rows : List (List ℕ))
    → All Small rows
    → rows_of (length rows) topk (flat topk rows) ≡ map (take topk) rows
unfolding rows_of flat
rows_of-flat topk [] h = refl
rows_of-flat topk (row ∷ rows) h =
    let s = take-prefix topk (flat_row topk row) (flat topk rows) (length-flat_row topk row) in
    rw (s.0, s.1)
      (ap (λ (r : List ℕ). r ∷ rows_of (length rows) topk (flat topk rows))
          (kept-flat_row topk row h.0)
        ∙ ap (λ r. take topk row ∷ r) (rows_of-flat topk rows h.1))

-- For two stages that follow each other, with a row of indices below 2^31 for each of the n tokens:
-- the next stage does not wait for a message that is not sent; it starts with the first index_topk
-- indices of every row where the attention is sparse and its first layer shares indices, and
-- with none otherwise.
pub receive_indices-send_indices :
    (c : DsaConfig) (n ctx_after layer_begin count : ℕ) (rows : List (List ℕ))
    → length rows ≡ n
    → All Small rows
    → receive_indices c n ctx_after false
        (layer_begin + count)
        (send_indices c n ctx_after layer_begin count rows)
      ≡ some (
          if sparse_dsa c ctx_after && shared_dsa_layer c (layer_begin + count)
          then map (take c.index_topk) rows
          else [])
unfolding receive_indices send_indices
receive_indices-send_indices c n ctx_after layer_begin count rows e h =
    let r = rows_of-flat c.index_topk rows h in
    let same : (length rows == n) ≡ true = ground arith in
    elim (Bool-cases (sparse_dsa c ctx_after)) [
      | inr dense ↦ rw dense refl
      | inl sparse ↦ elim (Bool-cases (shared_dsa_layer c (layer_begin + count))) [
        | inr full ↦ rw (sparse, full) refl
        | inl shared ↦ rw (sparse, shared, same, sym e) (ap some r)
      ]
    ]
