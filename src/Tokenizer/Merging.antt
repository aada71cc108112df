-- ===== src/Tokenizer/Merging.antt =====
-- The loop of `bpe_encode` of src/tokenizer.cpp as a sequence of merges: each joins the leftmost pair
-- of the lowest rank, until no pair has a rank.
use glmserve.Prelude.{
  ℕ, zero, suc, ◌+◌, ◌≤◌, ◌<◌, ◌≡◌, refl, sym, ◌∙◌, ap, subst, true, false, Option, none, some,
  List, [], ◌∷◌, ◌++◌, length, ltb, ltb→lt, concat, append_assoc, Bool-cases, Option-cases, inl,
  inr, ◌⊎◌, arith,
}
use glmserve.Prelude.Bytes.{Bytes}
use glmserve.Prelude.Maps.{lookup}
use glmserve.Tokenizer.{pair_eq}
use glmserve.Tokenizer.Bpe.{
  int_max, Best, no_best, better, find_best, best_pair, merge_at, merge_loop,
}

module _ (ranks : List ((Bytes × Bytes) × ℕ)) where
  -- The rank of the pair at a place, from `x` on.
  abbrev rank_from : Bytes → List Bytes → ℕ → Option ℕ
  rank_from x [] i = none
  rank_from x (y ∷ rest) zero = lookup pair_eq (x, y) ranks
  rank_from x (y ∷ rest) (suc i) = rank_from y rest i

  abbrev pub pair_rank : List Bytes → ℕ → Option ℕ
  pair_rank [] i = none
  pair_rank (x ∷ rest) i = rank_from x rest i

  -- No pair of the ranks `f` is below `q`, none before the place `j` at `q`.
  pub record IsLeast (f : ℕ → Option ℕ) (j q : ℕ) : Type 0 where
    pub here : f j ≡ some q
    pub least : (k p : ℕ) → f k ≡ some p → q ≤ p
    pub first : (k p : ℕ) → f k ≡ some p → k < j → q < p

  -- What the search from the place `i` with the best pair `b` leaves.
  data Search (f : ℕ → Option ℕ) (i : ℕ) (b : Best) : Best → Type 0 where
    kept : ((k p : ℕ) → f k ≡ some p → b.rank ≤ p) → Search f i b b
    moved :
        (j q at : ℕ)
        → IsLeast f j q
        → q < b.rank
        → at ≡ i + j
        → Search f i b (record { rank = q; index = at; found = true })

  later : (f : ℕ → Option ℕ) → ℕ → Option ℕ
  later f k = f (suc k)

  -- A property of the ranks at every place, from the first and the later ones.
  all_places :
      (f : ℕ → Option ℕ) (P : ℕ → ℕ → Type 0)
      → ((p : ℕ) → f 0 ≡ some p → P 0 p)
      → ((k p : ℕ) → later f k ≡ some p → P (suc k) p)
      → (k p : ℕ) → f k ≡ some p
      → P k p
  unfolding later
  all_places f P h t zero p e = h p e
  all_places f P h t (suc k) p e = t k p e

  Search-skip :
      (f : ℕ → Option ℕ) (i : ℕ) (b : Best) {r : Best}
      → ((p : ℕ) → f 0 ≡ some p → b.rank ≤ p)
      → Search (later f) (suc i) b r
      → Search f i b r
  unfolding later
  Search-skip f i b h (kept g) = kept (all_places f (λ k p. b.rank ≤ p) h g)
  Search-skip f i b h (moved j q at l lt e) =
      moved (suc j) q at
        record {
          here = l.here;
          least = all_places f (λ k p. q ≤ p) (λ p y. omega (arith, h p y)) l.least;
          first =
              all_places f (λ k p. k < suc j → q < p) (λ p y z. omega (arith, h p y))
                (λ k p y z. l.first k p y (omega arith));
        }
        lt (omega arith)

  Search-take :
      (f : ℕ → Option ℕ) (i : ℕ) (b : Best) {q : ℕ} {r : Best}
      → f 0 ≡ some q
      → q < b.rank
      → Search (later f) (suc i) (record { rank = q; index = i; found = true }) r
      → Search f i b r
  unfolding later
  Search-take f i b {q} h l (kept g) =
      moved 0 q i
        record {
          here = h;
          least = all_places f (λ k p. q ≤ p) (λ p y. let e : q ≡ p = cc in omega arith) g;
          first = λ k p y z. omega arith;
        }
        l (omega arith)
  Search-take f i b {q} h l (moved j q' at m lt e) =
      moved (suc j) q' at
        record {
          here = m.here;
          least = all_places f (λ k p. q' ≤ p) (λ p y. let o : q ≡ p = cc in omega arith) m.least;
          first =
              all_places f (λ k p. k < suc j → q' < p) (λ p y z. let o : q ≡ p = cc in omega arith)
                (λ k p y z. m.first k p y (omega arith));
        }
        (omega arith) (omega arith)

  find_best-Search :
      (x : Bytes) (rest : List Bytes) (i : ℕ) (b : Best)
      → Search (rank_from x rest) i b (find_best ranks x rest i b)
  unfolding find_best better later
  find_best-Search x [] i b = kept (λ k p e. cc)
  find_best-Search x (y ∷ rest) i b = elim (Option-cases (lookup pair_eq (x, y) ranks)) [
    | inl e ↦ rw e (Search-skip _ i b (λ p o. cc) (find_best-Search y rest (suc i) b))
    | inr (r, e) ↦ elim (Bool-cases (ltb r b.rank)) [
      | inl l ↦
          rw (e, l) (Search-take _ i b e (ltb→lt r b.rank l) (find_best-Search y rest (suc i) _))
      | inr l ↦
          rw (e, l)
            (Search-skip _ i b (λ p o. let q : r ≡ p = cc in ground arith)
              (find_best-Search y rest (suc i) b))
    ]
  ]

  -- One turn: the best pair is joined.
  pub data Merge (symbols : List Bytes) : List Bytes → Type 0 where
    merge :
        (j q : ℕ)
        → IsLeast (pair_rank symbols) j q
        → q < int_max
        → Merge symbols (merge_at j symbols)

  pub data Merges : List Bytes → List Bytes → Type 0 where
    done : {symbols : List Bytes} → Merges symbols symbols
    merge_then : {s t u : List Bytes} → Merge s t → Merges t u → Merges s u

  -- No rank is left that the search would take.
  unfoldable pub IsMerged : List Bytes → Type 0
  IsMerged symbols = (j q : ℕ) → pair_rank symbols j ≡ some q → int_max ≤ q

  best_pair-Search :
      (symbols : List Bytes) → Search (pair_rank symbols) 0 no_best (best_pair ranks symbols)
  unfolding best_pair
  best_pair-Search [] = kept (λ k p e. cc)
  best_pair-Search (x ∷ rest) = find_best-Search x rest 0 no_best

  turn_cases :
      (symbols : List Bytes) (best : Best)
      → Search (pair_rank symbols) 0 no_best best
      → (IsMerged symbols × (best.found ≡ false))
        ⊎ (Merge symbols (merge_at best.index symbols) × (best.found ≡ true))
  unfolding IsMerged
  turn_cases symbols best (kept g) = inl (g, refl)
  turn_cases symbols best (moved j q at l lt e) =
      let o : at ≡ j = omega arith in
      inr (subst (λ k. Merge symbols (merge_at k symbols)) (sym o) (merge j q l lt), refl)

  -- A merge keeps the text, and leaves one symbol less.
  merge_at-kept :
      (symbols : List Bytes) (j : ℕ) {q : ℕ}
      → pair_rank symbols j ≡ some q
      → (concat (merge_at j symbols) ≡ concat symbols)
        × (suc (length (merge_at j symbols)) ≡ length symbols)
  unfolding merge_at
  merge_at-kept [] j e = cc
  merge_at-kept (x ∷ []) j e = cc
  merge_at-kept (x ∷ y ∷ rest) zero e = (append_assoc x y (concat rest), refl)
  merge_at-kept (x ∷ y ∷ rest) (suc j) e =
      let r = merge_at-kept (y ∷ rest) j e in (ap (λ t. x ++ t) r.0, ap suc r.1)

  Merge-kept : {s t : List Bytes} → Merge s t → (concat t ≡ concat s) × (suc (length t) ≡ length s)
  Merge-kept {s} (merge j q l lt) = merge_at-kept s j l.here

  -- The loop on as many turns as there are symbols merges until no ranked pair is left.
  merge_loop-Merges :
      (fuel : ℕ) (symbols : List Bytes)
      → length symbols ≤ fuel
      → Merges symbols (merge_loop ranks fuel symbols) × IsMerged (merge_loop ranks fuel symbols)
  unfolding merge_loop IsMerged
  merge_loop-Merges zero [] h = (done, λ j q e. cc)
  merge_loop-Merges zero (x ∷ rest) h = absurd (omega arith)
  merge_loop-Merges (suc fuel) symbols h =
      elim (turn_cases symbols (best_pair ranks symbols) (best_pair-Search symbols)) [
        | inl (merged, e) ↦ rw e (done, merged)
        | inr (m, e) ↦
            let k = Merge-kept m in
            let r = merge_loop-Merges fuel _ (omega (arith, k.1)) in rw e (merge_then m r.0, r.1)
      ]

  pub Merges-concat : {s t : List Bytes} → Merges s t → concat t ≡ concat s
  Merges-concat done = refl
  Merges-concat (merge_then m ms) = Merges-concat ms ∙ (Merge-kept m).0

  -- The loop of `bpe_encode`, on as many turns as there are symbols, goes by merges, each of the
  -- leftmost pair of the lowest rank; it ends where no pair of neighbours has a rank below the largest `int`, and it keeps
  -- the text.
  pub merge_loop-IsMerged :
      (symbols : List Bytes)
      → Merges symbols (merge_loop ranks (length symbols) symbols)
        × IsMerged (merge_loop ranks (length symbols) symbols)
        × (concat (merge_loop ranks (length symbols) symbols) ≡ concat symbols)
  merge_loop-IsMerged symbols =
      let r = merge_loop-Merges (length symbols) symbols (omega arith) in
      (r.0, r.1, Merges-concat r.0)
