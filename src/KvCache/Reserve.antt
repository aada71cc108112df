-- ===== src/KvCache/Reserve.antt =====
-- What `reserve`, `release` and the block operations do to the free list and to a block table.
use glmserve.Prelude.{
  ℕ, zero, suc, ◌+◌, ◌-◌, ◌*◌, ◌≤◌, ◌<◌, ◌≡◌, refl, ◌⊎◌, inl, inr, true, false, List, [], ◌∷◌, ◌++◌,
  length, get_elem?, count, count-append, length-append, get_elem?-append_left, arith, Bool-cases,
  append_assoc, append-nil, ◌∙◌, sym, ap,
}
use native.Mathlib.Nat.{div-add-mod, mod-lt}
use glmserve.Prelude.Result.{ok, err}
use glmserve.Prelude.Int.{pos}
use glmserve.KvCache.{
  KvCache, SequenceKv, exhausted, Outcome, reserve, reserve_blocks, release, free_all, free_block,
  allocate_block, blocks_for, not_attached,
}

-- The outcome `o` of giving blocks from the cache `c` to the sequence `s`, of which `missing` were
-- wanted: only the free list and the table change, the table grows at its end by the blocks that
-- leave the free list, and the call fails exactly when the free list is too short.
pub record Grows (missing : ℕ) (c : KvCache) (s : SequenceKv) (o : Outcome) : Type 0 where
  pub taken : List ℕ
  pub left : List ℕ
  pub splits : c.free_list ≡ taken ++ left
  pub cache_is : o.cache ≡ record c { free_list = left }
  pub sequence_is : o.sequence ≡ record s { block_table = s.block_table ++ taken }
  pub outcome_is :
      ((o.result ≡ ok tt) × (length taken ≡ missing))
      ⊎ ((o.result ≡ err exhausted) × (left ≡ []) × (length taken < missing))

reserve_blocks-Grows :
    (missing : ℕ) (c : KvCache) (s : SequenceKv) (free : List ℕ)
    → c.free_list ≡ free
    → Grows missing c s (reserve_blocks missing c s)
unfolding reserve_blocks allocate_block
reserve_blocks-Grows zero c s free e = record {
  taken = [];
  left = c.free_list;
  splits = refl;
  cache_is = refl;
  sequence_is = rw append-nil;
  outcome_is = inl (refl, refl);
}
reserve_blocks-Grows (suc missing) c s [] e = record {
  taken = [];
  left = [];
  splits = e;
  cache_is = ground arith;
  sequence_is = ground (arith, append-nil s.block_table);
  outcome_is = inr (ground arith, refl, omega arith);
}
reserve_blocks-Grows (suc missing) c s (id ∷ rest) e =
    let g =
      reserve_blocks-Grows missing (record c { free_list = rest })
        (record s { block_table = s.block_table ++ id ∷ [] }) rest refl in
    record {
      taken = id ∷ g.taken;
      left = g.left;
      splits = rw e (ap (◌∷◌ id) g.splits);
      cache_is = ground (arith, g.cache_is);
      sequence_is = ground (arith, g.sequence_is, append_assoc s.block_table (id ∷ []) g.taken);
      outcome_is = ground (arith, g.outcome_is);
    }

pub num_free : KvCache → ℕ
num_free c = length c.free_list

abbrev pub missing_blocks : KvCache → SequenceKv → ℕ → ℕ
missing_blocks c s additional =
    blocks_for c.block_size (s.length + additional) - length s.block_table

pub reserve-Grows :
    (c : KvCache) (s : SequenceKv) (additional : ℕ)
    → s.attached ≡ true
    → Grows (missing_blocks c s additional) c s (reserve c s additional)
unfolding reserve
reserve-Grows c s additional a =
    simp a (reserve_blocks-Grows (missing_blocks c s additional) c s c.free_list refl)

-- Rounding up to whole blocks gives room for the tokens, and wastes less than a block.
pub blocks_for_room :
    (bs tokens : ℕ)
    → 0 < bs
    → (tokens ≤ blocks_for bs tokens * bs) × (blocks_for bs tokens * bs < tokens + bs)
blocks_for_room bs tokens h =
    let e = div-add-mod (tokens + bs - 1) bs in
    let l = mod-lt (tokens + bs - 1) h in (omega (arith, e, l), omega (arith, e, l))

pub room_mono : {t m n : ℕ} (k : ℕ) → t ≤ m * k → m ≤ n → t ≤ n * k
room_mono k h l = grind arith

le_total : (a b : ℕ) → (a ≤ b) ⊎ (b < a)
le_total a b = omega arith

pub record Reserved (c : KvCache) (s : SequenceKv) (additional : ℕ) (o : Outcome) : Type 0 where
  pub succeeds :
      missing_blocks c s additional ≤ num_free c
      → (o.result ≡ ok tt)
        × (s.length + additional ≤ length o.sequence.block_table * c.block_size)
        × (num_free o.cache + missing_blocks c s additional ≡ num_free c)
  pub fails :
      num_free c < missing_blocks c s additional
      → (o.result ≡ err exhausted) × (num_free o.cache ≡ 0)
  pub keeps_length : o.sequence.length ≡ s.length
  pub extends :
      (i : ℕ)
      → i < length s.block_table
      → get_elem? o.sequence.block_table i ≡ get_elem? s.block_table i

-- `reserve` on an attached sequence of a cache with non-empty blocks, whose blocks hold its tokens:
-- with enough free blocks it succeeds, the tokens and the additional ones then fit, and exactly the
-- missing blocks are taken; with fewer it throws and leaves no free block. Either way the token
-- count and the blocks that the sequence had stay.
pub reserve-Reserved :
    (c : KvCache) (s : SequenceKv) (additional : ℕ)
    → s.attached ≡ true
    → 0 < c.block_size
    → Reserved c s additional (reserve c s additional)
unfolding num_free
reserve-Reserved c s additional a b =
    let g = reserve-Grows c s additional a in
    let counted = ap length g.splits ∙ length-append g.taken g.left in
    let grown =
      ap (λ (o : SequenceKv). length o.block_table) g.sequence_is
      ∙ length-append s.block_table g.taken in
    let freed = ap (λ (k : KvCache). length k.free_list) g.cache_is in
    let room = blocks_for_room c.block_size (s.length + additional) b in
    record {
      succeeds = λ h. elim g.outcome_is [
        | inl (e, n) ↦ (
          e,
          room_mono c.block_size room.0 (omega (arith, grown, n)),
          omega (arith, counted, freed, n),
        )
        | inr (e, n, l) ↦ absurd (omega (arith, counted, ap length n))
      ];
      fails = λ h. elim g.outcome_is [
        | inl (e, n) ↦ absurd (omega (arith, counted, n))
        | inr (e, n, l) ↦ (e, omega (arith, freed, ap length n))
      ];
      keeps_length = ap (λ (o : SequenceKv). o.length) g.sequence_is;
      extends = λ i h.
          ap (λ (o : SequenceKv). get_elem? o.block_table i) g.sequence_is
          ∙ get_elem?-append_left s.block_table g.taken i h;
    }

count-free_all :
    (a : ℕ) (c : KvCache) (t : List ℕ)
    → count a (free_all c t).free_list ≡ count a c.free_list + count a t
unfolding free_all free_block
count-free_all a c [] = omega arith
count-free_all a c (blk ∷ rest) = omega (arith, count-free_all a (free_block c (pos blk)) rest)

free_all_config :
    (c : KvCache) (t : List ℕ) → free_all c t ≡ record c { free_list = (free_all c t).free_list }
unfolding free_all free_block
free_all_config c [] = refl
free_all_config c (blk ∷ rest) = free_all_config (free_block c (pos blk)) rest

-- What a call on the cache `c` and the sequence `s` may do to the blocks: move them between the
-- free list and the block table.
pub record Moves (c : KvCache) (s : SequenceKv) (c' : KvCache) (s' : SequenceKv) : Type 0 where
  pub config : c' ≡ record c { free_list = c'.free_list }
  pub balance :
      (a : ℕ)
      → count a c'.free_list + count a s'.block_table ≡ count a c.free_list + count a s.block_table

pub release-Moves : (c : KvCache) (s : SequenceKv) → Moves c s (release c s).0 (release c s).1
unfolding release
release-Moves c s = elim (Bool-cases s.attached) [
  | inl e ↦ simp e (record {
    config = free_all_config c s.block_table;
    balance = λ a. omega (arith, count-free_all a c s.block_table);
  })
  | inr e ↦ simp e (record { config = refl; balance = λ a. refl })
]

Grows-Moves :
    (n : ℕ) (c : KvCache) (s : SequenceKv) (o : Outcome)
    → Grows n c s o
    → Moves c s o.cache o.sequence
Grows-Moves n c s o g = record {
  config =
      g.cache_is
      ∙ ap (λ l. record c { free_list = l }) (ap (λ (k : KvCache). k.free_list) (sym g.cache_is));
  balance = λ a. omega (
    arith,
    ap (count a) g.splits ∙ count-append a g.taken g.left,
    ap (λ (o : SequenceKv). count a o.block_table) g.sequence_is
        ∙ count-append a s.block_table g.taken,
    ap (λ (k : KvCache). count a k.free_list) g.cache_is,
  );
}

pub reserve-Moves :
    (c : KvCache) (s : SequenceKv) (additional : ℕ)
    → Moves c s (reserve c s additional).cache (reserve c s additional).sequence
reserve-Moves c s additional = elim (Bool-cases s.attached) [
  | inl e ↦ Grows-Moves _ c s _ (reserve-Grows c s additional e)
  | inr e ↦ unfold reserve in simp e (record { config = refl; balance = λ a. refl })
]

reserve_unattached :
    (c : KvCache) (s : SequenceKv) (n : ℕ)
    → s.attached ≡ false
    → (reserve c s n).result ≡ err not_attached
unfolding reserve
reserve_unattached c s n a = rw a

-- A call that returns has made room.
pub reserve_room :
    (c : KvCache) (s : SequenceKv) (n : ℕ)
    → 0 < c.block_size
    → (reserve c s n).result ≡ ok tt
    → ((reserve c s n).sequence.length ≡ s.length)
      × (s.length + n ≤ length (reserve c s n).sequence.block_table * c.block_size)
unfolding num_free
reserve_room c s n b e = elim (Bool-cases s.attached) [
  | inl a ↦
      let r = reserve-Reserved c s n a b in
      elim (le_total (missing_blocks c s n) (num_free c)) [
        | inl h ↦ (r.keeps_length, (r.succeeds h).1)
        | inr h ↦ cc ((r.fails h).0)
      ]
  | inr a ↦ cc (reserve_unattached c s n a)
]

-- On any outcome the table keeps the blocks that it had.
pub reserve_keeps :
    (c : KvCache) (s : SequenceKv) (n : ℕ)
    → ((reserve c s n).sequence.length ≡ s.length)
      × (length s.block_table ≤ length (reserve c s n).sequence.block_table)
reserve_keeps c s n = elim (Bool-cases s.attached) [
  | inl a ↦
      let g = reserve-Grows c s n a in
      (
        ap (λ (o : SequenceKv). o.length) g.sequence_is,
        omega (
          arith,
          ap (λ (o : SequenceKv). length o.block_table) g.sequence_is,
          length-append s.block_table g.taken,
        ),
      )
  | inr a ↦ unfold reserve in simp a (refl, omega arith)
]
