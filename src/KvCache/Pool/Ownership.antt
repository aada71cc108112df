-- ===== src/KvCache/Pool/Ownership.antt =====
-- Every step keeps each block of the cache in exactly one place.
use glmserve.Prelude.{
  ℕ, zero, suc, ◌+◌, ◌<◌, ◌≡◌, refl, ap, inl, inr, List, [], ◌∷◌, some, ltb, if◌then◌else◌,
  get_elem?, set, count, All-set, All-get_elem?, arith, Bool-cases, leb, ◌&&◌,
}
use native.Mathlib.Nat.{mul_assoc}
use glmserve.KvCache.{KvCache, SequenceKv, new_cache, ids_from, make_sequence, reserve, release}
use glmserve.KvCache.Reserve.{
  Moves, reserve-Moves, release-Moves, reserve_room, reserve_keeps, room_mono,
}
use glmserve.KvCache.Pool.{
  Pool, replace, Step, opened, appended, refused, rewound, released, Reach, here, next, held, Fits,
  Inv,
}

held-set :
    (a : ℕ) (ss : List SequenceKv) (i : ℕ) {s : SequenceKv} (t : SequenceKv)
    → get_elem? ss i ≡ some s
    → held a (set ss i t) + count a s.block_table ≡ held a ss + count a t.block_table
held-set a [] i t e = cc
held-set a (x ∷ ss) zero {s} t e =
    let same : x ≡ s = cc in omega (arith, ap (λ (q : SequenceKv). count a q.block_table) same)
held-set a (x ∷ ss) (suc i) t e = omega (arith, held-set a ss i t e)

-- A call that moves blocks between the free list and the table of sequence `i` keeps the invariant,
-- if the sequence's tokens still lie in its blocks.
replace-Inv :
    (p : Pool) (i : ℕ) {s : SequenceKv} (c' : KvCache) (s' : SequenceKv)
    → Inv p
    → get_elem? p.sequences i ≡ some s
    → Moves p.cache s c' s'
    → Fits p.cache.block_size s'
    → Inv (replace p i c' s')
replace-Inv p i {s} c' s' v e m f =
    let same_blocks = ap (λ (c : KvCache). c.num_blocks) m.config in
    let same_size = ap (λ (c : KvCache). c.block_size) m.config in
    record {
      once = λ a.
          let counted : count a c'.free_list + held a (set p.sequences i s')
              ≡ (if ltb a p.cache.num_blocks then 1 else 0) =
            omega (arith, held-set a p.sequences i s' e, m.balance a, v.once a) in
          rw same_blocks counted;
      fits = rw same_size (All-set (Fits p.cache.block_size) p.sequences i s' v.fits f);
      layout = rw m.config v.layout;
      block_pos = rw same_size v.block_pos;
    }

reserve-Fits :
    (c : KvCache) (s : SequenceKv) (n : ℕ)
    → Fits c.block_size s
    → Fits c.block_size (reserve c s n).sequence
reserve-Fits c s n f = let k = reserve_keeps c s n in rw k.0 (room_mono c.block_size f k.1)

release-Fits :
    (c : KvCache) (s : SequenceKv) → Fits c.block_size s → Fits c.block_size (release c s).1
unfolding release
release-Fits c s f = elim (Bool-cases s.attached) [
  | inl e ↦ simp e (omega arith)
  | inr e ↦ simp e f
]

pub Step-Inv : {p q : Pool} → Step p q → Inv p → Inv q
unfolding make_sequence
Step-Inv {p} (opened id) v = record {
  once = λ a. omega (arith, v.once a);
  fits = (omega arith, v.fits);
  layout = v.layout;
  block_pos = v.block_pos;
}
Step-Inv {p} (appended i n s e r) v =
    let m = reserve-Moves p.cache s n in
    let room = reserve_room p.cache s n v.block_pos r in
    replace-Inv p i _ _ v e (record { config = m.config; balance = m.balance }) (rw room.0 room.1)
Step-Inv {p} (refused i n s x e r) v =
    replace-Inv p i _ _ v e (reserve-Moves p.cache s n)
      (reserve-Fits p.cache s n (All-get_elem? (Fits p.cache.block_size) p.sequences i v.fits e))
Step-Inv {p} (rewound i n s e h) v =
    let f = All-get_elem? (Fits p.cache.block_size) p.sequences i v.fits e in
    replace-Inv p i _ _ v e (record { config = refl; balance = λ a. refl }) (omega arith)
Step-Inv {p} (released i s e) v =
    replace-Inv p i _ _ v e (release-Moves p.cache s)
      (release-Fits p.cache s (All-get_elem? (Fits p.cache.block_size) p.sequences i v.fits e))

Reach-Inv : {p q : Pool} → Inv p → Reach p q → Inv q
Reach-Inv v here = v
Reach-Inv v (next r st) = Step-Inv st (Reach-Inv v r)

count-ids_from : (a i n : ℕ) → count a (ids_from i n) ≡ (if leb i a && ltb a (i + n) then 1 else 0)
count-ids_from a i zero = ground arith
count-ids_from a i (suc n) = ground (arith, count-ids_from a (i + 1) n)

abbrev pub fresh_pool : ℕ → ℕ → ℕ → ℕ → ℕ → ℕ → Pool
fresh_pool layers heads dim bs blocks index = record {
  cache = new_cache layers heads dim bs blocks index;
  sequences = [];
}

fresh_pool-Inv :
    (layers heads dim bs blocks index : ℕ)
    → 0 < bs
    → Inv (fresh_pool layers heads dim bs blocks index)
unfolding new_cache
fresh_pool-Inv layers heads dim bs blocks index b = record {
  once = λ a. ground (arith, count-ids_from a 0 blocks);
  fits = tt;
  layout = (mul_assoc bs heads dim, refl, refl);
  block_pos = b;
}

-- After any steps from a fresh cache with non-empty blocks, every block id below `num_blocks` stands
-- exactly once in the free list and the block tables together and no other id stands there, and
-- the tokens of each sequence lie in its blocks. A `reserve` that threw is among the steps.
pub Reach-fresh-Inv :
    (layers heads dim bs blocks index : ℕ) {q : Pool}
    → 0 < bs
    → Reach (fresh_pool layers heads dim bs blocks index) q
    → Inv q
Reach-fresh-Inv layers heads dim bs blocks index b r =
    Reach-Inv (fresh_pool-Inv layers heads dim bs blocks index b) r
