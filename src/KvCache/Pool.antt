-- ===== src/KvCache/Pool.antt =====
-- Several sequences over one cache, as the engine runs them: `GLM52Model::forward` reserves room
-- for the new tokens and then counts them, speculative decoding rewinds the count, and `release`
-- gives a sequence's blocks back. An exception of `reserve` leaves the blocks that it had taken.
pub mod Ownership
pub mod Slots
use glmserve.Prelude.{
  ℕ, zero, suc, ◌+◌, ◌*◌, ◌≤◌, ◌<◌, ◌≡◌, List, [], ◌∷◌, ◌++◌, some, ltb, if◌then◌else◌, length,
  get_elem?, set, count, All,
}
use glmserve.Prelude.Result.{ok, err}
use glmserve.KvCache.{KvCache, SequenceKv, Error, Outcome, make_sequence, reserve, release, kv_dim}

pub record Pool : Type 0 where
  pub cache : KvCache
  pub sequences : List SequenceKv

abbrev pub replace : Pool → ℕ → KvCache → SequenceKv → Pool
replace p i c s = record { cache = c; sequences = set p.sequences i s }

pub data Step (p : Pool) : Pool → Type 0 where
  opened : (id : ℕ) → Step p (record p { sequences = make_sequence id ∷ p.sequences })
  appended :
      (i n : ℕ) (s : SequenceKv)
      → get_elem? p.sequences i ≡ some s
      → (reserve p.cache s n).result ≡ ok tt
      → Step p (
          let o = reserve p.cache s n in
          replace p i o.cache (record o.sequence { length = o.sequence.length + n }))
  refused :
      (i n : ℕ) (s : SequenceKv) (e : Error)
      → get_elem? p.sequences i ≡ some s
      → (reserve p.cache s n).result ≡ err e
      → Step p (let o = reserve p.cache s n in replace p i o.cache o.sequence)
  rewound :
      (i n : ℕ) (s : SequenceKv)
      → get_elem? p.sequences i ≡ some s
      → n ≤ s.length
      → Step p (replace p i p.cache (record s { length = n }))
  released :
      (i : ℕ) (s : SequenceKv)
      → get_elem? p.sequences i ≡ some s
      → Step p (let r = release p.cache s in replace p i r.0 r.1)

pub data Reach (p : Pool) : Pool → Type 0 where
  here : Reach p p
  next : {q r : Pool} → Reach p q → Step q r → Reach p r

-- How often a block id stands in the block tables.
abbrev pub held : ℕ → List SequenceKv → ℕ
held a [] = 0
held a (s ∷ ss) = count a s.block_table + held a ss

-- The tokens of a sequence lie in the blocks that it owns.
abbrev pub Fits : ℕ → SequenceKv → Type 0
Fits bs s = s.length ≤ length s.block_table * bs

-- The strides and the size of the K pool are those of the constructor.
abbrev pub Layout : KvCache → Type 0
Layout c =
    (c.block_stride ≡ c.block_size * kv_dim c)
    × (c.layer_stride ≡ c.num_blocks * c.block_stride)
    × (c.k_size ≡ c.num_layers * c.layer_stride)

-- Every block of the cache stands in exactly one place, the free list or one entry of one block
-- table, and nothing else stands there.
pub record Inv (p : Pool) : Type 0 where
  pub once :
      (a : ℕ)
      → count a p.cache.free_list + held a p.sequences ≡ (if ltb a p.cache.num_blocks then 1 else 0)
  pub fits : All (Fits p.cache.block_size) p.sequences
  pub layout : Layout p.cache
  pub block_pos : 0 < p.cache.block_size
