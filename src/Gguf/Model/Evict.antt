-- ===== src/Gguf/Model/Evict.antt =====
-- `GGUFModel::evict_range` of src/gguf.cpp: which pages it drops. An address is a `uintptr_t`.
use glmserve.Prelude.{
  ℕ, ◌+◌, ◌-◌, ◌*◌, ◌/◌, ◌%◌, ◌^◌, ◌<◌, ◌≤◌, ◌≡◌, refl, Bool, true, ◌&&◌, ◌||◌, Option, none, some,
  List, [], ◌∷◌, All, ltb, leb, ◌==◌, if◌then◌else◌, Bool-cases, inl, inr, arith,
}
use glmserve.Gguf.Shard.{ShardInfo}

-- The calls `madvise(from, bytes, DONTNEED)` and, where the file is kept open, `posix_fadvise` at
-- `file_offset`.
pub record Drop : Type 0 where
  pub from : ℕ
  pub bytes : ℕ
  pub file_offset : Option ℕ

-- `x & ~(PAGE - 1)` clears the bits below 4096.
abbrev pub page_down : ℕ → ℕ
page_down x = x / 4096 * 4096

-- The range in the shard that is mapped at `base`.
unfoldable pub evict_in : ShardInfo → ℕ → ℕ → ℕ → Option Drop
evict_in sh base p n =
    let room = base + sh.file_size - p in
    let size = if ltb room n then room else n in
    let a = page_down ((p + 4096 - 1) % 2 ^ 64) in
    let e = page_down ((p + size) % 2 ^ 64) in
    if leb e a
    then none
    else some
        record { from = a; bytes = e - a; file_offset = if sh.fd then some (a - base) else none }

abbrev pub holds : ShardInfo → ℕ → ℕ → Bool
holds sh base p = leb base p && ltb p (base + sh.file_size)

-- The first mapped shard that holds the address.
unfoldable pub evict_from : List ShardInfo → ℕ → ℕ → Option Drop
evict_from [] p n = none
evict_from (sh ∷ shs) p n =
    let later = evict_from shs p n in
    elim sh.base [
      | none ↦ later
      | some base ↦ if holds sh base p then evict_in sh base p n else later
    ]

unfoldable pub evict_range : List ShardInfo → ℕ → ℕ → Option Drop
evict_range shards p n = if p == 0 || n == 0 then none else evict_from shards p n

-- The mapping ends a page below the top of the address space.
abbrev pub BelowTop : ShardInfo → Type 0
BelowTop sh = (base : ℕ) → sh.base ≡ some base → base + sh.file_size + 4096 ≤ 2 ^ 64

-- Whole pages, within the range and within the mapping of a shard.
pub record IsInterior (p n : ℕ) (sh : ShardInfo) (base : ℕ) (d : Drop) : Type 0 where
  starts_page : d.from % 4096 ≡ 0
  whole_pages : d.bytes % 4096 ≡ 0
  not_empty : 0 < d.bytes
  not_before : p ≤ d.from
  not_behind : d.from + d.bytes ≤ p + n
  in_mapping : d.from + d.bytes ≤ base + sh.file_size
  not_below : base ≤ d.from

evict_in-IsInterior :
    (sh : ShardInfo) (base p n : ℕ) (d : Drop)
    → base + sh.file_size + 4096 ≤ 2 ^ 64
    → holds sh base p ≡ true
    → evict_in sh base p n ≡ some d
    → IsInterior p n sh base d
unfolding evict_in
evict_in-IsInterior sh base p n d top held h = record {
  starts_page = ground arith;
  whole_pages = ground arith;
  not_empty = ground arith;
  not_before = ground arith;
  not_behind = ground arith;
  in_mapping = ground arith;
  not_below = ground arith;
}

evict_from-IsInterior :
    (shs : List ShardInfo) (p n : ℕ) (d : Drop)
    → All BelowTop shs
    → evict_from shs p n ≡ some d
    → (sh : ShardInfo) × (base : ℕ) × (sh.base ≡ some base) × IsInterior p n sh base d
unfolding evict_from
evict_from-IsInterior [] p n d top h = cc
evict_from-IsInterior (sh ∷ shs) p n d top h =
    go sh.base refl h (evict_from-IsInterior shs p n d top.1)
  where
    go :
        (b : Option ℕ)
        → sh.base ≡ b
        → elim b [
          | none ↦ evict_from shs p n
          | some base ↦ if holds sh base p then evict_in sh base p n else evict_from shs p n
        ]
          ≡ some d
        → (evict_from shs p n ≡ some d
            → (sh : ShardInfo) × (base : ℕ) × (sh.base ≡ some base) × IsInterior p n sh base d)
        → (sh : ShardInfo) × (base : ℕ) × (sh.base ≡ some base) × IsInterior p n sh base d
    go none e h rest = rest h
    go (some base) e h rest = elim (Bool-cases (holds sh base p)) [
      | inl held ↦
          (sh, base, e, evict_in-IsInterior sh base p n d (top.0 base e) held (rw held at h))
      | inr out ↦ rest (rw out at h)
    ]

-- Where every mapping ends at least a page below the top of the address space, what `evict_range`
-- drops is a positive number of whole pages, all of them within the given range and within the
-- mapping of one shard: a page that the range shares with a neighbour stays.
pub evict_range-IsInterior :
    (shs : List ShardInfo) (p n : ℕ) (d : Drop)
    → All BelowTop shs
    → evict_range shs p n ≡ some d
    → (sh : ShardInfo) × (base : ℕ) × (sh.base ≡ some base) × IsInterior p n sh base d
unfolding evict_range
evict_range-IsInterior shs p n d top h = elim (Bool-cases (p == 0 || n == 0)) [
  | inl e ↦ absurd (ground arith)
  | inr e ↦ evict_from-IsInterior shs p n d top (rw e at h)
]
