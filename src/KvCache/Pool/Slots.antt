-- ===== src/KvCache/Pool/Slots.antt =====
-- Where the tokens of the sequences lie in the K pool.
use glmserve.Prelude.{
  ℕ, zero, suc, ◌+◌, ◌*◌, ◌/◌, ◌%◌, ◌≤◌, ◌<◌, ◌≡◌, ◌≢◌, ◌⊎◌, sym, ap, subst, inl, inr, List, [],
  ◌∷◌, some, length, get_elem?, count, count_pos, count_two, All-get_elem?, arith, get_elem?_total,
}
use native.Mathlib.Nat.{div-add-mod, mod-lt}
use glmserve.Prelude.Result.{ok}
use glmserve.KvCache.{KvCache, SequenceKv, physical, k_block, k_slot, kv_dim}
use glmserve.KvCache.Pool.{Pool, held, Fits, Inv}

-- A number in mixed radix has one reading.
radix_eq : (m x y r s : ℕ) → r < m → s < m → x * m + r ≡ y * m + s → (x ≡ y) × (r ≡ s)
radix_eq m x y r s hr hs e = elim (order x y) [
  | inl l ↦ absurd (grind arith)
  | inr (inl l) ↦ absurd (grind arith)
  | inr (inr same) ↦ (same, grind arith)
]
  where
    order : (a b : ℕ) → (a < b) ⊎ ((b < a) ⊎ (a ≡ b))
    order a b = omega arith

radix_lt : (m x n r : ℕ) → r < m → x < n → x * m + r < n * m
radix_lt m x n r h l = grind arith

-- Whole slots of one width: different numbers, disjoint ranges.
slots_apart : (w x y : ℕ) → x ≢ y → (x * w + w ≤ y * w) ⊎ (y * w + w ≤ x * w)
slots_apart w x y ne = elim (order x y ne) [ inl l ↦ inl (grind arith) | inr l ↦ inr (grind arith) ]
  where
    order : (a b : ℕ) → a ≢ b → (a < b) ⊎ (b < a)
    order a b h = omega arith

held_pos :
    (a : ℕ) (ss : List SequenceKv) (i : ℕ) {s : SequenceKv}
    → get_elem? ss i ≡ some s
    → count a s.block_table ≤ held a ss
held_pos a [] i e = cc
held_pos a (x ∷ ss) zero {s} e =
    let same : x ≡ s = cc in omega (arith, ap (λ (q : SequenceKv). count a q.block_table) same)
held_pos a (x ∷ ss) (suc i) e = omega (arith, held_pos a ss i e)

held_two :
    (a : ℕ) (ss : List SequenceKv) (i j : ℕ) {s t : SequenceKv}
    → i < j
    → get_elem? ss i ≡ some s
    → get_elem? ss j ≡ some t
    → count a s.block_table + count a t.block_table ≤ held a ss
held_two a [] i j l e f = cc
held_two a (x ∷ ss) i zero l e f = absurd (omega arith)
held_two a (x ∷ ss) zero (suc j) {s} l e f =
    let same : x ≡ s = cc in
    omega (arith, held_pos a ss j f, ap (λ (q : SequenceKv). count a q.block_table) same)
held_two a (x ∷ ss) (suc i) (suc j) l e f = omega (arith, held_two a ss i j (omega arith) e f)

-- The number of a slot among all slots of the pool.
abbrev slot_number : KvCache → ℕ → ℕ → ℕ → ℕ
slot_number c layer phys p = (layer * c.num_blocks + phys) * c.block_size + p % c.block_size

-- The live token `p` of sequence `i`: its block is one of the cache's, and its slot is found.
record Located (q : Pool) (s : SequenceKv) (layer p : ℕ) : Type 0 where
  phys : ℕ
  found : get_elem? s.block_table (p / q.cache.block_size) ≡ some phys
  owned : 0 < count phys s.block_table
  slot_is : k_slot q.cache s layer p ≡ ok (slot_number q.cache layer phys p * kv_dim q.cache)

k_slot_number :
    (c : KvCache) (layer phys p d : ℕ)
    → c.block_stride ≡ c.block_size * d
    → c.layer_stride ≡ c.num_blocks * c.block_stride
    → layer * c.layer_stride + phys * c.block_stride + p % c.block_size * d
      ≡ slot_number c layer phys p * d
k_slot_number c layer phys p d e f = rw (f, e) (omega arith)

locate :
    (q : Pool) (s : SequenceKv) (layer p : ℕ)
    → Inv q
    → Fits q.cache.block_size s
    → p < s.length
    → Located q s layer p
unfolding k_slot physical k_block
locate q s layer p v f h =
    let bs = q.cache.block_size in
    let inside : p / bs < length s.block_table = div_lt p bs (length s.block_table) (omega arith) in
    let (phys, e) = get_elem?_total s.block_table (p / bs) inside in
    record {
      phys = phys;
      found = e;
      owned = count_pos s.block_table (p / bs) e;
      slot_is =
          rw (e, k_slot, physical)
            (ap ok (k_slot_number q.cache layer phys p (kv_dim q.cache) v.layout.0 v.layout.1));
    }
  where
    div_lt : (a b n : ℕ) → a < n * b → a / b < n
    div_lt a b n l = grind arith

owned_lt :
    (q : Pool) (i phys : ℕ) {s : SequenceKv}
    → Inv q
    → get_elem? q.sequences i ≡ some s
    → 0 < count phys s.block_table
    → phys < q.cache.num_blocks
owned_lt q i phys v e h = ground (arith, v.once phys, held_pos phys q.sequences i e)

-- A block is in one table, at one place.
owner_unique :
    (q : Pool) (i j phys : ℕ) {s t : SequenceKv}
    → Inv q
    → get_elem? q.sequences i ≡ some s
    → get_elem? q.sequences j ≡ some t
    → 0 < count phys s.block_table
    → 0 < count phys t.block_table
    → i ≡ j
owner_unique q i j phys {s} {t} v e f hs ht = elim (order i j) [
  | inl l ↦ absurd (ground (arith, v.once phys, held_two phys q.sequences i j l e f))
  | inr (inl l) ↦ absurd (ground (arith, v.once phys, held_two phys q.sequences j i l f e))
  | inr (inr same) ↦ same
]
  where
    order : (a b : ℕ) → (a < b) ⊎ ((b < a) ⊎ (a ≡ b))
    order a b = omega arith

place_unique :
    (q : Pool) (i phys x y : ℕ) {s : SequenceKv}
    → Inv q
    → get_elem? q.sequences i ≡ some s
    → get_elem? s.block_table x ≡ some phys
    → get_elem? s.block_table y ≡ some phys
    → x ≡ y
place_unique q i phys x y {s} v e hx hy = elim (order x y) [
  | inl l ↦ absurd (
      ground (
        arith,
        v.once phys,
        held_pos phys q.sequences i e,
        count_two s.block_table x y {a = phys} l hx hy,
      ))
  | inr (inl l) ↦ absurd (
      ground (
        arith,
        v.once phys,
        held_pos phys q.sequences i e,
        count_two s.block_table y x {a = phys} l hy hx,
      ))
  | inr (inr same) ↦ same
]
  where
    order : (a b : ℕ) → (a < b) ⊎ ((b < a) ⊎ (a ≡ b))
    order a b = omega arith

slot_unique :
    (q : Pool) (i j l k a b : ℕ) {s t : SequenceKv}
    → Inv q
    → get_elem? q.sequences i ≡ some s
    → get_elem? q.sequences j ≡ some t
    → (x : Located q s l a) (y : Located q t k b) → x.phys < q.cache.num_blocks
    → y.phys < q.cache.num_blocks
    → slot_number q.cache l x.phys a ≡ slot_number q.cache k y.phys b
    → (l ≡ k) × (i ≡ j) × (a ≡ b)
slot_unique q i j l k a b {s} {t} v e f x y px py same =
    let bs = q.cache.block_size in
    let (blocks, offsets) =
      radix_eq bs _ _ _ _ (mod-lt a v.block_pos) (mod-lt b v.block_pos) same in
    let (layers, phys) = radix_eq q.cache.num_blocks l k _ _ px py blocks in
    let sequences =
      owner_unique q i j x.phys v e f x.owned
        (subst (λ z. 0 < count z t.block_table) (sym phys) y.owned) in
    let tables : s ≡ t = cc in
    let places = place_unique q i x.phys (a / bs) (b / bs) v e x.found (
      subst (λ u. get_elem? u.block_table (b / bs) ≡ some x.phys) (sym tables)
        (subst (λ z. get_elem? t.block_table (b / bs) ≡ some z) (sym phys) y.found)) in
    (
      layers,
      sequences,
      omega (arith, div-add-mod a bs, div-add-mod b bs, offsets, ap (λ z. bs * z) places),
    )

differ : {l k i j a b : ℕ} → (l ≢ k) ⊎ ((i ≢ j) ⊎ (a ≢ b)) → (l ≡ k) × (i ≡ j) × (a ≡ b) → ⊥
differ (inl h) e = h e.0
differ (inr (inl h)) e = h e.1
differ (inr (inr h)) e = h e.2

-- The slot `x` of one live token and the slot `y` of another lie in the pool and are disjoint.
pub record Apart (c : KvCache) (s t : SequenceKv) (l k a b : ℕ) : Type 0 where
  pub first : ℕ
  pub second : ℕ
  pub first_is : k_slot c s l a ≡ ok first
  pub second_is : k_slot c t k b ≡ ok second
  pub first_inside : first + kv_dim c ≤ c.k_size
  pub second_inside : second + kv_dim c ≤ c.k_size
  pub disjoint : (first + kv_dim c ≤ second) ⊎ (second + kv_dim c ≤ first)

slot_inside :
    (c : KvCache) (layer phys p : ℕ)
    → 0 < c.block_size
    → layer < c.num_layers
    → phys < c.num_blocks
    → c.k_size ≡ c.num_layers * c.num_blocks * c.block_size * kv_dim c
    → slot_number c layer phys p * kv_dim c + kv_dim c ≤ c.k_size
slot_inside c layer phys p b hl hp e =
    let n = radix_lt c.num_blocks layer c.num_layers phys hp hl in
    let m =
      radix_lt c.block_size (layer * c.num_blocks + phys) (c.num_layers * c.num_blocks)
        (p % c.block_size) (mod-lt p b) n in
    rw e (le_mul (kv_dim c) (slot_number c layer phys p) _ m)
  where
    le_mul : (w x n : ℕ) → x < n → x * w + w ≤ n * w
    le_mul w x n h = grind arith

-- In a pool that keeps the invariant, for two layers of the cache and two live tokens of which the
-- layer, the sequence or the position differs, `k_slot` finds both slots, both ranges of `kv_dim`
-- floats lie in the K pool, and they do not overlap.
pub k_slot-Apart :
    (q : Pool) (i j l k a b : ℕ) (s t : SequenceKv)
    → Inv q
    → get_elem? q.sequences i ≡ some s
    → get_elem? q.sequences j ≡ some t
    → l < q.cache.num_layers
    → k < q.cache.num_layers
    → a < s.length
    → b < t.length
    → (l ≢ k) ⊎ ((i ≢ j) ⊎ (a ≢ b))
    → Apart q.cache s t l k a b
k_slot-Apart q i j l k a b s t v e f hl hk ha hb ne =
    let x = locate q s l a v (All-get_elem? (Fits q.cache.block_size) q.sequences i v.fits e) ha in
    let y = locate q t k b v (All-get_elem? (Fits q.cache.block_size) q.sequences j v.fits f) hb in
    let size : q.cache.k_size
        ≡ q.cache.num_layers * q.cache.num_blocks * q.cache.block_size * kv_dim q.cache =
      rw (v.layout.2, v.layout.1, v.layout.0) (omega arith) in
    let px = owned_lt q i x.phys v e x.owned in
    let py = owned_lt q j y.phys v f y.owned in
    record {
      first = slot_number q.cache l x.phys a * kv_dim q.cache;
      second = slot_number q.cache k y.phys b * kv_dim q.cache;
      first_is = x.slot_is;
      second_is = y.slot_is;
      first_inside = slot_inside q.cache l x.phys a v.block_pos hl px size;
      second_inside = slot_inside q.cache k y.phys b v.block_pos hk py size;
      disjoint =
          slots_apart (kv_dim q.cache) _ _
            (λ same. differ ne (slot_unique q i j l k a b v e f x y px py same));
    }
