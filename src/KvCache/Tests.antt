-- ===== src/KvCache/Tests.antt =====
-- Runs of the cache, and the theorems at concrete pools.
use glmserve.Prelude.{◌≡◌, refl, true, [], ◌∷◌, inr, arith}
use glmserve.Prelude.Result.{err}
use glmserve.KvCache.{
  KvCache, SequenceKv, exhausted, new_cache, make_sequence, allocate_block, reserve, bytes,
}
use glmserve.KvCache.Reserve.{Reserved, reserve-Reserved}
use glmserve.KvCache.Pool.{Pool, opened, appended, Reach, here, next, Inv}
use glmserve.KvCache.Pool.Ownership.{fresh_pool, Reach-fresh-Inv}
use glmserve.KvCache.Pool.Slots.{Apart, k_slot-Apart}

-- Two layers, two heads of three floats, four tokens to a block, three blocks, no indexer.
abbrev small : KvCache
small = new_cache 2 2 3 4 3 0

abbrev ten_tokens : SequenceKv
ten_tokens = record { request_id = 7; block_table = 1 ∷ []; length = 3; attached = true }

reserve_runs :
    ((reserve small ten_tokens 6).sequence.block_table ≡ 1 ∷ 0 ∷ 1 ∷ [])
    × ((reserve small ten_tokens 6).cache.free_list ≡ 2 ∷ [])
    × ((reserve small ten_tokens 99).result ≡ err exhausted)
unfolding reserve new_cache allocate_block
reserve_runs = (refl, refl, refl)

bytes_run : bytes small ≡ 1152
unfolding bytes new_cache
bytes_run = refl

abbrev after_two : Pool
after_two = record { cache = small; sequences = make_sequence 2 ∷ make_sequence 1 ∷ [] }

two_opened : Reach (fresh_pool 2 2 3 4 3 0) after_two
two_opened = next (next here (opened 1)) (opened 2)

abbrev filled : Pool
filled = record {
  cache = (reserve small (make_sequence 2) 5).cache;
  sequences =
      record { request_id = 2; block_table = 0 ∷ 1 ∷ []; length = 5; attached = true }
      ∷ make_sequence 1
      ∷ [];
}

both_filled : Reach (fresh_pool 2 2 3 4 3 0) filled
unfolding reserve new_cache allocate_block make_sequence
both_filled = next two_opened (appended 0 5 (make_sequence 2) refl refl)

reserve-Reserved_example : Reserved small ten_tokens 6 (reserve small ten_tokens 6)
unfolding new_cache
reserve-Reserved_example = reserve-Reserved small ten_tokens 6 refl (omega arith)

Reach-fresh-Inv_example : Inv filled
Reach-fresh-Inv_example = Reach-fresh-Inv 2 2 3 4 3 0 (omega arith) both_filled

abbrev first_sequence : SequenceKv
first_sequence = record { request_id = 2; block_table = 0 ∷ 1 ∷ []; length = 5; attached = true }

k_slot-Apart_example : Apart filled.cache first_sequence first_sequence 1 1 0 4
unfolding reserve new_cache allocate_block make_sequence
k_slot-Apart_example =
    k_slot-Apart filled 0 0 1 1 0 4 first_sequence first_sequence Reach-fresh-Inv_example refl refl
      (omega arith) (omega arith) (omega arith) (omega arith) (inr (inr (omega arith)))
