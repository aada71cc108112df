-- ===== src/Scheduler.antt =====
-- The request scheduler of src/scheduler.cpp. Each operation holds the mutex, so that a run of the
-- threads is a sequence of whole operations; `admit` takes its step when the wait has ended.
pub mod Slots
mod Tests
use glmserve.Prelude.{
  ℕ, zero, suc, ◌+◌, ◌≡◌, ◌≢◌, Bool, true, false, not, Option, none, some, List, [], ◌∷◌, ◌++◌, ltb,
  ◌==◌, if◌then◌else◌,
}
use glmserve.Prelude.Int.{ℤ, pos, negsuc, minus_one}

-- `cancelled` is the map from the ids that hold a slot; `active` an `int`.
pub record Scheduler : Type 0 where
  pub max_concurrent : ℕ
  pub active : ℤ
  pub next_id : ℕ
  pub cancelled : List (ℕ × Bool)

pub new_scheduler : ℕ → Scheduler
new_scheduler max_concurrent = record {
  max_concurrent = max_concurrent;
  active = pos 0;
  next_id = 0;
  cancelled = [];
}

abbrev pub below : ℤ → ℕ → Bool
below (pos a) n = ltb a n
below (negsuc a) n = true

abbrev pub plus_one : ℤ → ℤ
plus_one (pos a) = pos (suc a)
plus_one (negsuc zero) = pos 0
plus_one (negsuc (suc a)) = negsuc a

abbrev pub less_one : ℤ → ℤ
less_one (pos zero) = minus_one
less_one (pos (suc a)) = pos a
less_one (negsuc a) = negsuc (suc a)

-- `find`, `map[id] = flag`, `erase`, and the write through an iterator that was found.
unfoldable pub flag_of : ℕ → List (ℕ × Bool) → Option Bool
flag_of id [] = none
flag_of id (e ∷ m) = let later = flag_of id m in if e.0 == id then some e.1 else later

unfoldable pub put : ℕ → Bool → List (ℕ × Bool) → List (ℕ × Bool)
put id flag [] = (id, flag) ∷ []
put id flag (e ∷ m) = let after = put id flag m in if e.0 == id then (id, flag) ∷ m else e ∷ after

unfoldable pub erase : ℕ → List (ℕ × Bool) → List (ℕ × Bool)
erase id [] = []
erase id (e ∷ m) = let after = erase id m in if e.0 == id then m else e ∷ after

unfoldable pub raise : ℕ → List (ℕ × Bool) → List (ℕ × Bool)
raise id [] = []
raise id (e ∷ m) = let after = raise id m in if e.0 == id then (e.0, true) ∷ m else e ∷ after

-- What `admit` waits for, and the rest of it, with the id that it returns.
abbrev pub can_admit : Scheduler → Bool
can_admit s = below s.active s.max_concurrent

unfoldable pub admit : Scheduler → Scheduler × ℕ
admit s = (
  record s {
    active = plus_one s.active;
    next_id = s.next_id + 1;
    cancelled = put s.next_id false s.cancelled;
  },
  s.next_id,
)

unfoldable pub complete : ℕ → Scheduler → Scheduler
complete id s = record s { cancelled = erase id s.cancelled; active = less_one s.active }

unfoldable pub cancel : ℕ → Scheduler → Scheduler
cancel id s = record s { cancelled = raise id s.cancelled }

abbrev pub raised : Option Bool → Bool
raised none = false
raised (some flag) = flag

abbrev pub is_cancelled : ℕ → Scheduler → Bool
is_cancelled id s = raised (flag_of id s.cancelled)

-- One operation of some thread. `complete` takes any id, held or not.
pub data Step : Scheduler → Scheduler → Type 0 where
  admits : (s : Scheduler) → can_admit s ≡ true → Step s (admit s).0
  completes : (s : Scheduler) (id : ℕ) → Step s (complete id s)
  cancels : (s : Scheduler) (id : ℕ) → Step s (cancel id s)

-- What the callers in src/server.cpp keep to: an id is completed only while it holds a slot.
abbrev pub HoldsSlot : {s t : Scheduler} → Step s t → Type 0
HoldsSlot (admits s free) = Unit
HoldsSlot (completes s id) = flag_of id s.cancelled ≢ none
HoldsSlot (cancels s id) = Unit

-- Runs of such callers.
pub data Reaches (s : Scheduler) : Scheduler → Type 0 where
  stays : Reaches s s
  then_step : {t u : Scheduler} → Reaches s t → (st : Step t u) → HoldsSlot st → Reaches s u
