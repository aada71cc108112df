-- ===== src/Scheduler/Slots.antt =====
-- The slots of src/scheduler.cpp: never more requests than allowed, and no slot is lost.
use glmserve.Prelude.{
  ℕ, suc, ◌+◌, ◌≤◌, ◌<◌, ◌≡◌, ◌≢◌, refl, sym, ap, ◌∙◌, Bool, true, false, Option, none, some, List,
  [], ◌∷◌, All, length, ltb→lt, lt→ltb, ◌==◌, if◌then◌else◌, Bool-cases, inl, inr, arith,
}
use glmserve.Prelude.Int.{pos}
use glmserve.Scheduler.{
  Scheduler, new_scheduler, below, plus_one, less_one, flag_of, put, erase, raise, can_admit, admit,
  complete, cancel, raised, is_cancelled, Step, admits, completes, cancels, Reaches, stays,
  then_step, HoldsSlot,
}

-- The count is the number of ids that hold a slot, at most the limit, and ids are not used again.
pub record Inv (s : Scheduler) : Type 0 where
  pub counted : s.active ≡ pos (length s.cancelled)
  pub limited : length s.cancelled ≤ s.max_concurrent
  pub used : All (λ e. e.0 < s.next_id) s.cancelled

put-length :
    (id : ℕ) (b : Bool) (m : List (ℕ × Bool))
    → All (λ e. e.0 < id) m
    → length (put id b m) ≡ suc (length m)
unfolding put
put-length id b [] h = refl
put-length id b (e ∷ m) h = ground (arith, put-length id b m h.1, h.0)

put-used :
    (id : ℕ) (b : Bool) (m : List (ℕ × Bool))
    → All (λ e. e.0 < id) m
    → All (λ e. e.0 < id + 1) (put id b m)
unfolding put
put-used id b [] h = (omega arith, tt)
put-used id b (e ∷ m) h =
    let no : (e.0 == id) ≡ false = ground (arith, h.0) in
    rw no (omega (arith, h.0), put-used id b m h.1)

erase-length :
    (id : ℕ) (m : List (ℕ × Bool)) → flag_of id m ≢ none → suc (length (erase id m)) ≡ length m
unfolding erase flag_of
erase-length id [] h = absurd (h refl)
erase-length id (e ∷ m) h = elim (Bool-cases (e.0 == id)) [
  | inl y ↦ rw y
  | inr n ↦ rw n (ap suc (erase-length id m (rw n at h)))
]

erase-used :
    (id n : ℕ) (m : List (ℕ × Bool)) → All (λ e. e.0 < n) m → All (λ e. e.0 < n) (erase id m)
unfolding erase
erase-used id n [] h = tt
erase-used id n (e ∷ m) h = elim (Bool-cases (e.0 == id)) [
  | inl y ↦ rw y h.1
  | inr k ↦ rw k (h.0, erase-used id n m h.1)
]

raise-length : (id : ℕ) (m : List (ℕ × Bool)) → length (raise id m) ≡ length m
unfolding raise
raise-length id [] = refl
raise-length id (e ∷ m) = ground (arith, raise-length id m)

raise-used :
    (id n : ℕ) (m : List (ℕ × Bool)) → All (λ e. e.0 < n) m → All (λ e. e.0 < n) (raise id m)
unfolding raise
raise-used id n [] h = tt
raise-used id n (e ∷ m) h = elim (Bool-cases (e.0 == id)) [
  | inl y ↦ rw y (h.0, h.1)
  | inr k ↦ rw k (h.0, raise-used id n m h.1)
]

Step-Inv : {s t : Scheduler} (st : Step s t) → HoldsSlot st → Inv s → Inv t
unfolding admit complete cancel
Step-Inv (admits s free) u i =
    let free' : below (pos (length s.cancelled)) s.max_concurrent ≡ true =
      ap (λ a. below a s.max_concurrent) (sym i.counted) ∙ free in
    let room : length s.cancelled < s.max_concurrent =
      ltb→lt (length s.cancelled) s.max_concurrent free' in
    let more = put-length s.next_id false s.cancelled i.used in
    record {
      counted = ap plus_one i.counted ∙ ap pos (sym more);
      limited = omega (arith, more);
      used = put-used s.next_id false s.cancelled i.used;
    }
Step-Inv (completes s id) held i =
    let fewer = erase-length id s.cancelled held in
    record {
      counted = ap less_one (i.counted ∙ ap pos (sym fewer));
      limited = omega (arith, fewer, i.limited);
      used = erase-used id s.next_id s.cancelled i.used;
    }
Step-Inv (cancels s id) u i =
    let same = raise-length id s.cancelled in
    record {
      counted = i.counted ∙ ap pos (sym same);
      limited = omega (arith, same, i.limited);
      used = raise-used id s.next_id s.cancelled i.used;
    }

Reaches-Inv : {s t : Scheduler} → Reaches s t → Inv s → Inv t
Reaches-Inv stays i = i
Reaches-Inv (then_step r st h) i = Step-Inv st h (Reaches-Inv r i)

-- After any operations of any threads on a new scheduler, among which every `complete` is given an id
-- that holds a slot at that time, `active` is the number of ids that hold a slot, which is at most
-- the limit, and every such id was given out by `admit` before.
pub Reaches-new-Inv : (n : ℕ) (s : Scheduler) → Reaches (new_scheduler n) s → Inv s
unfolding new_scheduler
Reaches-new-Inv n s r = Reaches-Inv r record { counted = refl; limited = omega arith; used = tt }

-- In a state that operations reach, of which every `complete` was given an id that held a slot, a
-- request that completes, while it holds a slot, makes room for the next one.
pub complete-can_admit :
    (n : ℕ) (s : Scheduler) (id : ℕ)
    → Reaches (new_scheduler n) s
    → flag_of id s.cancelled ≢ none
    → can_admit (complete id s) ≡ true
unfolding complete
complete-can_admit n s id r held =
    let i = Reaches-new-Inv n s r in
    let fewer = erase-length id s.cancelled held in
    let left : less_one s.active ≡ pos (length (erase id s.cancelled)) =
      ap less_one (i.counted ∙ ap pos (sym fewer)) in
    ap (λ a. below a s.max_concurrent) left
    ∙ lt→ltb (length (erase id s.cancelled)) s.max_concurrent (omega (arith, fewer, i.limited))

-- The flag of `j` after `cancel id`.
abbrev pub flag_after : ℕ → ℕ → Option Bool → Option Bool
flag_after id j none = none
flag_after id j (some b) = some (if j == id then true else b)

flag_after-ne : (id j : ℕ) (o : Option Bool) → (j == id) ≡ false → flag_after id j o ≡ o
flag_after-ne id j none h = refl
flag_after-ne id j (some b) h = rw h

flag_of-raise :
    (id j : ℕ) (m : List (ℕ × Bool)) → flag_of j (raise id m) ≡ flag_after id j (flag_of j m)
unfolding flag_of raise
flag_of-raise id j [] = refl
flag_of-raise id j (e ∷ m) = elim (Bool-cases (e.0 == id)) [
  | inl y ↦ elim (Bool-cases (e.0 == j)) [
    | inl k ↦ let same : (j == id) ≡ true = ground arith in rw (y, k, same)
    | inr k ↦
        let other : (j == id) ≡ false = ground arith in
        rw (y, k) (sym (flag_after-ne id j (flag_of j m) other))
  ]
  | inr n ↦ elim (Bool-cases (e.0 == j)) [
    | inl k ↦ let other : (j == id) ≡ false = ground arith in rw (n, k, other)
    | inr k ↦ rw (n, k) (flag_of-raise id j m)
  ]
]

-- Cancelling an id marks the request that holds it, and no other; where no request holds it, nothing
-- happens.
pub is_cancelled-cancel :
    (id j : ℕ) (s : Scheduler)
    → is_cancelled j (cancel id s) ≡ raised (flag_after id j (flag_of j s.cancelled))
unfolding cancel
is_cancelled-cancel id j s = ap raised (flag_of-raise id j s.cancelled)
