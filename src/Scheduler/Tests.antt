-- ===== src/Scheduler/Tests.antt =====
-- The scheduler of src/scheduler.cpp run through a few operations, and the instances of its theorems.
use glmserve.Prelude.{◌≡◌, ◌≢◌, refl, true, false, none}
use glmserve.Prelude.Int.{pos}
use glmserve.Scheduler.{
  Scheduler, new_scheduler, flag_of, put, raise, can_admit, admit, complete, cancel, raised,
  is_cancelled, admits, cancels, Reaches, stays, then_step,
}
use glmserve.Scheduler.Slots.{
  Inv, flag_after, Reaches-new-Inv, complete-can_admit, is_cancelled-cancel,
}

-- Two requests are admitted to two slots, and the first is cancelled.
abbrev full : Scheduler
full = cancel 0 (admit (admit (new_scheduler 2)).0).0

full_test : can_admit full ≡ false
unfolding new_scheduler admit cancel put raise
full_test = refl

full-Reaches : Reaches (new_scheduler 2) full
unfolding new_scheduler admit cancel put raise
full-Reaches =
    then_step (then_step (then_step stays (admits _ refl) tt) (admits _ refl) tt) (cancels _ 0) tt

holds_slot : flag_of 0 full.cancelled ≢ none
unfolding new_scheduler admit cancel put raise flag_of
holds_slot e = cc

-- An id that is completed twice gives back a slot that another request holds.
completed_twice_test : (complete 0 (complete 0 full)).active ≡ pos 0
unfolding new_scheduler admit complete cancel put raise
completed_twice_test = refl

Reaches-new-Inv_example : Inv full
Reaches-new-Inv_example = Reaches-new-Inv 2 full full-Reaches

complete-can_admit_example : can_admit (complete 0 full) ≡ true
complete-can_admit_example = complete-can_admit 2 full 0 full-Reaches holds_slot

is_cancelled-cancel_example :
    is_cancelled 0 (cancel 0 full) ≡ raised (flag_after 0 0 (flag_of 0 full.cancelled))
is_cancelled-cancel_example = is_cancelled-cancel 0 0 full
