-- ===== src/Timing/Tests.antt =====
-- A child of a tracker.
use ai2_final_thief_edward_d.Prelude.{◌+◌, ◌-◌, ◌≤◌, ◌≡◌, refl, true, arith}
use ai2_final_thief_edward_d.Timing.{DeadlineTracker, child, expired}
use ai2_final_thief_edward_d.Timing.Budget.{child-expired}

abbrev parent : DeadlineTracker
parent = record { timeout = 10; start = 0 }

child-expired_example :
    (expired (child parent 8 4 6) (10 + (6 - 4)) ≡ true) × ((child parent 8 4 6).timeout ≤ 8)
unfolding expired
child-expired_example = child-expired parent 8 4 6 10 (omega arith) (omega arith) (omega arith) refl
