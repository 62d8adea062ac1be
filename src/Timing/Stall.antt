-- ===== src/Timing/Stall.antt =====
-- A stall cannot go on for ever.
use ai2_final_thief_edward_d.Prelude.{
  ℕ, suc, ◌-◌, ◌≤◌, ◌≡◌, ◌⊎◌, Bool, true, false, List, [], ◌∷◌, if◌then◌else◌, arith,
}
use ai2_final_thief_edward_d.Timing.{
  WatchdogStatus, graceful_shutdown, escalated, Watchdog, new_watchdog, note_progress, check,
}

-- What happens to a watchdog: progress is noted, or it checks, at an instant.
pub data Event : Type 0 where
  progress : ℕ → Event
  checked : ℕ → Event

-- The statuses that the checks report.
pub statuses : Watchdog → List Event → List WatchdogStatus
statuses w [] = []
statuses w (progress now ∷ es) = statuses (note_progress w now) es
statuses w (checked now ∷ es) = let (w', s) = check w now in s ∷ statuses w' es

abbrev pub is_warning : WatchdogStatus → Bool
is_warning graceful_shutdown = true
is_warning escalated = true
is_warning _ = false

abbrev pub warnings : List WatchdogStatus → ℕ
warnings [] = 0
warnings (s ∷ ss) = if is_warning s then suc (warnings ss) else warnings ss

check_warning :
    (w : Watchdog) (now : ℕ)
    → ((check w now).0.max_retries ≡ w.max_retries)
      × ((is_warning (check w now).1 ≡ false)
          ⊎ ((suc w.escalations ≤ w.max_retries)
              × ((check w now).0.escalations ≡ suc w.escalations)))
      × (w.escalations ≤ (check w now).0.escalations)
unfolding check
check_warning w now = ground arith

warnings_left :
    (w : Watchdog) (es : List Event) → warnings (statuses w es) ≤ w.max_retries - w.escalations
unfolding statuses note_progress
warnings_left w [] = omega arith
warnings_left w (progress now ∷ es) = warnings_left (note_progress w now) es
warnings_left w (checked now ∷ es) =
    ground (arith, check_warning w now, warnings_left (check w now).0 es)

-- Whatever progress is noted and however often a new watchdog checks, it gives no more warnings than
-- it has retries.
warnings_bounded :
    (timeout max_retries start : ℕ) (es : List Event)
    → warnings (statuses (new_watchdog timeout max_retries start) es) ≤ max_retries
unfolding new_watchdog
warnings_bounded t r start es = ground (arith, warnings_left (new_watchdog t r start) es)
