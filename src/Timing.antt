-- ===== src/Timing.antt =====
-- Stall detection and time budgets: domain/watchdog.py and domain/deadline.py of src/thief_peer. An
-- instant of the monotonic clock, a timeout and a budget are counted in ticks; each reading of the
-- clock is an argument. Reason texts are dropped. A tracker here has been started.
pub mod Stall
pub mod Budget
mod Tests
use ai2_final_thief_edward_d.Prelude.{
  ℕ, zero, suc, ◌+◌, ◌-◌, min, Bool, true, false, not, ◌&&◌, Option, none, some, List, [], ◌∷◌,
  ◌==◌, ltb, leb, if◌then◌else◌,
}

pub data WatchdogStatus : Type 0 where
  healthy graceful_shutdown escalated technical_loss : WatchdogStatus

pub record Watchdog : Type 0 where
  pub timeout : ℕ
  pub max_retries : ℕ
  pub last_progress : ℕ
  pub escalations : ℕ
  pub dead : Bool

unfoldable pub new_watchdog : ℕ → ℕ → ℕ → Watchdog
new_watchdog timeout_seconds max_retries now = record {
  timeout = timeout_seconds;
  max_retries = max_retries;
  last_progress = now;
  escalations = 0;
  dead = false;
}

unfoldable pub note_progress : Watchdog → ℕ → Watchdog
note_progress w now = record w { last_progress = now }

unfoldable pub note_subprocess_dead : Watchdog → Watchdog
note_subprocess_dead w = record w { dead = true }

-- The clock never runs backwards, so the difference that the code takes is not negative.
unfoldable pub stalled : Watchdog → ℕ → Bool
stalled w now = ltb w.timeout (now - w.last_progress)

unfoldable pub check : Watchdog → ℕ → Watchdog × WatchdogStatus
unfolding stalled
check w now =
    if w.dead
    then (w, technical_loss)
    else if not (stalled w now)
    then (w, healthy)
    else (let n = suc w.escalations in
        let w' = record w { escalations = n } in
        if ltb w.max_retries n
        then (w', technical_loss)
        else if n == 1
        then (w', graceful_shutdown)
        else (w', escalated))

pub record DeadlineTracker : Type 0 where
  pub timeout : ℕ
  pub start : ℕ

unfoldable pub elapsed : DeadlineTracker → ℕ → ℕ
elapsed d now = now - d.start

unfoldable pub remaining : DeadlineTracker → ℕ → ℕ
unfolding elapsed
remaining d now = d.timeout - elapsed d now

unfoldable pub expired : DeadlineTracker → ℕ → Bool
unfolding remaining
expired d now = leb (remaining d now) 0

-- `child` reads the clock twice: in `remaining()`, and again in `start()`.
unfoldable pub child : DeadlineTracker → ℕ → ℕ → ℕ → DeadlineTracker
unfolding remaining
child d budget_seconds now started = record {
  timeout = min budget_seconds (remaining d now);
  start = started;
}
