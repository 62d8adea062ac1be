-- ===== src/Timing/Budget.antt =====
-- How long a child's budget lasts.
use ai2_final_thief_edward_d.Prelude.{ℕ, ◌+◌, ◌-◌, ◌≤◌, ◌≡◌, true, arith}
use ai2_final_thief_edward_d.Timing.{DeadlineTracker, expired, child}

-- A tracker expires at its start plus its timeout.
abbrev pub deadline_of : DeadlineTracker → ℕ
deadline_of d = d.start + d.timeout

-- A child never has a larger budget than was asked for. When its parent has expired, so has the child,
-- at the latest after as long again as passed between the two readings of the clock in `child`.
pub child-expired :
    (d : DeadlineTracker) (budget now started later : ℕ)
    → d.start ≤ now
    → now ≤ started
    → started ≤ later
    → expired d later ≡ true
    → (expired (child d budget now started) (later + (started - now)) ≡ true)
      × ((child d budget now started).timeout ≤ budget)
unfolding expired child
child-expired d budget now started later a b c h = ground (arith, a, b, c, h)
