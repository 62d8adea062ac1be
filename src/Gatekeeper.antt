-- ===== src/Gatekeeper.antt =====
-- Rate limits: shared/rate_limits_model.py, services/incoming_gatekeeper.py and
-- infrastructure/mcp_rate_limit_middleware.py of src/thief_peer. An instant of the monotonic clock is
-- counted in ticks, and `minute` is 60 seconds of them; each reading of the clock is an argument. The
-- limits are natural numbers. A task that waits for the semaphore and one that holds it are counted.
pub mod Window
pub mod Incoming
pub mod Gmail
pub mod Sends
pub mod Pacer
mod Tests
use Prim.Native.String.{String}
use text.Mathlib.Text.{◌==◌ as str_eq}
use ai2_final_thief_edward_d.Prelude.{
  ℕ, suc, ◌-◌, Bool, Option, none, some, List, [], ◌∷◌, ◌++◌, length, ltb, leb, if◌then◌else◌,
}

pub record RateLimitsConfig : Type 0 where
  pub requests_per_minute : ℕ
  pub concurrent_requests : ℕ
  pub retry_backoff_sec : ℕ
  pub max_retries : ℕ
  pub queue_depth : ℕ

-- The loop of `_within_rate`: entries older than a minute leave at the front.
unfoldable pub expire : ℕ → ℕ → List ℕ → List ℕ
expire minute now [] = []
expire minute now (x ∷ xs) =
    let rest = expire minute now xs in if ltb minute (now - x) then rest else x ∷ xs

-- services/incoming_gatekeeper.py
pub data OverloadReason : Type 0 where
  queue_depth_exceeded rate_limit_exceeded : OverloadReason

pub record IncomingGatekeeper : Type 0 where
  pub recent : List ℕ
  pub queue_depth : ℕ
  pub holding : ℕ

unfoldable pub new_gatekeeper : IncomingGatekeeper
new_gatekeeper = record { recent = []; queue_depth = 0; holding = 0 }

-- `slot` up to the semaphore: the clock is read by `_within_rate`, and again for the entry.
unfoldable pub enter :
    ℕ → RateLimitsConfig → ℕ → ℕ → IncomingGatekeeper → IncomingGatekeeper × Option OverloadReason
unfolding expire
enter minute config now now' g =
    let kept = expire minute now g.recent in
    if leb config.queue_depth g.queue_depth
    then (g, some queue_depth_exceeded)
    else if ltb (length kept) config.requests_per_minute
    then (record g { recent = kept ++ (now' ∷ []); queue_depth = suc g.queue_depth }, none)
    else (record g { recent = kept }, some rate_limit_exceeded)

-- A task that waits takes a free slot of the semaphore.
unfoldable pub acquire : IncomingGatekeeper → IncomingGatekeeper
acquire g = record g { holding = suc g.holding }

-- The end of the body, however it ends: the slot is given back, then `finally` runs.
unfoldable pub leave : IncomingGatekeeper → IncomingGatekeeper
leave g = record g { holding = g.holding - 1; queue_depth = g.queue_depth - 1 }

-- A task that is cancelled while it waits: only `finally` runs.
unfoldable pub cancel : IncomingGatekeeper → IncomingGatekeeper
cancel g = record g { queue_depth = g.queue_depth - 1 }

-- infrastructure/mcp_rate_limit_middleware.py: `on_call_tool` up to the call of the tool, with the
-- reason of an McpOverloadError.
abbrev pub is_unmetered : String → Bool
is_unmetered name = str_eq name "health"

unfoldable pub on_call_tool :
    ℕ
    → RateLimitsConfig
    → String
    → ℕ
    → ℕ
    → IncomingGatekeeper
    → IncomingGatekeeper × Option OverloadReason
unfolding enter
on_call_tool minute config name now now' g =
    if is_unmetered name then (g, none) else enter minute config now now' g
