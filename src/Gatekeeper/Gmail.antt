-- ===== src/Gatekeeper/Gmail.antt =====
-- The gatekeeper of the Gmail sends: infrastructure/gmail_gatekeeper.py of src/thief_peer. One submit
-- runs here at a time: what `send_fn` answers and what the clock reads at each attempt are arguments. A
-- result holds the error as one of the source's texts; `failed` is an exception that nothing catches.
use Prim.Native.String.{String}
use ai2_final_thief_edward_d.Prelude.{
  ℕ, zero, suc, ◌-◌, Bool, true, false, Option, none, some, List, [], ◌∷◌, ◌++◌, length, elem, ltb,
  leb, if◌then◌else◌,
}
use ai2_final_thief_edward_d.Json.Laws.{string_is_eq}
use ai2_final_thief_edward_d.Gatekeeper.{RateLimitsConfig, expire}

pub data SendError : Type 0 where
  queue_depth_exceeded rate_limit_exceeded retries_exhausted timeout max_retries_exceeded :
      SendError

pub record GatekeeperResult : Type 0 where
  pub ok : Bool
  pub attempts : ℕ
  pub duplicate : Bool
  pub error : Option SendError

pub record Gatekeeper : Type 0 where
  pub sent_keys : List String
  pub recent_sends : List ℕ
  pub queue_depth : ℕ

unfoldable pub new_gatekeeper : Gatekeeper
new_gatekeeper = record { sent_keys = []; recent_sends = []; queue_depth = 0 }

-- What one call of `send_fn` under `wait_for` does.
pub data SendAnswer : Type 0 where
  sent rate_limited timed_out failed : SendAnswer

-- A call returns its result, or `none` for an exception of `send_fn`.
abbrev pub Submitted : Type 0
Submitted = Gatekeeper × Option GatekeeperResult

abbrev pub refused : ℕ → SendError → GatekeeperResult
refused attempts error = record {
  ok = false;
  attempts = attempts;
  duplicate = false;
  error = some error;
}

abbrev pub delivered : ℕ → GatekeeperResult
delivered attempts = record { ok = true; attempts = attempts; duplicate = false; error = none }

-- What follows the answer to the attempt `n`: a result, an exception, or the attempts that follow.
abbrev pub settle : RateLimitsConfig → ℕ → String → Gatekeeper → Submitted → SendAnswer → Submitted
settle config n key g again sent = (record g { sent_keys = key ∷ g.sent_keys }, some (delivered n))
settle config n key g again rate_limited =
    if ltb config.max_retries n then (g, some (refused n retries_exhausted)) else again
settle config n key g again timed_out = (g, some (refused n timeout))
settle config n key g again failed = (g, none)

-- `finally: self._queue_depth -= 1`
abbrev pub left_queue : Submitted → Submitted
left_queue (g, r) = (record g { queue_depth = g.queue_depth - 1 }, r)

module _ (config : RateLimitsConfig) (answer : ℕ → SendAnswer) (clock : ℕ → ℕ) where
  -- The loop of `_attempt`, after `attempt` attempts, with as many left as `attempt <= max_retries` has.
  unfoldable pub attempt_from : ℕ → ℕ → String → Gatekeeper → Submitted
  attempt_from zero attempt key g = (g, some (refused attempt max_retries_exceeded))
  attempt_from (suc left) attempt key g =
      let g' = record g { recent_sends = g.recent_sends ++ (clock (suc attempt) ∷ []) } in
      settle config (suc attempt) key g' (attempt_from left (suc attempt) key g')
        (answer (suc attempt))

  unfoldable pub submit : ℕ → String → ℕ → Gatekeeper → Submitted
  unfolding attempt_from expire
  submit minute key now g =
      let kept = expire minute now g.recent_sends in
      if elem key g.sent_keys
      then (g, some (record { ok = true; attempts = 0; duplicate = true; error = none }))
      else if leb config.queue_depth g.queue_depth
      then (g, some (refused 0 queue_depth_exceeded))
      else if ltb (length kept) config.requests_per_minute
      then left_queue (
          attempt_from (suc config.max_retries) 0 key
            (record g { recent_sends = kept; queue_depth = suc g.queue_depth }))
      else (record g { recent_sends = kept }, some (refused 0 rate_limit_exceeded))
