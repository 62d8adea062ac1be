-- ===== src/Gatekeeper/Tests.antt =====
-- The three gatekeepers at concrete inputs.
use ai2_final_thief_edward_d.Prelude.{ℕ, suc, ◌+◌, ◌≡◌, refl, some, [], ◌∷◌, arith}
use ai2_final_thief_edward_d.Gatekeeper.{RateLimitsConfig, expire, new_gatekeeper, enter, acquire}
use ai2_final_thief_edward_d.Gatekeeper.Incoming.{
  Bounded, new, entering, acquiring, gatekeeper-Bounded,
}
use ai2_final_thief_edward_d.Gatekeeper.Gmail
use ai2_final_thief_edward_d.Gatekeeper.Gmail.{
  SendAnswer, sent, rate_limited, Submitted, delivered, attempt_from, submit,
}
use ai2_final_thief_edward_d.Gatekeeper.Sends.{Outcome, submit-Outcome}
use ai2_final_thief_edward_d.Gatekeeper.Pacer.{GivenBy, await_rate_slot, await_rate_slot-GivenBy}

abbrev limits : RateLimitsConfig
limits = record {
  requests_per_minute = 2;
  concurrent_requests = 1;
  retry_backoff_sec = 5;
  max_retries = 3;
  queue_depth = 4;
}

-- The first attempt is refused by the mail service, the second succeeds.
abbrev second_succeeds : ℕ → SendAnswer
second_succeeds n = elim n [ suc (suc m) ↦ sent | _ ↦ rate_limited ]

abbrev first_submit : Submitted
first_submit = submit limits second_succeeds (λ n. n) 60 "report" 0 Gmail.new_gatekeeper

sends_twice : first_submit ≡ (
  record { sent_keys = "report" ∷ []; recent_sends = 1 ∷ 2 ∷ []; queue_depth = 0 },
  some (delivered 2),
)
unfolding submit attempt_from expire Gmail.new_gatekeeper
sends_twice = refl

gatekeeper-Bounded_example :
    Bounded 60 limits (acquire (enter 60 limits 7 8 new_gatekeeper).0) (8 ∷ [])
unfolding enter expire new_gatekeeper
gatekeeper-Bounded_example = gatekeeper-Bounded 60 limits (
    acquiring _ 8 (8 ∷ []) (entering new_gatekeeper 5 [] 7 8 (new 5) (omega arith) (omega arith))
      (omega arith) (omega arith))

submit-Outcome_example :
    Outcome limits second_succeeds
      (λ n. n)
      60
      "report"
      0
      Gmail.new_gatekeeper
      (submit limits second_succeeds (λ n. n) 60 "report" 0 Gmail.new_gatekeeper)
submit-Outcome_example =
    submit-Outcome limits second_succeeds (λ n. n) 60 "report" 0 Gmail.new_gatekeeper

-- The window is full, and the oldest call is 20 ticks old.
await_rate_slot-GivenBy_example :
    GivenBy 60 1 limits
      (λ _. 2)
      (80 + 60 + 1 + 2 + 2)
      (await_rate_slot 60 1 limits (λ _. 2) 3 0 80 (60 ∷ 70 ∷ []))
await_rate_slot-GivenBy_example =
    await_rate_slot-GivenBy 60 1 limits (λ _. 2) 0 80 (60 ∷ 70 ∷ []) (omega arith) (omega arith)
      (omega arith) (omega arith) (omega arith, (omega arith, tt))
