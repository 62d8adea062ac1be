-- ===== src/Gatekeeper/Sends.antt =====
-- What a submit of the Gmail gatekeeper has done, for every answer of the mail service.
use Prim.Native.String.{String}
use ai2_final_thief_edward_d.Prelude.{
  ℕ, zero, suc, ◌+◌, ◌≤◌, ◌<◌, ◌≡◌, inl, inr, refl, ap, true, false, Bool-cases, Option, none, some,
  [], ◌∷◌, length, length-append, arith, elem, ltb, leb, if◌then◌else◌,
}
use ai2_final_thief_edward_d.Json.Laws.{string_is_eq}
use ai2_final_thief_edward_d.Gatekeeper.{RateLimitsConfig, expire}
use ai2_final_thief_edward_d.Gatekeeper.Gmail.{
  SendError, queue_depth_exceeded, rate_limit_exceeded, retries_exhausted, timeout, Gatekeeper,
  SendAnswer, sent, rate_limited, timed_out, failed, Submitted, refused, settle, attempt_from,
  left_queue, submit,
}

-- The service refused every attempt before the attempt `n`, by its rate limit.
abbrev pub RefusedBefore : (ℕ → SendAnswer) → ℕ → Type 0
RefusedBefore answer n = (i : ℕ) → 1 ≤ i → i < n → answer i ≡ rate_limited

-- What the attempts have done, by the answers of the service: one send is noted for each attempt, every
-- attempt but the last was refused, and the answer to the last one is the one that the result tells.
module _ (answer : ℕ → SendAnswer) (most : ℕ) (key : String) (g : Gatekeeper) where
  -- The error that says how the attempts ended.
  abbrev EndsBy : ℕ → Option SendError → Type 0
  EndsBy n (some retries_exhausted) = (n ≡ suc most) × (answer n ≡ rate_limited)
  EndsBy n (some timeout) = answer n ≡ timed_out
  EndsBy n _ = ⊥

  abbrev pub Tried : Submitted → Type 0
  Tried (g', none) =
      (n : ℕ) × (1 ≤ n)
      × (n ≤ suc most)
      × RefusedBefore answer n
      × (answer n ≡ failed)
      × (length g'.recent_sends ≡ length g.recent_sends + n)
      × (g'.queue_depth ≡ g.queue_depth)
      × (g'.sent_keys ≡ g.sent_keys)
  Tried (g', some r) =
      (1 ≤ r.attempts)
      × (r.attempts ≤ suc most)
      × RefusedBefore answer r.attempts
      × (length g'.recent_sends ≡ length g.recent_sends + r.attempts)
      × (g'.queue_depth ≡ g.queue_depth)
      × (r.duplicate ≡ false)
      × (if r.ok
          then (answer r.attempts ≡ sent) × (g'.sent_keys ≡ key ∷ g.sent_keys) × (r.error ≡ none)
          else (g'.sent_keys ≡ g.sent_keys) × EndsBy r.attempts r.error)

refused_next :
    (answer : ℕ → SendAnswer) (n : ℕ)
    → RefusedBefore answer n
    → answer n ≡ rate_limited
    → RefusedBefore answer (suc n)
refused_next answer n before last i l m = elim (Bool-cases (ltb i n)) [
  | inl h ↦ before i l (ground (arith, h))
  | inr h ↦ rw (same h) last
]
  where
    same : ltb i n ≡ false → i ≡ n
    same h = ground (arith, h, m)

settle-Tried :
    (config : RateLimitsConfig) (answer : ℕ → SendAnswer) (n : ℕ) (key : String) (g0 g : Gatekeeper)
    (again : Submitted) (a : SendAnswer)
    → answer n ≡ a
    → RefusedBefore answer n
    → length g.recent_sends ≡ length g0.recent_sends + n
    → g.sent_keys ≡ g0.sent_keys
    → g.queue_depth ≡ g0.queue_depth
    → 1 ≤ n
    → n ≤ suc config.max_retries
    → (ltb config.max_retries n ≡ false
        → answer n ≡ rate_limited
        → Tried answer config.max_retries key g0 again)
    → Tried answer config.max_retries key g0 (settle config n key g again a)
settle-Tried config answer n key g0 g again sent s b e k q l m f =
    (l, m, b, e, q, refl, (s, ap (◌∷◌ key) k, refl))
settle-Tried config answer n key g0 g again timed_out s b e k q l m f =
    (l, m, b, e, q, refl, (k, s))
settle-Tried config answer n key g0 g again failed s b e k q l m f = (n, l, m, b, s, e, q, k)
settle-Tried config answer n key g0 g again rate_limited s b e k q l m f =
    elim (Bool-cases (ltb config.max_retries n)) [
      | inl c ↦ rw c (l, m, b, e, q, refl, (k, (ground (arith, c, m), s)))
      | inr c ↦ rw c (f c s)
    ]

left_queue-Tried :
    (config : RateLimitsConfig) (answer : ℕ → SendAnswer) (key : String) (g : Gatekeeper)
    (o : Submitted)
    → Tried answer config.max_retries key (record g { queue_depth = suc g.queue_depth }) o
    → Tried answer config.max_retries key g (left_queue o)
left_queue-Tried config answer key g (g', none) h =
    (h.0, h.1, h.2, h.3, h.4, h.5, omega (arith, h.6), h.7)
left_queue-Tried config answer key g (g', some r) h =
    (h.0, h.1, h.2, h.3, omega (arith, h.4), h.5, h.6)

module _ (config : RateLimitsConfig) (answer : ℕ → SendAnswer) (clock : ℕ → ℕ) where
  attempt_from-Tried :
      (left attempt : ℕ) (key : String) (g0 g : Gatekeeper)
      → attempt + suc left ≡ suc config.max_retries
      → length g.recent_sends ≡ length g0.recent_sends + attempt
      → g.sent_keys ≡ g0.sent_keys
      → g.queue_depth ≡ g0.queue_depth
      → RefusedBefore answer (suc attempt)
      → Tried answer config.max_retries key g0
          (attempt_from config answer clock (suc left) attempt key g)
  unfolding attempt_from
  attempt_from-Tried zero attempt key g0 g e n k q b =
      settle-Tried config answer (suc attempt) key g0 _ _ (answer (suc attempt)) refl b
        (omega (arith, n, length-append g.recent_sends (clock (suc attempt) ∷ []))) k q
        (omega arith) (omega (arith, e)) (λ c s. absurd (ground (arith, c, e)))
  attempt_from-Tried (suc left) attempt key g0 g e n k q b =
      let n' = length-append g.recent_sends (clock (suc attempt) ∷ []) in
      settle-Tried config answer (suc attempt) key g0 _ _ (answer (suc attempt)) refl b
        (omega (arith, n, n')) k q (omega arith) (omega (arith, e))
        (λ c s.
          attempt_from-Tried left (suc attempt) key g0 _ (omega (arith, e)) (omega (arith, n, n')) k
            q (refused_next answer (suc attempt) b s))

  -- What a submit has done: nothing for a key that is kept, a full queue or a full minute; else what its
  -- attempts have done, from the window without its old entries.
  abbrev pub Outcome : ℕ → String → ℕ → Gatekeeper → Submitted → Type 0
  Outcome minute key now g o =
      let cleared = record g { recent_sends = expire minute now g.recent_sends } in
      if elem key g.sent_keys
      then o ≡ (g, some (record { ok = true; attempts = 0; duplicate = true; error = none }))
      else if leb config.queue_depth g.queue_depth
      then o ≡ (g, some (refused 0 queue_depth_exceeded))
      else if ltb (length (expire minute now g.recent_sends)) config.requests_per_minute
      then Tried answer config.max_retries key cleared o
      else o ≡ (cleared, some (refused 0 rate_limit_exceeded))

  -- For every sequence of answers of the mail service, `submit` returns a key that is kept as a
  -- duplicate, without an attempt; it makes no attempt either if the queue or the minute is full. Else it
  -- makes at least one attempt and at most one more than the retries, and notes each in the window. All
  -- but the last are refused by the service's rate limit; if the last is sent the result is ok and the key
  -- is kept; if it times out, is refused as the last one allowed, or fails, the result says so (a failure
  -- is an exception) and the keys are as before. The queue depth is what it was, also after an exception.
  pub submit-Outcome :
      (minute : ℕ) (key : String) (now : ℕ) (g : Gatekeeper)
      → Outcome minute key now g (submit config answer clock minute key now g)
  unfolding submit
  submit-Outcome minute key now g =
      let kept = expire minute now g.recent_sends in
      elim (Bool-cases (elem key g.sent_keys)) [
        | inl e ↦ rw e refl
        | inr e ↦ elim (Bool-cases (leb config.queue_depth g.queue_depth)) [
          | inl f ↦ rw (e, f) refl
          | inr f ↦ elim (Bool-cases (ltb (length kept) config.requests_per_minute)) [
            | inl h ↦
                rw (e, f, h)
                  (left_queue-Tried config answer key (record g { recent_sends = kept }) _
                    (attempt_from-Tried config.max_retries 0 key _ _ (omega arith) (omega arith)
                      refl refl (λ i l m. absurd (omega (arith, l, m)))))
            | inr h ↦ rw (e, f, h) refl
          ]
        ]
      ]
