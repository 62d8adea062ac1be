-- ===== src/Gatekeeper/Pacer.antt =====
-- The pacer of the outbound calls: infrastructure/outbound_pacer.py of src/thief_peer, for one call at a
-- time. `pause` is 0.01 seconds in ticks. A sleep lasts at least as long as it was asked to; how much
-- longer the sleep after each reading of the clock lasts is an argument. The loop runs on fuel.
use ai2_final_thief_edward_d.Prelude.{
  ℕ, zero, suc, ◌+◌, ◌-◌, ◌≤◌, ◌<◌, ◌≡◌, inl, inr, max, true, false, Bool-cases, Option, none, some,
  List, [], ◌∷◌, ◌++◌, length, length-append, arith, All, ltb, if◌then◌else◌,
}
use ai2_final_thief_edward_d.Gatekeeper.{RateLimitsConfig, expire}
use ai2_final_thief_edward_d.Gatekeeper.Window.{length-expire}

-- `max(60.0 - (now - recent[0]), 0.01)`, for a window that is not empty.
abbrev pub wait_for : ℕ → ℕ → ℕ → List ℕ → ℕ
wait_for minute pause now [] = pause
wait_for minute pause now (x ∷ xs) = max (minute - (now - x)) pause

module _ (minute pause : ℕ) (config : RateLimitsConfig) (extra : ℕ → ℕ) where
  -- `_await_rate_slot` from the reading `now` on, which is the reading number `k`: the instant of the
  -- slot and the window.
  unfoldable pub await_rate_slot : ℕ → ℕ → ℕ → List ℕ → Option (ℕ × List ℕ)
  unfolding expire
  await_rate_slot zero k now recent = none
  await_rate_slot (suc fuel) k now recent =
      let kept = expire minute now recent in
      let later =
        await_rate_slot fuel (suc k) (now + wait_for minute pause now kept + extra k) kept in
      if ltb (length kept) config.requests_per_minute then some (now, kept ++ (now ∷ [])) else later

  -- A slot is given by `limit`, and the window holds no more than the limit of calls.
  abbrev pub GivenBy : ℕ → Option (ℕ × List ℕ) → Type 0
  GivenBy limit none = ⊥
  GivenBy limit (some (at, recent)) = (at ≤ limit) × (length recent ≤ config.requests_per_minute)

  -- The next reading frees a place, if it is more than a minute after the oldest call.
  given_now :
      (fuel k now limit : ℕ) (recent : List ℕ)
      → now ≤ limit
      → length (expire minute now recent) < config.requests_per_minute
      → GivenBy limit (await_rate_slot (suc fuel) k now recent)
  unfolding await_rate_slot
  given_now fuel k now limit recent l h =
      rw free (l, omega (arith, h, length-append (expire minute now recent) (now ∷ [])))
    where
      free : ltb (length (expire minute now recent)) config.requests_per_minute ≡ true
      free = ground (arith, h)

  -- The oldest call is dropped once a minute has passed since.
  drops_oldest :
      (now x : ℕ) (xs : List ℕ)
      → minute < now - x
      → length xs < config.requests_per_minute
      → length (expire minute now (x ∷ xs)) < config.requests_per_minute
  unfolding expire
  drops_oldest now x xs h l = ground (arith, h, l, length-expire minute now xs)

  -- A call that is a minute old to the tick leaves the window after one more pause.
  third_reading :
      (k now x : ℕ) (xs : List ℕ) (limit : ℕ)
      → 1 ≤ pause
      → now - x ≤ minute
      → x + minute ≤ now
      → now + pause + extra (suc k) ≤ limit
      → length xs < config.requests_per_minute
      → GivenBy limit (await_rate_slot 2 (suc k) now (x ∷ xs))
  unfolding await_rate_slot
  third_reading k now x xs limit p f h m l =
      elim (Bool-cases (ltb (length (expire minute now (x ∷ xs))) config.requests_per_minute)) [
        | inl e ↦ given_now 1 (suc k) now limit (x ∷ xs) (omega (arith, m)) (ground (arith, e))
        | inr e ↦
            rw (e, unexpired)
              (given_now 0 (suc (suc k)) (now + wait_for minute pause now (x ∷ xs) + extra (suc k))
                limit (x ∷ xs) (omega (arith, m, f, h))
                (drops_oldest _ x xs (omega (arith, h, p, f)) l))
      ]
    where
      unexpired : expire minute now (x ∷ xs) ≡ x ∷ xs
      unexpired = ground (arith, f)

  -- A full window whose oldest call is less than a minute old, at the second reading and the third.
  second_reading :
      (k now x : ℕ) (xs : List ℕ)
      → 1 ≤ pause
      → pause ≤ minute
      → x ≤ now
      → now - x ≤ minute
      → length xs < config.requests_per_minute
      → GivenBy
          (now + minute + pause + extra k + extra (suc k))
          (await_rate_slot 2 (suc k) (now + wait_for minute pause now (x ∷ xs) + extra k) (x ∷ xs))
  second_reading k now x xs p q h f l =
      let now' = now + wait_for minute pause now (x ∷ xs) + extra k in
      elim (Bool-cases (ltb minute (now' - x))) [
        | inl e ↦
            given_now 1 (suc k) now' _ (x ∷ xs) (omega (arith, q, h))
              (drops_oldest now' x xs (ground (arith, e)) l)
        | inr e ↦
            third_reading k now' x xs _ p (ground (arith, e)) (omega (arith, h, f))
              (omega (arith, q, h)) l
      ]

  -- The oldest call that is kept lies in the last minute.
  abbrev IsFresh : ℕ → List ℕ → Type 0
  IsFresh now [] = Unit
  IsFresh now (x ∷ xs) = (x ≤ now) × (now - x ≤ minute)

  expire-IsFresh :
      (now : ℕ) (xs : List ℕ) → All (λ x. x ≤ now) xs → IsFresh now (expire minute now xs)
  unfolding expire
  expire-IsFresh now [] h = tt
  expire-IsFresh now (x ∷ xs) h = elim (Bool-cases (ltb minute (now - x))) [
    | inl e ↦ rw e (expire-IsFresh now xs h.1)
    | inr e ↦ rw e (h.0, ground (arith, e))
  ]

  later_reading :
      (k now : ℕ) (kept : List ℕ)
      → 1 ≤ pause
      → pause ≤ minute
      → 1 ≤ config.requests_per_minute
      → length kept ≤ config.requests_per_minute
      → ltb (length kept) config.requests_per_minute ≡ false
      → IsFresh now kept
      → GivenBy
          (now + minute + pause + extra k + extra (suc k))
          (await_rate_slot 2 (suc k) (now + wait_for minute pause now kept + extra k) kept)
  later_reading k now [] p q r l e h = absurd (ground (arith, e, r))
  later_reading k now (x ∷ xs) p q r l e h =
      second_reading k now x xs p q h.0 h.1 (omega (arith, l))

  -- With a limit of at least one call, from a window of no more calls than that, none of them in the
  -- future, a pacer that serves one call at a time gives its slot at the third reading of the clock at the
  -- latest: within a minute, a pause and what the two sleeps overran, which is arbitrary. The window then
  -- holds no more calls than the limit.
  pub await_rate_slot-GivenBy :
      (k now : ℕ) (recent : List ℕ)
      → 1 ≤ pause
      → pause ≤ minute
      → 1 ≤ config.requests_per_minute
      → length recent ≤ config.requests_per_minute
      → All (λ x. x ≤ now) recent
      → GivenBy (now + minute + pause + extra k + extra (suc k)) (await_rate_slot 3 k now recent)
  unfolding await_rate_slot
  await_rate_slot-GivenBy k now recent p q r l h =
      let kept = expire minute now recent in
      elim (Bool-cases (ltb (length kept) config.requests_per_minute)) [
        | inl e ↦ given_now 2 k now _ recent (omega arith) (ground (arith, e))
        | inr e ↦ rw e (
            later_reading k now kept p q r (omega (arith, l, length-expire minute now recent)) e
              (expire-IsFresh now recent h))
      ]
