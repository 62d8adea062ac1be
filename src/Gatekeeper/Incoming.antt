-- ===== src/Gatekeeper/Incoming.antt =====
-- The incoming gatekeeper under any interleaving of requests: its bounds hold in every reachable state.
use ai2_final_thief_edward_d.Prelude.{
  ℕ, ◌≤◌, ◌<◌, inl, inr, Bool-cases, Option, none, some, List, [], ◌∷◌, ◌++◌, length, arith, ltb,
  leb,
}
use ai2_final_thief_edward_d.Gatekeeper.{
  RateLimitsConfig, expire, OverloadReason, IncomingGatekeeper, new_gatekeeper, enter, acquire,
  leave, cancel,
}
use ai2_final_thief_edward_d.Gatekeeper.Window.{
  within, in_minute, within_le, within-append, within-expire, admitted_bounded,
}

-- The admissions, the last one first, after the entry that a call of `enter` makes.
abbrev pub noted : Option OverloadReason → ℕ → List ℕ → List ℕ
noted none now' admitted = now' ∷ admitted
noted (some _) now' admitted = admitted

module _ (minute : ℕ) (config : RateLimitsConfig) where
  -- The states that the tasks can bring the gatekeeper to, with the last reading of the clock and the
  -- admissions so far.
  pub data Reached : IncomingGatekeeper → ℕ → List ℕ → Type 0 where
    new : (now : ℕ) → Reached new_gatekeeper now []
    entering :
        (g : IncomingGatekeeper) (clock : ℕ) (admitted : List ℕ) (now now' : ℕ)
        → Reached g clock admitted
        → clock ≤ now
        → now ≤ now'
        → Reached
            (enter minute config now now' g).0
            now'
            (noted (enter minute config now now' g).1 now' admitted)
    acquiring :
        (g : IncomingGatekeeper) (clock : ℕ) (admitted : List ℕ)
        → Reached g clock admitted
        → g.holding < g.queue_depth
        → g.holding < config.concurrent_requests
        → Reached (acquire g) clock admitted
    leaving :
        (g : IncomingGatekeeper) (clock : ℕ) (admitted : List ℕ)
        → Reached g clock admitted
        → 0 < g.holding
        → Reached (leave g) clock admitted
    cancelling :
        (g : IncomingGatekeeper) (clock : ℕ) (admitted : List ℕ)
        → Reached g clock admitted
        → g.holding < g.queue_depth
        → Reached (cancel g) clock admitted

  -- The queue, the slots in use, and the admissions of any minute are within the limits.
  pub record Bounded (g : IncomingGatekeeper) (admitted : List ℕ) : Type 0 where
    pub queue : g.queue_depth ≤ config.queue_depth
    pub slots : g.holding ≤ config.concurrent_requests
    pub held : g.holding ≤ g.queue_depth
    pub rate : (t : ℕ) → in_minute minute t admitted ≤ config.requests_per_minute

  -- The window still knows every admission that counts.
  Remembers : IncomingGatekeeper → ℕ → List ℕ → Type 0
  Remembers g clock admitted =
      (t : ℕ) → clock ≤ t → within minute t admitted ≤ within minute t g.recent

  entered :
      (g : IncomingGatekeeper) (clock : ℕ) (admitted : List ℕ) (now now' : ℕ)
      → clock ≤ now
      → now ≤ now'
      → Bounded g admitted × Remembers g clock admitted
      → Bounded
          (enter minute config now now' g).0
          (noted (enter minute config now now' g).1 now' admitted)
        × Remembers
            (enter minute config now now' g).0
            now'
            (noted (enter minute config now now' g).1 now' admitted)
  unfolding enter Remembers within
  entered g clock admitted now now' c l h =
      elim (Bool-cases (leb config.queue_depth g.queue_depth)) [
        | inl e ↦ rw e (h.0, λ t k. h.1 t (omega (arith, c, l, k)))
        | inr e ↦
            elim (Bool-cases
              (ltb (length (expire minute now g.recent)) config.requests_per_minute)) [
                | inl f ↦
                    rw (e, f)
                      (
                        record {
                          queue = ground (arith, e);
                          slots = h.0.slots;
                          held = omega (arith, h.0.held);
                          rate =
                              admitted_bounded minute config.requests_per_minute now now' admitted l
                                (few (ground (arith, f))) h.0.rate;
                        },
                        λ t k. added t k,
                      )
                | inr f ↦ rw (e, f) (same_counts, λ t k. kept t (omega (arith, l, k)))
              ]
      ]
    where
      same_counts : Bounded (record g { recent = expire minute now g.recent }) admitted
      same_counts = record {
        queue = h.0.queue;
        slots = h.0.slots;
        held = h.0.held;
        rate = h.0.rate;
      }

      kept :
          (t : ℕ)
          → now ≤ t
          → within minute t admitted ≤ within minute t (expire minute now g.recent)
      kept t k = rw (within-expire minute now t g.recent k) (h.1 t (omega (arith, c, k)))

      few :
          length (expire minute now g.recent) < config.requests_per_minute
          → within minute now admitted < config.requests_per_minute
      few f =
          omega
            (arith, f, kept now (omega arith), within_le minute now (expire minute now g.recent))

      added :
          (t : ℕ)
          → now' ≤ t
          → within minute t (now' ∷ admitted)
            ≤ within minute t (expire minute now g.recent ++ (now' ∷ []))
      added t k = ground (
        arith,
        kept t (omega (arith, l, k)),
        within-append minute t (expire minute now g.recent) (now' ∷ []),
      )

  Reached-bounds :
      {g : IncomingGatekeeper} {clock : ℕ} {admitted : List ℕ}
      → Reached g clock admitted
      → Bounded g admitted × Remembers g clock admitted
  unfolding new_gatekeeper acquire leave cancel Remembers in_minute within
  Reached-bounds (new now) = (
    record {
      queue = omega arith;
      slots = omega arith;
      held = omega arith;
      rate = λ t. omega arith;
    },
    λ t l. omega arith,
  )
  Reached-bounds (entering g clock admitted now now' r c l) =
      entered g clock admitted now now' c l (Reached-bounds r)
  Reached-bounds (acquiring g clock admitted r w s) =
      let h = Reached-bounds r in
      (
        record {
          queue = h.0.queue;
          slots = omega (arith, s);
          held = omega (arith, w);
          rate = h.0.rate;
        },
        h.1,
      )
  Reached-bounds (leaving g clock admitted r w) =
      let h = Reached-bounds r in
      (
        record {
          queue = omega (arith, h.0.queue);
          slots = omega (arith, h.0.slots);
          held = omega (arith, h.0.held, w);
          rate = h.0.rate;
        },
        h.1,
      )
  Reached-bounds (cancelling g clock admitted r w) =
      let h = Reached-bounds r in
      (
        record {
          queue = omega (arith, h.0.queue);
          slots = h.0.slots;
          held = omega (arith, w);
          rate = h.0.rate;
        },
        h.1,
      )

  -- In every state that any interleaving of entries, acquisitions, ends and cancellations reaches on a
  -- clock that does not run backwards, the queue depth and the slots in use are within the limits, and
  -- no minute holds more admissions than the limit.
  pub gatekeeper-Bounded :
      {g : IncomingGatekeeper} {clock : ℕ} {admitted : List ℕ}
      → Reached g clock admitted
      → Bounded g admitted
  gatekeeper-Bounded r = (Reached-bounds r).0
