-- ===== src/Captures/Honesty.antt =====
-- The thief's answer to a capture claim is true, and it admits every capture.
use ai2_final_thief_edward_d.Prelude.{
  ◌≡◌, ◌↔◌, ◌⊎◌, inl, inr, refl, true, false, Option, none, some, arith, Bool-cases,
}
use ai2_final_thief_edward_d.Prelude.Int.{pos, ◌≤ℤ◌}
use ai2_final_thief_edward_d.Grid.{Position, position_eq, position_eq_iff}
use ai2_final_thief_edward_d.Captures.{
  capture, survival, technical_loss, Scoring, score_sub_game, validate_scoring, resolve_capture,
}

abbrev NamesCell : Option Position → Position → Type 0
NamesCell o p = o ≡ some p

-- The thief counts as captured exactly if the barrier or the claim names its own cell.
pub captured_iff :
    (own : Position) (claimed barrier : Option Position)
    → ((resolve_capture own claimed barrier).captured ≡ true)
      ↔ ((barrier ≡ some own) ⊎ (claimed ≡ some own))
unfolding resolve_capture
captured_iff own none none = ground arith
captured_iff own none (some b) = ground (arith, position_eq_iff b own)
captured_iff own (some c) none = ground (arith, position_eq_iff own c)
captured_iff own (some c) (some b) = ground (arith, position_eq_iff b own, position_eq_iff own c)

-- The answer, if there is one, is about the claimed cell and says truly whether the thief is
-- there; and a claim stays without an answer only if a barrier has captured the thief.
pub response_honest :
    (own c : Position) (barrier : Option Position)
    → let r = resolve_capture own (some c) barrier in
      (r.response ≡ some (record { claimed_position = c; caught = position_eq own c }))
      ⊎ ((r.response ≡ none) × (barrier ≡ some own))
unfolding resolve_capture
response_honest own c none = inl refl
response_honest own c (some b) = elim (Bool-cases (position_eq b own)) [
  | inl e ↦ rw e (inr (refl, ground (arith, position_eq_iff b own)))
  | inr e ↦ rw e (inl refl)
]

-- With the scores that the configuration check lets through, the police prefers a capture to a
-- survival, the thief the other way round, and a technical loss scores nothing for either.
pub scores_ordered :
    (s : Scoring)
    → validate_scoring s ≡ true
    → let won = score_sub_game capture s false in
      let lost = score_sub_game survival s false in
      let void = score_sub_game technical_loss s false in
      (pos 1 ≤ℤ lost.0)
      × (lost.0 ≤ℤ won.0)
      × (pos 1 ≤ℤ won.1)
      × (won.1 ≤ℤ lost.1)
      × (void.0 ≡ pos 0)
      × (void.1 ≡ pos 0)
unfolding validate_scoring score_sub_game
scores_ordered s h = ground arith
