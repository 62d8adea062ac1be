-- ===== src/Game/Turns.antt =====
-- The turn loop of a sub-game: it ends, and how.
use ai2_final_thief_edward_d.Prelude.{
  ℕ, zero, suc, ◌+◌, ◌≤◌, ◌<◌, ◌≡◌, refl, ap, ◌⊎◌, inl, inr, Bool, true, false, ◌||◌, Option, none,
  some, elem, leb, if◌then◌else◌, Result, ok, err, arith,
}
use ai2_final_thief_edward_d.Grid.{Direction, apply_direction}
use ai2_final_thief_edward_d.Rules.{illegal_direction, direction_is_eq, legal_move_directions}
use ai2_final_thief_edward_d.Lifecycle.{sub_game_over, error}
use ai2_final_thief_edward_d.Json.{Json}
use Prim.Native.String.{String}
use ai2_final_thief_edward_d.Sealing.Verdict.{all_match}
use ai2_final_thief_edward_d.Captures.{
  SubGameResult, capture, survival, technical_loss, barrier_hits, resolve_capture,
}
use ai2_final_thief_edward_d.Scent.{FloatArith}
use ai2_final_thief_edward_d.Turn.{is_true, claim_answer, evidence_raises, run_turn}
use ai2_final_thief_edward_d.SubGame.{
  SubGameState, Deps, TurnInput, OpponentTurn, TurnFault, illegal_action, unreadable_turn, Outcome,
  deliver_commit_and_reveal,
}
use ai2_final_thief_edward_d.Turn.Outcomes.{IsReady, Ended, Continued, Resolved}
use ai2_final_thief_edward_d.Turn.Run.{Turned, run_turn-Turned}
use ai2_final_thief_edward_d.Game.{run_turns}

abbrev pub is_loss : SubGameResult → Bool
is_loss technical_loss = true
is_loss _ = false

-- A turn of this number can still be played: the threshold is not reached, or it is and only the
-- answer to a true claim has to be delivered.
abbrev pub InTime : SubGameState → Deps → Type 0
InTime s deps =
    (suc s.step ≤ deps.survival_threshold)
    ⊎ ((s.step ≤ deps.survival_threshold) × (is_true s.pending_claim_response ≡ true))

if_case :
    (c : Bool) {P Q R : Type 0}
    → (c ≡ true → P → R)
    → (c ≡ false → Q → R)
    → (if c then P else Q)
    → R
if_case true p q h = p refl h
if_case false p q h = q refl h

-- Every decision is among the legal directions that the strategy is given.
abbrev pub IsLegal : (ℕ → SubGameState → TurnInput) → Type 0
IsLegal play =
    (k : ℕ) (s : SubGameState)
    → elem (play k s).direction (legal_move_directions s.position s.board) ≡ true

-- What a sub-game can raise: an illegal action, or an opponent's turn that cannot be read.
abbrev pub IsUncaught : TurnFault → Type 0
IsUncaught f = (f ≡ illegal_action illegal_direction) ⊎ (f ≡ unreadable_turn)

module _ (digest : Json → String) where
  -- The state that a sub-game with this result ends in: a lost one in ERROR, any other in
  -- SUB_GAME_OVER, with records that all hash to their commitments.
  abbrev pub EndState : SubGameResult → SubGameState → Type 0
  EndState result s =
      ((is_loss result ≡ true) × (s.machine.state ≡ error))
      ⊎ ((is_loss result ≡ false)
          × (s.machine.state ≡ sub_game_over)
          × (all_match digest s.records ≡ true))

  -- The loop has ended, by an exception that nothing catches or with a result, and not by its cap.
  abbrev pub Finished : SubGameState × Result TurnFault (Option SubGameResult) → Type 0
  Finished o =
      ((f : TurnFault) × (o.1 ≡ err f) × IsUncaught f)
      ⊎ ((result : SubGameResult) × (o.1 ≡ ok (some result)) × EndState result o.0)

  -- What one turn of the loop does: stop with a result, go on, or raise.
  Stops : Outcome → Type 0
  Stops o =
      (result : SubGameResult) × (o.1 ≡ ok (record { ended = true; outcome = some result }))
      × EndState result o.0

  GoesOn : SubGameState → Deps → Outcome → Type 0
  GoesOn s deps o =
      (o.1 ≡ ok (record { ended = false; outcome = none }))
      × IsReady digest o.0
      × (o.0.step ≡ suc s.step)
      × InTime o.0 deps

  Raises : Outcome → Type 0
  Raises o = (f : TurnFault) × (o.1 ≡ err f) × IsUncaught f

  Step : SubGameState → Deps → Outcome → Type 0
  Step s deps o = Stops o ⊎ (GoesOn s deps o ⊎ Raises o)

  Resolved-Step :
      (s : SubGameState) (d : Direction) (opp : OpponentTurn) (deps : Deps) (o : Outcome)
      → suc s.step ≤ deps.survival_threshold
      → Resolved digest s d opp deps o
      → Step s deps o
  unfolding Step Stops GoesOn Raises
  Resolved-Step s d opp deps o t =
      let dest = apply_direction s.position d in
      let r = resolve_capture s.position opp.capture_claim opp.barrier_placed in
      if_case (evidence_raises s.position opp || opp.hint_unreadable)
        (λ _ (h : o.1 ≡ err unreadable_turn). inr (inr (_, h, inr refl)))
        (λ _.
          if_case r.captured
            (λ _ (h : Continued digest s s.position (some true) o).
              inr (inl (h.0, h.1, h.2, inr (omega (arith, h.2), ap is_true h.4))))
            (λ _.
              if_case (barrier_hits opp.barrier_placed dest)
                (λ _ (h : o.1 ≡ err (illegal_action illegal_direction)). inr (inr (_, h, inl refl)))
                (λ _.
                  if_case (leb deps.survival_threshold (suc s.step))
                    (λ _ (h : Ended digest survival sub_game_over o).
                      inl (survival, h.0, inr (refl, h.1, h.2)))
                    (λ e (h : Continued digest s dest (claim_answer r) o).
                      inr (inl (h.0, h.1, h.2, inl (ground (arith, e, h.2))))))))

module _ (arithmetic : FloatArith) (digest : Json → String) where
  Turned-Step :
      (s : SubGameState) (i : TurnInput) (deps : Deps) (o : Outcome)
      → InTime s deps
      → Turned arithmetic digest s i deps o
      → Step digest s deps o
  unfolding Step Stops GoesOn Raises
  Turned-Step s i deps o t =
      elim (deliver_commit_and_reveal i.commitment_answer i.reveal_answer)
        as (λ r.
          elim r [
            | err _ ↦ Ended digest technical_loss error o
            | ok opp ↦
                if is_true s.pending_claim_response
                then Ended digest capture sub_game_over o
                else Resolved digest s i.direction opp deps o
          ]
          → Step digest s deps o) [
            | err p ↦ λ h. inl (technical_loss, h.0, inl (refl, h.1))
            | ok opp ↦
                if_case (is_true s.pending_claim_response)
                  (λ _ (h : Ended digest capture sub_game_over o).
                    inl (capture, h.0, inr (refl, h.1, h.2)))
                  (λ e. Resolved-Step digest s i.direction opp deps o (ground (arith, e, t)))
          ]

  pub run_turns-Finished :
      (n k : ℕ) (s : SubGameState) (play : ℕ → SubGameState → TurnInput) (deps : Deps)
      → IsReady digest s
      → InTime s deps
      → deps.survival_threshold < s.step + n
      → IsLegal play
      → Finished digest (run_turns arithmetic digest n k s play deps)
  unfolding run_turns Step Stops GoesOn Raises
  run_turns-Finished zero k s play deps h t l legal = absurd (ground (arith, t, l))
  run_turns-Finished (suc n) k s play deps h t l legal =
      let o = run_turn arithmetic digest s (play k s) deps in
      let next = run_turns-Finished n (suc k) o.0 play deps in
      elim (Turned-Step s (play k s) deps o t
        (run_turn-Turned arithmetic digest s (play k s) deps h (legal k s))) [
          | inl (result, e, end) ↦ rw (e, run_turns) (inr (result, refl, end))
          | inr (inl (e, ready, step, t')) ↦
              rw (e, run_turns) (next ready t' (omega (arith, l, step)) legal)
          | inr (inr (f, e, u)) ↦ rw (e, run_turns) (inl (f, refl, u))
        ]
