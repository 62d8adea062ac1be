-- ===== src/Turn/Blocked.antt =====
-- A barrier on the cell that the thief is about to enter.
use Prim.Native.String.{String}
use ai2_final_thief_edward_d.Prelude.{
  ◌≡◌, ◌≢◌, refl, true, false, ◌||◌, none, some, elem, ok, err, arith,
}
use ai2_final_thief_edward_d.Grid.{Position, position_eq_iff, apply_direction}
use ai2_final_thief_edward_d.Rules.{illegal_direction, direction_is_eq, legal_move_directions}
use ai2_final_thief_edward_d.Json.{Json}
use ai2_final_thief_edward_d.Captures.{barrier_hits, resolve_capture}
use ai2_final_thief_edward_d.Scent.{FloatArith}
use ai2_final_thief_edward_d.SubGame.{
  SubGameState, Deps, OpponentTurn, TurnInput, illegal_action, deliver_commit_and_reveal, Outcome,
}
use ai2_final_thief_edward_d.Turn.{is_true, evidence_raises, run_turn}
use ai2_final_thief_edward_d.Turn.Outcomes.{IsReady, Raised, Resolved}
use ai2_final_thief_edward_d.Turn.Run.{Turned, run_turn-Turned}

not_captured_by :
    (own dest : Position) → dest ≢ own → (resolve_capture own none (some dest)).captured ≡ false
unfolding resolve_capture
not_captured_by own dest h = ground (arith, h, position_eq_iff dest own)

barrier_hits_self : (p : Position) → barrier_hits (some p) p ≡ true
barrier_hits_self p = (position_eq_iff p p).1 refl

module _ (arithmetic : FloatArith) (digest : Json → String) where
  Resolved-blocked :
      (s : SubGameState) (i : TurnInput) (opp : OpponentTurn) (deps : Deps) (o : Outcome)
      → (resolve_capture s.position opp.capture_claim opp.barrier_placed).captured ≡ false
      → barrier_hits opp.barrier_placed (apply_direction s.position i.direction) ≡ true
      → evidence_raises s.position opp || opp.hint_unreadable ≡ false
      → Resolved digest s i.direction opp deps o
      → Raised digest (illegal_action illegal_direction) o
  Resolved-blocked s i opp deps o c h u r = ground (arith, c, h, u, r)

  Turned-delivered :
      (s : SubGameState) (i : TurnInput) (deps : Deps) (opp : OpponentTurn) (o : Outcome)
      → is_true s.pending_claim_response ≡ false
      → deliver_commit_and_reveal i.commitment_answer i.reveal_answer ≡ ok opp
      → Turned arithmetic digest s i deps o
      → Resolved digest s i.direction opp deps o
  Turned-delivered s i deps opp o p d t = rw (d, p, Turned) at t

  -- From a ready state with no true answer pending and with a legal direction that leaves the thief's
  -- cell, a delivered readable turn in which the opponent claims nothing and places its barrier on the cell that
  -- the thief moves to ends in an illegal action that nothing catches.
  pub barrier_ahead_raises :
      (s : SubGameState) (i : TurnInput) (deps : Deps) (opp : OpponentTurn)
      → IsReady digest s
      → is_true s.pending_claim_response ≡ false
      → elem i.direction (legal_move_directions s.position s.board) ≡ true
      → apply_direction s.position i.direction ≢ s.position
      → deliver_commit_and_reveal i.commitment_answer i.reveal_answer
        ≡ ok (record opp {
          capture_claim = none;
          barrier_placed = some (apply_direction s.position i.direction);
          barrier_unreadable = false;
          claim_unreadable = false;
          hint_unreadable = false;
        })
      → (run_turn arithmetic digest s i deps).1 ≡ err (illegal_action illegal_direction)
  barrier_ahead_raises s i deps opp h p legal ne d =
      let dest = apply_direction s.position i.direction in
      let blocked : OpponentTurn = record opp {
        capture_claim = none;
        barrier_placed = some dest;
        barrier_unreadable = false;
        claim_unreadable = false;
        hint_unreadable = false;
      } in
      let o = run_turn arithmetic digest s i deps in
      Resolved-blocked s i blocked deps o (not_captured_by s.position dest ne)
        (barrier_hits_self dest) refl
        (Turned-delivered s i deps blocked o p d
          (run_turn-Turned arithmetic digest s i deps h legal))
