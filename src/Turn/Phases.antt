-- ===== src/Turn/Phases.antt =====
-- What has to be shown of the rest of a turn, at each of its phases.
use Prim.Native.String.{String, ◌++◌}
use ai2_final_thief_edward_d.Prelude.{
  suc, ◌≡◌, Bool, true, none, some, [], ◌∷◌, ◌++◌ as append, elem, if◌then◌else◌, ok, err, arith,
}
use ai2_final_thief_edward_d.Prelude.Int.{pos}
use ai2_final_thief_edward_d.Grid.{Position, position_is_eq, Direction, apply_direction, Board}
use ai2_final_thief_edward_d.Rules.{direction_is_eq, legal_move_directions, apply_move}
use ai2_final_thief_edward_d.Lifecycle.{
  waiting, thinking, committing, waiting_for_ack, revealing, verifying, begin_turn, move_decided,
  commit_sent, ack_received, reveal_sent, sub_game_ended, resolve, PeerStateMachine,
}
use ai2_final_thief_edward_d.Json.{Json, show_ℕ}
use ai2_final_thief_edward_d.Sealing.Audit.{SealedRecord, seal, hash_payload}
use ai2_final_thief_edward_d.Sealing.Exchange.{committed, CommitRevealExchange, reveal}
use ai2_final_thief_edward_d.Captures.{capture}
use ai2_final_thief_edward_d.Scent.{FloatArith, ScentField, apply_turn}
use ai2_final_thief_edward_d.Scent.Emission.{IsField, apply_turn-IsField}
use ai2_final_thief_edward_d.Turn.{
  resolve_and_advance, is_true, payload_of, seal_turn, delivering, deciding, run_turn_body,
  game_ended,
}
use ai2_final_thief_edward_d.SubGame.{
  SubGameState, Deps, OpponentTurn, TurnInput, Outcome, index_error, deliver_commit_and_reveal,
  applying, exchanging,
}
use ai2_final_thief_edward_d.Turn.Fresh.{
  IsFresh, IsAt, commit-IsAt, acknowledge-IsAt, reveal-IsFresh,
}
use ai2_final_thief_edward_d.Turn.Steps.{applying-lem, exchanging-lem}

legal-apply_move :
    (p : Position) (d : Direction) (b : Board)
    → elem d (legal_move_directions p b) ≡ true
    → apply_move p d b ≡ ok (apply_direction p d)
unfolding apply_move
legal-apply_move p d b h = ground (arith, h)

-- The state behind REVEAL_SENT, and the rest of the turn.
abbrev pub with_reveal :
    SubGameState → SealedRecord → PeerStateMachine → CommitRevealExchange → SubGameState
with_reveal s r m x = record s { machine = m; exchange = x; records = append s.records (r ∷ []) }

abbrev pub finish : Bool → SubGameState → TurnInput → OpponentTurn → Deps → Outcome
finish confirming s i opp deps =
    if confirming
    then applying s sub_game_ended "captured" (game_ended capture)
    else resolve_and_advance s i.direction opp deps

module _ (arithmetic : FloatArith) (digest : Json → String) where
  -- What is left of `_run_turn` behind the acknowledgement, and behind the reveal.
  abbrev behind_reveal :
      SubGameState → TurnInput → Deps → SealedRecord → OpponentTurn → SubGameState → Outcome
  behind_reveal s i deps r opp s4 =
      finish (is_true s.pending_claim_response) (record s4 { records = append s4.records (r ∷ []) })
        i opp deps

  abbrev behind_ack :
      SubGameState → TurnInput → Deps → SealedRecord → OpponentTurn → SubGameState → Outcome
  behind_ack s i deps r opp s2 =
      exchanging s2 (reveal digest s2.exchange (pos s2.step) r)
        (λ s3. applying s3 reveal_sent "" (behind_reveal s i deps r opp))

  pub delivering-lem :
      (Q : Outcome → Type 0) (s : SubGameState) (i : TurnInput) (deps : Deps) (r : SealedRecord)
      {opp : OpponentTurn}
      → deliver_commit_and_reveal i.commitment_answer i.reveal_answer ≡ ok opp
      → s.machine.state ≡ waiting_for_ack
      → IsAt s.exchange s.step committed (hash_payload digest r.payload)
      → ((m : PeerStateMachine) (x : CommitRevealExchange)
          → m.state ≡ verifying
          → IsFresh x (suc s.step)
          → Q (finish (is_true s.pending_claim_response) (with_reveal s r m x) i opp deps))
      → Q (delivering arithmetic digest s i deps r)
  unfolding delivering resolve
  delivering-lem Q s i deps r {opp = opp} d e a k =
      let y = acknowledge-IsAt s.exchange s.step a in
      let w = reveal-IsFresh digest y.0 s.step r y.2 in
      rw (d, delivering)
        (exchanging-lem Q s _ _ y.1 (
          applying-lem Q (record s { exchange = y.0 }) ack_received "" (behind_ack s i deps r opp)
            revealing (ground (arith, e))
            (λ m1 e1.
              exchanging-lem Q (record s { exchange = y.0; machine = m1 }) _ _ w.1
                (applying-lem Q (record s { exchange = w.0; machine = m1 }) reveal_sent ""
                  (behind_reveal s i deps r opp) verifying (ground (arith, e1))
                  (λ m2 e2. k m2 w.0 e2 w.2)))))

  pub deciding-lem :
      (Q : Outcome → Type 0) (s : SubGameState) (i : TurnInput) (deps : Deps)
      → elem i.direction (legal_move_directions s.position s.board) ≡ true
      → s.machine.state ≡ thinking
      → IsFresh s.exchange s.step
      → ((m : PeerStateMachine) (x : CommitRevealExchange)
          → m.state ≡ waiting_for_ack
          → IsAt x s.step committed
              (hash_payload digest (seal_turn arithmetic digest s i deps).payload)
          → Q (
              delivering arithmetic digest
                (record s { machine = m; exchange = x })
                i
                deps
                (seal_turn arithmetic digest s i deps)))
      → Q (deciding arithmetic digest s i deps)
  unfolding deciding seal_turn seal resolve
  deciding-lem Q s i deps legal e f k =
      let y =
        commit-IsAt s.exchange s.step (hash_payload digest (payload_of arithmetic digest s i deps))
          f in
      let r = seal_turn arithmetic digest s i deps in
      rw (legal-apply_move s.position i.direction s.board legal, deciding)
        (exchanging-lem Q s _ _ y.1 (
          applying-lem Q (record s { exchange = y.0 }) move_decided ""
            (λ s2. applying s2 commit_sent "" (λ s3. delivering arithmetic digest s3 i deps r))
            committing (ground (arith, e))
            (λ m1 e1.
              applying-lem Q (record s { exchange = y.0; machine = m1 }) commit_sent ""
                (λ s3. delivering arithmetic digest s3 i deps r) waiting_for_ack
                (ground (arith, e1)) (λ m2 e2. k m2 y.0 e2 y.2))))

  pub run_turn_body-lem :
      (Q : Outcome → Type 0) (s : SubGameState) (i : TurnInput) (deps : Deps)
      → s.machine.state ≡ waiting
      → IsField s.own_scent
      → ((m : PeerStateMachine) (f : ScentField)
          → m.state ≡ thinking
          → IsField f
          → Q (deciding arithmetic digest (record s { machine = m; own_scent = f }) i deps))
      → Q (run_turn_body arithmetic digest s i deps)
  unfolding run_turn_body resolve
  run_turn_body-lem Q s i deps e h k =
      let g = apply_turn-IsField arithmetic s.own_scent s.position deps.pheromone_decay h in
      let rest : SubGameState → Outcome = λ s1.
        elim (apply_turn arithmetic s1.own_scent s1.position deps.pheromone_decay) [
          | none ↦ (s1, err index_error)
          | some scent ↦ deciding arithmetic digest (record s1 { own_scent = scent }) i deps
        ] in
      applying-lem Q s begin_turn ("step " ++ show_ℕ s.step) rest thinking (ground (arith, e))
        (λ m e1. rw (g.1, run_turn_body) (k m g.0 e1 g.3))
