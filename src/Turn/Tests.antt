-- ===== src/Turn/Tests.antt =====
-- A turn at concrete inputs.
use ai2_final_thief_edward_d.Prelude.{◌≡◌, ◌≢◌, refl, none, some, [], true, err, arith}
use ai2_final_thief_edward_d.Prelude.Int.{pos, ◌+ℤ◌}
use ai2_final_thief_edward_d.Prelude.Dict.{lookup}
use ai2_final_thief_edward_d.Grid.{north, is_within, apply_direction}
use ai2_final_thief_edward_d.Rules.{illegal_direction, direction_eq, legal_move_directions}
use ai2_final_thief_edward_d.Lifecycle.{PeerStateMachine, waiting}
use ai2_final_thief_edward_d.Scent.{empty_scent_field}
use ai2_final_thief_edward_d.Scent.Emission.{zeros-IsSquare}
use ai2_final_thief_edward_d.Turn.{run_turn}
use ai2_final_thief_edward_d.SubGame.{
  illegal_action, SubGameState, TurnInput, initial, answered, deliver_commit_and_reveal,
}
use ai2_final_thief_edward_d.Turn.Blocked.{barrier_ahead_raises}
use ai2_final_thief_edward_d.Samples.{nonce_digest, arithmetic, deps, cell, opponent_turn, staying}

abbrev waiting_machine : PeerStateMachine
waiting_machine = record { state = waiting; history = [] }

abbrev start : SubGameState
start = initial 5 (pos 1) (cell (pos 2) (pos 2)) waiting_machine

-- The thief moves north, and the opponent's barrier is on the cell there.
abbrev blocked : TurnInput
blocked = record (staying 0 start) {
  direction = north;
  reveal_answer = answered true (opponent_turn none (some (cell (pos 1) (pos 2))));
}

moves_away : cell (pos 1) (pos 2) ≢ cell (pos 2) (pos 2)
moves_away e = ground (arith, e)

barrier_ahead_raises_example :
    (run_turn arithmetic nonce_digest start blocked deps).1 ≡ err (illegal_action illegal_direction)
unfolding initial empty_scent_field lookup legal_move_directions direction_eq is_within
    apply_direction ◌+ℤ◌ deliver_commit_and_reveal
barrier_ahead_raises_example =
    barrier_ahead_raises arithmetic nonce_digest start blocked deps
      (opponent_turn none (some (cell (pos 1) (pos 2))))
      (refl, (λ k l. (refl, refl)), zeros-IsSquare 5, refl) refl refl moves_away refl
