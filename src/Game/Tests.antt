-- ===== src/Game/Tests.antt =====
-- A sub-game in which the thief stays until it has survived.
use ai2_final_thief_edward_d.Prelude.{refl, none, [], true, arith}
use ai2_final_thief_edward_d.Prelude.Int.{pos}
use ai2_final_thief_edward_d.Rules.{direction_eq, legal_move_directions}
use ai2_final_thief_edward_d.Lifecycle.{new_machine, waiting}
use ai2_final_thief_edward_d.SubGame.{SubGameState, initial}
use ai2_final_thief_edward_d.Game.{run_sub_game}
use ai2_final_thief_edward_d.Game.Turns.{IsLegal}
use ai2_final_thief_edward_d.Game.Conclusion.{Over, run_sub_game-Over}
use ai2_final_thief_edward_d.Samples.{nonce_digest, arithmetic, deps, scoring, cell, staying}

staying-IsLegal : IsLegal staying
unfolding legal_move_directions direction_eq
staying-IsLegal k s = refl

abbrev start : SubGameState
start = initial 5 (pos 1) (cell (pos 2) (pos 2)) (record { state = waiting; history = [] })

run_sub_game-Over_example : Over nonce_digest scoring (
    run_sub_game arithmetic nonce_digest 5
      (pos 1)
      (cell (pos 2) (pos 2))
      new_machine
      true
      staying
      deps
      scoring
      none)
run_sub_game-Over_example =
    run_sub_game-Over arithmetic nonce_digest 5 (pos 1) (cell (pos 2) (pos 2)) staying deps scoring
      (omega arith) staying-IsLegal
