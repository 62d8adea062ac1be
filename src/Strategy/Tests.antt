-- ===== src/Strategy/Tests.antt =====
-- The brains on a board of five rows with one barrier.
use ai2_final_thief_edward_d.Prelude.{◌≡◌, refl, none, some, List, [], length}
use ai2_final_thief_edward_d.Prelude.Int.{pos, ◌+ℤ◌}
use ai2_final_thief_edward_d.Grid.{Position, position_is_eq, south, is_within, apply_direction}
use ai2_final_thief_edward_d.Rules.{direction_is_eq, direction_eq, legal_move_directions}
use ai2_final_thief_edward_d.Strategy.{ThiefDecisionInput, score, score_lt}
use ai2_final_thief_edward_d.Strategy
use ai2_final_thief_edward_d.Strategy.Escape
use ai2_final_thief_edward_d.Strategy.Utility.{default_weights, reachable_area}
use ai2_final_thief_edward_d.Strategy.Best.{AsGood, decide-greatest}
use ai2_final_thief_edward_d.Strategy.Legal.{Allowed, escape_stays_legal}
use ai2_final_thief_edward_d.Strategy.Reach.{Filled, reachable_area-Filled}
use ai2_final_thief_edward_d.Samples.{belief_arith, belief, board, cell}
use ai2_final_thief_edward_d.Scent.{zero_float}

-- The cell to the north is a barrier.
abbrev context : ThiefDecisionInput
context = record {
  legal_directions = legal_move_directions (cell (pos 2) (pos 2)) board;
  position = cell (pos 2) (pos 2);
  visited = [];
  board = board;
  belief = belief;
  step = 0;
}

escape_stays_legal_example :
    Allowed context (Escape.decide belief_arith default_weights (λ _. zero_float) context []).0
escape_stays_legal_example =
    escape_stays_legal belief_arith default_weights (λ _. zero_float) context []

decide-greatest_example : AsGood context (Strategy.decide none context).direction south
unfolding legal_move_directions direction_eq is_within apply_direction ◌+ℤ◌
decide-greatest_example = decide-greatest none context south tt refl

reachable_area-Filled_example :
    (seen : List Position) × (reachable_area board (cell (pos 2) (pos 2)) 30 ≡ some (length seen))
    × Filled board (cell (pos 2) (pos 2)) 30 (some seen)
reachable_area-Filled_example = reachable_area-Filled board (cell (pos 2) (pos 2)) 30 refl
