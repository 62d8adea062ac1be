-- ===== src/Rules/Tests.antt =====
-- Moves and barriers on one board.
use ai2_final_thief_edward_d.Prelude.Int.{pos}
use ai2_final_thief_edward_d.Grid.{Position, north, police}
use ai2_final_thief_edward_d.Rules.{apply_move, place_barrier, direction_is_eq}
use ai2_final_thief_edward_d.Rules.Moves.{Moved, apply_move-Moved}
use ai2_final_thief_edward_d.Rules.Barriers.{Placed, place_barrier-Placed}
use ai2_final_thief_edward_d.Samples.{board, cell}

abbrev below_barrier : Position
below_barrier = cell (pos 2) (pos 2)

apply_move-Moved_example : Moved below_barrier board north (apply_move below_barrier north board)
apply_move-Moved_example = apply_move-Moved below_barrier north board

place_barrier-Placed_example :
    Placed police below_barrier
      (cell (pos 2) (pos 3))
      board
      1
      5
      (place_barrier police below_barrier (cell (pos 2) (pos 3)) board 1 5)
place_barrier-Placed_example =
    place_barrier-Placed police below_barrier (cell (pos 2) (pos 3)) board 1 5
