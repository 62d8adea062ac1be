-- ===== src/Scent/Tests.antt =====
-- A scent field of one cell, and a received grid.
use ai2_final_thief_edward_d.Prelude.{◌≡◌, refl, some, length, All}
use ai2_final_thief_edward_d.Prelude.Int.{pos}
use ai2_final_thief_edward_d.Json.{Json, num, float, arr, Items, nil, cons}
use ai2_final_thief_edward_d.Scent.{
  ScentField, zero_float, peak, empty_scent_field, apply_turn, as_list, validate_scent_grid,
  grid_floats,
}
use ai2_final_thief_edward_d.Scent.Emission.{IsField, zeros-IsSquare, apply_turn-IsField}
use ai2_final_thief_edward_d.Scent.Validation.{IsRow, validate_scent_grid-legal}
use ai2_final_thief_edward_d.Samples.{arithmetic, cell}

apply_turn-IsField_example :
    (g : ScentField) × (apply_turn arithmetic
        (empty_scent_field 3)
        (cell (pos 0) (pos 2))
        zero_float
      ≡ some g)
    × (g.grid_size ≡ (empty_scent_field 3).grid_size)
    × IsField g
unfolding empty_scent_field
apply_turn-IsField_example =
    apply_turn-IsField arithmetic (empty_scent_field 3) (cell (pos 0) (pos 2)) zero_float
      (zeros-IsSquare 3)

abbrev received : Json
received = arr (
    cons (arr (cons (num (pos 0)) (cons (float peak) nil)))
      (cons (arr (cons (num (pos 9)) (cons (num (pos 1)) nil))) nil))

validate_scent_grid-legal_example :
    (rows : Items) × (as_list received ≡ some rows)
    × (length (grid_floats rows) ≡ 2)
    × All (IsRow 2) (grid_floats rows)
unfolding validate_scent_grid
validate_scent_grid-legal_example = validate_scent_grid-legal received 2 refl
