-- ===== src/Belief/Tests.antt =====
-- An update of the belief on a board of five rows.
use ai2_final_thief_edward_d.Prelude.{◌≡◌, refl, some, [], ◌∷◌, arith}
use ai2_final_thief_edward_d.Prelude.Int.{pos, negsuc}
use ai2_final_thief_edward_d.Grid.{is_within}
use ai2_final_thief_edward_d.Scent.{zero_float, zeros, empty_scent_field}
use ai2_final_thief_edward_d.Scent.Emission.{zeros-IsSquare}
use ai2_final_thief_edward_d.Belief.{wrapped, read}
use ai2_final_thief_edward_d.Belief.Updates.{update_belief}
use ai2_final_thief_edward_d.Belief.Shape.{Gives}
use ai2_final_thief_edward_d.Belief.Total.{IsBelief, update_belief-IsBelief}
use ai2_final_thief_edward_d.Samples.{belief_arith, belief, board, cell}

-- A negative index counts from the end.
read_from_end : read (zeros 5) (cell (negsuc 0) (pos 2)) ≡ some zero_float
unfolding read wrapped
read_from_end = refl

update_belief-IsBelief_example :
    Gives
      (λ r. IsBelief 5 r.0)
      (update_belief belief_arith belief board
        (some (empty_scent_field 5))
        (some (cell (pos 1) (pos 1) ∷ []))
        zero_float)
unfolding empty_scent_field is_within
update_belief-IsBelief_example =
    update_belief-IsBelief belief_arith 5 belief board (some (empty_scent_field 5))
      (some (cell (pos 1) (pos 1) ∷ [])) zero_float (omega arith) refl (refl, zeros-IsSquare 5)
      (zeros-IsSquare 5, tt) ((refl, tt), tt)
