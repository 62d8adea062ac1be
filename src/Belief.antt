-- ===== src/Belief.antt =====
-- The belief about the opponent's cell: domain/belief_model.py, domain/belief_updates.py and
-- services/belief_update.py of src/thief_peer. Floats are exact values; what the processor and
-- Python's `sum` and `math.log2` make of them is a parameter, `BeliefArith`, of which nothing is
-- assumed. `none` is an IndexError or a division by zero. A set of cells is a list without repeats.
pub mod Model
pub mod Updates
pub mod Shape
pub mod Total
mod Tests
use ai2_final_thief_edward_d.Prelude.{
  ℕ, suc, ◌-◌, Bool, not, ◌&&◌, Option, none, some, List, length, set, get_elem?, ltb,
  if◌then◌else◌, and_then,
}
use ai2_final_thief_edward_d.Prelude.Int.{ℤ, pos, negsuc}
use ai2_final_thief_edward_d.Grid.{Position}
use ai2_final_thief_edward_d.Json.{Float, dyadic, nan, infinite}
use ai2_final_thief_edward_d.Scent.{FloatArith, Grid, float_lt}

pub record BeliefArith : Type 0 where
  pub floats : FloatArith
  pub div : Float → Float → Float
  pub log2 : Float → Float
  pub sum : List Float → Float
  pub of_ℕ : ℕ → Float

pub record BeliefMap : Type 0 where
  pub grid_size : ℕ
  pub grid : Grid

abbrev pub is_nan : Float → Bool
is_nan nan = Bool.true
is_nan _ = Bool.false

-- `a <= b`
unfoldable pub float_le : Float → Float → Bool
unfolding float_lt
float_le a b = not (is_nan a) && (not (is_nan b) && not (float_lt b a))

abbrev pub one_float : Float
one_float = dyadic (pos 1) 0

-- The place that index `i` means in a list of `n` elements: a negative one counts from the end.
unfoldable pub wrapped : ℤ → ℕ → Option ℕ
wrapped (pos i) n = if ltb i n then some i else none
wrapped (negsuc i) n = if ltb i n then some (n - suc i) else none

-- `grid[p.row][p.col]`
unfoldable pub read : Grid → Position → Option Float
unfolding wrapped
read g p = and_then (wrapped p.row (length g)) (λ r.
    and_then (get_elem? g r) (λ row. and_then (wrapped p.col (length row)) (λ c. get_elem? row c)))

-- `grid[p.row][p.col] += x`
unfoldable pub add_at : BeliefArith → Grid → Position → Float → Option Grid
unfolding wrapped
add_at a g p x = and_then (wrapped p.row (length g)) (λ r. and_then (get_elem? g r) (λ row.
    and_then (wrapped p.col (length row))
      (λ c. and_then (get_elem? row c) (λ v. some (set g r (set row c (a.floats.add v x)))))))
