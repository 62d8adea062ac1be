-- ===== src/Belief/Model.antt =====
-- The distribution and what is read from it: domain/belief_model.py of src/thief_peer.
use ai2_final_thief_edward_d.Prelude.{
  ℕ, suc, ◌*◌, Bool, ◌&&◌, ◌||◌, Option, none, some, List, [], ◌∷◌, ◌++◌, map, take, replicate,
  ◌==◌, if◌then◌else◌,
}
use ai2_final_thief_edward_d.Prelude.Int.{pos, negsuc, ltb_ℤ, eq_ℤ}
use ai2_final_thief_edward_d.Grid.{Position}
use ai2_final_thief_edward_d.Json.{Float, dyadic}
use ai2_final_thief_edward_d.Hints.{cell}
use ai2_final_thief_edward_d.Scent.{Grid, zero_float, float_lt}
use ai2_final_thief_edward_d.Belief.{BeliefArith, BeliefMap, float_le, one_float, read}

abbrev pub probability_at : BeliefMap → Position → Option Float
probability_at b p = read b.grid p

-- The double nearest to 1e-12.
abbrev pub tiny : Float
tiny = dyadic (pos 4951760157141521) 92

-- `sum(sum(row) for row in grid)`
unfoldable pub total_mass : BeliefArith → Grid → Float
total_mass a g = a.sum (map (λ row. a.sum row) g)

-- The first division raises for a board of no cells; the second is by a number above `tiny`.
unfoldable pub normalize : BeliefArith → ℕ → Grid → Option BeliefMap
unfolding total_mass
normalize a n raw =
    let total = total_mass a raw in
    if float_le total tiny
    then (if n == 0
        then none
        else some (record {
          grid_size = n;
          grid = replicate n (replicate n (a.div one_float (a.of_ℕ (n * n))));
        }))
    else some (record { grid_size = n; grid = map (map (λ v. a.div v total)) raw })

-- The cells of a grid with their values, row by row, as the two loops over `enumerate` visit them.
unfoldable pub row_entries : ℕ → ℕ → List Float → List (Position × Float)
row_entries r c [] = []
row_entries r c (p ∷ ps) = (cell r c, p) ∷ row_entries r (suc c) ps

unfoldable pub entries_from : ℕ → Grid → List (Position × Float)
unfolding row_entries
entries_from r [] = []
entries_from r (row ∷ rows) = row_entries r 0 row ++ entries_from (suc r) rows

abbrev pub entries : BeliefMap → List (Position × Float)
entries b = entries_from 0 b.grid

-- The loop of `entropy`, from the total so far.
unfoldable pub entropy_from : BeliefArith → Float → List (Position × Float) → Float
entropy_from a total [] = total
entropy_from a total ((_, p) ∷ es) =
    entropy_from a
      (if float_lt zero_float p then a.floats.sub total (a.floats.mul p (a.log2 p)) else total) es

unfoldable pub entropy : BeliefArith → BeliefMap → Float
entropy a b = entropy_from a zero_float (entries b)

-- The loop of `most_likely`, from the best cell so far.
unfoldable pub most_likely_from : Position → Float → List (Position × Float) → Position
most_likely_from best_pos best_p [] = best_pos
most_likely_from best_pos best_p ((q, p) ∷ es) =
    most_likely_from (if float_lt best_p p then q else best_pos)
      (if float_lt best_p p then p else best_p) es

unfoldable pub most_likely : BeliefMap → Position
unfolding most_likely_from
most_likely b = most_likely_from (cell 0 0) (dyadic (negsuc 0) 0) (entries b)

-- `a == b`
abbrev pub float_eq : Float → Float → Bool
float_eq a b = float_le a b && float_le b a

-- The keys `(-p, row, col)` in order, for probabilities that are no NaN.
abbrev pub key_lt : Position × Float → Position × Float → Bool
key_lt (p, x) (q, y) =
    if float_eq x y
    then ltb_ℤ p.row q.row || (eq_ℤ p.row q.row && ltb_ℤ p.col q.col)
    else float_lt y x

-- `entries.sort(key=...)`, which is stable.
unfoldable pub insert_entry : Position × Float → List (Position × Float) → List (Position × Float)
insert_entry e [] = e ∷ []
insert_entry e (f ∷ fs) = if key_lt f e then f ∷ insert_entry e fs else e ∷ f ∷ fs

unfoldable pub sort_entries : List (Position × Float) → List (Position × Float)
unfolding insert_entry
sort_entries [] = []
sort_entries (e ∷ es) = insert_entry e (sort_entries es)

unfoldable pub top_k : BeliefMap → ℕ → List (Position × Float)
unfolding sort_entries
top_k b k = take k (sort_entries (entries b))

-- The loop of `expected_distance`, from the total so far.
unfoldable pub expected_from :
    BeliefArith → Position → (Position → Position → ℕ) → Float → List (Position × Float) → Float
expected_from a from distance_fn total [] = total
expected_from a from distance_fn total ((q, p) ∷ es) =
    expected_from a from distance_fn
      (if float_lt zero_float p
        then a.floats.add total (a.floats.mul p (a.of_ℕ (distance_fn from q)))
        else total)
      es

unfoldable pub expected_distance :
    BeliefArith → BeliefMap → Position → (Position → Position → ℕ) → Float
unfolding expected_from
expected_distance a b from distance_fn = expected_from a from distance_fn zero_float (entries b)
