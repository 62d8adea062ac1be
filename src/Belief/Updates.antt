-- ===== src/Belief/Updates.antt =====
-- The updates of the belief: domain/belief_updates.py and services/belief_update.py of
-- src/thief_peer.
use ai2_final_thief_edward_d.Prelude.{
  and_then, ℕ, suc, Option, none, some, List, [], ◌∷◌, length, map, elem, if◌then◌else◌,
}
use ai2_final_thief_edward_d.Prelude.Int.{pos}
use ai2_final_thief_edward_d.Grid.{Position, position_is_eq, Board, adjacent_cells}
use ai2_final_thief_edward_d.Json.{Float, dyadic}
use ai2_final_thief_edward_d.Hints.{cell, range}
use ai2_final_thief_edward_d.Scent.{Grid, zero_float, zeros, float_lt, ScentField}
use ai2_final_thief_edward_d.Belief.{BeliefArith, BeliefMap, float_le, one_float, read, add_at}
use ai2_final_thief_edward_d.Belief.Model.{normalize, entries, entropy}

-- A grid built cell by cell from another, by a function that may raise.
unfoldable pub row_with :
    (Position → Float → Option Float) → ℕ → ℕ → List Float → Option (List Float)
row_with f r c [] = some []
row_with f r c (p ∷ ps) =
    and_then (f (cell r c) p) (λ x. and_then (row_with f r (suc c) ps) (λ xs. some (x ∷ xs)))

unfoldable pub grid_with : (Position → Float → Option Float) → ℕ → Grid → Option Grid
unfolding row_with
grid_with f r [] = some []
grid_with f r (row ∷ rows) =
    and_then (row_with f r 0 row)
      (λ xs. and_then (grid_with f (suc r) rows) (λ xss. some (xs ∷ xss)))

abbrev pub prior_cell : List Position → ℕ → ℕ → Float
prior_cell barriers r c = if elem (cell r c) barriers then zero_float else one_float

unfoldable pub uniform_prior : BeliefArith → ℕ → List Position → Option BeliefMap
unfolding normalize
uniform_prior a n barriers =
    normalize a n (map (λ r. map (prior_cell barriers r) (range 0 n)) (range 0 n))

unfoldable pub apply_barrier_mask : BeliefArith → BeliefMap → List Position → Option BeliefMap
unfolding normalize grid_with
apply_barrier_mask a b barriers =
    and_then (grid_with (λ q p. if elem q barriers then some zero_float else some p) 0 b.grid)
      (normalize a b.grid_size)

-- The inner loop of `apply_transition`.
unfoldable pub spread : BeliefArith → Float → List Position → Grid → Option Grid
unfolding add_at
spread a share [] raw = some raw
spread a share (q ∷ qs) raw = and_then (add_at a raw q share) (spread a share qs)

-- One cell of the outer loop.
unfoldable pub spread_cell :
    BeliefArith → (Position → List Position) → Position → Float → Grid → Option Grid
unfolding spread
spread_cell a neighbors_fn q p raw =
    if float_le p zero_float then some raw else elim (neighbors_fn q) [
      | [] ↦ add_at a raw q p
      | s ∷ ss ↦ spread a (a.div p (a.of_ℕ (length (s ∷ ss)))) (s ∷ ss) raw
    ]

unfoldable pub transition_from :
    BeliefArith → (Position → List Position) → List (Position × Float) → Grid → Option Grid
unfolding spread_cell
transition_from a neighbors_fn [] raw = some raw
transition_from a neighbors_fn ((q, p) ∷ es) raw =
    and_then (spread_cell a neighbors_fn q p raw) (transition_from a neighbors_fn es)

unfoldable pub apply_transition :
    BeliefArith → BeliefMap → (Position → List Position) → Option BeliefMap
unfolding transition_from normalize
apply_transition a b neighbors_fn =
    and_then (transition_from a neighbors_fn (entries b) (zeros b.grid_size))
      (normalize a b.grid_size)

abbrev pub scented : BeliefArith → ScentField → Float → Position → Float → Option Float
scented a scent trust q p =
    and_then (read scent.grid q)
      (λ v. some (a.floats.mul p (a.floats.add one_float (a.floats.mul trust v))))

unfoldable pub apply_scent_likelihood :
    BeliefArith → BeliefMap → ScentField → Float → Option BeliefMap
unfolding normalize grid_with read
apply_scent_likelihood a b scent trust =
    and_then (grid_with (scented a scent trust) 0 b.grid) (normalize a b.grid_size)

-- `min(x, y)` and `max(x, y)`: the first argument, unless the second is less, or greater.
abbrev pub float_min : Float → Float → Float
float_min x y = if float_lt y x then y else x

abbrev pub float_max : Float → Float → Float
float_max x y = if float_lt x y then y else x

-- The values of the cells of the region.
unfoldable pub region_values : Grid → List Position → Option (List Float)
unfolding read
region_values g [] = some []
region_values g (p ∷ ps) =
    and_then (read g p) (λ v. and_then (region_values g ps) (λ vs. some (v ∷ vs)))

abbrev pub agreement : BeliefArith → ℕ → List Position → List Float → Float
agreement a n region values =
    a.div (a.floats.mul (a.floats.mul (a.sum values) (a.of_ℕ n)) (a.of_ℕ n))
      (a.of_ℕ (length region))

abbrev pub effective_trust : BeliefArith → ℕ → List Position → Float → List Float → Float
effective_trust a n region base_trust values =
    a.floats.mul base_trust (float_min one_float (agreement a n region values))

-- The weights of the cells, with the trust that is left.
abbrev pub boosted : BeliefArith → Float → List Position → Position → Float → Option Float
boosted a trust region q p =
    if elem q region then some (a.floats.mul p (a.floats.add one_float trust)) else some p

unfoldable pub apply_hint_likelihood :
    BeliefArith → BeliefMap → Option (List Position) → Float → Option BeliefMap
unfolding normalize grid_with region_values
apply_hint_likelihood a b none base_trust = some b
apply_hint_likelihood a b (some []) base_trust = some b
apply_hint_likelihood a b (some (c ∷ cs)) base_trust =
    and_then (region_values b.grid (c ∷ cs)) (λ values.
      let trust = effective_trust a b.grid_size (c ∷ cs) base_trust values in
      and_then (grid_with (boosted a trust (c ∷ cs)) 0 b.grid) (normalize a b.grid_size))

-- The doubles nearest to 0.08, 0.12, 0.05, 0.95 and 1e-9.
abbrev pub trust_gain : Float
trust_gain = dyadic (pos 5764607523034235) 56

abbrev pub trust_loss : Float
trust_loss = dyadic (pos 1080863910568919) 53

abbrev pub trust_floor : Float
trust_floor = dyadic (pos 3602879701896397) 56

abbrev pub trust_ceiling : Float
trust_ceiling = dyadic (pos 4278419646001971) 52

abbrev pub slack : Float
slack = dyadic (pos 4835703278458517) 82

unfoldable pub update_hint_trust : BeliefArith → Float → Float → Float → Float
unfolding float_lt
update_hint_trust a current before after =
    if float_lt after (a.floats.sub before slack)
    then float_min trust_ceiling
        (a.floats.add current (a.floats.mul trust_gain (a.floats.sub one_float current)))
    else if float_lt (a.floats.add before slack) after
    then float_max trust_floor (a.floats.sub current (a.floats.mul trust_loss current))
    else current

-- The lines of `update_belief` that fold in the scent, and the hint.
abbrev pub with_scent : BeliefArith → Option ScentField → BeliefMap → Option BeliefMap
with_scent a none b = some b
with_scent a (some scent) b = apply_scent_likelihood a b scent one_float

abbrev pub with_hint :
    BeliefArith → Option (List Position) → Float → BeliefMap → Option (BeliefMap × Float)
with_hint a none trust b = some (b, trust)
with_hint a (some region) trust b =
    and_then (apply_hint_likelihood a b (some region) trust)
      (λ b'. some (b', update_hint_trust a trust (entropy a b) (entropy a b')))

unfoldable pub update_belief :
    BeliefArith
    → BeliefMap
    → Board
    → Option ScentField
    → Option (List Position)
    → Float
    → Option (BeliefMap × Float)
unfolding apply_transition apply_barrier_mask apply_scent_likelihood apply_hint_likelihood
update_belief a b board police_scent hint_region hint_trust =
    and_then (apply_transition a b (adjacent_cells board)) (λ predicted.
      and_then (apply_barrier_mask a predicted board.barriers) (λ masked.
        and_then (with_scent a police_scent masked) (with_hint a hint_region hint_trust)))
