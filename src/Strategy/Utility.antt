-- ===== src/Strategy/Utility.antt =====
-- The utility of a move: strategy/entropy_escape_utility.py and strategy/entropy_escape_config.py of
-- src/thief_peer. `none` is an exception. The flood fill runs on fuel, and `none` when it runs out.
use ai2_final_thief_edward_d.Prelude.{
  and_then, ℕ, zero, suc, Bool, true, false, ◌&&◌, ◌||◌, not, Option, none, some, List, [], ◌∷◌,
  ◌++◌, length, elem, ltb, if◌then◌else◌,
}
use ai2_final_thief_edward_d.Prelude.Int.{ℤ, pos, pos_part, leb_ℤ}
use ai2_final_thief_edward_d.Grid.{
  Position, position_is_eq, Direction, Board, is_barrier, adjacent_cells, manhattan,
}
use ai2_final_thief_edward_d.Rules.{direction_eq}
use ai2_final_thief_edward_d.Json.{Float, dyadic}
use ai2_final_thief_edward_d.Belief.{BeliefArith, BeliefMap, one_float}
use ai2_final_thief_edward_d.Belief.Model.{expected_distance, top_k, probability_at}
use ai2_final_thief_edward_d.Belief.Updates.{apply_transition}

pub record EntropyEscapeWeights : Type 0 where
  pub expected_distance_weight : Float
  pub lookahead_distance : Float
  pub mobility : Float
  pub reachable_region : Float
  pub barrier_threat_penalty : Float
  pub revisit_penalty : Float
  pub straight_line_penalty : Float
  pub lookahead_depth : ℤ
  pub deception_risk_threshold : Float
  pub straight_line_window : ℤ

-- The defaults, as the doubles nearest to them.
abbrev pub default_weights : EntropyEscapeWeights
default_weights = record {
  expected_distance_weight = one_float;
  lookahead_distance = dyadic (pos 3602879701896397) 52;
  mobility = dyadic (pos 1) 1;
  reachable_region = dyadic (pos 3602879701896397) 53;
  barrier_threat_penalty = dyadic (pos 5404319552844595) 52;
  revisit_penalty = dyadic (pos 3602879701896397) 54;
  straight_line_penalty = dyadic (pos 5404319552844595) 54;
  lookahead_depth = pos 2;
  deception_risk_threshold = dyadic (pos 3152519739159347) 53;
  straight_line_window = pos 3;
}

-- `[c for c in cells if not board.is_barrier(c)]`
unfoldable pub open_cells : Board → List Position → List Position
open_cells board [] = []
open_cells board (c ∷ cs) =
    if not (is_barrier board c) then c ∷ open_cells board cs else open_cells board cs

abbrev pub open_neighbors : Board → Position → List Position
open_neighbors board p = open_cells board (adjacent_cells board p)

unfoldable pub neighbors_including_stay : Board → Position → List Position
unfolding open_cells
neighbors_including_stay board p = if is_barrier board p then [] else p ∷ open_neighbors board p

-- The loop of `project_belief`.
unfoldable pub project : BeliefArith → (Position → List Position) → ℕ → BeliefMap → Option BeliefMap
unfolding apply_transition
project a neighbors_fn zero b = some b
project a neighbors_fn (suc depth) b =
    and_then (apply_transition a b neighbors_fn) (project a neighbors_fn depth)

unfoldable pub project_belief : BeliefArith → BeliefMap → Board → ℤ → Option BeliefMap
unfolding project neighbors_including_stay
project_belief a b board depth = project a (neighbors_including_stay board) (pos_part depth) b

-- The inner loop of `reachable_area`: the cells seen, the last one first, and the queue.
unfoldable pub visit :
    Board → List Position → List Position → List Position → List Position × List Position
visit board [] seen queue = (seen, queue)
visit board (c ∷ cs) seen queue =
    if is_barrier board c || elem c seen
    then visit board cs seen queue
    else visit board cs (c ∷ seen) (queue ++ (c ∷ []))

-- The outer loop.
unfoldable pub flood : Board → ℕ → ℕ → List Position → List Position → Option (List Position)
unfolding visit
flood board limit fuel seen [] = some seen
flood board limit zero seen (c ∷ queue) = if ltb (length seen) limit then none else some seen
flood board limit (suc fuel) seen (c ∷ queue) =
    let next = visit board (adjacent_cells board c) seen queue in
    let rest = flood board limit fuel next.0 next.1 in
    if ltb (length seen) limit then rest else some seen

unfoldable pub reachable_area : Board → Position → ℕ → Option ℕ
unfolding flood
reachable_area board start limit =
    if is_barrier board start
    then some 0
    else and_then (flood board limit limit (start ∷ []) (start ∷ [])) (λ seen. some (length seen))

-- `xs[0]`
abbrev pub head {ℓ} : {A : Type ℓ} → List A → Option A
head [] = none
head (x ∷ xs) = some x

unfoldable pub barrier_threat : BeliefArith → Position → Board → BeliefMap → Option Float
unfolding top_k open_cells
barrier_threat a c board b = and_then (head (top_k b 1)) (λ likely.
    let inverse = λ (n : ℕ). a.div one_float (a.floats.add one_float (a.of_ℕ n)) in
    some
      (a.floats.mul (inverse (manhattan c likely.0)) (inverse (length (open_neighbors board c)))))

-- `len(set(ds)) == 1`
abbrev pub all_are : Direction → List Direction → Bool
all_are d [] = true
all_are d (e ∷ es) = direction_eq d e && all_are d es

abbrev pub all_same : List Direction → Bool
all_same [] = false
all_same (d ∷ ds) = all_are d ds

-- A penalty that is subtracted if the test holds.
abbrev pub penalised : BeliefArith → Bool → Float → Float → Float
penalised a test penalty x = if test then a.floats.sub x penalty else x

unfoldable pub score_move :
    BeliefArith
    → Position
    → Position
    → BeliefMap
    → BeliefMap
    → Board
    → List Position
    → List Direction
    → EntropyEscapeWeights
    → Option Float
unfolding expected_distance open_cells reachable_area barrier_threat
score_move a origin destination belief projected board visited recent w =
    let add = a.floats.add in
    let mul = a.floats.mul in
    let origin_ed = expected_distance a belief origin manhattan in
    let dest_ed = expected_distance a belief destination manhattan in
    let projected_ed = expected_distance a projected destination manhattan in
    let score1 = mul w.expected_distance_weight (a.floats.sub dest_ed origin_ed) in
    let score2 = add score1 (mul w.lookahead_distance (a.floats.sub projected_ed origin_ed)) in
    let score3 = add score2 (mul w.mobility (a.of_ℕ (length (open_neighbors board destination)))) in
    and_then (reachable_area board destination 30) (λ area.
      let share = a.div (a.of_ℕ area) (dyadic (pos 30) 0) in
      let score4 = add score3 (mul w.reachable_region share) in
      and_then (barrier_threat a destination board belief) (λ threat.
        let score5 = a.floats.sub score4 (mul w.barrier_threat_penalty threat) in
        let score6 = penalised a (elem destination visited) w.revisit_penalty score5 in
        let straight = leb_ℤ w.straight_line_window (pos (length recent)) && all_same recent in
        some (penalised a straight w.straight_line_penalty score6)))

unfoldable pub capture_risk : Position → BeliefMap → Option Float
capture_risk destination b = probability_at b destination
