-- ===== src/Strategy.antt =====
-- The strategy seam and the baseline brain: strategy/decision.py and strategy/baseline_thief_brain.py
-- of src/thief_peer. What `rng.shuffle` makes of a list is an argument. No brain reads the deadline,
-- which is left out. An exception inside a brain is `none`.
pub mod Utility
pub mod Escape
pub mod Best
pub mod Visit
pub mod Reach
pub mod Legal
pub mod Play
mod Tests
use ai2_final_thief_edward_d.Prelude.{
  ℕ, Bool, true, false, ◌&&◌, ◌||◌, Option, none, some, List, [], ◌∷◌, length, elem, ltb, ◌==◌,
  if◌then◌else◌,
}
use ai2_final_thief_edward_d.Grid.{
  Position, position_is_eq, Direction, stay, apply_direction, Board, manhattan,
}
use ai2_final_thief_edward_d.Rules.{legal_move_directions}
use ai2_final_thief_edward_d.Hints.{HintIntent, truth}
use ai2_final_thief_edward_d.Belief.{BeliefMap}
use ai2_final_thief_edward_d.Belief.Model.{most_likely}

-- strategy/decision.py
pub record ThiefDecisionInput : Type 0 where
  pub legal_directions : List Direction
  pub position : Position
  pub visited : List Position
  pub board : Board
  pub belief : BeliefMap
  pub step : ℕ

pub record Decision : Type 0 where
  pub direction : Direction
  pub intent : HintIntent

abbrev pub honest : Decision → Bool
honest d = elim d.intent [ truth ↦ true | _ ↦ false ]

-- `ctx.legal_directions or (Direction.STAY,)`, and its first element.
abbrev pub first_or_stay : List Direction → Direction
first_or_stay [] = stay
first_or_stay (d ∷ ds) = d

unfoldable pub fallback : ThiefDecisionInput → Decision
fallback ctx = record { direction = first_or_stay ctx.legal_directions; intent = truth }

-- The `try` of `decide`.
abbrev pub or_fallback : ThiefDecisionInput → Option Decision → Decision
or_fallback ctx none = fallback ctx
or_fallback ctx (some d) = d

-- strategy/baseline_thief_brain.py
abbrev pub Score : Type 0
Score = ℕ × ℕ × ℕ

-- `a < b` on tuples.
abbrev pub score_lt : Score → Score → Bool
score_lt a b = ltb a.0 b.0 || ((a.0 == b.0) && (ltb a.1 b.1 || ((a.1 == b.1) && ltb a.2 b.2)))

unfoldable pub score : ThiefDecisionInput → Position → Direction → Score
score ctx target d =
    let dest = apply_direction ctx.position d in
    let unvisited = if elem dest ctx.visited then 0 else 1 in
    (manhattan dest target, unvisited, length (legal_move_directions dest ctx.board))

-- `max(candidates, key=...)`, from the first maximum so far.
unfoldable pub max_from : (Direction → Score) → Direction → List Direction → Direction
max_from key leader [] = leader
max_from key leader (d ∷ ds) = max_from key (if score_lt (key leader) (key d) then d else leader) ds

-- An empty list raises ValueError.
abbrev pub max_by : (Direction → Score) → List Direction → Option Direction
max_by key [] = none
max_by key (d ∷ ds) = some (max_from key d ds)

abbrev pub shuffled : Option (List Direction → List Direction) → List Direction → List Direction
shuffled none ds = ds
shuffled (some shuffle) ds = shuffle ds

abbrev pub truthful : Option Direction → Option Decision
truthful none = none
truthful (some d) = some (record { direction = d; intent = truth })

-- `_decide`
unfoldable pub choose :
    Option (List Direction → List Direction) → ThiefDecisionInput → Option Decision
unfolding max_from score most_likely
choose rng ctx = elim ctx.legal_directions [
  | [] ↦ some (record { direction = stay; intent = truth })
  | d ∷ ds ↦ truthful (max_by (score ctx (most_likely ctx.belief)) (shuffled rng (d ∷ ds)))
]

-- `BaselineThiefBrain.decide`
unfoldable pub decide : Option (List Direction → List Direction) → ThiefDecisionInput → Decision
unfolding choose fallback
decide rng ctx = or_fallback ctx (choose rng ctx)
