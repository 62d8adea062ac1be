-- ===== src/Strategy/Play.antt =====
-- A brain in the turn loop: the input that `_run_turn` of services/turn_loop.py builds for it, and what
-- follows for the sub-game and the series, whose theorems ask for legal decisions.
use ai2_final_thief_edward_d.Prelude.{ℕ, ◌≤◌, Option, none, List}
use ai2_final_thief_edward_d.Grid.{Direction}
use ai2_final_thief_edward_d.Rules.{direction_is_eq, legal_move_directions}
use ai2_final_thief_edward_d.Lifecycle.{new_machine}
use ai2_final_thief_edward_d.Json.{Json, Float}
use ai2_final_thief_edward_d.Scent.{FloatArith}
use ai2_final_thief_edward_d.SubGame.{SubGameState, TurnInput}
use ai2_final_thief_edward_d.Game.Turns.{IsLegal}
use ai2_final_thief_edward_d.Series.{SubGameSetup, run_series}
use ai2_final_thief_edward_d.Series.Completion.{Closed, run_series-Closed}
use ai2_final_thief_edward_d.Belief.{BeliefArith, BeliefMap}
use ai2_final_thief_edward_d.Strategy.{ThiefDecisionInput, Decision}
use ai2_final_thief_edward_d.Strategy
use ai2_final_thief_edward_d.Strategy.Escape
use ai2_final_thief_edward_d.Strategy.Utility.{EntropyEscapeWeights}
use ai2_final_thief_edward_d.Strategy.Legal.{Allowed, IsShuffle, decide-Allowed, escape_stays_legal}
use Prim.Native.String.{String}

-- A brain: its memory, its decision with the memory that it leaves, and that it is allowed.
pub record Brain : Type 1 where
  pub Memory : Type 0
  pub decide : ThiefDecisionInput → Memory → Decision × Memory
  pub legal : (ctx : ThiefDecisionInput) (m : Memory) → Allowed ctx (decide ctx m).0

abbrev pub baseline_brain : (rng : Option (List Direction → List Direction)) → IsShuffle rng → Brain
baseline_brain rng h = record {
  Memory = Unit;
  decide = λ ctx m. (Strategy.decide rng ctx, m);
  legal = λ ctx m. decide-Allowed rng ctx h;
}

abbrev pub entropy_escape_brain : BeliefArith → EntropyEscapeWeights → (ℕ → Float) → Brain
entropy_escape_brain a w draw = record {
  Memory = List Direction;
  decide = λ ctx recent. Escape.decide a w draw ctx recent;
  legal = λ ctx recent. escape_stays_legal a w draw ctx recent;
}

-- The input of the brain in `_run_turn`, for the belief after its update.
unfoldable pub decision_input : SubGameState → BeliefMap → ThiefDecisionInput
decision_input s belief = record {
  legal_directions = legal_move_directions s.position s.board;
  position = s.position;
  visited = s.visited;
  board = s.board;
  belief = belief;
  step = s.step;
}

module _ (brain : Brain) (memory : ℕ → brain.Memory) (belief : ℕ → SubGameState → BeliefMap) where
  -- The inputs of the turns, with the brain's decisions in place of theirs.
  unfoldable pub decided : (ℕ → SubGameState → TurnInput) → ℕ → SubGameState → TurnInput
  decided input k s =
      let d = (brain.decide (decision_input s (belief k s)) (memory k)).0 in
      record (input k s) { direction = d.direction; intent = d.intent }

  pub decided-IsLegal : (input : ℕ → SubGameState → TurnInput) → IsLegal (decided input)
  unfolding decided decision_input legal_move_directions
  decided-IsLegal input k s = brain.legal (decision_input s (belief k s)) (memory k)

-- A fresh peer that plays a series of at least one sub-game by either of the two brains, with thresholds
-- of at least 1, ends whatever the beliefs and the brain's memory are: complete after all of the
-- sub-games, or by a technical loss in ERROR; the only exceptions are an illegal action and an opponent's
-- turn of which a part cannot be read.
pub run_series-decided-Closed :
    (arithmetic : FloatArith) (digest : Json → String) (brain : Brain) (num_games : ℕ)
    (setup : ℕ → SubGameSetup) (memory : ℕ → ℕ → brain.Memory)
    (belief : ℕ → ℕ → SubGameState → BeliefMap) (input : ℕ → ℕ → SubGameState → TurnInput)
    → 1 ≤ num_games
    → ((k : ℕ) → 1 ≤ (setup k).deps.survival_threshold)
    → Closed num_games (
        run_series arithmetic digest num_games setup
          (λ k. decided brain (memory k) (belief k) (input k))
          none
          new_machine)
run_series-decided-Closed arithmetic digest brain num_games setup memory belief input h t =
    run_series-Closed arithmetic digest num_games setup _ h
      (λ k. (t k, decided-IsLegal brain (memory k) (belief k) (input k)))
