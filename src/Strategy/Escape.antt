-- ===== src/Strategy/Escape.antt =====
-- The entropy-escape brain: strategy/entropy_escape_thief_brain.py of src/thief_peer. Its generator's
-- draws are an argument, the draw for each candidate by its place.
use ai2_final_thief_edward_d.Prelude.{
  and_then, ℕ, suc, ◌-◌, Bool, Option, some, List, [], ◌∷◌, ◌++◌, length, drop, if◌then◌else◌,
}
use ai2_final_thief_edward_d.Prelude.Int.{pos}
use ai2_final_thief_edward_d.Grid.{Direction, stay, apply_direction}
use ai2_final_thief_edward_d.Json.{Float, dyadic, infinite}
use ai2_final_thief_edward_d.Hints.{HintIntent, truth, lie}
use ai2_final_thief_edward_d.Scent.{float_lt}
use ai2_final_thief_edward_d.Belief.{BeliefArith, BeliefMap, float_le}
use ai2_final_thief_edward_d.Strategy.{ThiefDecisionInput, Decision, fallback, or_fallback}
use ai2_final_thief_edward_d.Strategy.Utility.{
  EntropyEscapeWeights, project_belief, score_move, capture_risk,
}

abbrev pub history_len : ℕ
history_len = 4

-- `append` on a deque of that length: the oldest entries drop out.
unfoldable pub remember : List Direction → Direction → List Direction
remember recent d = drop (suc (length recent) - history_len) (recent ++ (d ∷ []))

-- The double nearest to 1e-9.
abbrev pub tie_scale : Float
tie_scale = dyadic (pos 4835703278458517) 82

module _ (a : BeliefArith) (w : EntropyEscapeWeights) (draw : ℕ → Float) where
  -- The score of the candidate at place `i`.
  abbrev pub utility :
      ThiefDecisionInput → BeliefMap → List Direction → ℕ → Direction → Option Float
  utility ctx projected recent i d =
      and_then
        (score_move a ctx.position (apply_direction ctx.position d) ctx.belief projected ctx.board
          ctx.visited recent w)
        (λ s. some (a.floats.add s (a.floats.mul (draw i) tie_scale)))

  -- The loop over the candidates, with the leader direction and score so far.
  unfoldable pub best_from :
      ThiefDecisionInput
      → BeliefMap
      → List Direction
      → ℕ
      → Direction
      → Float
      → List Direction
      → Option Direction
  unfolding score_move
  best_from ctx projected recent i leader best_score [] = some leader
  best_from ctx projected recent i leader best_score (d ∷ ds) =
      and_then (utility ctx projected recent i d) (λ s.
        best_from ctx projected recent (suc i) (if float_lt best_score s then d else leader)
          (if float_lt best_score s then s else best_score) ds)

  -- The hint lies if the risk at the destination reaches the threshold.
  abbrev pub intent_of : Float → HintIntent
  intent_of risk = if float_le w.deception_risk_threshold risk then lie else truth

  abbrev pub with_intent : ThiefDecisionInput → Direction → Option Decision
  with_intent ctx d =
      and_then (capture_risk (apply_direction ctx.position d) ctx.belief)
        (λ risk. some (record { direction = d; intent = intent_of risk }))

  -- `_decide`
  unfoldable pub choose : ThiefDecisionInput → List Direction → Option Decision
  unfolding project_belief best_from capture_risk
  choose ctx recent = elim ctx.legal_directions [
    | [] ↦ some (record { direction = stay; intent = truth })
    | d ∷ ds ↦ and_then (project_belief a ctx.belief ctx.board w.lookahead_depth) (λ projected.
        and_then (best_from ctx projected recent 0 d (infinite Bool.false) (d ∷ ds))
          (with_intent ctx))
  ]

  -- `EntropyEscapeThiefBrain.decide`, with the recent directions that it leaves.
  unfoldable pub decide : ThiefDecisionInput → List Direction → Decision × List Direction
  unfolding choose fallback remember
  decide ctx recent =
      let decision = or_fallback ctx (choose ctx recent) in
      (decision, remember recent decision.direction)
