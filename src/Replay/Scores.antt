-- ===== src/Replay/Scores.antt =====
-- The check of the scores: `verify_scores` of services/replay_checks.py of src/thief_peer. The result's
-- dict is read as a record. An unknown name of a result raises ValueError, `none`.
use Prim.Native.String.{String}
use text.Mathlib.Text.{◌==◌ as str_eq}
use ai2_final_thief_edward_d.Prelude.{
  ℕ, Bool, false, not, ◌&&◌, Option, none, some, List, [], ◌∷◌, ◌++◌, if◌then◌else◌, and_then,
}
use ai2_final_thief_edward_d.Prelude.Int.{ℤ, pos, ◌+ℤ◌, eq_ℤ}
use ai2_final_thief_edward_d.Captures.{
  SubGameResult, capture, survival, technical_loss, Scoring, score_sub_game,
}

-- An element of `result["sub_games"]`.
pub record Entry : Type 0 where
  pub sub_game_number : ℤ
  pub result : String
  pub police_score : ℤ
  pub thief_score : ℤ
  pub steps : ℕ

pub record ReplayResult : Type 0 where
  pub game_uid : Option String
  pub config_sha256 : Option String
  pub sub_games : List Entry
  pub police_total : ℤ
  pub thief_total : ℤ
  pub agreement_status : Option String

pub data ScoreFinding : Type 0 where
  wrong_score : ℤ → ScoreFinding
  not_zeroed totals_differ : ScoreFinding

-- `SubGameResult(value)`
unfoldable pub result_of : String → Option SubGameResult
result_of name =
    if str_eq name "capture"
    then some capture
    else if str_eq name "survival"
    then some survival
    else if str_eq name "technical_loss"
    then some technical_loss
    else none

-- `a == b` on pairs of numbers.
abbrev pub pair_eq : ℤ × ℤ → ℤ × ℤ → Bool
pair_eq a b = eq_ℤ a.0 b.0 && eq_ℤ a.1 b.1

abbrev pub declared : Entry → ℤ × ℤ
declared e = (e.police_score, e.thief_score)

-- The findings of the loop.
unfoldable pub check_scores : Scoring → List Entry → Option (List ScoreFinding)
unfolding result_of score_sub_game
check_scores scoring [] = some []
check_scores scoring (e ∷ es) = and_then (result_of e.result) (λ outcome.
    and_then (check_scores scoring es) (λ rest.
      if not (pair_eq (declared e) (score_sub_game outcome scoring false))
      then some (wrong_score e.sub_game_number ∷ rest)
      else some rest))

-- `police_sum` and `thief_sum` after the loop.
unfoldable pub score_sums : ℤ × ℤ → List Entry → ℤ × ℤ
score_sums sums [] = sums
score_sums sums (e ∷ es) = score_sums (sums.0 +ℤ e.police_score, sums.1 +ℤ e.thief_score) es

abbrev pub is_zeroed : ReplayResult → Bool
is_zeroed r = elim r.agreement_status [ none ↦ false | some s ↦ str_eq s "disputed_zeroed" ]

unfoldable pub check_totals : ReplayResult → List ScoreFinding
unfolding score_sums
check_totals r =
    if is_zeroed r
    then (if pair_eq (r.police_total, r.thief_total) (pos 0, pos 0) then [] else not_zeroed ∷ [])
    else (if pair_eq (score_sums (pos 0, pos 0) r.sub_games) (r.police_total, r.thief_total)
        then []
        else totals_differ ∷ [])

unfoldable pub verify_scores : ReplayResult → Scoring → Option (List ScoreFinding)
unfolding check_scores check_totals
verify_scores r scoring =
    and_then (check_scores scoring r.sub_games) (λ fs. some (fs ++ check_totals r))
