-- ===== src/Series.antt =====
-- A series of sub-games on one lifecycle machine: services/series_runtime.py of src/thief_peer. The
-- deps of each sub-game, and the strategy with its opponent, are functions of its index; the run
-- results that the records sum up are left out.
pub mod Completion
mod Tests
use Prim.Native.String.{String}
use ai2_final_thief_edward_d.Prelude.{
  ℕ, zero, suc, ◌-◌, Bool, true, false, Option, none, some, List, [], ◌∷◌, ◌==◌, if◌then◌else◌,
  Result, ok, err,
}
use ai2_final_thief_edward_d.Prelude.Int.{ℤ, pos, ◌+ℤ◌}
use ai2_final_thief_edward_d.Grid.{Position}
use ai2_final_thief_edward_d.Lifecycle.{
  PeerState, EventKind, next_sub_game, series_audit_done, Rejection, PeerStateMachine, is_error,
  apply,
}
use ai2_final_thief_edward_d.Json.{Json}
use ai2_final_thief_edward_d.Sealing.Audit.{AuditReport, is_verified}
use ai2_final_thief_edward_d.Captures.{SubGameResult, Scoring}
use ai2_final_thief_edward_d.Scent.{FloatArith}
use ai2_final_thief_edward_d.SubGame.{SubGameState, Deps, TurnInput, TurnFault, illegal_transition}
use ai2_final_thief_edward_d.Game.{SubGameRunResult, run_sub_game}

pub record SeriesSubGameRecord : Type 0 where
  pub sub_game_number : ℕ
  pub result : SubGameResult
  pub police_score : ℤ
  pub thief_score : ℤ
  pub steps_taken : ℕ
  pub audit_verified : Bool

pub data TerminatedReason : Type 0 where
  completed technical_loss_ended_series : TerminatedReason

pub record SeriesResult : Type 0 where
  pub sub_games : List SeriesSubGameRecord
  pub police_total : ℤ
  pub thief_total : ℤ
  pub terminated_reason : TerminatedReason
  pub final_state : PeerState

-- What `deps_factory` gives for one sub-game.
pub record SubGameSetup : Type 0 where
  pub grid_size : ℕ
  pub thief_start : Position
  pub deps : Deps
  pub scoring : Scoring

-- `result.audit.verified if result.audit is not None else False`
abbrev pub verified_in : Option AuditReport → Bool
verified_in none = false
verified_in (some report) = is_verified report

abbrev pub record_of : ℕ → SubGameRunResult → SeriesSubGameRecord
record_of index r = record {
  sub_game_number = suc index;
  result = r.result;
  police_score = r.police_score;
  thief_score = r.thief_score;
  steps_taken = r.steps_taken;
  audit_verified = verified_in r.audit;
}

-- The records so far with the reason, or an exception.
abbrev pub Games : Type 0
Games = PeerStateMachine × Result TurnFault (List SeriesSubGameRecord × TerminatedReason)

abbrev pub prepend : SeriesSubGameRecord → Games → Games
prepend r (m, err f) = (m, err f)
prepend r (m, ok (rs, reason)) = (m, ok (r ∷ rs, reason))

unfoldable pub advance_after_sub_game :
    PeerStateMachine → Bool → PeerStateMachine × Result Rejection PeerState
advance_after_sub_game m is_last =
    apply m (record { kind = if is_last then series_audit_done else next_sub_game; detail = "" })

abbrev pub advancing :
    PeerStateMachine → Bool → SeriesSubGameRecord → (PeerStateMachine → Games) → Games
advancing m is_last r rest =
    let (m', a) = advance_after_sub_game m is_last in
    elim a [ err e ↦ (m', err (illegal_transition e)) | ok _ ↦ prepend r (rest m') ]

-- The rest of the loop's body, and then the rest of the loop.
abbrev pub after_sub_game :
    ℕ → Bool → SubGameState × Result TurnFault SubGameRunResult → (PeerStateMachine → Games) → Games
after_sub_game index is_last (s, err f) rest = (s.machine, err f)
after_sub_game index is_last (s, ok r) rest =
    if is_error s.machine.state
    then (s.machine, ok (record_of index r ∷ [], technical_loss_ended_series))
    else advancing s.machine is_last (record_of index r) rest

abbrev pub sum_of : (SeriesSubGameRecord → ℤ) → List SeriesSubGameRecord → ℤ
sum_of f [] = pos 0
sum_of f (r ∷ rs) = f r +ℤ sum_of f rs

abbrev pub totalled : Games → PeerStateMachine × Result TurnFault SeriesResult
totalled (m, err f) = (m, err f)
totalled (m, ok (records, reason)) = (
  m,
  ok (record {
    sub_games = records;
    police_total = sum_of (λ r. r.police_score) records;
    thief_total = sum_of (λ r. r.thief_score) records;
    terminated_reason = reason;
    final_state = m.state;
  }),
)

module _ (arithmetic : FloatArith) (digest : Json → String) where
  -- The loop of `run_series` from an index on, with so many sub-games left.
  unfoldable pub run_games :
      ℕ
      → ℕ
      → ℕ
      → (ℕ → SubGameSetup)
      → (ℕ → ℕ → SubGameState → TurnInput)
      → Option ℕ
      → PeerStateMachine
      → Games
  unfolding advance_after_sub_game
  run_games zero index num_games setup play max_turns m = (m, ok ([], completed))
  run_games (suc n) index num_games setup play max_turns m =
      let g = setup index in
      after_sub_game index (index == (num_games - 1))
        (run_sub_game arithmetic digest g.grid_size (pos (suc index)) g.thief_start m (index == 0)
          (play index) g.deps g.scoring max_turns)
        (λ m'. run_games n (suc index) num_games setup play max_turns m')

  unfoldable pub run_series :
      ℕ
      → (ℕ → SubGameSetup)
      → (ℕ → ℕ → SubGameState → TurnInput)
      → Option ℕ
      → PeerStateMachine
      → PeerStateMachine × Result TurnFault SeriesResult
  unfolding run_games
  run_series num_games setup play max_turns machine =
      totalled (run_games num_games 0 num_games setup play max_turns machine)
