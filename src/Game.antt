-- ===== src/Game.antt =====
-- A whole sub-game: services/subgame_runtime.py and services/outcomes.py of src/thief_peer. A
-- strategy with its opponent is a function that gives the input of each turn from its number and
-- the state. The reason texts, the health poll before the first turn and asyncio's cancellation are
-- left out.
pub mod Turns
pub mod Conclusion
mod Tests
use Prim.Native.String.{String}
use ai2_final_thief_edward_d.Prelude.{
  ℕ, zero, suc, Bool, true, false, not, Option, none, some, List, [], ◌∷◌, length, if◌then◌else◌,
  Result, ok, err,
}
use ai2_final_thief_edward_d.Prelude.Int.{ℤ}
use ai2_final_thief_edward_d.Grid.{Position}
use ai2_final_thief_edward_d.Lifecycle.{
  EventKind, server_started, begin_negotiation, terms_signed, sub_game_start, begin_audit,
  TransitionEvent, Rejection, PeerState, PeerStateMachine, is_error, apply, force_error,
}
use ai2_final_thief_edward_d.Json.{Json}
use ai2_final_thief_edward_d.Sealing.Audit.{
  AuditReport, SealedRecord, is_verified, audit_sealed_records,
}
use ai2_final_thief_edward_d.Captures.{SubGameResult, technical_loss, Scoring, score_sub_game}
use ai2_final_thief_edward_d.Scent.{FloatArith}
use ai2_final_thief_edward_d.Turn.{run_turn}
use ai2_final_thief_edward_d.SubGame.{
  SubGameState, initial, Deps, TurnInput, TurnFault, illegal_transition, TurnResult,
}

pub record SubGameRunResult : Type 0 where
  pub result : SubGameResult
  pub steps_taken : ℕ
  pub records : List SealedRecord
  pub audit : Option AuditReport
  pub police_score : ℤ
  pub thief_score : ℤ

-- `_LIFECYCLE_TO_WAITING` with the detail of each event.
abbrev pub lifecycle_to_waiting : List TransitionEvent
lifecycle_to_waiting =
    record { kind = server_started; detail = "" }
    ∷ record { kind = begin_negotiation; detail = "" }
    ∷ record { kind = terms_signed; detail = "config_sha256" }
    ∷ record { kind = sub_game_start; detail = "" }
    ∷ []

-- The loop of `_fast_forward_to_waiting`: the machine, and the first exception.
unfoldable pub fast_forward :
    PeerStateMachine → List TransitionEvent → PeerStateMachine × Option Rejection
fast_forward m [] = (m, none)
fast_forward m (e ∷ es) =
    let (m', r) = apply m e in
    let rest = fast_forward m' es in elim r [ err x ↦ (m', some x) | ok _ ↦ rest ]

-- The outcome of a turn that ended the sub-game; such a turn never has the outcome None.
abbrev pub or_loss : Option SubGameResult → SubGameResult
or_loss none = technical_loss
or_loss (some r) = r

abbrev pub cap_of : Deps → Option ℕ → ℕ
cap_of deps none = suc deps.survival_threshold
cap_of deps (some n) = n

abbrev pub scored : SubGameState → Scoring → SubGameResult → Option AuditReport → SubGameRunResult
scored s scoring result audit =
    let (police, thief) = score_sub_game result scoring false in
    record {
      result = result;
      steps_taken = length s.records;
      records = s.records;
      audit = audit;
      police_score = police;
      thief_score = thief;
    }

module _ (digest : Json → String) where
  unfoldable pub finalize :
      SubGameState → Scoring → SubGameResult → SubGameState × Result TurnFault SubGameRunResult
  finalize s scoring result =
      if not (is_error s.machine.state)
      then (let report = audit_sealed_records digest s.records in
          let (m, r) = apply s.machine (record { kind = begin_audit; detail = "" }) in
          let s' = record s { machine = m } in
          elim r [
            | err e ↦ (s', err (illegal_transition e))
            | ok _ ↦
                let final = if not (is_verified report) then technical_loss else result in
                (s', ok (scored s' scoring final (some report)))
          ])
      else (s, ok (scored s scoring result none))

  unfoldable pub abort :
      SubGameState → Scoring → String → SubGameState × Result TurnFault SubGameRunResult
  unfolding finalize
  abort s scoring reason =
      if not (is_error s.machine.state)
      then (let (m, r) = force_error s.machine reason in
          let s' = record s { machine = m } in
          elim r [
            | err e ↦ (s', err (illegal_transition e))
            | ok _ ↦ finalize s' scoring technical_loss
          ])
      else finalize s scoring technical_loss

module _ (arithmetic : FloatArith) (digest : Json → String) where
  -- The loop of `run` over `range(cap)`, at turn `k`: the outcome of the turn that ended the
  -- sub-game, or none when the range is exhausted.
  unfoldable pub run_turns :
      ℕ
      → ℕ
      → SubGameState
      → (ℕ → SubGameState → TurnInput)
      → Deps
      → SubGameState × Result TurnFault (Option SubGameResult)
  run_turns zero k s play deps = (s, ok none)
  run_turns (suc n) k s play deps =
      let (s', r) = run_turn arithmetic digest s (play k s) deps in
      let rest = run_turns n (suc k) s' play deps in
      elim r [
        | err f ↦ (s', err f)
        | ok turn ↦ if turn.ended then (s', ok (some (or_loss turn.outcome))) else rest
      ]

  abbrev pub concluded :
      Scoring
      → SubGameState × Result TurnFault (Option SubGameResult)
      → SubGameState × Result TurnFault SubGameRunResult
  concluded scoring (s, err f) = (s, err f)
  concluded scoring (s, ok none) =
      abort digest s scoring "turn cap exhausted before a natural sub-game outcome"
  concluded scoring (s, ok (some result)) = finalize digest s scoring result

  -- `run` from the turn loop on, with the default cap, `survival_threshold + 1`, or the caller's.
  unfoldable pub play_sub_game :
      SubGameState
      → (ℕ → SubGameState → TurnInput)
      → Deps
      → Scoring
      → Option ℕ
      → SubGameState × Result TurnFault SubGameRunResult
  unfolding run_turns abort
  play_sub_game s play deps scoring max_turns =
      concluded scoring (run_turns (cap_of deps max_turns) 0 s play deps)

  -- `SubGameRuntime(deps, number, machine=machine).run(max_turns, bootstrap=bootstrap)`
  unfoldable pub run_sub_game :
      ℕ
      → ℤ
      → Position
      → PeerStateMachine
      → Bool
      → (ℕ → SubGameState → TurnInput)
      → Deps
      → Scoring
      → Option ℕ
      → SubGameState × Result TurnFault SubGameRunResult
  unfolding play_sub_game fast_forward
  run_sub_game grid_size number start machine bootstrap play deps scoring max_turns =
      let s = initial grid_size number start machine in
      if bootstrap
      then (let (m, fault) = fast_forward machine lifecycle_to_waiting in
          let s' = record s { machine = m } in
          elim fault [
            | some e ↦ (s', err (illegal_transition e))
            | none ↦ play_sub_game s' play deps scoring max_turns
          ])
      else play_sub_game s play deps scoring max_turns
