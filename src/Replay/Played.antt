-- ===== src/Replay/Played.antt =====
-- The log of a sub-game that was played is checked by the replay verifier.
use Prim.Native.String.{String}
use mathlib.Core.Path.{subst}
use ai2_final_thief_edward_d.Prelude.{
  ℕ, zero, suc, ◌≤◌, ◌≡◌, ◌↔◌, inl, inr, refl, sym, Bool, true, false, not, Option, none, some,
  List, [], ◌∷◌, map, All, if◌then◌else◌, Result, ok, err, arith,
}
use ai2_final_thief_edward_d.Prelude.Int.{ℤ, pos, eq_ℤ_iff}
use ai2_final_thief_edward_d.Grid.{Position}
use ai2_final_thief_edward_d.Lifecycle.{
  PeerStateMachine, Rejection, auditing, is_error, force_error, new_machine,
}
use ai2_final_thief_edward_d.Json.{Json}
use ai2_final_thief_edward_d.Sealing.Audit.{SealedRecord}
use ai2_final_thief_edward_d.Sealing.Verdict.{all_match, distinct, nonces, counted}
use ai2_final_thief_edward_d.Captures.{SubGameResult, technical_loss, Scoring}
use ai2_final_thief_edward_d.Scent.{FloatArith}
use ai2_final_thief_edward_d.SubGame.{
  SubGameState, initial, Deps, TurnInput, TurnFault, illegal_transition, Outcome,
}
use ai2_final_thief_edward_d.Turn.{run_turn}
use ai2_final_thief_edward_d.Game.{
  SubGameRunResult, or_loss, cap_of, finalize, abort, run_turns, concluded, play_sub_game,
  run_sub_game, fast_forward, lifecycle_to_waiting,
}
use ai2_final_thief_edward_d.Game.Turns.{is_loss, IsLegal}
use ai2_final_thief_edward_d.Game.Conclusion.{Over, run_sub_game-Over}
use ai2_final_thief_edward_d.Replay.{log_step, verify_log}
use ai2_final_thief_edward_d.Replay.Verdict.{IsThiefPayload, verify_log-thief}
use ai2_final_thief_edward_d.Replay.Log.{LoggedFrom, AtStep, Left, raised, over, follows}
use ai2_final_thief_edward_d.Replay.Turns.{run_turn-Left}

LoggedFrom-thief :
    (k : ℕ) (rs : List SealedRecord) → LoggedFrom k rs → All (λ r. IsThiefPayload r.payload) rs
LoggedFrom-thief k [] h = tt
LoggedFrom-thief k (r ∷ rs) h = (h.1, LoggedFrom-thief (suc k) rs h.2)

LoggedFrom-counted : (k : ℕ) (rs : List SealedRecord) → LoggedFrom k rs → counted k rs ≡ true
LoggedFrom-counted k [] h = refl
LoggedFrom-counted k (r ∷ rs) h =
    ground (arith, h.0, eq_ℤ_iff r.payload.step (pos k), LoggedFrom-counted (suc k) rs h.2)

abbrev Turns : Type 0
Turns = SubGameState × Result TurnFault (Option SubGameResult)

turned-logged :
    (o : Outcome) (rest : SubGameState → Turns)
    → Left o
    → ((s : SubGameState) → AtStep s → LoggedFrom 0 (rest s).0.records)
    → LoggedFrom 0
        (elim o.1 as (λ _. Turns) [
          | err f ↦ (o.0, err f)
          | ok turn ↦ if turn.ended then (o.0, ok (some (or_loss turn.outcome))) else rest o.0
        ]).0.records
turned-logged o rest (raised s f h) k = h
turned-logged o rest (over s result h) k = h
turned-logged o rest (follows s result h) k = k s h

module _ (arithmetic : FloatArith) (digest : Json → String) where
  run_turns-logged :
      (n k : ℕ) (s : SubGameState) (play : ℕ → SubGameState → TurnInput) (deps : Deps)
      → AtStep s
      → LoggedFrom 0 (run_turns arithmetic digest n k s play deps).0.records
  unfolding run_turns
  run_turns-logged zero k s play deps h = h.0
  run_turns-logged (suc n) k s play deps h =
      turned-logged (run_turn arithmetic digest s (play k s) deps)
        (λ s'. run_turns arithmetic digest n (suc k) s' play deps)
        (run_turn-Left arithmetic digest s (play k s) deps h)
        (λ s' h'. run_turns-logged n (suc k) s' play deps h')

  -- The end of a sub-game keeps the records as they are.
  abbrev KeepsRecords :
      List SealedRecord → SubGameState × Result TurnFault SubGameRunResult → Type 0
  KeepsRecords rs o = o.0.records ≡ rs

  ending :
      {A : Type 0} (r : Result Rejection A) (s : SubGameState)
      (o : SubGameState × Result TurnFault SubGameRunResult) (rs : List SealedRecord)
      → s.records ≡ rs
      → KeepsRecords rs o
      → KeepsRecords rs (elim r [ err e ↦ (s, err (illegal_transition e)) | ok _ ↦ o ])
  ending (ok a) s o rs h k = k
  ending (err e) s o rs h k = h

  by_state :
      (c : Bool) (x y : SubGameState × Result TurnFault SubGameRunResult) (rs : List SealedRecord)
      → KeepsRecords rs x
      → KeepsRecords rs y
      → KeepsRecords rs (if c then x else y)
  by_state true x y rs p q = p
  by_state false x y rs p q = q

  finalize-records :
      (s : SubGameState) (scoring : Scoring) (result : SubGameResult)
      → KeepsRecords s.records (finalize digest s scoring result)
  unfolding finalize
  finalize-records s scoring result =
      by_state (not (is_error s.machine.state)) _ _ s.records (ending _ _ _ s.records refl refl)
        refl

  abort-records :
      (s : SubGameState) (scoring : Scoring) (reason : String)
      → KeepsRecords s.records (abort digest s scoring reason)
  unfolding abort
  abort-records s scoring reason =
      by_state (not (is_error s.machine.state)) _ _ s.records
        (ending _ _ _ s.records refl (
          finalize-records (record s { machine = (force_error s.machine reason).0 }) scoring
            technical_loss))
        (finalize-records s scoring technical_loss)

  concluded-records :
      (scoring : Scoring) (o : Turns)
      → KeepsRecords o.0.records (concluded arithmetic digest scoring o)
  concluded-records scoring (s, err f) = refl
  concluded-records scoring (s, ok none) = abort-records s scoring _
  concluded-records scoring (s, ok (some result)) = finalize-records s scoring result

  play_sub_game-logged :
      (s : SubGameState) (play : ℕ → SubGameState → TurnInput) (deps : Deps) (scoring : Scoring)
      (max_turns : Option ℕ)
      → AtStep s
      → LoggedFrom 0 (play_sub_game arithmetic digest s play deps scoring max_turns).0.records
  unfolding play_sub_game
  play_sub_game-logged s play deps scoring max_turns h =
      let o = run_turns arithmetic digest (cap_of deps max_turns) 0 s play deps in
      subst (LoggedFrom 0) (sym (concluded-records scoring o))
        (run_turns-logged (cap_of deps max_turns) 0 s play deps h)

  started-logged :
      (fault : Option Rejection) (s : SubGameState)
      (o : SubGameState × Result TurnFault SubGameRunResult)
      → s.records ≡ []
      → LoggedFrom 0 o.0.records
      → LoggedFrom 0
          (elim fault as (λ _. SubGameState × Result TurnFault SubGameRunResult) [
            | some e ↦ (s, err (illegal_transition e))
            | none ↦ o
          ]).0.records
  started-logged none s o e h = h
  started-logged (some f) s o e h = subst (LoggedFrom 0) (sym e) tt

  -- Whatever the opponent, the strategy and the machine do, the records of a sub-game are a thief's
  -- records, one for each step from 0 on.
  run_sub_game-logged :
      (grid_size : ℕ) (number : ℤ) (start : Position) (m : PeerStateMachine) (bootstrap : Bool)
      (play : ℕ → SubGameState → TurnInput) (deps : Deps) (scoring : Scoring) (max_turns : Option ℕ)
      → LoggedFrom 0
          (run_sub_game arithmetic digest grid_size number start m bootstrap play deps scoring
            max_turns).0.records
  unfolding run_sub_game initial
  run_sub_game-logged grid_size number start m false play deps scoring max_turns =
      play_sub_game-logged (initial grid_size number start m) play deps scoring max_turns (tt, refl)
  run_sub_game-logged grid_size number start m true play deps scoring max_turns =
      let (m', fault) = fast_forward m lifecycle_to_waiting in
      let s = record (initial grid_size number start m) { machine = m' } in
      started-logged fault s (play_sub_game arithmetic digest s play deps scoring max_turns) refl
        (play_sub_game-logged s play deps scoring max_turns (tt, refl))

  logged_verdict :
      (legacy_position : String → ℤ × ℤ) (size : ℤ) (rs : List SealedRecord)
      → LoggedFrom 0 rs
      → all_match digest rs ≡ true
      → (verify_log legacy_position digest size (map log_step rs) ≡ some [])
        ↔ (distinct (nonces rs) ≡ true)
  logged_verdict legacy_position size rs h m = ground (
    arith,
    m,
    LoggedFrom-counted 0 rs h,
    verify_log-thief legacy_position digest size rs (LoggedFrom-thief 0 rs h),
  )

  -- The log of a sub-game that a fresh peer has played to its audit, with legal decisions, a threshold of
  -- at least 1 and any opponent, is found clean by the replay verifier exactly if the sub-game was not
  -- lost: what the turns keep, the writer writes and the verifier reads belong together.
  pub run_sub_game-verify_log :
      (legacy_position : String → ℤ × ℤ) (size : ℤ) (grid_size : ℕ) (number : ℤ) (start : Position)
      (play : ℕ → SubGameState → TurnInput) (deps : Deps) (scoring : Scoring) (s : SubGameState)
      (r : SubGameRunResult)
      → 1 ≤ deps.survival_threshold
      → IsLegal play
      → run_sub_game arithmetic digest grid_size number start new_machine true play deps scoring
          none
        ≡ (s, ok r)
      → s.machine.state ≡ auditing
      → (verify_log legacy_position digest size (map log_step r.records) ≡ some [])
        ↔ (is_loss r.result ≡ false)
  run_sub_game-verify_log legacy_position size grid_size number start play deps scoring s r t legal
        e a =
      let over =
        subst (Over digest scoring) e
          (run_sub_game-Over arithmetic digest grid_size number start play deps scoring t legal) in
      let logged =
        subst (λ o. LoggedFrom 0 o.0.records) e
          (run_sub_game-logged grid_size number start new_machine true play deps scoring none) in
      rw over.1 (elim over.0 [
        | inl l ↦ absurd (ground (arith, l.0, a))
        | inr l ↦ ground (arith, l.2, logged_verdict legacy_position size s.records logged l.3)
      ])
