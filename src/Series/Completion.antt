-- ===== src/Series/Completion.antt =====
-- How a series ends.
use Prim.Native.String.{String}
use ai2_final_thief_edward_d.Prelude.{
  ℕ, zero, suc, ◌+◌, ◌-◌, ◌≤◌, ◌≡◌, refl, ap, ◌∙◌, ◌⊎◌, inl, inr, Bool, true, false, not, none,
  length, ◌==◌, if◌then◌else◌, Result, ok, err, arith, All,
}
use ai2_final_thief_edward_d.Prelude.Int.{ℤ, pos}
use ai2_final_thief_edward_d.Prelude.Dict.{lookup}
use ai2_final_thief_edward_d.Lifecycle.{
  PeerState, waiting, auditing, error, series_complete, next_sub_game, series_audit_done,
  TransitionEvent, PeerStateMachine, new_machine, is_error, resolve, apply,
}
use ai2_final_thief_edward_d.Json.{Json}
use ai2_final_thief_edward_d.Sealing.Verdict.{audit-verified}
use ai2_final_thief_edward_d.Captures.{Scoring}
use ai2_final_thief_edward_d.Scent.{FloatArith, empty_scent_field}
use ai2_final_thief_edward_d.Scent.Emission.{zeros-IsSquare}
use ai2_final_thief_edward_d.SubGame.{SubGameState, initial, TurnInput, TurnFault}
use ai2_final_thief_edward_d.Turn.Steps.{apply-state, apply-result}
use ai2_final_thief_edward_d.Game.{SubGameRunResult, run_sub_game}
use ai2_final_thief_edward_d.Game.Turns.{is_loss, IsUncaught, IsLegal}
use ai2_final_thief_edward_d.Game.Conclusion.{Over, play_sub_game-Over, run_sub_game-Over}
use ai2_final_thief_edward_d.Series.{
  SeriesSubGameRecord, completed, technical_loss_ended_series, SeriesResult, SubGameSetup,
  record_of, Games, prepend, totalled, advance_after_sub_game, advancing, after_sub_game, run_games,
  run_series,
}

-- A sub-game counts as verified exactly if it is not a technical loss.
abbrev pub IsSound : SeriesSubGameRecord → Type 0
IsSound r = is_loss r.result ≡ not r.audit_verified

-- `n` sub-games that were left are over: all of them were played, or a technical loss has ended the
-- series, or an exception was raised that nothing catches.
abbrev pub Played : ℕ → Games → Type 0
Played n o = elim o.1 [
  | err f ↦ IsUncaught f
  | ok (rs, reason) ↦
      All IsSound rs
      × (((reason ≡ completed) × (o.0.state ≡ series_complete) × (length rs ≡ n))
          ⊎ ((reason ≡ technical_loss_ended_series) × (o.0.state ≡ error) × (length rs ≤ n)))
]

prepend-Played :
    (n : ℕ) (r : SeriesSubGameRecord) (o : Games)
    → IsSound r
    → Played n o
    → Played (suc n) (prepend r o)
prepend-Played n r (m, err f) s h = h
prepend-Played n r (m, ok (rs, reason)) s (sound, inl (e, q, l)) =
    ((s, sound), inl (e, q, ap suc l))
prepend-Played n r (m, ok (rs, reason)) s (sound, inr (e, q, l)) =
    ((s, sound), inr (e, q, omega (arith, l)))

-- The state in which the loop goes on with `n` sub-games left.
abbrev next_state : ℕ → PeerState
next_state zero = series_complete
next_state (suc n) = waiting

advance-resolve :
    (n : ℕ) (s : PeerState) (is_last : Bool)
    → is_last ≡ (n == 0)
    → s ≡ auditing
    → resolve s
        (record { kind = if is_last then series_audit_done else next_sub_game; detail = "" })
      ≡ ok (next_state n)
unfolding resolve
advance-resolve zero s is_last l e = ground (arith, l, e)
advance-resolve (suc n) s is_last l e = ground (arith, l, e)

advancing-Played :
    (n : ℕ) (m : PeerStateMachine) (is_last : Bool) (r : SeriesSubGameRecord)
    (rest : PeerStateMachine → Games)
    → is_last ≡ (n == 0)
    → m.state ≡ auditing
    → IsSound r
    → ((m' : PeerStateMachine) → m'.state ≡ next_state n → Played n (rest m'))
    → Played (suc n) (advancing m is_last r rest)
unfolding advance_after_sub_game
advancing-Played n m is_last r rest l e s k =
    let event : TransitionEvent = record {
      kind = if is_last then series_audit_done else next_sub_game;
      detail = "";
    } in
    let h : resolve m.state event ≡ ok (next_state n) = advance-resolve n m.state is_last l e in
    rw (apply-result m event ∙ h, advancing)
      (prepend-Played n r (rest (apply m event).0) s (k (apply m event).0 (apply-state m event h)))

module _ (digest : Json → String) where
  after_sub_game-Played :
      (n index : ℕ) (is_last : Bool) (scoring : Scoring)
      (o : SubGameState × Result TurnFault SubGameRunResult) (rest : PeerStateMachine → Games)
      → is_last ≡ (n == 0)
      → Over digest scoring o
      → ((m : PeerStateMachine) → m.state ≡ next_state n → Played n (rest m))
      → Played (suc n) (after_sub_game index is_last o rest)
  after_sub_game-Played n index is_last scoring (s, err f) rest l h k = h
  after_sub_game-Played n index is_last scoring (s, ok r) rest l (inl (e, t, a), _, _) k =
      let failed : is_error s.machine.state ≡ true = ground (arith, e) in
      rw failed ((ground (arith, t, a), tt), inr (refl, e, omega arith))
  after_sub_game-Played n index is_last scoring (s, ok r) rest l (inr (e, a, t, m), _, _) k =
      let audited : is_error s.machine.state ≡ false = ground (arith, e) in
      rw audited (
        advancing-Played n s.machine is_last (record_of index r) rest l e
          (ground (arith, a, t, m, audit-verified digest s.records)) k)

-- A series of `n` sub-games is over: either it is complete, after all of them, or a technical loss has
-- ended it in ERROR, after at most all; and a sub-game counts as verified exactly if it was not lost.
-- The only exceptions are those of `IsUncaught`.
abbrev pub Closed : ℕ → PeerStateMachine × Result TurnFault SeriesResult → Type 0
Closed n o = elim o.1 [
  | err f ↦ IsUncaught f
  | ok r ↦
      All IsSound r.sub_games
      × (((r.terminated_reason ≡ completed)
            × (r.final_state ≡ series_complete)
            × (length r.sub_games ≡ n))
          ⊎ ((r.terminated_reason ≡ technical_loss_ended_series)
              × (r.final_state ≡ error)
              × (length r.sub_games ≤ n)))
]

totalled-Closed : (n : ℕ) (o : Games) → Played n o → Closed n (totalled o)
totalled-Closed n (m, err f) h = h
totalled-Closed n (m, ok (rs, reason)) h = h

-- Every sub-game of the series has a threshold of at least 1 and is played with legal decisions.
abbrev pub IsFair : (ℕ → SubGameSetup) → (ℕ → ℕ → SubGameState → TurnInput) → Type 0
IsFair setup play = (k : ℕ) → (1 ≤ (setup k).deps.survival_threshold) × IsLegal (play k)

module _ (arithmetic : FloatArith) (digest : Json → String) where
  waiting-Over :
      (g : SubGameSetup) (number : ℤ) (m : PeerStateMachine) (bootstrap : Bool)
      (play : ℕ → SubGameState → TurnInput)
      → bootstrap ≡ false
      → m.state ≡ waiting
      → (1 ≤ g.deps.survival_threshold) × IsLegal play
      → Over digest g.scoring (
          run_sub_game arithmetic digest g.grid_size number g.thief_start m bootstrap play g.deps
            g.scoring none)
  unfolding run_sub_game initial empty_scent_field lookup
  waiting-Over g number m true play b e f = absurd (ground (arith, b))
  waiting-Over g number m false play b e f =
      (play_sub_game-Over arithmetic digest (initial g.grid_size number g.thief_start m) play g.deps
        g.scoring (e, (λ k l. (refl, refl)), zeros-IsSquare g.grid_size, refl) refl f.0 f.1).1

  later_games-Played :
      (n index num_games : ℕ) (setup : ℕ → SubGameSetup) (play : ℕ → ℕ → SubGameState → TurnInput)
      (m : PeerStateMachine)
      → IsFair setup play
      → num_games ≡ suc index + n
      → m.state ≡ next_state n
      → Played n (run_games arithmetic digest n (suc index) num_games setup play none m)
  unfolding run_games
  later_games-Played zero index num_games setup play m f e s = (tt, inl (refl, s, refl))
  later_games-Played (suc n) index num_games setup play m f e s =
      let g = setup (suc index) in
      after_sub_game-Played digest n (suc index) (suc index == (num_games - 1)) g.scoring
        (run_sub_game arithmetic digest g.grid_size (pos (suc (suc index))) g.thief_start m
          (suc index == 0) (play (suc index)) g.deps g.scoring none)
        (λ m'. run_games arithmetic digest n (suc (suc index)) num_games setup play none m')
        (ground (arith, e))
        (waiting-Over g (pos (suc (suc index))) m (suc index == 0) (play (suc index)) (ground arith)
          s (f (suc index)))
        (λ m' e'. later_games-Played n (suc index) num_games setup play m' f (omega (arith, e)) e')

  all_games-Played :
      (n : ℕ) (setup : ℕ → SubGameSetup) (play : ℕ → ℕ → SubGameState → TurnInput)
      → IsFair setup play
      → Played (suc n) (run_games arithmetic digest (suc n) 0 (suc n) setup play none new_machine)
  unfolding run_games
  all_games-Played n setup play f =
      let g = setup 0 in
      after_sub_game-Played digest n 0 (0 == (suc n - 1)) g.scoring
        (run_sub_game arithmetic digest g.grid_size (pos 1) g.thief_start new_machine true (play 0)
          g.deps g.scoring none)
        (λ m'. run_games arithmetic digest n 1 (suc n) setup play none m') (ground arith)
        (run_sub_game-Over arithmetic digest g.grid_size (pos 1) g.thief_start (play 0) g.deps
          g.scoring (f 0).0 (f 0).1)
        (λ m' e'. later_games-Played n 0 (suc n) setup play m' f (omega arith) e')

  -- A fresh peer that runs a series of at least one sub-game with the default cap, with legal
  -- decisions and with thresholds of at least 1, ends: complete, in SERIES_COMPLETE after all of the
  -- sub-games, or by a technical loss, in ERROR after at most all of them. A sub-game counts as verified
  -- exactly if it is no technical loss. The only exceptions are an illegal action and an opponent's turn
  -- of which a part cannot be read; the coordinates that can be read are integers.
  pub run_series-Closed :
      (num_games : ℕ) (setup : ℕ → SubGameSetup) (play : ℕ → ℕ → SubGameState → TurnInput)
      → 1 ≤ num_games
      → IsFair setup play
      → Closed num_games (run_series arithmetic digest num_games setup play none new_machine)
  unfolding run_series
  run_series-Closed zero setup play h f = absurd (omega (arith, h))
  run_series-Closed (suc n) setup play h f =
      totalled-Closed (suc n) _ (all_games-Played n setup play f)
