-- ===== src/Game/Conclusion.antt =====
-- What a sub-game returns.
use Prim.Native.String.{String}
use mathlib.Core.Path.{subst}
use ai2_final_thief_edward_d.Prelude.{
  ℕ, suc, ◌≤◌, ◌≡◌, ◌≢◌, refl, sym, ◌∙◌, ◌⊎◌, inl, inr, true, false, not, Option, none, some,
  if◌then◌else◌, Result, ok, err, arith,
}
use ai2_final_thief_edward_d.Prelude.Int.{ℤ}
use ai2_final_thief_edward_d.Prelude.Dict.{lookup}
use ai2_final_thief_edward_d.Grid.{Position}
use ai2_final_thief_edward_d.Lifecycle.{
  auditing, error, begin_audit, TransitionEvent, new_machine, is_error, resolve, apply,
}
use ai2_final_thief_edward_d.Json.{Json}
use ai2_final_thief_edward_d.Sealing.Audit.{is_verified, audit_sealed_records}
use ai2_final_thief_edward_d.Sealing.Verdict.{all_match, distinct, nonces, audit-verified}
use ai2_final_thief_edward_d.Captures.{SubGameResult, technical_loss, Scoring, score_sub_game}
use ai2_final_thief_edward_d.Scent.{FloatArith, empty_scent_field}
use ai2_final_thief_edward_d.Scent.Emission.{zeros-IsSquare}
use ai2_final_thief_edward_d.SubGame.{SubGameState, initial, Deps, TurnInput, TurnFault}
use ai2_final_thief_edward_d.Turn.Outcomes.{IsReady}
use ai2_final_thief_edward_d.Turn.Steps.{apply-state, apply-result}
use ai2_final_thief_edward_d.Game.{
  SubGameRunResult, scored, finalize, cap_of, run_turns, concluded, play_sub_game, run_sub_game,
  fast_forward,
}
use ai2_final_thief_edward_d.Game.Turns.{
  is_loss, IsUncaught, EndState, IsLegal, Finished, run_turns-Finished,
}

module _ (digest : Json → String) where
  -- A sub-game with a result: it is lost in ERROR and is not audited, or it is audited, and then it
  -- is lost exactly if a nonce was used twice, and every record hashes to its commitment.
  abbrev pub Reported : SubGameState → Scoring → SubGameRunResult → Type 0
  Reported s scoring r =
      (((s.machine.state ≡ error) × (r.result ≡ technical_loss) × (r.audit ≡ none))
        ⊎ ((s.machine.state ≡ auditing)
            × (r.audit ≡ some (audit_sealed_records digest s.records))
            × (is_loss r.result ≡ not (distinct (nonces s.records)))
            × (all_match digest s.records ≡ true)))
      × (r.records ≡ s.records)
      × ((r.police_score, r.thief_score) ≡ score_sub_game r.result scoring false)

  -- A sub-game that is over: it has reported, or it has raised what nothing catches.
  abbrev pub Over : Scoring → SubGameState × Result TurnFault SubGameRunResult → Type 0
  Over scoring o = elim o.1 [ err f ↦ IsUncaught f | ok r ↦ Reported o.0 scoring r ]

  audit_event : TransitionEvent
  audit_event = record { kind = begin_audit; detail = "" }

  finalize-lost :
      (s : SubGameState) (scoring : Scoring) (result : SubGameResult)
      → is_error s.machine.state ≡ true
      → finalize digest s scoring result ≡ (s, ok (scored s scoring result none))
  unfolding finalize
  finalize-lost s scoring result e = rw (e, finalize) refl

  finalize-audited :
      (s : SubGameState) (scoring : Scoring) (result : SubGameResult)
      → is_error s.machine.state ≡ false
      → resolve s.machine.state audit_event ≡ ok auditing
      → finalize digest s scoring result ≡ (
          let report = audit_sealed_records digest s.records in
          let s' = record s { machine = (apply s.machine audit_event).0 } in
          (
            s',
            ok (
                scored s' scoring
                  (if not (is_verified report) then technical_loss else result)
                  (some report)),
          ))
  unfolding finalize audit_event
  finalize-audited s scoring result e h =
      rw (e, apply-result s.machine audit_event ∙ h, finalize) refl

  finalize-Over :
      (s : SubGameState) (scoring : Scoring) (result : SubGameResult)
      → EndState digest result s
      → Over scoring (finalize digest s scoring result)
  unfolding resolve score_sub_game audit_event
  finalize-Over s scoring result (inl (l, e)) =
      subst (Over scoring) (sym (finalize-lost s scoring result (ground (arith, e))))
        (inl (e, ground (arith, l), refl), refl, refl)
  finalize-Over s scoring result (inr (l, e, m)) =
      let k : resolve s.machine.state audit_event ≡ ok auditing = ground (arith, e) in
      subst (Over scoring) (sym (finalize-audited s scoring result (ground (arith, e)) k)) (
        inr (
          apply-state s.machine audit_event k,
          refl,
          ground (arith, l, m, audit-verified digest s.records),
          m,
        ),
        refl,
        refl,
      )

  Finished-some :
      (o : SubGameState × Result TurnFault (Option SubGameResult))
      → Finished digest o
      → o.1 ≢ ok none
  Finished-some o f e = ground (arith, f, e)

module _ (arithmetic : FloatArith) (digest : Json → String) where
  Finished-Over :
      (scoring : Scoring) (o : SubGameState × Result TurnFault (Option SubGameResult))
      → Finished digest o
      → Over digest scoring (concluded arithmetic digest scoring o)
  Finished-Over scoring (s, r) (inl (f, e, u)) = rw (e, concluded) u
  Finished-Over scoring (s, r) (inr (result, e, end)) =
      rw (e, concluded) (finalize-Over digest s scoring result end)

  -- From a state that a turn can start in, at step 0 and with a threshold of at least 1 and legal
  -- decisions, the default cap is enough: the turn loop is not ended by its cap. The sub-game ends
  -- in ERROR with a technical loss that is not audited, or audited and lost exactly if a nonce was
  -- used twice, or by an illegal action or an opponent's turn that cannot be read.
  pub play_sub_game-Over :
      (s : SubGameState) (play : ℕ → SubGameState → TurnInput) (deps : Deps) (scoring : Scoring)
      → IsReady digest s
      → s.step ≡ 0
      → 1 ≤ deps.survival_threshold
      → IsLegal play
      → ((run_turns arithmetic digest (cap_of deps none) 0 s play deps).1 ≢ ok none)
        × Over digest scoring (play_sub_game arithmetic digest s play deps scoring none)
  unfolding play_sub_game
  play_sub_game-Over s play deps scoring h z t legal =
      let o = run_turns arithmetic digest (suc deps.survival_threshold) 0 s play deps in
      let f =
        run_turns-Finished arithmetic digest (suc deps.survival_threshold) 0 s play deps h
          (inl (omega (arith, z, t))) (omega (arith, z)) legal in
      (Finished-some digest o f, Finished-Over scoring o f)

  -- A fresh peer that runs one sub-game with the default cap, with legal decisions and with a
  -- threshold of at least 1, ends: in ERROR with a technical loss that is not audited, or audited in
  -- AUDITING, where every record hashes to its commitment and the sub-game is lost exactly if a nonce was
  -- used twice; and it scores what its result scores. The only exceptions are an illegal action and an
  -- opponent's turn of which a part cannot be read; the coordinates that can be read are integers.
  pub run_sub_game-Over :
      (grid_size : ℕ) (number : ℤ) (start : Position) (play : ℕ → SubGameState → TurnInput)
      (deps : Deps) (scoring : Scoring)
      → 1 ≤ deps.survival_threshold
      → IsLegal play
      → Over digest scoring (
          run_sub_game arithmetic digest grid_size number start new_machine true play deps scoring
            none)
  unfolding run_sub_game initial empty_scent_field fast_forward apply resolve lookup
  run_sub_game-Over n number start play deps scoring t legal =
      (play_sub_game-Over _ play deps scoring (refl, (λ k l. (refl, refl)), zeros-IsSquare n, refl)
        refl t legal).1
