-- ===== src/Replay/Turns.antt =====
-- A whole turn keeps one record for each step.
use Prim.Native.String.{String, ◌++◌}
use ai2_final_thief_edward_d.Prelude.{
  ◌≡◌, refl, Bool, true, Option, none, some, [], ◌∷◌, ◌++◌ as append, length-append, if◌then◌else◌,
  Result, ok, err, arith,
}
use ai2_final_thief_edward_d.Prelude.Int.{pos}
use ai2_final_thief_edward_d.Grid.{Position, position_is_eq, Direction}
use ai2_final_thief_edward_d.Rules.{IllegalAction, apply_move}
use ai2_final_thief_edward_d.Lifecycle.{
  Rejection, force_error, sub_game_ended, begin_turn, move_decided, commit_sent, ack_received,
  reveal_sent,
}
use ai2_final_thief_edward_d.Json.{Json, show_ℕ}
use ai2_final_thief_edward_d.Sealing.Audit.{SealedRecord, seal}
use ai2_final_thief_edward_d.Sealing.Exchange.{commit, acknowledge, reveal}
use ai2_final_thief_edward_d.Captures.{SubGameResult, capture, technical_loss}
use ai2_final_thief_edward_d.Scent.{FloatArith, ScentField, apply_turn}
use ai2_final_thief_edward_d.SubGame.{
  SubGameState, Deps, OpponentTurn, TurnInput, Outcome, applying, exchanging, delivery_error,
  illegal_transition, illegal_action, index_error, unreadable_turn, exchange_error,
  ExchangeProgress, deliver_commit_and_reveal,
}
use ai2_final_thief_edward_d.Turn.{
  game_ended, resolve_and_advance, is_true, payload_of, seal_turn, delivering, deciding,
  run_turn_body, caught, run_turn,
}
use ai2_final_thief_edward_d.Replay.Verdict.{IsThiefPayload}
use ai2_final_thief_edward_d.Replay.Log.{
  LoggedFrom, LoggedFrom-append, AtStep, Left, raised, over, Left-logged, applying-Left,
  exchanging-Left, if-Left, resolve_and_advance-Left,
}

permitted :
    (s : SubGameState) (p : Result IllegalAction Position) (x : Outcome)
    → LoggedFrom 0 s.records
    → Left x
    → Left (elim p [ err e ↦ (s, err (illegal_action e)) | ok _ ↦ x ])
permitted s (err e) x h l = raised _ _ h
permitted s (ok p) x h l = l

module _ (arithmetic : FloatArith) (digest : Json → String) where
  -- The record of a turn, by what the log needs of it.
  abbrev IsRecordOf : SubGameState → SealedRecord → Type 0
  IsRecordOf s r = (r.payload.step ≡ pos s.step) × IsThiefPayload r.payload

  -- `delivering` after the reveal was sent, and before.
  abbrev keeping : Bool → Direction → OpponentTurn → Deps → SealedRecord → SubGameState → Outcome
  keeping answers d opp deps r s =
      let s' = record s { records = append s.records (r ∷ []) } in
      if answers
      then applying s' sub_game_ended "captured" (game_ended capture)
      else resolve_and_advance s' d opp deps

  abbrev revealing : Bool → Direction → OpponentTurn → Deps → SealedRecord → SubGameState → Outcome
  revealing answers d opp deps r s =
      exchanging s (reveal digest s.exchange (pos s.step) r)
        (λ s'. applying s' reveal_sent "" (keeping answers d opp deps r))

  module _ (answers : Bool) (d : Direction) (opp : OpponentTurn) (deps : Deps)
      (r : SealedRecord) where
    keeping-Left :
        (s : SubGameState) → AtStep s → IsRecordOf s r → Left (keeping answers d opp deps r s)
    keeping-Left s h t =
        let logged = LoggedFrom-append 0 s.step s.records r h.0 (omega (arith, h.1)) t.0 t.1 in
        let s' = record s { records = append s.records (r ∷ []) } in
        if-Left answers (applying s' sub_game_ended "captured" (game_ended capture))
          (resolve_and_advance s' d opp deps)
          (applying-Left s' sub_game_ended "captured" (game_ended capture) logged
            (λ m. over _ _ logged))
          (resolve_and_advance-Left s' d opp deps
            (logged, omega (arith, h.1, length-append s.records (r ∷ []))))

    revealing-Left :
        (s : SubGameState) → AtStep s → IsRecordOf s r → Left (revealing answers d opp deps r s)
    revealing-Left s h t =
        exchanging-Left s (reveal digest s.exchange (pos s.step) r)
          (λ s'. applying s' reveal_sent "" (keeping answers d opp deps r)) h.0
          (λ x.
            applying-Left (record s { exchange = x }) reveal_sent "" (keeping answers d opp deps r)
              h.0 (λ m. keeping-Left (record s { exchange = x; machine = m }) h t))

  delivering-Left :
      (s : SubGameState) (i : TurnInput) (deps : Deps) (r : SealedRecord)
      → AtStep s
      → IsRecordOf s r
      → Left (delivering arithmetic digest s i deps r)
  unfolding delivering
  delivering-Left s i deps r h t =
      answered (deliver_commit_and_reveal i.commitment_answer i.reveal_answer)
    where
      answered :
          (a : Result ExchangeProgress OpponentTurn)
          → Left (elim a [
            | err p ↦ (s, err (delivery_error p))
            | ok opp ↦ exchanging s (acknowledge s.exchange (pos s.step)) (λ s1.
                applying s1 ack_received ""
                  (revealing (is_true s.pending_claim_response) i.direction opp deps r))
          ])
      answered (err p) = raised _ _ h.0
      answered (ok opp) =
          let rest = revealing (is_true s.pending_claim_response) i.direction opp deps r in
          exchanging-Left s (acknowledge s.exchange (pos s.step))
            (λ s1. applying s1 ack_received "" rest) h.0
            (λ x.
              applying-Left (record s { exchange = x }) ack_received "" rest h.0
                (λ m.
                  revealing-Left (is_true s.pending_claim_response) i.direction opp deps r
                    (record s { exchange = x; machine = m }) h t))

  deciding-Left :
      (s : SubGameState) (i : TurnInput) (deps : Deps)
      → AtStep s
      → Left (deciding arithmetic digest s i deps)
  unfolding deciding seal_turn seal
  deciding-Left s i deps h =
      let r = seal digest (payload_of arithmetic digest s i deps) in
      let sent = λ (s2 : SubGameState).
        applying s2 commit_sent "" (λ s3. delivering arithmetic digest s3 i deps r) in
      let sending = λ (s1 : SubGameState). applying s1 move_decided "" sent in
      permitted s (apply_move s.position i.direction s.board)
        (exchanging s (commit s.exchange (pos s.step) r.commit_hash) sending) h.0
        (exchanging-Left s (commit s.exchange (pos s.step) r.commit_hash) sending h.0 (λ x.
          applying-Left (record s { exchange = x }) move_decided "" sent h.0
            (λ m.
              applying-Left (record s { exchange = x; machine = m }) commit_sent ""
                (λ s3. delivering arithmetic digest s3 i deps r) h.0
                (λ m'.
                  delivering-Left (record s { exchange = x; machine = m' }) i deps r h
                    (refl, (refl, refl, refl, refl, refl))))))

  emitted-Left :
      (s : SubGameState) (i : TurnInput) (deps : Deps) (field : Option ScentField)
      → AtStep s
      → Left (elim field [
        | none ↦ (s, err index_error)
        | some scent ↦ deciding arithmetic digest (record s { own_scent = scent }) i deps
      ])
  emitted-Left s i deps none h = raised _ _ h.0
  emitted-Left s i deps (some scent) h = deciding-Left (record s { own_scent = scent }) i deps h

  run_turn_body-Left :
      (s : SubGameState) (i : TurnInput) (deps : Deps)
      → AtStep s
      → Left (run_turn_body arithmetic digest s i deps)
  unfolding run_turn_body
  run_turn_body-Left s i deps h =
      applying-Left s begin_turn ("step " ++ show_ℕ s.step)
        (λ s1. elim (apply_turn arithmetic s1.own_scent s1.position deps.pheromone_decay) [
          | none ↦ (s1, err index_error)
          | some scent ↦ deciding arithmetic digest (record s1 { own_scent = scent }) i deps
        ])
        h.0
        (λ m.
          emitted-Left (record s { machine = m }) i deps
            (apply_turn arithmetic s.own_scent s.position deps.pheromone_decay) h)

  forced-Left :
      {A : Type 0} (r : Result Rejection A) (s : SubGameState) (result : SubGameResult)
      → LoggedFrom 0 s.records
      → Left (elim r [
        | ok _ ↦ (s, ok (record { ended = true; outcome = some result }))
        | err e ↦ (s, err (illegal_transition e))
      ])
  forced-Left (ok a) s result h = over _ _ h
  forced-Left (err e) s result h = raised _ _ h

  caught-Left : (i : TurnInput) (o : Outcome) → Left o → Left (caught arithmetic digest i o)
  caught-Left i (s, ok r) h = h
  caught-Left i (s, err (delivery_error p)) h =
      let (m, r) = force_error s.machine i.error_text in
      forced-Left r (record s { machine = m }) technical_loss (Left-logged _ h)
  caught-Left i (s, err (illegal_action e)) h = h
  caught-Left i (s, err (illegal_transition e)) h = h
  caught-Left i (s, err (exchange_error e)) h = h
  caught-Left i (s, err index_error) h = h
  caught-Left i (s, err unreadable_turn) h = h

  pub run_turn-Left :
      (s : SubGameState) (i : TurnInput) (deps : Deps)
      → AtStep s
      → Left (run_turn arithmetic digest s i deps)
  unfolding run_turn
  run_turn-Left s i deps h = caught-Left i _ (run_turn_body-Left s i deps h)
