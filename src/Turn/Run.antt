-- ===== src/Turn/Run.antt =====
-- What a whole turn does.
use mathlib.Core.Path.{subst}
use Prim.Native.String.{String}
use text.Mathlib.TextEquality.{eq_iff}
use ai2_final_thief_edward_d.Prelude.{
  suc, ◌≡◌, ◌⊎◌, inl, inr, refl, sym, ◌∙◌, Bool, true, false, ◌||◌, Result-cases, some, elem, leb,
  if◌then◌else◌, ok, err, arith,
}
use ai2_final_thief_edward_d.Grid.{position_is_eq, Direction, apply_direction}
use ai2_final_thief_edward_d.Rules.{
  IllegalAction, illegal_direction, direction_is_eq, legal_move_directions,
}
use ai2_final_thief_edward_d.Lifecycle.{
  PeerState, waiting_for_ack, sub_game_over, error, TransitionEvent, error_occurred, resolve,
  force_error,
}
use ai2_final_thief_edward_d.Json.{Json}
use ai2_final_thief_edward_d.Sealing.Audit.{SealedRecord, seal, hash_payload}
use ai2_final_thief_edward_d.Sealing.Verdict.{untouched, all_match}
use ai2_final_thief_edward_d.Sealing.Exchange.{committed}
use ai2_final_thief_edward_d.Captures.{
  SubGameResult, capture, survival, technical_loss, barrier_hits, resolve_capture,
}
use ai2_final_thief_edward_d.Scent.{FloatArith}
use ai2_final_thief_edward_d.Scent.Emission.{IsField}
use ai2_final_thief_edward_d.Turn.{
  claim_answer, evidence_raises, is_true, payload_of, seal_turn, delivering, caught, run_turn,
}
use ai2_final_thief_edward_d.SubGame.{
  SubGameState, Deps, OpponentTurn, TurnInput, ExchangeProgress, illegal_action, unreadable_turn,
  TurnResult, Outcome, delivery_error, deliver_commit_and_reveal,
}
use ai2_final_thief_edward_d.Turn.Fresh.{IsAt}
use ai2_final_thief_edward_d.Turn.Steps.{apply-state, apply-result}
use ai2_final_thief_edward_d.Turn.Outcomes.{
  all_match-append, IsReady, Ended, Continued, Resolved, IsRevealed, by_test, ending,
  resolve_and_advance-Resolved,
}
use ai2_final_thief_edward_d.Turn.Phases.{
  with_reveal, delivering-lem, deciding-lem, run_turn_body-lem,
}

if_elim : (c : Bool) {P Q R : Type 0} → (P → R) → (Q → R) → (if c then P else Q) → R
if_elim true p q h = p h
if_elim false p q h = q h

module _ (arithmetic : FloatArith) (digest : Json → String) where
  -- How a turn ends, by what the opponent answers.
  abbrev pub Turned : SubGameState → TurnInput → Deps → Outcome → Type 0
  Turned s i deps o = elim (deliver_commit_and_reveal i.commitment_answer i.reveal_answer) [
    | err _ ↦ Ended digest technical_loss error o
    | ok opp ↦
        if is_true s.pending_claim_response
        then Ended digest capture sub_game_over o
        else Resolved digest s i.direction opp deps o
  ]

  abbrev CaughtAs : SubGameState → TurnInput → Deps → Outcome → Type 0
  CaughtAs s i deps o = Turned s i deps (caught arithmetic digest i o)

  -- `run_turn` passes on a result, an illegal action and what an unreadable turn raises.
  IsPassed : Outcome → Type 0
  IsPassed o =
      ((r : TurnResult) × (o.1 ≡ ok r))
      ⊎ (((e : IllegalAction) × (o.1 ≡ err (illegal_action e))) ⊎ (o.1 ≡ err unreadable_turn))

  caught-IsPassed : (i : TurnInput) (o : Outcome) → IsPassed o → caught arithmetic digest i o ≡ o
  unfolding IsPassed
  caught-IsPassed i (s, r) (inl (_, h)) = rw h refl
  caught-IsPassed i (s, r) (inr (inl (_, h))) = rw h refl
  caught-IsPassed i (s, r) (inr (inr h)) = rw h refl

  Resolved-IsPassed :
      (s : SubGameState) (d : Direction) (opp : OpponentTurn) (deps : Deps) (o : Outcome)
      → Resolved digest s d opp deps o
      → IsPassed o
  unfolding IsPassed
  Resolved-IsPassed s d opp deps o =
      let dest = apply_direction s.position d in
      let r = resolve_capture s.position opp.capture_claim opp.barrier_placed in
      if_elim (evidence_raises s.position opp || opp.hint_unreadable)
        (λ (h : o.1 ≡ err unreadable_turn). inr (inr h))
        (if_elim r.captured (λ (h : Continued digest s s.position (some true) o). inl (_, h.0))
          (if_elim (barrier_hits opp.barrier_placed dest)
            (λ (h : o.1 ≡ err (illegal_action illegal_direction)). inr (inl (_, h)))
            (if_elim (leb deps.survival_threshold (suc s.step))
              (λ (h : Ended digest survival sub_game_over o). inl (_, h.0))
              (λ (h : Continued digest s dest (claim_answer r) o). inl (_, h.0)))))

  Ended-IsPassed :
      (result : SubGameResult) (state : PeerState) (o : Outcome)
      → Ended digest result state o
      → IsPassed o
  unfolding IsPassed
  Ended-IsPassed result state o h = inl (_, h.0)

  failing :
      (s : SubGameState) (i : TurnInput) (p : ExchangeProgress)
      → s.machine.state ≡ waiting_for_ack
      → all_match digest s.records ≡ true
      → Ended digest technical_loss error (caught arithmetic digest i (s, err (delivery_error p)))
  unfolding force_error resolve
  failing s i p e h =
      let event : TransitionEvent = record { kind = error_occurred; detail = i.error_text } in
      let k : resolve s.machine.state event ≡ ok error = ground (arith, e) in
      rw (apply-result s.machine event ∙ k, caught, force_error)
        (refl, apply-state s.machine event k, h)

  passed :
      (P : Outcome → Type 0) (i : TurnInput) (o : Outcome)
      → IsPassed o
      → P o
      → P (caught arithmetic digest i o)
  passed P i o h p = rw (caught-IsPassed i o h) p

  delivering-err :
      (s : SubGameState) (i : TurnInput) (deps : Deps) (r : SealedRecord) {p : ExchangeProgress}
      → deliver_commit_and_reveal i.commitment_answer i.reveal_answer ≡ err p
      → delivering arithmetic digest s i deps r ≡ (s, err (delivery_error p))
  unfolding delivering
  delivering-err s i deps r d = rw (d, delivering) refl

  seal-recompute :
      (s : SubGameState) (i : TurnInput) (deps : Deps)
      → untouched digest (seal_turn arithmetic digest s i deps) ≡ true
  unfolding seal_turn seal hash_payload
  seal-recompute s i deps =
      let h = hash_payload digest (payload_of arithmetic digest s i deps) in (eq_iff h h).1 refl

  -- From the commitment on, whatever the opponent answers.
  committed-CaughtAs :
      (s : SubGameState) (i : TurnInput) (deps : Deps) (r : SealedRecord)
      → elem i.direction (legal_move_directions s.position s.board) ≡ true
      → s.machine.state ≡ waiting_for_ack
      → IsAt s.exchange s.step committed (hash_payload digest r.payload)
      → IsField s.own_scent
      → all_match digest s.records ≡ true
      → untouched digest r ≡ true
      → CaughtAs s i deps (delivering arithmetic digest s i deps r)
  committed-CaughtAs s i deps r legal e a f k m =
      elim (Result-cases (deliver_commit_and_reveal i.commitment_answer i.reveal_answer)) [
        | inr (p, d) ↦
            subst (CaughtAs s i deps) (sym (delivering-err s i deps r d))
              (rw (d, Turned) (failing s i p e k))
        | inl (opp, d) ↦
            let Confirmed : Outcome → Type 0 =
              λ o. Ended digest capture sub_game_over (caught arithmetic digest i o) in
            let Other : Outcome → Type 0 =
              λ o. Resolved digest s i.direction opp deps (caught arithmetic digest i o) in
            let confirming = is_true s.pending_claim_response in
            rw (d, Turned)
              (delivering-lem arithmetic digest (λ o. if confirming then Confirmed o else Other o) s
                i deps r d e a
                (λ n x en fx.
                  let s5 = with_reveal s r n x in
                  let rev : IsRevealed digest s5 =
                    (en, fx, f, all_match-append digest s.records r k m) in
                  let ended = ending digest s5 capture "captured" rev in
                  let other =
                    resolve_and_advance-Resolved digest s5 i.direction opp deps rev legal in
                  by_test confirming Confirmed Other _ _
                    (λ _.
                      passed (Ended digest capture sub_game_over) i _
                        (Ended-IsPassed capture sub_game_over _ ended) ended)
                    (λ _.
                      passed (Resolved digest s i.direction opp deps) i _
                        (Resolved-IsPassed s5 i.direction opp deps _ other) other)))
      ]

  pub run_turn-Turned :
      (s : SubGameState) (i : TurnInput) (deps : Deps)
      → IsReady digest s
      → elem i.direction (legal_move_directions s.position s.board) ≡ true
      → Turned s i deps (run_turn arithmetic digest s i deps)
  unfolding run_turn
  run_turn-Turned s i deps h legal =
      run_turn_body-lem arithmetic digest (CaughtAs s i deps) s i deps h.0 h.2 (λ m f em ef.
        let s1 = record s { machine = m; own_scent = f } in
        let r = seal_turn arithmetic digest s1 i deps in
        deciding-lem arithmetic digest (CaughtAs s i deps) s1 i deps legal em h.1 (λ n x en ex.
          committed-CaughtAs (record s1 { machine = n; exchange = x }) i deps r legal en ex ef h.3
            (seal-recompute s1 i deps)))
