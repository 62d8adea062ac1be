-- ===== src/Replay/Log.antt =====
-- What the turn loop keeps as the records of a sub-game.
use Prim.Native.String.{String}
use ai2_final_thief_edward_d.Prelude.{
  ℕ, suc, ◌+◌, ◌≡◌, Bool, true, false, Option, List, [], ◌∷◌, ◌++◌ as append, length, elem, leb,
  if◌then◌else◌, Result, ok, err, arith,
}
use ai2_final_thief_edward_d.Prelude.Int.{pos}
use ai2_final_thief_edward_d.Grid.{Position, position_is_eq, Direction}
use ai2_final_thief_edward_d.Rules.{IllegalAction, apply_move}
use ai2_final_thief_edward_d.Lifecycle.{
  EventKind, Rejection, PeerStateMachine, apply, turn_verified, sub_game_ended,
}
use ai2_final_thief_edward_d.Sealing.Audit.{SealedRecord}
use ai2_final_thief_edward_d.Sealing.Exchange.{ExchangeFault, CommitRevealExchange}
use ai2_final_thief_edward_d.Captures.{SubGameResult, survival, resolve_capture}
use ai2_final_thief_edward_d.SubGame.{
  SubGameState, Deps, OpponentTurn, TurnFault, Outcome, applying, exchanging, illegal_transition,
  illegal_action, unreadable_turn, police_scent_of, absorb_public_evidence,
}
use ai2_final_thief_edward_d.Turn.{
  evidence_raises, claim_answer, turn_complete, game_ended, advance, moving, resolve_and_advance,
}
use ai2_final_thief_edward_d.Replay.Verdict.{IsThiefPayload}

-- A thief's records, which count their steps up from `k`.
abbrev pub LoggedFrom : ℕ → List SealedRecord → Type 0
LoggedFrom k [] = Unit
LoggedFrom k (r ∷ rs) = (r.payload.step ≡ pos k) × IsThiefPayload r.payload × LoggedFrom (suc k) rs

pub LoggedFrom-append :
    (k n : ℕ) (rs : List SealedRecord) (r : SealedRecord)
    → LoggedFrom k rs
    → n ≡ k + length rs
    → r.payload.step ≡ pos n
    → IsThiefPayload r.payload
    → LoggedFrom k (append rs (r ∷ []))
LoggedFrom-append k n [] r h e s t = (ground (arith, e, s), t, tt)
LoggedFrom-append k n (q ∷ rs) r h e s t =
    (h.0, h.1, LoggedFrom-append (suc k) n rs r h.2 (omega (arith, e)) s t)

-- A state between two turns: one record for each step.
abbrev pub AtStep : SubGameState → Type 0
AtStep s = LoggedFrom 0 s.records × (length s.records ≡ s.step)

-- What a turn leaves: after a turn that did not end the sub-game the next step can follow.
pub data Left : Outcome → Type 0 where
  raised : (s : SubGameState) (f : TurnFault) → LoggedFrom 0 s.records → Left (s, err f)
  over :
      (s : SubGameState) (result : Option SubGameResult)
      → LoggedFrom 0 s.records
      → Left (s, ok (record { ended = true; outcome = result }))
  follows :
      (s : SubGameState) (result : Option SubGameResult)
      → AtStep s
      → Left (s, ok (record { ended = false; outcome = result }))

pub Left-logged : (o : Outcome) → Left o → LoggedFrom 0 o.0.records
Left-logged o (raised s f h) = h
Left-logged o (over s result h) = h
Left-logged o (follows s result h) = h.0

answered-Left :
    {A : Type 0} (r : Result Rejection A) (x : Outcome) (s : SubGameState)
    → Left x
    → LoggedFrom 0 s.records
    → Left (elim r [ ok _ ↦ x | err e ↦ (s, err (illegal_transition e)) ])
answered-Left (ok a) x s l h = l
answered-Left (err e) x s l h = raised _ _ h

pub applying-Left :
    (s : SubGameState) (kind : EventKind) (detail : String) (rest : SubGameState → Outcome)
    → LoggedFrom 0 s.records
    → ((m : PeerStateMachine) → Left (rest (record s { machine = m })))
    → Left (applying s kind detail rest)
applying-Left s kind detail rest h k =
    let (m, r) = apply s.machine (record { kind = kind; detail = detail }) in
    answered-Left r (rest (record s { machine = m })) (record s { machine = m }) (k m) h

pub exchanging-Left :
    (s : SubGameState) (r : Result ExchangeFault CommitRevealExchange)
    (rest : SubGameState → Outcome)
    → LoggedFrom 0 s.records
    → ((x : CommitRevealExchange) → Left (rest (record s { exchange = x })))
    → Left (exchanging s r rest)
exchanging-Left s (ok x) rest h k = k x
exchanging-Left s (err e) rest h k = raised _ _ h

-- One record more than steps: the state after a reveal.
abbrev Revealed : SubGameState → Type 0
Revealed s = LoggedFrom 0 s.records × (length s.records ≡ suc s.step)

pub if-Left : (c : Bool) (x y : Outcome) → Left x → Left y → Left (if c then x else y)
if-Left true x y p q = p
if-Left false x y p q = q

advance-Left : (deps : Deps) (s : SubGameState) → Revealed s → Left (advance deps s)
advance-Left deps s h =
    if-Left (leb deps.survival_threshold (suc s.step))
      (applying s sub_game_ended "survived" (game_ended survival))
      (applying s turn_verified "" turn_complete)
      (applying-Left s sub_game_ended "survived" (game_ended survival) h.0 (λ m. over _ _ h.0))
      (applying-Left s turn_verified "" turn_complete h.0 (λ m. follows _ _ h))

moved-Left :
    (deps : Deps) (s : SubGameState) (r : Result IllegalAction Position)
    → Revealed s
    → Left (elim r [
      | err e ↦ (s, err (illegal_action e))
      | ok p ↦
          let visited = if elem p s.visited then s.visited else p ∷ s.visited in
          advance deps (record s { position = p; visited = visited })
    ])
moved-Left deps s (err e) h = raised _ _ h.0
moved-Left deps s (ok p) h =
    advance-Left deps
      (record s { position = p; visited = if elem p s.visited then s.visited else p ∷ s.visited }) h

pub resolve_and_advance-Left :
    (s : SubGameState) (d : Direction) (opp : OpponentTurn) (deps : Deps)
    → Revealed s
    → Left (resolve_and_advance s d opp deps)
unfolding resolve_and_advance absorb_public_evidence
resolve_and_advance-Left s d opp deps h =
    let resolution = resolve_capture s.position opp.capture_claim opp.barrier_placed in
    let s' = record (absorb_public_evidence s opp) {
      pending_claim_response = claim_answer resolution;
    } in
    if-Left (evidence_raises s.position opp) (s, err unreadable_turn) _ (raised _ _ h.0)
      (if-Left opp.hint_unreadable
        (
          record s { police_scent = police_scent_of opp.scent_grid s.grid_size },
          err unreadable_turn,
        )
        _ (raised _ _ h.0)
        (if-Left resolution.captured (applying s' turn_verified "" turn_complete) (moving deps s' d)
          (applying-Left s' turn_verified "" turn_complete h.0 (λ m. follows _ _ h))
          (moved-Left deps s' (apply_move s'.position d s'.board) h)))
