-- ===== src/Turn/Outcomes.antt =====
-- How a turn ends, for every decision and every answer of the opponent.
use Prim.Native.String.{String}
use ai2_final_thief_edward_d.Prelude.{
  suc, ◌≡◌, inl, inr, refl, ap, ◌∙◌, Bool, true, false, ◌||◌, Bool-cases, Option, none, some, List,
  [], ◌∷◌, ◌++◌ as append, elem, leb, if◌then◌else◌, ok, err, arith,
}
use ai2_final_thief_edward_d.Grid.{Position, position_is_eq, Direction, apply_direction}
use ai2_final_thief_edward_d.Rules.{
  IllegalAction, illegal_direction, direction_is_eq, legal_move_directions, apply_move,
}
use ai2_final_thief_edward_d.Lifecycle.{
  PeerState, waiting, verifying, sub_game_over, turn_verified, sub_game_ended, resolve,
}
use ai2_final_thief_edward_d.Json.{Json}
use ai2_final_thief_edward_d.Sealing.Audit.{SealedRecord}
use ai2_final_thief_edward_d.Sealing.Verdict.{untouched, all_match}
use ai2_final_thief_edward_d.Captures.{
  SubGameResult, survival, barrier_hits, CaptureResolution, resolve_capture,
}
use ai2_final_thief_edward_d.Scent.Emission.{IsField}
use ai2_final_thief_edward_d.Turn.{
  claim_answer, evidence_raises, resolve_and_advance, turn_complete, game_ended, moving, advance,
}
use ai2_final_thief_edward_d.SubGame.{
  SubGameState, Deps, OpponentTurn, TurnFault, illegal_action, unreadable_turn, police_scent_of,
  Outcome, applying, absorb_public_evidence,
}
use ai2_final_thief_edward_d.Turn.Fresh.{IsFresh}
use ai2_final_thief_edward_d.Turn.Steps.{applying-lem, move_after}

pub all_match-append :
    (digest : Json → String) (rs : List SealedRecord) (r : SealedRecord)
    → all_match digest rs ≡ true
    → untouched digest r ≡ true
    → all_match digest (append rs (r ∷ [])) ≡ true
all_match-append digest [] r h k = ground (arith, k)
all_match-append digest (x ∷ xs) r h k = ground (arith, all_match-append digest xs r)

moving-err :
    (deps : Deps) (s : SubGameState) (d : Direction) {e : IllegalAction}
    → apply_move s.position d s.board ≡ err e
    → moving deps s d ≡ (s, err (illegal_action e))
moving-err deps s d h = rw (h, moving) refl

moving-ok :
    (Q : Outcome → Type 0) (deps : Deps) (s : SubGameState) (d : Direction) {p : Position}
    → apply_move s.position d s.board ≡ ok p
    → ((v : List Position) → Q (advance deps (record s { position = p; visited = v })))
    → Q (moving deps s d)
moving-ok Q deps s d {p = p} h k =
    rw (h, moving) (k (if elem p s.visited then s.visited else p ∷ s.visited))

claim_answer-captured : (r : CaptureResolution) → r.captured ≡ true → claim_answer r ≡ some true
claim_answer-captured r h = ground (arith, h)

module _ {A : Type 0} {c : Bool} (x y : A) where
  if_true : c ≡ true → (if c then x else y) ≡ x
  if_true h = rw h refl

  if_false : c ≡ false → (if c then x else y) ≡ y
  if_false h = rw h refl

if_intro : (c : Bool) {P Q : Type 0} → (c ≡ true → P) → (c ≡ false → Q) → (if c then P else Q)
if_intro true p q = p refl
if_intro false p q = q refl

-- A test in the code, and the same test in what is said of it.
pub by_test :
    (c : Bool) (P Q : Outcome → Type 0) (x y : Outcome)
    → (c ≡ true → P x)
    → (c ≡ false → Q y)
    → (if c then P (if c then x else y) else Q (if c then x else y))
by_test true P Q x y p q = p refl
by_test false P Q x y p q = q refl

module _ (digest : Json → String) where
  -- A state that a turn can start in: the peer waits, no step from this one on was committed, the
  -- scent field has its size, and every kept record hashes to its commitment.
  abbrev pub IsReady : SubGameState → Type 0
  IsReady s =
      (s.machine.state ≡ waiting)
      × IsFresh s.exchange s.step
      × IsField s.own_scent
      × (all_match digest s.records ≡ true)

  -- The sub-game is over, with that result, in that state of the lifecycle.
  abbrev pub Ended : SubGameResult → PeerState → Outcome → Type 0
  Ended result state o =
      (o.1 ≡ ok (record { ended = true; outcome = some result }))
      × (o.0.machine.state ≡ state)
      × (all_match digest o.0.records ≡ true)

  -- The next step can start, with the thief at that cell and that answer to give.
  abbrev pub Continued : SubGameState → Position → Option Bool → Outcome → Type 0
  Continued s p answer o =
      (o.1 ≡ ok (record { ended = false; outcome = none }))
      × IsReady o.0
      × (o.0.step ≡ suc s.step)
      × (o.0.position ≡ p)
      × (o.0.pending_claim_response ≡ answer)

  abbrev pub Raised : TurnFault → Outcome → Type 0
  Raised f o = o.1 ≡ err f

  -- The thief has moved: it has survived, or the next step can start.
  abbrev pub Advanced : SubGameState → Position → Option Bool → Deps → Outcome → Type 0
  Advanced s dest answer deps o =
      if leb deps.survival_threshold (suc s.step)
      then Ended survival sub_game_over o
      else Continued s dest answer o

  -- The thief is not captured: it moves, unless the opponent's barrier is on the cell it moves to.
  abbrev pub Uncaptured : SubGameState → Direction → OpponentTurn → Deps → Outcome → Type 0
  Uncaptured s d opp deps o =
      let dest = apply_direction s.position d in
      let answer = claim_answer (resolve_capture s.position opp.capture_claim opp.barrier_placed) in
      if barrier_hits opp.barrier_placed dest
      then Raised (illegal_action illegal_direction) o
      else Advanced s dest answer deps o

  -- How the last part of a turn ends whose evidence can be read.
  abbrev pub Readable : SubGameState → Direction → OpponentTurn → Deps → Outcome → Type 0
  Readable s d opp deps o =
      if (resolve_capture s.position opp.capture_claim opp.barrier_placed).captured
      then Continued s s.position (some true) o
      else Uncaptured s d opp deps o

  -- How the last part of a turn ends, by the opponent's public turn.
  abbrev pub Resolved : SubGameState → Direction → OpponentTurn → Deps → Outcome → Type 0
  Resolved s d opp deps o =
      if evidence_raises s.position opp || opp.hint_unreadable
      then Raised unreadable_turn o
      else Readable s d opp deps o

  -- A state right behind REVEAL_SENT.
  abbrev pub IsRevealed : SubGameState → Type 0
  IsRevealed s =
      (s.machine.state ≡ verifying)
      × IsFresh s.exchange (suc s.step)
      × IsField s.own_scent
      × (all_match digest s.records ≡ true)

  pub ending :
      (s : SubGameState) (result : SubGameResult) (detail : String)
      → IsRevealed s
      → Ended result sub_game_over (applying s sub_game_ended detail (game_ended result))
  unfolding resolve
  ending s result detail h =
      applying-lem (Ended result sub_game_over) s sub_game_ended detail (game_ended result)
        sub_game_over (ground (arith, h.0)) (λ m e. (refl, e, h.3))

  continuing :
      (s : SubGameState) {answer : Option Bool}
      → IsRevealed s
      → s.pending_claim_response ≡ answer
      → Continued s s.position answer (applying s turn_verified "" turn_complete)
  unfolding resolve
  continuing s {answer = answer} h a =
      applying-lem (Continued s s.position answer) s turn_verified "" turn_complete waiting
        (ground (arith, h.0)) (λ m e. (refl, (e, h.1, h.2, h.3), refl, refl, a))

  advance-lem :
      (s : SubGameState) (deps : Deps)
      → IsRevealed s
      → Advanced s s.position s.pending_claim_response deps (advance deps s)
  advance-lem s deps h = elim (Bool-cases (leb deps.survival_threshold (suc s.step))) [
    | inl e ↦ rw (e, advance) (ending s survival "survived" h)
    | inr e ↦ rw (e, advance) (continuing s h refl)
  ]

  not_captured :
      (own : Position) (claim barrier : Option Position)
      → (resolve_capture own claim barrier).captured ≡ false
      → barrier_hits barrier own ≡ false
  unfolding resolve_capture
  not_captured own claim barrier h = ground (arith, h)

  read_or_raised :
      (c h : Bool) (P : Outcome → Type 0) (s s' : SubGameState) (o : Outcome)
      → P o
      → (if c || h
          then Raised unreadable_turn
              (if c then (s, err unreadable_turn) else if h then (s', err unreadable_turn) else o)
          else P
              (if c then (s, err unreadable_turn) else if h then (s', err unreadable_turn) else o))
  read_or_raised true h P s s' o p = refl
  read_or_raised false true P s s' o p = refl
  read_or_raised false false P s s' o p = p

  pub resolve_and_advance-Resolved :
      (s : SubGameState) (d : Direction) (opp : OpponentTurn) (deps : Deps)
      → IsRevealed s
      → elem d (legal_move_directions s.position s.board) ≡ true
      → Resolved s d opp deps (resolve_and_advance s d opp deps)
  unfolding resolve_and_advance absorb_public_evidence
  resolve_and_advance-Resolved s d opp deps h legal =
      let r = resolve_capture s.position opp.capture_claim opp.barrier_placed in
      let dest = apply_direction s.position d in
      let s' = record (absorb_public_evidence s opp) { pending_claim_response = claim_answer r } in
      let moved = λ (e : r.captured ≡ false).
        move_after s.position d s.board opp.barrier_placed legal
          (not_captured s.position opp.capture_claim opp.barrier_placed e) in
      read_or_raised (evidence_raises s.position opp) opp.hint_unreadable (Readable s d opp deps) s
        (record s { police_scent = police_scent_of opp.scent_grid s.grid_size })
        (if r.captured then applying s' turn_verified "" turn_complete else moving deps s' d)
        (by_test r.captured (Continued s s.position (some true)) (Uncaptured s d opp deps)
          (applying s' turn_verified "" turn_complete) (moving deps s' d)
          (λ e. continuing s' h (claim_answer-captured r e))
          (λ e.
            if_intro (barrier_hits opp.barrier_placed dest)
              (λ hit.
                ap (λ o. o.1)
                  (moving-err deps s' d (moved e ∙ if_true (err illegal_direction) (ok dest) hit)))
              (λ miss.
                moving-ok (Advanced s dest (claim_answer r) deps) deps s' d
                  (moved e ∙ if_false (err illegal_direction) (ok dest) miss)
                  (λ v. advance-lem (record s' { position = dest; visited = v }) deps h))))
