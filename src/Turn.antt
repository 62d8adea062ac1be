-- ===== src/Turn.antt =====
-- One turn of a sub-game: services/turn_loop.py of src/thief_peer, with `seal_turn` of turn_prep.py. A
-- call returns the new state with its result or the exception that it ends in; what it has changed
-- before an exception stays changed.
--
-- The strategy's decision, the hint's text, the clock, the nonce and the opponent's answers are the
-- input of a turn. The belief that the strategy reads is not modelled, so a statement about every
-- input holds whatever the belief is. An opponent's turn is what the code reads of the answer: the
-- claim and the barrier as cells, the region that its hint names, and what of these cannot be read. `str(exc)`, which only the
-- history keeps, is a text of the input too. The optional `reveal_transform` and the calls for the GUI
-- and the trace change no state and are left out.
pub mod Fresh
pub mod Steps
pub mod Outcomes
pub mod Phases
pub mod Run
pub mod Blocked
mod Tests
use Prim.Native.String.{String, ◌++◌}
use ai2_final_thief_edward_d.Prelude.{
  ℕ, zero, suc, ◌+◌, ◌*◌, Bool, true, false, not, ◌&&◌, ◌||◌, Option, none, some, List, [], ◌∷◌,
  ◌++◌ as append, elem, leb, if◌then◌else◌, Result, ok, err,
}
use ai2_final_thief_edward_d.Prelude.Int.{ℤ, pos}
use ai2_final_thief_edward_d.Grid.{
  Position, position_is_eq, Direction, north, south, east, west, stay, Board, with_barrier,
}
use ai2_final_thief_edward_d.Rules.{IllegalAction, apply_move}
use ai2_final_thief_edward_d.Lifecycle.{
  EventKind, begin_turn, move_decided, commit_sent, ack_received, reveal_sent, turn_verified,
  sub_game_ended, Rejection, PeerStateMachine, apply, force_error,
}
use ai2_final_thief_edward_d.Json.{Json, Items, Float, arr, show_ℕ}
use ai2_final_thief_edward_d.Sealing.Payload.{SealedTurnPayload, grid_items}
use ai2_final_thief_edward_d.Sealing.Audit.{SealedRecord, seal}
use ai2_final_thief_edward_d.Sealing.Exchange.{
  ExchangeFault, CommitRevealExchange, new_exchange, commit, acknowledge, reveal,
}
use ai2_final_thief_edward_d.Captures.{
  SubGameResult, capture, survival, technical_loss, CaptureResolution, barrier_hits,
  resolve_capture,
}
use ai2_final_thief_edward_d.Hints.{HintIntent, truth, lie, Region, region_cells}
use ai2_final_thief_edward_d.Scent.{
  FloatArith, ScentField, empty_scent_field, apply_turn, validate_scent_grid, grid_floats, as_list,
}
use ai2_final_thief_edward_d.SubGame.{
  SubGameState, initial, Deps, OpponentTurn, Answer, unavailable, answered, TurnInput,
  ExchangeProgress, TurnFault, illegal_action, illegal_transition, exchange_error, delivery_error,
  index_error, unreadable_turn, TurnResult, Outcome, progress, deliver_commit_and_reveal,
  direction_text, intent_text, applying, exchanging, police_scent_of, region_of, board_after,
  absorb_public_evidence,
}

-- The answer that waits for the next reveal.
abbrev pub claim_answer : CaptureResolution → Option Bool
claim_answer r =
    if r.captured
    then some true
    else elim r.response [ some response ↦ some response.caught | none ↦ none ]

abbrev pub turn_complete : SubGameState → Outcome
turn_complete s = (record s { step = suc s.step }, ok (record { ended = false; outcome = none }))

abbrev pub game_ended : SubGameResult → SubGameState → Outcome
game_ended result s = (s, ok (record { ended = true; outcome = some result }))

-- The last lines of `_resolve_and_advance`, with the thief at its new position.
abbrev pub advance : Deps → SubGameState → Outcome
advance deps s =
    if leb deps.survival_threshold (suc s.step)
    then applying s sub_game_ended "survived" (game_ended survival)
    else applying s turn_verified "" turn_complete

abbrev pub moving : Deps → SubGameState → Direction → Outcome
moving deps s d = elim (apply_move s.position d s.board) [
  | err e ↦ (s, err (illegal_action e))
  | ok p ↦
      let visited = if elem p s.visited then s.visited else p ∷ s.visited in
      advance deps (record s { position = p; visited = visited })
]

-- `resolve_capture` raises: it reads the barrier, and the claim unless the barrier captures.
abbrev pub evidence_raises : Position → OpponentTurn → Bool
evidence_raises own opp =
    opp.barrier_unreadable || (opp.claim_unreadable && not (barrier_hits opp.barrier_placed own))

unfoldable pub resolve_and_advance : SubGameState → Direction → OpponentTurn → Deps → Outcome
unfolding absorb_public_evidence
resolve_and_advance s d opp deps =
    let resolution = resolve_capture s.position opp.capture_claim opp.barrier_placed in
    let s' = record (absorb_public_evidence s opp) {
      pending_claim_response = claim_answer resolution;
    } in
    if evidence_raises s.position opp
    then (s, err unreadable_turn)
    else if opp.hint_unreadable
    then (
      record s { police_scent = police_scent_of opp.scent_grid s.grid_size },
      err unreadable_turn,
    )
    else if resolution.captured
    then applying s' turn_verified "" turn_complete
    else moving deps s' d

abbrev pub is_true : Option Bool → Bool
is_true (some b) = b
is_true none = false

module _ (arithmetic : FloatArith) (digest : Json → String) where
  abbrev pub payload_of : SubGameState → TurnInput → Deps → SealedTurnPayload
  payload_of s i deps = record {
    step = pos s.step;
    role = "thief";
    sub_game_number = s.sub_game_number;
    position = (s.position.row, s.position.col);
    move = some (direction_text i.direction);
    intent = intent_text i.intent;
    hint = i.hint;
    scent_digest = digest (arr (grid_items s.own_scent.grid));
    scent_grid = s.own_scent.grid;
    timestamp = i.timestamp;
    nonce = i.nonce;
    config_sha256 = deps.config_sha256;
    barrier_placed = none;
    capture_claim = none;
    claim_response = s.pending_claim_response;
    win_claim = false;
    schema_version = "commitment/1";
    legacy_state = none;
  }

  unfoldable pub seal_turn : SubGameState → TurnInput → Deps → SealedRecord
  seal_turn s i deps = seal digest (payload_of s i deps)

  -- `_run_turn` from the delivery on.
  unfoldable pub delivering : SubGameState → TurnInput → Deps → SealedRecord → Outcome
  unfolding resolve_and_advance
  delivering s i deps r = elim (deliver_commit_and_reveal i.commitment_answer i.reveal_answer) [
    | err p ↦ (s, err (delivery_error p))
    | ok opp ↦ exchanging s (acknowledge s.exchange (pos s.step)) (λ s1.
        applying s1 ack_received "" (λ s2.
          exchanging s2 (reveal digest s2.exchange (pos s2.step) r) (λ s3.
            applying s3 reveal_sent "" (λ s4.
              let s5 = record s4 { records = append s4.records (r ∷ []) } in
              if is_true s.pending_claim_response
              then applying s5 sub_game_ended "captured" (game_ended capture)
              else resolve_and_advance s5 i.direction opp deps))))
  ]

  -- `_run_turn` from the decision on.
  unfoldable pub deciding : SubGameState → TurnInput → Deps → Outcome
  unfolding delivering seal_turn
  deciding s i deps = elim (apply_move s.position i.direction s.board) [
    | err e ↦ (s, err (illegal_action e))
    | ok _ ↦
        let r = seal_turn s i deps in
        exchanging s (commit s.exchange (pos s.step) r.commit_hash) (λ s1.
          applying s1 move_decided ""
            (λ s2. applying s2 commit_sent "" (λ s3. delivering s3 i deps r)))
  ]

  unfoldable pub run_turn_body : SubGameState → TurnInput → Deps → Outcome
  unfolding deciding
  run_turn_body s i deps = applying s begin_turn ("step " ++ show_ℕ s.step) (λ s1.
      elim (apply_turn arithmetic s1.own_scent s1.position deps.pheromone_decay) [
        | none ↦ (s1, err index_error)
        | some scent ↦ deciding (record s1 { own_scent = scent }) i deps
      ])

  -- What `run_turn` catches: of these exceptions, only the failed delivery.
  abbrev pub caught : TurnInput → Outcome → Outcome
  caught i (s, ok result) = (s, ok result)
  caught i (s, err (delivery_error _)) =
      let (m, r) = force_error s.machine i.error_text in
      elim r [
        | ok _ ↦
            (record s { machine = m }, ok (record { ended = true; outcome = some technical_loss }))
        | err e ↦ (record s { machine = m }, err (illegal_transition e))
      ]
  caught i (s, err e) = (s, err e)

  unfoldable pub run_turn : SubGameState → TurnInput → Deps → Outcome
  unfolding run_turn_body
  run_turn s i deps = caught i (run_turn_body s i deps)
