-- ===== src/Turn/Steps.antt =====
-- The steps of a turn: one event, one call on the guard, and the move after the opponent's barrier.
use Prim.Native.String.{String}
use ai2_final_thief_edward_d.Prelude.{
  ◌≡◌, refl, ◌∙◌, true, false, Option, none, some, elem, if◌then◌else◌, Result, ok, err, arith,
}
use ai2_final_thief_edward_d.Grid.{
  Position, position_eq_iff, position_is_eq, Direction, stay, apply_direction, Board, with_barrier,
}
use ai2_final_thief_edward_d.Rules.{
  illegal_direction, direction_is_eq, direction_eq_iff, legal_move_directions, apply_move,
}
use ai2_final_thief_edward_d.Rules.Moves.{elem-legal_move_directions, apply_direction-stay}
use ai2_final_thief_edward_d.Rules.Barriers.{is_free-with_barrier}
use ai2_final_thief_edward_d.Lifecycle.{
  PeerState, EventKind, TransitionEvent, resolve, PeerStateMachine, apply,
}
use ai2_final_thief_edward_d.Sealing.Exchange.{ExchangeFault, CommitRevealExchange}
use ai2_final_thief_edward_d.Captures.{barrier_hits}
use ai2_final_thief_edward_d.SubGame.{SubGameState, Outcome, applying, exchanging, board_after}

pub apply-state :
    (m : PeerStateMachine) (e : TransitionEvent) {t : PeerState}
    → resolve m.state e ≡ ok t
    → (apply m e).0.state ≡ t
unfolding apply
apply-state m e h = ground (arith, h)

pub apply-result : (m : PeerStateMachine) (e : TransitionEvent) → (apply m e).1 ≡ resolve m.state e
unfolding apply
apply-result m e = refl

pub applying-lem :
    (Q : Outcome → Type 0) (s : SubGameState) (kind : EventKind) (detail : String)
    (rest : SubGameState → Outcome) (t : PeerState)
    → resolve s.machine.state (record { kind = kind; detail = detail }) ≡ ok t
    → ((m : PeerStateMachine) → m.state ≡ t → Q (rest (record s { machine = m })))
    → Q (applying s kind detail rest)
applying-lem Q s kind detail rest t h k =
    let e : TransitionEvent = record { kind = kind; detail = detail } in
    rw (apply-result s.machine e ∙ h, applying)
      (k (apply s.machine e).0 (apply-state s.machine e h))

pub exchanging-lem :
    (Q : Outcome → Type 0) (s : SubGameState) (r : Result ExchangeFault CommitRevealExchange)
    (rest : SubGameState → Outcome) {x : CommitRevealExchange}
    → r ≡ ok x
    → Q (rest (record s { exchange = x }))
    → Q (exchanging s r rest)
exchanging-lem Q s r rest h k = rw h k

-- A move that was legal before the opponent's barrier, from a cell that the barrier is not on.
pub move_after :
    (p : Position) (d : Direction) (b : Board) (barrier : Option Position)
    → elem d (legal_move_directions p b) ≡ true
    → barrier_hits barrier p ≡ false
    → apply_move p d (board_after b barrier) ≡ (
        if barrier_hits barrier (apply_direction p d)
        then err illegal_direction
        else ok (apply_direction p d))
unfolding apply_move
move_after p d b none h k = ground arith
move_after p d b (some c) h k = ground (
  arith,
  elem-legal_move_directions p b d,
  elem-legal_move_directions p (with_barrier b c) d,
  is_free-with_barrier b c (apply_direction p d),
  direction_eq_iff d stay,
  apply_direction-stay p,
  position_eq_iff c p,
  position_eq_iff c (apply_direction p d),
  position_eq_iff (apply_direction p d) c,
)
