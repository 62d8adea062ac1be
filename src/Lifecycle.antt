-- ===== src/Lifecycle.antt =====
-- The peer's lifecycle: domain/state_machine/ of src/thief_peer (states.py, events.py,
-- transitions.py, machine.py). Reason texts are a data type with one constructor for each message.
-- No caller passes `seq_fn`, so `at_seq` is the default, the length of the history.
mod Tests
pub mod Paths
pub mod History
use Prim.Native.String.{String}
use text.Mathlib.Text.{◌==◌ as str_eq}
use ai2_final_thief_edward_d.Prelude.{
  ℕ, Bool, true, false, not, Option, none, some, List, [], ◌∷◌, ◌++◌, length, if◌then◌else◌, Result,
  ok, err,
}

pub data PeerState : Type 0 where
  initializing server_ready negotiating signed waiting thinking committing : PeerState
  waiting_for_ack revealing verifying sub_game_over auditing series_complete : PeerState
  error quit : PeerState

abbrev pub is_terminal : PeerState → Bool
is_terminal series_complete = true
is_terminal quit = true
is_terminal _ = false

abbrev pub is_error : PeerState → Bool
is_error error = true
is_error _ = false

pub data EventKind : Type 0 where
  server_started begin_negotiation terms_signed sub_game_start begin_turn : EventKind
  move_decided commit_sent ack_received reveal_sent turn_verified : EventKind
  sub_game_ended begin_audit next_sub_game series_audit_done : EventKind
  error_occurred quit_requested : EventKind

pub record TransitionEvent : Type 0 where
  pub kind : EventKind
  pub detail : String

-- The table `TRANSITIONS`.
unfoldable pub transitions : PeerState → EventKind → Option PeerState
transitions initializing server_started = some server_ready
transitions server_ready begin_negotiation = some negotiating
transitions negotiating terms_signed = some signed
transitions signed sub_game_start = some waiting
transitions waiting begin_turn = some thinking
transitions thinking move_decided = some committing
transitions committing commit_sent = some waiting_for_ack
transitions waiting_for_ack ack_received = some revealing
transitions revealing reveal_sent = some verifying
transitions verifying turn_verified = some waiting
transitions verifying sub_game_ended = some sub_game_over
transitions sub_game_over begin_audit = some auditing
transitions auditing next_sub_game = some waiting
transitions auditing series_audit_done = some series_complete
transitions _ _ = none

-- `bool(e.detail)`
abbrev pub is_empty : String → Bool
is_empty s = str_eq s ""

-- The table `GUARDS`: one entry, and every other pair has no guard.
unfoldable pub guards : PeerState → TransitionEvent → Bool
guards negotiating e = elim e.kind [ terms_signed ↦ not (is_empty e.detail) | _ ↦ true ]
guards _ e = true

pub data Rejection : Type 0 where
  terminal_state already_in_error error_only_permits_quit no_transition guard_rejected : Rejection

-- The last lines of `resolve`: the table, then the guard.
unfoldable pub resolve_table : PeerState → TransitionEvent → Result Rejection PeerState
unfolding transitions guards
resolve_table s e = elim (transitions s e.kind) [
  | none ↦ err no_transition
  | some target ↦ if guards s e then ok target else err guard_rejected
]

-- A call of `resolve` on a state that is not terminal.
unfoldable pub resolve_live : PeerState → TransitionEvent → Result Rejection PeerState
unfolding resolve_table
resolve_live s e = elim e.kind [
  | error_occurred ↦ if is_error s then err already_in_error else ok error
  | quit_requested ↦ ok quit
  | _ ↦ if is_error s then err error_only_permits_quit else resolve_table s e
]

unfoldable pub resolve : PeerState → TransitionEvent → Result Rejection PeerState
unfolding resolve_live
resolve s e = if is_terminal s then err terminal_state else resolve_live s e

pub record TransitionLog : Type 0 where
  pub index : ℕ
  pub from_state : PeerState
  pub event : TransitionEvent
  pub to_state : Option PeerState
  pub accepted : Bool
  pub reason : Option Rejection
  pub at_seq : ℕ

pub record PeerStateMachine : Type 0 where
  pub state : PeerState
  pub history : List TransitionLog

abbrev pub new_machine : PeerStateMachine
new_machine = record { state = initializing; history = [] }

abbrev pub target_of : Result Rejection PeerState → Option PeerState
target_of (ok t) = some t
target_of (err _) = none

abbrev pub reason_of : Result Rejection PeerState → Option Rejection
reason_of (ok _) = none
reason_of (err r) = some r

abbrev pub is_ok {ℓ} : {E : Type 0} {A : Type ℓ} → Result E A → Bool
is_ok (ok _) = true
is_ok (err _) = false

abbrev pub moved_to : PeerState → Result Rejection PeerState → PeerState
moved_to s (ok t) = t
moved_to s (err _) = s

unfoldable pub can_apply : PeerStateMachine → TransitionEvent → Bool
can_apply m e = is_ok (resolve m.state e)

-- `apply`: the attempt is logged either way, and an illegal one raises.
unfoldable pub apply :
    PeerStateMachine → TransitionEvent → PeerStateMachine × Result Rejection PeerState
apply m e =
    let r = resolve m.state e in
    let log : TransitionLog = record {
      index = length m.history;
      from_state = m.state;
      event = e;
      to_state = target_of r;
      accepted = is_ok r;
      reason = reason_of r;
      at_seq = length m.history;
    } in
    (record { state = moved_to m.state r; history = m.history ++ log ∷ [] }, r)

unfoldable pub force_error :
    PeerStateMachine → String → PeerStateMachine × Result Rejection PeerState
force_error m detail = apply m (record { kind = error_occurred; detail = detail })

-- A machine that is given a sequence of events; a raise leaves it usable.
pub run : PeerStateMachine → List TransitionEvent → PeerStateMachine
run m [] = m
run m (e ∷ es) = run (apply m e).0 es
