-- ===== src/Router.antt =====
-- Validation and routing of incoming messages: infrastructure/turn_router.py of src/thief_peer, on
-- the structural check of protocol/turn_message.py. A handler returns the router and its ack, or
-- raises. Reason texts are dropped, the error codes are kept; the log record of each call is not
-- modelled. Keys are built from sub-game numbers and steps that are ints (for an audit also from a
-- text, a bool or an absent number); on any other value the model ends with `not_modelled`.
pub mod Turns
pub mod Admission
pub mod Backpressure
mod Tests
use Prim.Native.String.{String, ◌++◌}
use ai2_final_thief_edward_d.Prelude.{
  Bool, true, false, not, ◌||◌, ◌&&◌, Option, none, some, List, [], ◌∷◌, if◌then◌else◌, Result, ok,
  err, ◌>>=◌, ◌>>◌, raise_if,
}
use ai2_final_thief_edward_d.Prelude.Int.{ℤ}
use ai2_final_thief_edward_d.Grid.{Role, police, thief}
use ai2_final_thief_edward_d.Lifecycle.{PeerState, error, series_complete, quit}
use ai2_final_thief_edward_d.Json.{
  Json, null, bool, num, str, obj, Fields, json_eq, get, has_key, as_dict, is_str, hashable, truthy,
  or_else, lookup, show_ℤ,
}
use ai2_final_thief_edward_d.Sequence.{
  MessageType, commitment, commit_ack, reveal, hint, scent, barrier, capture_claim,
  capture_response, SequenceTracker, check_and_advance,
}
use ai2_final_thief_edward_d.Inbox.{
  BoundedInbox, new_inbox, is_idempotent_replay, is_duplicate_conflict, correlation_conflict,
  enqueue,
}
use ai2_final_thief_edward_d.TurnMessage.{
  Raised, type_error, attribute_error, inbox_full_error, not_modelled, type_text, message_types,
  parse_type, required_fields, envelope_fields, has_all, type_shape, Parsed, check_type,
  structural_reason,
}

pub data ErrorCode : Type 0 where
  malformed wrong_role wrong_game config_mismatch lifecycle : ErrorCode
  conflicting_duplicate sequence backpressure : ErrorCode

pub data Ack : Type 0 where
  accepted idempotent ignored : Ack
  rejected : ErrorCode → Ack

pub record TurnRouter : Type 0 where
  pub expected_game_uid : String
  pub expected_sender : Role
  pub expected_config_sha256 : String
  pub turn_inbox : BoundedInbox
  pub audit_inbox : BoundedInbox
  pub control_inbox : BoundedInbox
  pub tracker : SequenceTracker
  pub machine : Option PeerState

abbrev pub role_text : Role → String
role_text police = "police"
role_text thief = "thief"

-- `_DEAD_STATES`
abbrev pub is_dead : PeerState → Bool
is_dead error = true
is_dead series_complete = true
is_dead quit = true
is_dead _ = false

-- `_DEAD_STATES_FOR_AUDIT`
abbrev pub is_dead_for_audit : PeerState → Bool
is_dead_for_audit error = true
is_dead_for_audit quit = true
is_dead_for_audit _ = false

abbrev pub config_differs : Json → String → Bool
config_differs null s = false
config_differs v s = not (is_str v s)

abbrev pub in_state : (PeerState → Bool) → Option PeerState → Bool
in_state dead none = false
in_state dead (some s) = dead s

unfoldable pub binding_reason : TurnRouter → Fields → Fields → (PeerState → Bool) → Option ErrorCode
binding_reason r envelope message dead =
    if not (is_str (get "sender" envelope) (role_text r.expected_sender))
    then some wrong_role
    else if not (is_str (get "game_uid" envelope) r.expected_game_uid)
    then some wrong_game
    else if config_differs (get "config_sha256" message) r.expected_config_sha256
    then some config_mismatch
    else if in_state dead r.machine
    then some lifecycle
    else none

-- `envelope.get("correlation_id", "")`
abbrev pub correlation_id : Fields → Json
correlation_id e = or_else (lookup "correlation_id" e) (str "")

abbrev pub turn_key : ℤ → ℤ → MessageType → String
turn_key sub_game step t = show_ℤ sub_game ++ ":" ++ show_ℤ step ++ ":" ++ type_text t

-- The end of `_handle_turn`: the guard of the order, then the queue. The tracker has advanced
-- when the queue refuses.
unfoldable pub sequence_and_enqueue :
    TurnRouter → ℤ → ℤ → MessageType → String → Json → Json → TurnRouter × Ack
sequence_and_enqueue r sub_game step t key message c =
    let (tracker, fault) = check_and_advance r.tracker sub_game step t in
    let r' = record r { tracker = tracker } in
    elim fault [
      | some _ ↦ (r', rejected sequence)
      | none ↦ elim (enqueue r.turn_inbox key message c) [
        | err _ ↦ (r', rejected backpressure)
        | ok inbox ↦ (record r' { turn_inbox = inbox }, accepted)
      ]
    ]

-- The middle of `_handle_turn`: the tests for repeats. A correlation id that is a list or a dict
-- cannot be looked up, which raises.
unfoldable pub admit_turn :
    TurnRouter → ℤ → ℤ → MessageType → Json → Json → Result Raised (TurnRouter × Ack)
admit_turn r sub_game step t message c =
    let key = turn_key sub_game step t in
    if is_idempotent_replay r.turn_inbox key message
    then ok (r, idempotent)
    else if is_duplicate_conflict r.turn_inbox key message
    then ok (r, rejected conflicting_duplicate)
    else if not (hashable c)
    then err type_error
    else if correlation_conflict r.turn_inbox c message
    then ok (r, rejected conflicting_duplicate)
    else ok (sequence_and_enqueue r sub_game step t key message c)

abbrev pub int_of : Json → Result Raised ℤ
int_of (num n) = ok n
int_of _ = err not_modelled

unfoldable pub route_turn : TurnRouter → Json → Parsed → Result Raised (TurnRouter × Ack)
unfolding binding_reason
route_turn r message p = elim (binding_reason r p.envelope p.fields is_dead) [
  | some code ↦ ok (r, rejected code)
  | none ↦ do
    sub_game ← int_of (get "sub_game_number" p.envelope)
    step ← int_of (get "step" p.envelope)
    admit_turn r sub_game step p.mtype message (correlation_id p.envelope)
]

-- `_handle_turn`
unfoldable pub check_turn : TurnRouter → Json → Result Raised (TurnRouter × Ack)
unfolding route_turn
check_turn r message = do
  parsed ← structural_reason message
  elim parsed [ none ↦ ok (r, rejected malformed) | some p ↦ route_turn r message p ]

abbrev pub is_dict : Json → Bool
is_dict v = elim (as_dict v) [ none ↦ false | some _ ↦ true ]

-- The call of `_log` at the end of each handler reads fields of `message.get("envelope", {})`, which
-- raises if that is there and is no dict. What the handler has stored stays stored.
unfoldable pub log_raises : Json → Bool
log_raises message = elim (as_dict message) [
  | none ↦ false
  | some m ↦ elim (lookup "envelope" m) [ none ↦ false | some e ↦ not (is_dict e) ]
]

abbrev pub logged : Json → Result Raised (TurnRouter × Ack) → Result Raised (TurnRouter × Ack)
logged message outcome = do
  result ← outcome
  raise_if (log_raises message) attribute_error
  ok result

unfoldable pub handle_turn : TurnRouter → Json → Result Raised (TurnRouter × Ack)
unfolding check_turn log_raises
handle_turn r message = logged message (check_turn r message)

-- `f"{v}"`
abbrev pub text_of : Json → Result Raised String
text_of null = ok "None"
text_of (bool true) = ok "True"
text_of (bool false) = ok "False"
text_of (num n) = ok (show_ℤ n)
text_of (str s) = ok s
text_of _ = err not_modelled

-- The audit types, by their texts.
abbrev pub is_audit_type : Json → Bool
is_audit_type v =
    is_str v "audit"
    || is_str v "audit_ack"
    || is_str v "final_result"
    || is_str v "result_agreement"

unfoldable pub admit_audit : TurnRouter → String → Json → Json → Result Raised (TurnRouter × Ack)
admit_audit r key payload c =
    if is_idempotent_replay r.audit_inbox key payload
    then ok (r, idempotent)
    else if is_duplicate_conflict r.audit_inbox key payload
    then ok (r, rejected conflicting_duplicate)
    else elim (enqueue r.audit_inbox key payload c) [
      | err _ ↦ ok (r, rejected backpressure)
      | ok inbox ↦
          if truthy c && not (hashable c)
          then err type_error
          else ok (record r { audit_inbox = inbox }, accepted)
    ]

unfoldable pub route_audit : TurnRouter → Json → Fields → Fields → Result Raised (TurnRouter × Ack)
unfolding binding_reason admit_audit
route_audit r payload m e =
    let mtype = get "message_type" m in
    let dead = if is_str mtype "result_agreement" then is_dead_for_audit else is_dead in
    if not (is_audit_type mtype)
    then ok (r, rejected malformed)
    else elim (binding_reason r e m dead) [
      | some code ↦ ok (r, rejected code)
      | none ↦ do
        sub_game ← text_of (get "sub_game_number" e)
        kind ← text_of mtype
        admit_audit r ("audit:" ++ sub_game ++ ":" ++ kind) payload (correlation_id e)
    ]

-- `_handle_audit`
unfoldable pub check_audit : TurnRouter → Json → Result Raised (TurnRouter × Ack)
unfolding route_audit
check_audit r payload = elim (as_dict payload) [
  | none ↦ ok (r, rejected malformed)
  | some m ↦ elim (as_dict (get "envelope" m)) [
    | none ↦ ok (r, rejected malformed)
    | some e ↦ route_audit r payload m e
  ]
]

unfoldable pub handle_audit : TurnRouter → Json → Result Raised (TurnRouter × Ack)
unfolding check_audit log_raises
handle_audit r payload = logged payload (check_audit r payload)

abbrev pub is_control_kind : Json → Bool
is_control_kind v = is_str v "enable" || is_str v "status" || is_str v "restart" || is_str v "quit"

-- The body of `handle_control`: nothing here catches the error of a full queue.
unfoldable pub check_control : TurnRouter → Json → Result Raised (TurnRouter × Ack)
check_control r message = elim (as_dict message) [
  | none ↦ ok (r, rejected malformed)
  | some m ↦ elim (lookup "kind" m) [
    | none ↦ ok (r, rejected malformed)
    | some kind ↦ if not (is_control_kind kind) then ok (r, rejected malformed) else do
      text ← text_of kind
      elim (enqueue r.control_inbox ("control:" ++ text) message (str "")) [
        | err _ ↦ err inbox_full_error
        | ok inbox ↦ ok (record r { control_inbox = inbox }, ignored)
      ]
  ]
]

unfoldable pub handle_control : TurnRouter → Json → Result Raised (TurnRouter × Ack)
unfolding check_control log_raises
handle_control r message = logged message (check_control r message)
