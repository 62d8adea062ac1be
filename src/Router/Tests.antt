-- ===== src/Router/Tests.antt =====
-- The router on concrete messages.
use ai2_final_thief_edward_d.Prelude.{true, some, ok, ◌≡◌, refl, inr, [], ◌∷◌, arith}
use ai2_final_thief_edward_d.Prelude.Int.{pos}
use ai2_final_thief_edward_d.Json.{
  Json, null, num, str, obj, Fields, field, end, get, hashable, lookup as lookup_field,
}
use ai2_final_thief_edward_d.Prelude.Dict.{lookup, insert}
use ai2_final_thief_edward_d.Sequence.{
  commitment, check_cursor, check_and_advance, check_core, cursor_of,
}
use ai2_final_thief_edward_d.Inbox.{new_inbox, enqueue, put_nowait, is_full}
use ai2_final_thief_edward_d.Router.{
  TurnRouter, Ack, correlation_id, handle_turn, rejected, sequence, sequence_and_enqueue,
}
use ai2_final_thief_edward_d.TurnMessage.{
  Parsed, structural_reason, check_type, parse_type, has_all, type_shape,
}
use ai2_final_thief_edward_d.Router.Admission.{Handled}
use ai2_final_thief_edward_d.Router.Turns.{handle_turn-Handled}
use ai2_final_thief_edward_d.Router.Backpressure.{backpressure_loses_turn}
use ai2_final_thief_edward_d.Samples.{router}

abbrev envelope : Fields
envelope = field "game_uid" (str "g") (
    field "sub_game_number" (num (pos 1))
      (field "step" (num (pos 0)) (field "sender" (str "thief") end)))

abbrev message : Json
message = obj (
    field "envelope" (obj envelope) (
      field "message_type" (str "commitment")
        (field "commit_hash" (str "h") (field "config_sha256" (str "c0") end))))

abbrev parsed : Parsed
parsed = record {
  fields = field "envelope" (obj envelope) (
      field "message_type" (str "commitment")
        (field "commit_hash" (str "h") (field "config_sha256" (str "c0") end)));
  envelope = envelope;
  mtype = commitment;
}

is_parsed : structural_reason message ≡ ok (some parsed)
unfolding structural_reason check_type parse_type has_all type_shape lookup_field
is_parsed = refl

has_number : get "sub_game_number" envelope ≡ num (pos 1)
unfolding lookup_field
has_number = refl

has_step : get "step" envelope ≡ num (pos 0)
unfolding lookup_field
has_step = refl

has_plain_id : hashable (correlation_id envelope) ≡ true
unfolding lookup_field
has_plain_id = refl

handle_turn-Handled_example :
    (out : TurnRouter × Ack) × (handle_turn router message ≡ ok out)
    × Handled router parsed message (pos 1) (pos 0) out
handle_turn-Handled_example =
    handle_turn-Handled router parsed message (pos 1) (pos 0) (inr (omega arith)) is_parsed
      has_number has_step has_plain_id

-- A router whose turn inbox has its one message.
abbrev full_router : TurnRouter
full_router = record router {
  turn_inbox = record (new_inbox 1) { queue = record { logical_key = "k"; message = null } ∷ [] };
}

abbrev refused : TurnRouter
refused = record full_router { tracker = (pos 1, record { step = pos 0; phase = pos 0 }) ∷ [] }

backpressure_loses_turn_example :
    (sequence_and_enqueue
      (record refused { turn_inbox = new_inbox 1 })
      (pos 1)
      (pos 0)
      commitment
      "k1"
      message
      (str "")).1
    ≡ rejected sequence
unfolding sequence_and_enqueue check_and_advance check_cursor check_core cursor_of lookup insert
    enqueue put_nowait is_full
backpressure_loses_turn_example =
    backpressure_loses_turn full_router (pos 1) (pos 0) commitment "k1" message (str "") refused
      (new_inbox 1) refl refl
