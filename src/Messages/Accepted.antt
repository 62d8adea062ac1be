-- ===== src/Messages/Accepted.antt =====
-- The thief's messages pass the checks of a router that expects the thief.
use Prim.Native.String.{String}
use text.Mathlib.TextEquality.{eq_iff}
use ai2_final_thief_edward_d.Prelude.{◌≡◌, refl, true, false, none, some, ok, arith}
use ai2_final_thief_edward_d.Prelude.Int.{ℤ, pos, negsuc, ◌+ℤ◌, ◌-ℤ◌, eq_ℤ_iff}
use ai2_final_thief_edward_d.Grid.{thief}
use ai2_final_thief_edward_d.Json.{Json, num, str, Fields, get, is_str, lookup as lookup_field}
use ai2_final_thief_edward_d.Sequence.{
  int_is_eq, MessageType, commitment, reveal, SequenceTracker, check_cursor, cursor_of,
  check_and_advance,
}
use ai2_final_thief_edward_d.Sequence.Order.{cursor_of-check, fault-check}
use ai2_final_thief_edward_d.Sealing.Audit.{SealedRecord}
use ai2_final_thief_edward_d.Router.{
  TurnRouter, binding_reason, is_dead, in_state, role_text, config_differs,
}
use ai2_final_thief_edward_d.TurnMessage.{Parsed, structural_reason}
use ai2_final_thief_edward_d.Messages.{commitment_message, reveal_message}

-- The router expects the thief in this game with this configuration, and its peer is not dead.
abbrev pub Expects : TurnRouter → String → String → Type 0
Expects router game_uid config =
    (router.expected_sender ≡ thief)
    × (router.expected_game_uid ≡ game_uid)
    × (router.expected_config_sha256 ≡ config)
    × (in_state is_dead router.machine ≡ false)

-- The message is of that type and passes the structural and the binding checks, and the router reads
-- that sub-game and step in it.
abbrev pub Admitted : TurnRouter → Json → MessageType → ℤ → ℤ → Type 0
Admitted router message t sub_game step =
    (p : Parsed) × (structural_reason message ≡ ok (some p))
    × (p.mtype ≡ t)
    × (binding_reason router p.envelope p.fields is_dead ≡ none)
    × (get "sub_game_number" p.envelope ≡ num sub_game)
    × (get "step" p.envelope ≡ num step)

binding_passes :
    (router : TurnRouter) (e m : Fields) (u c : String)
    → Expects router u c
    → get "sender" e ≡ str "thief"
    → get "game_uid" e ≡ str u
    → get "config_sha256" m ≡ str c
    → binding_reason router e m is_dead ≡ none
unfolding binding_reason
binding_passes router e m u c h s g k =
    let sender : is_str (get "sender" e) (role_text router.expected_sender) ≡ true =
      rw (s, h.0) refl in
    let uid : is_str (get "game_uid" e) router.expected_game_uid ≡ true =
      rw (g, h.1) ((eq_iff u u).1 refl) in
    let config : config_differs (get "config_sha256" m) router.expected_config_sha256 ≡ false =
      rw (k, h.2) (ground (arith, eq_iff c c)) in
    ground (arith, sender, uid, config, h.3)

commitment_message-Admitted :
    (r : SealedRecord) (router : TurnRouter) (game_uid config : String)
    → Expects router game_uid config
    → Admitted router
        (commitment_message r game_uid config)
        commitment
        r.payload.sub_game_number
        r.payload.step
unfolding commitment_message structural_reason lookup_field
commitment_message-Admitted r router u c h =
    (_, refl, refl, binding_passes router _ _ u c h refl refl refl, refl, refl)

reveal_message-Admitted :
    (r : SealedRecord) (router : TurnRouter) (game_uid config : String)
    → Expects router game_uid config
    → Admitted router
        (reveal_message r game_uid config)
        reveal
        r.payload.sub_game_number
        r.payload.step
unfolding reveal_message structural_reason lookup_field
reveal_message-Admitted r router u c h =
    (_, refl, refl, binding_passes router _ _ u c h refl refl refl, refl, refl)

-- Both messages of a turn pass the structural and the binding checks of a router that expects the
-- thief in this game with this configuration, which reads the record's sub-game and step in them.
pub turn_messages-Admitted :
    (r : SealedRecord) (router : TurnRouter) (game_uid config : String)
    → Expects router game_uid config
    → let p = r.payload in
      Admitted router (commitment_message r game_uid config) commitment p.sub_game_number p.step
      × Admitted router (reveal_message r game_uid config) reveal p.sub_game_number p.step
turn_messages-Admitted r router u c h =
    (commitment_message-Admitted r router u c h, reveal_message-Admitted r router u c h)

commitment_due :
    (step : ℤ)
    → check_cursor (record { step = step; phase = negsuc 0 }) step commitment
      ≡ (record { step = step; phase = pos 0 }, none)
unfolding check_cursor
commitment_due step = ground arith

reveal_due :
    (step : ℤ)
    → check_cursor (record { step = step; phase = pos 0 }) step reveal
      ≡ (record { step = step +ℤ pos 1; phase = negsuc 0 }, none)
unfolding check_cursor ◌-ℤ◌
reveal_due step = ground arith

-- At a step that is due, the guard of the order accepts the commitment and then the reveal, and the next
-- step is due.
pub turn_in_order :
    (t : SequenceTracker) (g step : ℤ)
    → cursor_of t g ≡ record { step = step; phase = negsuc 0 }
    → let first = check_and_advance t g step commitment in
      let second = check_and_advance first.0 g step reveal in
      (first.1 ≡ none)
      × (second.1 ≡ none)
      × (cursor_of second.0 g ≡ record { step = step +ℤ pos 1; phase = negsuc 0 })
turn_in_order t g step h =
    let same = (eq_ℤ_iff g g).1 refl in
    let first = check_and_advance t g step commitment in
    let middle : cursor_of first.0 g ≡ record { step = step; phase = pos 0 } =
      rw (cursor_of-check, same, h, commitment_due step) in
    (
      rw (fault-check, h, commitment_due step) refl,
      rw (fault-check, middle, reveal_due step) refl,
      rw (cursor_of-check, same, middle, reveal_due step) refl,
    )
