-- ===== src/Router/Backpressure.antt =====
-- What becomes of a turn message that the full queue refuses: the guard of the order has already
-- counted it.
use Prim.Native.String.{String}
use ai2_final_thief_edward_d.Prelude.{◌≡◌, refl, false, none, some, arith}
use ai2_final_thief_edward_d.Prelude.Int.{ℤ, pos, ◌-ℤ◌, eq_ℤ_iff, +ℤ_parts}
use ai2_final_thief_edward_d.Json.{Json}
use ai2_final_thief_edward_d.Sequence.{
  MessageType, commitment, reveal, is_aux, Cursor, SequenceFault, SequenceTracker,
  commitment_out_of_order, stale_step, check_core, check_cursor, cursor_of, check_and_advance,
}
use ai2_final_thief_edward_d.Sequence.Order.{cursor_of-check, fault-check}
use ai2_final_thief_edward_d.Inbox.{BoundedInbox}
use ai2_final_thief_edward_d.Router.{
  TurnRouter, rejected, sequence, backpressure, sequence_and_enqueue,
}

-- How the guard answers a core message that it has accepted before.
abbrev pub refusal : MessageType → SequenceFault
refusal commitment = commitment_out_of_order
refusal _ = stale_step

check_core_again :
    (c : Cursor) (step : ℤ) (t : MessageType)
    → is_aux t ≡ false
    → (check_core c step t).1 ≡ none
    → (check_core (check_core c step t).0 step t).1 ≡ some (refusal t)
unfolding check_core ◌-ℤ◌
check_core_again c step commitment a h = ground arith
check_core_again c step reveal a h = ground (arith, +ℤ_parts c.step (pos 1))
check_core_again c step _ a h = absurd (cc a)

check_cursor_again :
    (c : Cursor) (step : ℤ) (t : MessageType)
    → is_aux t ≡ false
    → (check_cursor c step t).1 ≡ none
    → (check_cursor (check_cursor c step t).0 step t).1 ≡ some (refusal t)
unfolding check_cursor
check_cursor_again c step commitment a h = check_core_again c step commitment refl h
check_cursor_again c step reveal a h = check_core_again c step reveal refl h
check_cursor_again c step _ a h = absurd (cc a)

check_again :
    (tr : SequenceTracker) (g step : ℤ) (t : MessageType)
    → is_aux t ≡ false
    → (check_and_advance tr g step t).1 ≡ none
    → (check_and_advance (check_and_advance tr g step t).0 g step t).1 ≡ some (refusal t)
check_again tr g step t a h =
    rw (fault-check, cursor_of-check, (eq_ℤ_iff g g).1 refl)
      (check_cursor_again (cursor_of tr g) step t a (rw fault-check at h))

-- When the queue refuses a core message with BACKPRESSURE, the same message, sent again before any other
-- turn message arrives, is refused with SEQUENCE, whatever room the queue has by then.
pub backpressure_loses_turn :
    (r : TurnRouter) (g step : ℤ) (t : MessageType) (key : String) (message c : Json)
    (r' : TurnRouter) (inbox : BoundedInbox)
    → is_aux t ≡ false
    → sequence_and_enqueue r g step t key message c ≡ (r', rejected backpressure)
    → (sequence_and_enqueue (record r' { turn_inbox = inbox }) g step t key message c).1
      ≡ rejected sequence
unfolding sequence_and_enqueue
backpressure_loses_turn r g step t key message c r' inbox a h =
    ground (arith, check_again r.tracker g step t a)
