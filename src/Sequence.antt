-- ===== src/Sequence.antt =====
-- The ordering guard of incoming turn messages: infrastructure/sequence.py of src/thief_peer, with
-- the message types of protocol/turn_message.py. Steps and sub-game numbers are ints.
pub mod Order
mod Tests
use ai2_final_thief_edward_d.Prelude.{
  ℕ, ◌≡◌, Bool, true, false, not, Option, none, some, List, [], ◌∷◌, if◌then◌else◌, Eq,
}
use ai2_final_thief_edward_d.Prelude.Int.{ℤ, pos, negsuc, ◌+ℤ◌, ◌-ℤ◌, ltb_ℤ, eq_ℤ, eq_ℤ_iff}
use ai2_final_thief_edward_d.Prelude.Dict.{Dict, lookup, insert}

instance abbrev pub int_is_eq : Eq ℤ
int_is_eq = record { beq = eq_ℤ; beq_iff = eq_ℤ_iff }

pub data MessageType : Type 0 where
  commitment commit_ack reveal hint scent barrier capture_claim capture_response : MessageType

-- `_AUX_TYPES`
abbrev pub is_aux : MessageType → Bool
is_aux commitment = false
is_aux reveal = false
is_aux _ = true

-- `_CORE_PHASE_INDEX`, read for a core type only.
abbrev pub phase_index : MessageType → ℤ
phase_index commitment = pos 0
phase_index _ = pos 1

abbrev pub is_commitment : MessageType → Bool
is_commitment commitment = true
is_commitment _ = false

abbrev pub is_reveal : MessageType → Bool
is_reveal reveal = true
is_reveal _ = false

pub record Cursor : Type 0 where
  pub step : ℤ
  pub phase : ℤ

abbrev pub new_cursor : Cursor
new_cursor = record { step = pos 0; phase = negsuc 0 }

pub data SequenceFault : Type 0 where
  aux_not_active stale_step skipped_step commitment_out_of_order before_predecessor : SequenceFault

-- `_check_core`: the cursor after the call, and the fault of a rejected message.
unfoldable pub check_core : Cursor → ℤ → MessageType → Cursor × Option SequenceFault
check_core c step t =
    if ltb_ℤ step c.step
    then (c, some stale_step)
    else if ltb_ℤ c.step step
    then (c, some skipped_step)
    else if is_commitment t
    then if not (eq_ℤ c.phase (negsuc 0))
      then (c, some commitment_out_of_order)
      else (record c { phase = pos 0 }, none)
    else if ltb_ℤ c.phase (phase_index t -ℤ pos 1)
    then (c, some before_predecessor)
    else if is_reveal t
    then (record { step = c.step +ℤ pos 1; phase = negsuc 0 }, none)
    else (record c { phase = phase_index t }, none)

-- What `check_and_advance` does to the cursor of its sub-game.
unfoldable pub check_cursor : Cursor → ℤ → MessageType → Cursor × Option SequenceFault
unfolding check_core
check_cursor c step t =
    if is_aux t
    then if not (eq_ℤ step c.step) then (c, some aux_not_active) else (c, none)
    else check_core c step t

abbrev pub SequenceTracker : Type 0
SequenceTracker = Dict ℤ Cursor

abbrev pub or_new : Option Cursor → Cursor
or_new none = new_cursor
or_new (some c) = c

-- `_cursor`: `setdefault` stores a new cursor for a sub-game that is not there yet.
unfoldable pub cursor_of : SequenceTracker → ℤ → Cursor
cursor_of t sub_game = or_new (lookup sub_game t)

unfoldable pub check_and_advance :
    SequenceTracker → ℤ → ℤ → MessageType → SequenceTracker × Option SequenceFault
unfolding check_cursor cursor_of
check_and_advance t sub_game step mtype =
    let (c, fault) = check_cursor (cursor_of t sub_game) step mtype in (insert sub_game c t, fault)
