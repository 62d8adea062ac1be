-- ===== src/Router/Turns.antt =====
-- What a turn message does to the router, for each ack.
use ai2_final_thief_edward_d.Prelude.{
  ◌≡◌, refl, inl, inr, Bool, true, false, not, Option, none, some, arith, Result, ok, err,
  if◌then◌else◌, Option-cases,
}
use ai2_final_thief_edward_d.Prelude.Int.{ℤ}
use ai2_final_thief_edward_d.Json.Laws.{string_is_eq}
use ai2_final_thief_edward_d.Json.{
  Json, null, bool, num, float, str, arr, obj, lookup, as_dict, Fields, get, hashable, or_else,
}
use ai2_final_thief_edward_d.Inbox.Bounds.{IsBounded}
use ai2_final_thief_edward_d.Router.{
  TurnRouter, ErrorCode, Ack, rejected, malformed, wrong_role, wrong_game, config_mismatch,
  lifecycle, route_turn, check_turn, handle_turn, logged, log_raises, binding_reason, is_dead,
  is_dict, correlation_id,
}
use ai2_final_thief_edward_d.TurnMessage.{Raised, attribute_error, Parsed, structural_reason}
use ai2_final_thief_edward_d.Router.Admission.{Handled, binding_reason-Bound, admit_turn-Handled}

-- The codes of `_binding_reason`.
abbrev IsBindingCode : ErrorCode → Type 0
IsBindingCode wrong_role = Unit
IsBindingCode wrong_game = Unit
IsBindingCode config_mismatch = Unit
IsBindingCode lifecycle = Unit
IsBindingCode _ = ⊥

abbrev IsBindingResult : Option ErrorCode → Type 0
IsBindingResult none = Unit
IsBindingResult (some code) = IsBindingCode code

four_tests :
    (a b c d : Bool)
    → IsBindingResult (
        if a
        then some wrong_role
        else if b
        then some wrong_game
        else if c
        then some config_mismatch
        else if d
        then some lifecycle
        else none)
four_tests true b c d = tt
four_tests false true c d = tt
four_tests false false true d = tt
four_tests false false false true = tt
four_tests false false false false = tt

binding_reason-IsBindingResult :
    (r : TurnRouter) (e m : Fields) → IsBindingResult (binding_reason r e m is_dead)
unfolding binding_reason
binding_reason-IsBindingResult r e m = four_tests _ _ _ _

binding_unchanged :
    (r : TurnRouter) (p : Parsed) (m : Json) (g step : ℤ) (code : ErrorCode)
    → IsBindingCode code
    → binding_reason r p.envelope p.fields is_dead ≡ some code
    → Handled r p m g step (r, rejected code)
binding_unchanged r p m g step wrong_role h e = (e, refl)
binding_unchanged r p m g step wrong_game h e = (e, refl)
binding_unchanged r p m g step config_mismatch h e = (e, refl)
binding_unchanged r p m g step lifecycle h e = (e, refl)
binding_unchanged r p m g step _ h e = absurd h

route_turn-Handled :
    (r : TurnRouter) (p : Parsed) (m : Json) (g step : ℤ)
    → IsBounded r.turn_inbox
    → get "sub_game_number" p.envelope ≡ num g
    → get "step" p.envelope ≡ num step
    → hashable (correlation_id p.envelope) ≡ true
    → (out : TurnRouter × Ack) × (route_turn r m p ≡ ok out) × Handled r p m g step out
unfolding route_turn
route_turn-Handled r p m g step b eg es plain =
    elim (Option-cases (binding_reason r p.envelope p.fields is_dead)) [
      | inl e ↦
          let out = admit_turn-Handled r p m g step b (binding_reason-Bound r p e) plain in
          (out.0, rw (e, eg, es, route_turn) out.1, out.2)
      | inr (code, e) ↦ (
        (r, rejected code),
        rw (e, route_turn) refl,
        binding_unchanged r p m g step code
            (rw e at (binding_reason-IsBindingResult r p.envelope p.fields)) e,
      )
    ]

-- The log record of a structurally valid message can be written.
valid-logs : (m : Json) (p : Parsed) → structural_reason m ≡ ok (some p) → log_raises m ≡ false
unfolding structural_reason log_raises
valid-logs (obj fs) p h = by_envelope (lookup "envelope" fs) _ h
  where
    by_envelope :
        (o : Option Json) (k : Fields → Result Raised (Option Parsed))
        → (elim (as_dict (or_else o null)) [ none ↦ ok none | some e ↦ k e ]) ≡ ok (some p)
        → (elim o [ none ↦ false | some e ↦ not (is_dict e) ]) ≡ false
    by_envelope none k h = refl
    by_envelope (some (obj es)) k h = refl
    by_envelope (some null) k h = ground (arith, h)
    by_envelope (some (bool x)) k h = ground (arith, h)
    by_envelope (some (num n)) k h = ground (arith, h)
    by_envelope (some (float x)) k h = ground (arith, h)
    by_envelope (some (str t)) k h = ground (arith, h)
    by_envelope (some (arr xs)) k h = ground (arith, h)
valid-logs null p h = refl
valid-logs (bool x) p h = refl
valid-logs (num n) p h = refl
valid-logs (float x) p h = refl
valid-logs (str t) p h = refl
valid-logs (arr xs) p h = refl

-- On a structurally valid message with an integer sub-game number and step and a correlation id that can
-- be hashed, `handle_turn` raises nothing, if the turn inbox respects its bound, and its ack tells what it
-- has done. A message is accepted only if it names the expected sender, game and configuration and the peer
-- is not dead, nothing was seen under its key, its correlation id is not another message's and it is next in
-- order; it is then the last of the queue, and nothing but the turn inbox and the tracker has changed. With
-- the same bindings a replay is equal to what was seen under its key and a duplicate in conflict is not, or
-- its correlation id is another message's, and both change nothing; a message refused for its sequence is
-- not next in order and leaves every inbox and every sub-game's cursor; one refused for want of room was
-- next in order and leaves the queue, which is full. Any other refusal has the code of the binding checks
-- and changes nothing.
pub handle_turn-Handled :
    (r : TurnRouter) (p : Parsed) (m : Json) (g step : ℤ)
    → IsBounded r.turn_inbox
    → structural_reason m ≡ ok (some p)
    → get "sub_game_number" p.envelope ≡ num g
    → get "step" p.envelope ≡ num step
    → hashable (correlation_id p.envelope) ≡ true
    → (out : TurnRouter × Ack) × (handle_turn r m ≡ ok out) × Handled r p m g step out
unfolding handle_turn check_turn
handle_turn-Handled r p m g step b valid eg es plain =
    let out = route_turn-Handled r p m g step b eg es plain in
    (out.0, rw (valid, out.1, valid-logs m p valid, logged, check_turn) refl, out.2)

-- A message that is a dict and has an envelope that is none makes `handle_turn` raise, where a
-- MALFORMED ack is meant: the log record at its end reads the fields of that envelope.
bad_envelope_raises :
    (r : TurnRouter) (m : Fields) (e : Json)
    → lookup "envelope" m ≡ some e
    → as_dict e ≡ none
    → (check_turn r (obj m) ≡ ok (r, rejected malformed))
      × (handle_turn r (obj m) ≡ err attribute_error)
unfolding handle_turn structural_reason
bad_envelope_raises r m e h n = ground arith
