-- ===== src/Router/Admission.antt =====
-- What becomes of a turn message that has passed the binding checks: the tests for repeats, the guard of
-- the order and the queue.
use Prim.Native.String.{String}
use ai2_final_thief_edward_d.Prelude.{
  ap, ◌||◌, ◌≡◌, refl, inl, inr, Bool, true, false, not, ◌++◌, Option, none, some, [], ◌∷◌, arith,
  ok, err, if◌then◌else◌, Bool-cases, Option-cases, Result-cases, ◌<◌, ◌≤◌,
}
use ai2_final_thief_edward_d.Prelude.Int.{ℤ, eq_ℤ, eq_ℤ_iff}
use ai2_final_thief_edward_d.Prelude.Dict.{lookup as lookup_key}
use ai2_final_thief_edward_d.Json.Laws.{string_is_eq}
use ai2_final_thief_edward_d.Json.{Json, get, hashable, json_eq, is_str}
use ai2_final_thief_edward_d.Sequence.{
  MessageType, Cursor, SequenceFault, SequenceTracker, check_cursor, cursor_of, check_and_advance,
}
use ai2_final_thief_edward_d.Sequence.Order.{cursor_of-check, fault-check}
use ai2_final_thief_edward_d.Inbox.{
  size, enqueue, is_idempotent_replay, is_duplicate_conflict, correlation_conflict, repeats,
  differs,
}
use ai2_final_thief_edward_d.Inbox.Bounds.{IsBounded, Enqueued, enqueue-parts}
use ai2_final_thief_edward_d.Router.{
  TurnRouter, ErrorCode, Ack, accepted, idempotent, ignored, rejected, wrong_role, wrong_game,
  config_mismatch, lifecycle, conflicting_duplicate, sequence, backpressure, sequence_and_enqueue,
  admit_turn, role_text, config_differs, in_state, binding_reason, is_dead, turn_key,
  correlation_id,
}
use ai2_final_thief_edward_d.TurnMessage.{Parsed}

check_cursor_rejected :
    (c : Cursor) (step : ℤ) (t : MessageType) {f : SequenceFault}
    → (check_cursor c step t).1 ≡ some f
    → (check_cursor c step t).0 ≡ c
unfolding check_cursor
check_cursor_rejected c step t h = ground arith

check_rejected :
    (tracker : SequenceTracker) (g h step : ℤ) (t : MessageType) {f : SequenceFault}
    → (check_and_advance tracker h step t).1 ≡ some f
    → cursor_of (check_and_advance tracker h step t).0 g ≡ cursor_of tracker g
check_rejected tracker g h step t e =
    let same = check_cursor_rejected (cursor_of tracker h) step t (rw fault-check at e) in
    elim (Bool-cases (eq_ℤ g h)) [
      | inl q ↦ rw (cursor_of-check, q, same, (eq_ℤ_iff g h).0 q)
      | inr q ↦ rw (cursor_of-check, q)
    ]

abbrev is_none : Option SequenceFault → Bool
is_none none = true
is_none (some f) = false

-- The message names the router's opponent, its game and no other configuration, and the peer is not dead.
abbrev pub Bound : TurnRouter → Parsed → Type 0
Bound r p =
    (is_str (get "sender" p.envelope) (role_text r.expected_sender) ≡ true)
    × (is_str (get "game_uid" p.envelope) r.expected_game_uid ≡ true)
    × (config_differs (get "config_sha256" p.fields) r.expected_config_sha256 ≡ false)
    × (in_state is_dead r.machine ≡ false)

pub binding_reason-Bound :
    (r : TurnRouter) (p : Parsed) → binding_reason r p.envelope p.fields is_dead ≡ none → Bound r p
unfolding binding_reason
binding_reason-Bound r p h =
    no_reason (is_str (get "sender" p.envelope) (role_text r.expected_sender))
      (is_str (get "game_uid" p.envelope) r.expected_game_uid)
      (config_differs (get "config_sha256" p.fields) r.expected_config_sha256)
      (in_state is_dead r.machine) h
  where
    no_reason :
        (a b c d : Bool)
        → (if not a
            then some wrong_role
            else if not b
            then some wrong_game
            else if c
            then some config_mismatch
            else if d
            then some lifecycle
            else none)
          ≡ none
        → (a ≡ true) × (b ≡ true) × (c ≡ false) × (d ≡ false)
    no_reason a b c d h = ground (arith, h)

-- What the handler has done to the router with a structurally valid message of that sub-game and step,
-- by its ack.
module _ (r : TurnRouter) (p : Parsed) (m : Json) (g step : ℤ) where
  abbrev own_key : String
  own_key = turn_key g step p.mtype

  abbrev binding : Option ErrorCode
  binding = binding_reason r p.envelope p.fields is_dead

  abbrev advanced : SequenceTracker × Option SequenceFault
  advanced = check_and_advance r.tracker g step p.mtype

  -- The message that was seen is this one.
  abbrev Repeated : Option Json → Type 0
  Repeated none = ⊥
  Repeated (some v) = json_eq v m ≡ true

  abbrev pub Handled : TurnRouter × Ack → Type 0
  Handled (r', accepted) =
      (Bound r p)
      × (lookup_key own_key r.turn_inbox.seen_by_key ≡ none)
      × (correlation_conflict r.turn_inbox (correlation_id p.envelope) m ≡ false)
      × (advanced ≡ (r'.tracker, none))
      × (r'.turn_inbox.queue
          ≡ r.turn_inbox.queue ++ record { logical_key = own_key; message = m } ∷ [])
      × (r' ≡ record r { turn_inbox = r'.turn_inbox; tracker = r'.tracker })
  Handled (r', idempotent) =
      Bound r p × Repeated (lookup_key own_key r.turn_inbox.seen_by_key) × (r' ≡ r)
  Handled (r', ignored) = ⊥
  Handled (r', rejected conflicting_duplicate) =
      (Bound r p)
      × ((is_duplicate_conflict r.turn_inbox own_key m
            || correlation_conflict r.turn_inbox (correlation_id p.envelope) m)
          ≡ true)
      × (r' ≡ r)
  Handled (r', rejected sequence) =
      (Bound r p)
      × (not (is_none advanced.1) ≡ true)
      × (r' ≡ record r { tracker = r'.tracker })
      × ((h : ℤ) → cursor_of r'.tracker h ≡ cursor_of r.tracker h)
  Handled (r', rejected backpressure) =
      (Bound r p)
      × (is_none advanced.1 ≡ true)
      × (r' ≡ record r { tracker = r'.tracker })
      × (0 < r.turn_inbox.capacity)
      × (r.turn_inbox.capacity ≤ size r.turn_inbox)
  Handled (r', rejected code) = (binding ≡ some code) × (r' ≡ r)

  sequence_and_enqueue-Handled :
      IsBounded r.turn_inbox
      → Bound r p
      → lookup_key own_key r.turn_inbox.seen_by_key ≡ none
      → correlation_conflict r.turn_inbox (correlation_id p.envelope) m ≡ false
      → Handled (sequence_and_enqueue r g step p.mtype own_key m (correlation_id p.envelope))
  unfolding sequence_and_enqueue
  sequence_and_enqueue-Handled b n new apart =
      let c = correlation_id p.envelope in
      elim (Option-cases advanced.1) [
        | inl e ↦ elim (Result-cases (enqueue r.turn_inbox own_key m c)) [
          | inl (inbox, q) ↦
              let done : Enqueued r.turn_inbox own_key m c (ok inbox) =
                rw q at (enqueue-parts r.turn_inbox own_key m c b) in
              rw (e, q, sequence_and_enqueue) (n, new, apart, tracked e, done.0, refl)
          | inr (f, q) ↦
              let full : Enqueued r.turn_inbox own_key m c (err f) =
                rw q at (enqueue-parts r.turn_inbox own_key m c b) in
              rw (e, q, sequence_and_enqueue) (n, ap is_none e, refl, full.0, full.1)
        ]
        | inr (f, e) ↦
            rw (e, sequence_and_enqueue)
              (
                n,
                ap (λ o. not (is_none o)) e,
                refl,
                λ h. check_rejected r.tracker h g step p.mtype e,
              )
      ]
    where
      tracked : advanced.1 ≡ none → advanced ≡ (advanced.0, none)
      tracked e = λ i. (advanced.0, e i)

  unseen :
      is_idempotent_replay r.turn_inbox own_key m ≡ false
      → is_duplicate_conflict r.turn_inbox own_key m ≡ false
      → lookup_key own_key r.turn_inbox.seen_by_key ≡ none
  unfolding is_idempotent_replay is_duplicate_conflict
  unseen h k = by_entry (lookup_key own_key r.turn_inbox.seen_by_key) h k
    where
      by_entry : (o : Option Json) → repeats o m ≡ false → differs o m ≡ false → o ≡ none
      by_entry none h k = refl
      by_entry (some v) h k = ground (arith, h, k)

  repeated :
      is_idempotent_replay r.turn_inbox own_key m ≡ true
      → Repeated (lookup_key own_key r.turn_inbox.seen_by_key)
  unfolding is_idempotent_replay
  repeated h = by_entry (lookup_key own_key r.turn_inbox.seen_by_key) h
    where
      by_entry : (o : Option Json) → repeats o m ≡ true → Repeated o
      by_entry none h = ground (arith, h)
      by_entry (some v) h = h

  pub admit_turn-Handled :
      IsBounded r.turn_inbox
      → Bound r p
      → hashable (correlation_id p.envelope) ≡ true
      → (out : TurnRouter × Ack) × (admit_turn r g step p.mtype m (correlation_id p.envelope)
          ≡ ok out)
        × Handled out
  unfolding admit_turn
  admit_turn-Handled b n plain =
      let c = correlation_id p.envelope in
      elim (Bool-cases (is_idempotent_replay r.turn_inbox own_key m)) [
        | inl e ↦ ((r, idempotent), rw (e, admit_turn) refl, (n, repeated e, refl))
        | inr e ↦ elim (Bool-cases (is_duplicate_conflict r.turn_inbox own_key m)) [
          | inl f ↦ (
            (r, rejected conflicting_duplicate),
            rw (e, f, admit_turn) refl,
            (n, rw f refl, refl),
          )
          | inr f ↦ elim (Bool-cases (correlation_conflict r.turn_inbox c m)) [
            | inl h ↦ (
              (r, rejected conflicting_duplicate),
              rw (e, f, plain, h, admit_turn) refl,
              (n, rw (f, h) refl, refl),
            )
            | inr h ↦ (
              sequence_and_enqueue r g step p.mtype own_key m c,
              rw (e, f, plain, h, admit_turn) refl,
              sequence_and_enqueue-Handled b n (unseen e f) h,
            )
          ]
        ]
      ]
