-- ===== src/Gateway.antt =====
-- Waiting for the opponent's reveal: services/gateway.py of src/thief_peer. The answer of the opponent's
-- server is an argument, and so is what the peer's own server does to the inbox before each poll. A
-- message of the inbox is a dict with a dict as its envelope, as the router admits it.
pub mod Polls
mod Tests
use Prim.Native.String.{String}
use ai2_final_thief_edward_d.Prelude.{
  ℕ, zero, suc, Bool, true, false, not, ◌&&◌, ◌||◌, Option, none, some, if◌then◌else◌, Result, ok,
  err, ◌>>=◌,
}
use ai2_final_thief_edward_d.Json.{
  Json, bool, str, obj, Fields, end, field, get, is_str, json_eq, truthy, as_dict,
}
use ai2_final_thief_edward_d.Replay.{put, get_or_default}
use ai2_final_thief_edward_d.Inbox.{InboxFull, BoundedInbox, pop_matching}

abbrev pub fields_of : Json → Fields
fields_of (obj fs) = fs
fields_of _ = end

-- `message.get("envelope", {})`
abbrev pub envelope_of : Json → Fields
envelope_of m = fields_of (get_or_default "envelope" (obj end) (fields_of m))

unfoldable pub is_matching_reveal : Json → Json → Json → Bool
is_matching_reveal sub_game_number step m =
    is_str (get "message_type" (fields_of m)) "reveal"
    && (json_eq (get "sub_game_number" (envelope_of m)) sub_game_number
        && json_eq (get "step" (envelope_of m)) step)

unfoldable pub is_matching_commitment : Fields → Json → Bool
is_matching_commitment env m =
    is_str (get "message_type" (fields_of m)) "commitment"
    && (json_eq (get "sub_game_number" (envelope_of m)) (get "sub_game_number" env)
        && (json_eq (get "step" (envelope_of m)) (get "step" env)
            && json_eq (get "sender" (envelope_of m)) (get "sender" env)))

-- The inbox without the commitment that belongs to a reveal.
unfoldable pub prune_consumed_commitment : BoundedInbox → Json → Result InboxFull BoundedInbox
unfolding pop_matching
prune_consumed_commitment b reveal_message =
    elim (pop_matching b (is_matching_commitment (envelope_of reveal_message))) [
      | err e ↦ err e
      | ok (b', _) ↦ ok b'
    ]

-- `message.get("reveal", {})`
abbrev pub reveal_of : Json → Json
reveal_of m = get_or_default "reveal" (obj end) (fields_of m)

-- What a reveal that was found leaves and returns.
abbrev pub consumed : BoundedInbox → Json → Result InboxFull (BoundedInbox × Option Json)
consumed b m = elim (prune_consumed_commitment b m) [
  | err e ↦ err e
  | ok b' ↦ ok (b', some (reveal_of m))
]

abbrev pub no_opponent_reveal : Fields
no_opponent_reveal = field "ok" (bool false) (
    field "error_code" (str "NO_OPPONENT_REVEAL")
      (field "reason" (str "no opponent reveal received within poll budget") end))

-- `{**ack, "opponent_turn": opponent_turn}`, or the refusal.
abbrev pub with_opponent_turn : Fields → Option Json → Fields
with_opponent_turn ack none = no_opponent_reveal
with_opponent_turn ack (some turn) = put "opponent_turn" turn ack

module _ (arrive : ℕ → BoundedInbox → BoundedInbox) where
  -- One round of the loop, with the rounds that follow.
  abbrev pub polled :
      Result InboxFull (BoundedInbox × Option Json)
      → (BoundedInbox → Result InboxFull (BoundedInbox × Option Json))
      → Result InboxFull (BoundedInbox × Option Json)
  polled (err e) later = err e
  polled (ok (b, some m)) later = consumed b m
  polled (ok (b, none)) later = later b

  -- `_await_opponent_reveal` from poll `k` on, with `polls` polls left.
  unfoldable pub await_opponent_reveal :
      ℕ → ℕ → (Json → Bool) → BoundedInbox → Result InboxFull (BoundedInbox × Option Json)
  unfolding pop_matching prune_consumed_commitment
  await_opponent_reveal zero k matches b = ok (b, none)
  await_opponent_reveal (suc polls) k matches b =
      polled (pop_matching (arrive k b) matches) (await_opponent_reveal polls (suc k) matches)

  -- `deliver_turn`, with the opponent's ack to the message.
  unfoldable pub deliver_turn :
      ℕ → Fields → Fields → BoundedInbox → Result InboxFull (BoundedInbox × Fields)
  unfolding await_opponent_reveal is_matching_reveal put
  deliver_turn max_polls message ack b =
      if not (is_str (get "message_type" message) "reveal") || not (truthy (get "ok" ack))
      then ok (b, ack)
      else elim (await_opponent_reveal max_polls 0
          (is_matching_reveal (get "sub_game_number" (envelope_of (obj message)))
            (get "step" (envelope_of (obj message))))
          b) [ err e ↦ err e | ok (b', turn) ↦ ok (b', with_opponent_turn ack turn) ]
