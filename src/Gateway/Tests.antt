-- ===== src/Gateway/Tests.antt =====
-- A reveal that arrives between two polls, behind another message.
use Prim.Native.String.{String}
use ai2_final_thief_edward_d.Prelude.{
  ℕ, zero, suc, ◌<◌, ◌≡◌, refl, inr, Bool, none, some, [], ◌∷◌, arith, ok,
}
use ai2_final_thief_edward_d.Prelude.Int.{pos}
use ai2_final_thief_edward_d.Json.{Json, num, str, obj, Fields, end, field, lookup, json_eq}
use ai2_final_thief_edward_d.Inbox.{BoundedInbox, new_inbox}
use ai2_final_thief_edward_d.Inbox.Bounds.{IsBounded}
use ai2_final_thief_edward_d.Inbox.Matching.{first_match}
use ai2_final_thief_edward_d.Gateway.{is_matching_reveal, reveal_of, await_opponent_reveal}
use ai2_final_thief_edward_d.Gateway.Polls.{
  reveals, without_turn, inbox_at, await_opponent_reveal-found,
}

-- A message of the police for one turn of sub-game 1.
abbrev message : String → ℕ → Fields → Json
message kind step body = obj (
    field "message_type" (str kind) (
      field "envelope"
        (obj (
          field "sub_game_number" (num (pos 1))
            (field "step" (num (pos step)) (field "sender" (str "police") end))))
        body))

abbrev reveal : Json
reveal = message "reveal" 2 (field "reveal" (obj (field "hint" (str "north") end)) end)

abbrev inbox : BoundedInbox
inbox = record (new_inbox 4) {
  queue =
      record { logical_key = "a"; message = message "commitment" 3 end }
      ∷ record { logical_key = "b"; message = message "commitment" 2 end }
      ∷ [];
}

-- The server puts the reveal into the inbox before poll 1.
abbrev arrive : ℕ → BoundedInbox → BoundedInbox
arrive (suc zero) b = record b {
  queue =
      record { logical_key = "a"; message = message "commitment" 3 end }
      ∷ record { logical_key = "b"; message = message "commitment" 2 end }
      ∷ record { logical_key = "c"; message = reveal }
      ∷ [];
  capacity = 4;
}
arrive _ b = b

arrive-IsBounded : (k : ℕ) (b : BoundedInbox) → IsBounded b → IsBounded (arrive k b)
arrive-IsBounded zero b h = h
arrive-IsBounded (suc zero) b h = inr (omega arith)
arrive-IsBounded (suc (suc k)) b h = h

abbrev of_turn : Json → Bool
of_turn = reveals (num (pos 1)) (num (pos 2))

missed : (i : ℕ) → i < 1 → first_match of_turn (inbox_at arrive 0 i inbox).queue ≡ none
unfolding lookup json_eq
missed zero l = refl
missed (suc i) l = absurd (omega (arith, l))

waits : first_match of_turn (arrive 1 inbox).queue ≡ some reveal
unfolding lookup json_eq
waits = refl

await_opponent_reveal-found_example :
    await_opponent_reveal arrive 300 0 (is_matching_reveal (num (pos 1)) (num (pos 2))) inbox
    ≡ ok (without_turn of_turn (arrive 1 inbox) reveal, some (reveal_of reveal))
await_opponent_reveal-found_example =
    await_opponent_reveal-found arrive arrive-IsBounded 300 1 (num (pos 1)) (num (pos 2)) inbox
      reveal (inr (omega arith)) (omega arith) missed waits
