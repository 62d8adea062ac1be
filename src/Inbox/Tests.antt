-- ===== src/Inbox/Tests.antt =====
-- An inbox with room for two messages.
use ai2_final_thief_edward_d.Prelude.{inr, refl, [], ◌∷◌, arith}
use ai2_final_thief_edward_d.Prelude.Int.{pos}
use ai2_final_thief_edward_d.Json.{Json, num, str}
use ai2_final_thief_edward_d.Inbox.{InboxItem, BoundedInbox, new_inbox, enqueue}
use ai2_final_thief_edward_d.Inbox.Bounds.{Enqueued, enqueue-Enqueued}

abbrev item : Json → InboxItem
item v = record { logical_key = "k"; message = v }

-- Two queued messages, and one that is too much.
abbrev full_inbox : BoundedInbox
full_inbox = record (new_inbox 2) { queue = item (str "a") ∷ item (str "b") ∷ [] }

enqueue-Enqueued_example :
    Enqueued full_inbox "k1" (str "c") (str "") (enqueue full_inbox "k1" (str "c") (str ""))
enqueue-Enqueued_example =
    enqueue-Enqueued full_inbox "k1" (str "c") (str "") (inr (omega arith)) refl

abbrev with_message : BoundedInbox
with_message = record (new_inbox 2) {
  queue = record { logical_key = "k"; message = num (pos 7) } ∷ [];
  seen_by_key = ("k", num (pos 7)) ∷ [];
}
