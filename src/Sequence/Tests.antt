-- ===== src/Sequence/Tests.antt =====
-- The guard of the order on a short delivery.
use ai2_final_thief_edward_d.Prelude.{◌≡◌, List, [], ◌∷◌, length}
use ai2_final_thief_edward_d.Prelude.Int.{pos}
use ai2_final_thief_edward_d.Sequence.{commitment, reveal, hint, new_cursor}
use ai2_final_thief_edward_d.Sequence.Order.{Delivery, script, accepted, accepted_in_order}

-- A reveal too early, a commitment, a hint, the commitment again, and its reveal.
abbrev delivered : List Delivery
delivered =
    record { sub_game = pos 1; step = pos 0; mtype = reveal }
    ∷ record { sub_game = pos 1; step = pos 0; mtype = commitment }
    ∷ record { sub_game = pos 1; step = pos 0; mtype = hint }
    ∷ record { sub_game = pos 1; step = pos 0; mtype = commitment }
    ∷ record { sub_game = pos 1; step = pos 0; mtype = reveal }
    ∷ []

accepted_in_order_example :
    accepted (pos 1) [] delivered ≡ script (length (accepted (pos 1) [] delivered)) new_cursor
accepted_in_order_example = accepted_in_order (pos 1) delivered
