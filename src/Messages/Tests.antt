-- ===== src/Messages/Tests.antt =====
-- The messages of one turn at a router that expects them.
use ai2_final_thief_edward_d.Prelude.{refl, [], ◌∷◌}
use ai2_final_thief_edward_d.Prelude.Int.{pos, negsuc}
use ai2_final_thief_edward_d.Sequence.{commitment, reveal, SequenceTracker}
use ai2_final_thief_edward_d.Sealing.Audit.{SealedRecord}
use ai2_final_thief_edward_d.Messages.{commitment_message, reveal_message}
use ai2_final_thief_edward_d.Messages.Accepted.{Admitted, turn_messages-Admitted}
use ai2_final_thief_edward_d.Samples.{payload, router}

abbrev sealed : SealedRecord
sealed = record { payload = payload (pos 4) "n"; commit_hash = "n" }

turn_messages-Admitted_example :
    Admitted router (commitment_message sealed "g" "c0") commitment (pos 1) (pos 4)
    × Admitted router (reveal_message sealed "g" "c0") reveal (pos 1) (pos 4)
turn_messages-Admitted_example =
    turn_messages-Admitted sealed router "g" "c0" (refl, refl, refl, refl)

abbrev at_four : SequenceTracker
at_four = (pos 1, record { step = pos 4; phase = negsuc 0 }) ∷ []
