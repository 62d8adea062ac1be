-- ===== src/Agreement/Tests.antt =====
-- Two peers whose totals differ.
use ai2_final_thief_edward_d.Prelude.{◌≡◌, ◌≢◌, ◌⊎◌}
use ai2_final_thief_edward_d.Prelude.Int.{pos}
use ai2_final_thief_edward_d.Agreement.{disputed}
use ai2_final_thief_edward_d.Agreement.Symmetry.{
  Outcome, resolved, agreement_on, resolved-symmetric,
}

abbrev ours : Outcome
ours = record { police = pos 30; thief = pos 25; sub_games = 3; digest = "d" }

abbrev theirs : Outcome
theirs = record { police = pos 35; thief = pos 25; sub_games = 3; digest = "d" }

resolved-symmetric_example :
    (resolved ours theirs ≡ resolved theirs ours)
    × (((ours ≡ theirs) × (resolved ours theirs ≡ agreement_on ours))
        ⊎ ((ours ≢ theirs) × (resolved ours theirs ≡ disputed)))
resolved-symmetric_example = resolved-symmetric ours theirs
