-- ===== src/Playback/Tests.antt =====
-- A replay of two sub-games.
use ai2_final_thief_edward_d.Prelude.{inr, List, [], ◌∷◌, arith}
use ai2_final_thief_edward_d.Prelude.Int.{pos}
use ai2_final_thief_edward_d.Playback.{
  ReplayViewModel, new_playback, Gesture, selects, jumps_end, steps_forward, cycles, ticks,
  perform_all,
}
use ai2_final_thief_edward_d.Playback.Bounds.{Stays, perform_all-Stays}

abbrev replay : ReplayViewModel
replay = record { sub_games = 3 ∷ 5 ∷ [] }

abbrev gestures : List Gesture
gestures = selects (pos 1) ∷ jumps_end ∷ steps_forward ∷ cycles ∷ selects (pos 7) ∷ ticks ∷ []

perform_all-Stays_example : Stays replay (perform_all gestures new_playback replay)
perform_all-Stays_example =
    perform_all-Stays replay gestures new_playback (inr (omega arith), omega arith, omega arith)
