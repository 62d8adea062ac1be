-- ===== src/Lifecycle/Tests.antt =====
-- The lifecycle on concrete events.
use ai2_final_thief_edward_d.Prelude.{◌≡◌, refl, true, List, [], ◌∷◌}
use ai2_final_thief_edward_d.Lifecycle.{
  server_started, begin_negotiation, terms_signed, sub_game_start, begin_turn, TransitionEvent,
  resolve, apply, run,
}
use ai2_final_thief_edward_d.Lifecycle.Paths.{signed_before_play, any, signs}

abbrev to_waiting : List TransitionEvent
to_waiting =
    record { kind = server_started; detail = "" }
    ∷ record { kind = begin_negotiation; detail = "" }
    ∷ record { kind = begin_turn; detail = "" }
    ∷ record { kind = terms_signed; detail = "config" }
    ∷ record { kind = sub_game_start; detail = "" }
    ∷ []

signed_before_play_example : any signs to_waiting ≡ true
unfolding run apply resolve
signed_before_play_example = signed_before_play to_waiting refl
