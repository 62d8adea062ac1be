-- ===== src/Playback.antt =====
-- The navigation of a replay: gui/replay_playback.py of src/thief_peer. A model is the number of steps of
-- each of its sub-games. `none` is an IndexError.
pub mod Bounds
mod Tests
use ai2_final_thief_edward_d.Prelude.{
  ℕ, zero, suc, ◌+◌, ◌-◌, ◌%◌, max, min, Bool, true, false, not, Option, none, some, List, [], ◌∷◌,
  length, ltb, leb, if◌then◌else◌, and_then,
}
use ai2_final_thief_edward_d.Prelude.Int.{ℤ, pos, negsuc}

-- `steps_total` of each sub-game.
pub record ReplayViewModel : Type 0 where
  pub sub_games : List ℕ

pub record PlaybackState : Type 0 where
  pub sub_game_index : ℕ
  pub step : ℕ
  pub playing : Bool
  pub speed_index : ℕ

abbrev pub new_playback : PlaybackState
new_playback = record { sub_game_index = 0; step = 0; playing = false; speed_index = 1 }

abbrev pub speeds_ms : List ℕ
speeds_ms = 1500 ∷ 800 ∷ 400 ∷ 150 ∷ []

-- `xs[i]`
abbrev pub item_at : ℕ → List ℕ → Option ℕ
item_at i [] = none
item_at zero (x ∷ xs) = some x
item_at (suc i) (x ∷ xs) = item_at i xs

-- The steps of the current sub-game, or `None` without one.
unfoldable pub current_sub_game : PlaybackState → ReplayViewModel → Option (Option ℕ)
current_sub_game s m = elim m.sub_games [
  | [] ↦ some none
  | n ∷ ns ↦ and_then (item_at s.sub_game_index (n ∷ ns)) (λ steps. some (some steps))
]

-- `max(0, sg.steps_total - 1) if sg else 0`
abbrev pub last_step : Option ℕ → ℕ
last_step (some n) = n - 1
last_step none = 0

unfoldable pub max_step : PlaybackState → ReplayViewModel → Option ℕ
unfolding current_sub_game
max_step s m = and_then (current_sub_game s m) (λ sg. some (last_step sg))

unfoldable pub select : PlaybackState → ReplayViewModel → ℤ → PlaybackState
select s m (pos i) =
    if ltb i (length m.sub_games) then record s { sub_game_index = i; step = 0 } else s
select s m (negsuc i) = s

abbrev pub jump_start : PlaybackState → PlaybackState
jump_start s = record s { step = 0 }

unfoldable pub jump_end : PlaybackState → ReplayViewModel → Option PlaybackState
unfolding max_step
jump_end s m = and_then (max_step s m) (λ n. some (record s { step = n }))

-- `max(0, self.step - 1)`
abbrev pub prev : PlaybackState → PlaybackState
prev s = record s { step = s.step - 1 }

unfoldable pub next : PlaybackState → ReplayViewModel → Option PlaybackState
unfolding max_step
next s m = and_then (max_step s m) (λ n. some (record s { step = min n (suc s.step) }))

abbrev pub toggle_play : PlaybackState → PlaybackState
toggle_play s = record s { playing = not s.playing }

abbrev pub cycle_speed : PlaybackState → PlaybackState
cycle_speed s = record s { speed_index = suc s.speed_index % 4 }

abbrev pub speed_ms : PlaybackState → Option ℕ
speed_ms s = item_at s.speed_index speeds_ms

-- The state after a tick, and whether it advanced.
unfoldable pub advance_if_playing : PlaybackState → ReplayViewModel → Option (PlaybackState × Bool)
unfolding max_step
advance_if_playing s m =
    if not s.playing
    then some (s, false)
    else and_then (max_step s m) (λ n.
      if leb n s.step
      then some (record s { playing = false }, false)
      else some (record s { step = suc s.step }, true))

-- What a user or the timer does.
pub data Gesture : Type 0 where
  selects : ℤ → Gesture
  jumps_start jumps_end steps_back steps_forward toggles cycles ticks : Gesture

unfoldable pub perform : Gesture → PlaybackState → ReplayViewModel → Option PlaybackState
unfolding select jump_end next advance_if_playing
perform (selects i) s m = some (select s m i)
perform jumps_start s m = some (jump_start s)
perform jumps_end s m = jump_end s m
perform steps_back s m = some (prev s)
perform steps_forward s m = next s m
perform toggles s m = some (toggle_play s)
perform cycles s m = some (cycle_speed s)
perform ticks s m = and_then (advance_if_playing s m) (λ r. some r.0)

unfoldable pub perform_all : List Gesture → PlaybackState → ReplayViewModel → Option PlaybackState
unfolding perform
perform_all [] s m = some s
perform_all (g ∷ gs) s m = and_then (perform g s m) (λ s'. perform_all gs s' m)
