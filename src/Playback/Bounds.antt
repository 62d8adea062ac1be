-- ===== src/Playback/Bounds.antt =====
-- The navigation never leaves the replay.
use ai2_final_thief_edward_d.Prelude.{
  ℕ, zero, suc, ◌-◌, ◌≤◌, ◌<◌, ◌≡◌, ◌⊎◌, inr, min, Bool, true, false, not, Option, some, List, [],
  ◌∷◌, length, ltb, leb, if◌then◌else◌, and_then, arith, refl,
}
use ai2_final_thief_edward_d.Prelude.Int.{ℤ, pos, negsuc}
use ai2_final_thief_edward_d.Playback.{
  ReplayViewModel, PlaybackState, item_at, current_sub_game, max_step, select, jump_end, next,
  advance_if_playing, Gesture, selects, jumps_start, jumps_end, steps_back, steps_forward, toggles,
  cycles, ticks, perform, perform_all,
}

-- The last step of the sub-game with that index.
abbrev pub last_of : ℕ → List ℕ → ℕ
last_of i [] = 0
last_of zero (n ∷ ns) = n - 1
last_of (suc i) (n ∷ ns) = last_of i ns

-- The state names a sub-game of the replay, unless there is none, a step of it and a speed.
abbrev pub InBounds : PlaybackState → ReplayViewModel → Type 0
InBounds s m =
    ((m.sub_games ≡ []) ⊎ (s.sub_game_index < length m.sub_games))
    × (s.step ≤ last_of s.sub_game_index m.sub_games)
    × (s.speed_index < 4)

item_at-last :
    (i : ℕ) (ns : List ℕ)
    → i < length ns
    → (n : ℕ) × (item_at i ns ≡ some n) × (last_of i ns ≡ n - 1)
item_at-last i [] h = absurd (omega (arith, h))
item_at-last zero (n ∷ ns) h = (n, refl, refl)
item_at-last (suc i) (n ∷ ns) h = item_at-last i ns (omega (arith, h))

current-last :
    (s : PlaybackState) (ns : List ℕ)
    → (ns ≡ []) ⊎ (s.sub_game_index < length ns)
    → max_step s (record { sub_games = ns }) ≡ some (last_of s.sub_game_index ns)
unfolding max_step current_sub_game
current-last s [] h = refl
current-last s (n ∷ ns) h =
    let l : s.sub_game_index < length (n ∷ ns) = ground (arith, h) in
    let (k, e, f) = item_at-last s.sub_game_index (n ∷ ns) l in rw (e, f) refl

-- A step, and the bounds after it.
pub data Stays (m : ReplayViewModel) : Option PlaybackState → Type 0 where
  stays : (s : PlaybackState) → InBounds s m → Stays m (some s)

module _ (m : ReplayViewModel) where
  max_step-last :
      (s : PlaybackState)
      → InBounds s m
      → max_step s m ≡ some (last_of s.sub_game_index m.sub_games)
  max_step-last s h = current-last s m.sub_games h.0

  select-Stays : (s : PlaybackState) (i : ℤ) → InBounds s m → InBounds (select s m i) m
  unfolding select
  select-Stays s (negsuc i) h = h
  select-Stays s (pos i) h = chosen (ltb i (length m.sub_games)) refl
    where
      chosen :
          (b : Bool)
          → ltb i (length m.sub_games) ≡ b
          → InBounds (if b then record s { sub_game_index = i; step = 0 } else s) m
      chosen true e = (inr (ground (arith, e)), omega arith, h.2)
      chosen false e = h

  ticked-Stays :
      (s : PlaybackState)
      → InBounds s m
      → Stays m (and_then (advance_if_playing s m) (λ r. some r.0))
  unfolding advance_if_playing
  ticked-Stays s h = rw (max_step-last s h) (by_playing s.playing refl)
    where
      last : ℕ
      last = last_of s.sub_game_index m.sub_games

      by_step :
          (b : Bool)
          → leb last s.step ≡ b
          → Stays m (
              and_then {A = PlaybackState × Bool}
                (if b
                  then some (record s { playing = false }, false)
                  else some (record s { step = suc s.step }, true))
                (λ r. some r.0))
      by_step true e = stays _ h
      by_step false e = stays _ (h.0, ground (arith, e), h.2)

      by_playing :
          (b : Bool)
          → s.playing ≡ b
          → Stays m (
              and_then {A = PlaybackState × Bool}
                (if not b
                  then some (s, false)
                  else (if leb last s.step
                      then some (record s { playing = false }, false)
                      else some (record s { step = suc s.step }, true)))
                (λ r. some r.0))
      by_playing false e = stays s h
      by_playing true e = by_step (leb last s.step) refl

  perform-Stays : (g : Gesture) (s : PlaybackState) → InBounds s m → Stays m (perform g s m)
  unfolding perform jump_end next
  perform-Stays (selects i) s h = stays _ (select-Stays s i h)
  perform-Stays jumps_start s h = stays _ (h.0, omega arith, h.2)
  perform-Stays jumps_end s h =
      rw (max_step-last s h)
        (stays (record s { step = last_of s.sub_game_index m.sub_games }) (h.0, omega arith, h.2))
  perform-Stays steps_back s h = stays _ (h.0, omega (arith, h.1), h.2)
  perform-Stays steps_forward s h = rw (max_step-last s h) (
      stays (record s { step = min (last_of s.sub_game_index m.sub_games) (suc s.step) })
        (h.0, omega arith, h.2))
  perform-Stays toggles s h = stays _ h
  perform-Stays cycles s h = stays _ (h.0, h.1, omega arith)
  perform-Stays ticks s h = ticked-Stays s h

  -- From a state in bounds no sequence of gestures and ticks raises an IndexError, and after it the state
  -- still names a sub-game of the replay (unless there is none), a step of that sub-game and one of the
  -- four speeds.
  pub perform_all-Stays :
      (gs : List Gesture) (s : PlaybackState) → InBounds s m → Stays m (perform_all gs s m)
  unfolding perform_all
  perform_all-Stays [] s h = stays s h
  perform_all-Stays (g ∷ gs) s h =
      next_gesture (perform g s m) (perform-Stays g s h) (λ s' h'. perform_all-Stays gs s' h')
    where
      next_gesture :
          (o : Option PlaybackState)
          → Stays m o
          → ((s' : PlaybackState) → InBounds s' m → Stays m (perform_all gs s' m))
          → Stays m (and_then o (λ s'. perform_all gs s' m))
      next_gesture o (stays s' h') k = k s' h'
