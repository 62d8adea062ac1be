-- ===== src/Config/Play.antt =====
-- A series that is played by a configuration that was loaded: sdk/game_runner.py of src/thief_peer hands
-- `num_games` to the series, and each sub-game reads its threshold from the configuration.
use Prim.Native.String.{String}
use ai2_final_thief_edward_d.Prelude.{ℕ, ◌≤◌, ◌≡◌, none, arith, ok}
use ai2_final_thief_edward_d.Prelude.Int.{pos}
use ai2_final_thief_edward_d.Json.{Json, num, Fields}
use ai2_final_thief_edward_d.Scent.{FloatArith}
use ai2_final_thief_edward_d.SubGame.{SubGameState, TurnInput}
use ai2_final_thief_edward_d.Lifecycle.{new_machine}
use ai2_final_thief_edward_d.Belief.{BeliefMap}
use ai2_final_thief_edward_d.Series.{SubGameSetup, run_series}
use ai2_final_thief_edward_d.Series.Completion.{Closed}
use ai2_final_thief_edward_d.Strategy.Play.{Brain, decided, run_series-decided-Closed}
use ai2_final_thief_edward_d.Config.{SharedGameConfig, from_dict}
use ai2_final_thief_edward_d.Config.Rules.{NotBelow}
use ai2_final_thief_edward_d.Config.Loading.{from_dict-Lawful}

at_least_one : (n m : ℕ) (v : Json) → 1 ≤ n → v ≡ num (pos m) → NotBelow n v → 1 ≤ m
at_least_one n m v h e b = ground (arith, h, e, b)

module _ (text_of : Json → String) (raw : Fields) (c : SharedGameConfig) where
  games_of :
      (n : ℕ)
      → from_dict text_of raw ≡ ok c
      → c.sections.network_and_league.num_games ≡ num (pos n)
      → 1 ≤ n
  games_of n h e =
      let lawful = ((from_dict-Lawful text_of raw c).0 h).0.2 in
      at_least_one 1 n c.sections.network_and_league.num_games (omega arith) e lawful.0.1.0.0.0.1

  threshold_of :
      (t : ℕ)
      → from_dict text_of raw ≡ ok c
      → c.sections.movement_and_barriers.survival_threshold ≡ num (pos t)
      → 1 ≤ t
  threshold_of t h e =
      let lawful = ((from_dict-Lawful text_of raw c).0 h).0.2 in
      at_least_one 35 t c.sections.movement_and_barriers.survival_threshold (omega arith) e
        lawful.0.0.0.0.1.1

  -- A fresh peer that plays the series of a loaded configuration by either of the two brains ends, if the
  -- number of sub-games and the survival threshold of that configuration are natural numbers: complete
  -- after all of the sub-games, or by a technical loss in ERROR; the only exceptions are an illegal action
  -- and an opponent's turn of which a part cannot be read. The beliefs, the brain's memory and the
  -- opponent's answers, with integer coordinates, are arbitrary.
  pub loaded_series-Closed :
      (arithmetic : FloatArith) (digest : Json → String) (brain : Brain) (n t : ℕ)
      (setup : ℕ → SubGameSetup) (memory : ℕ → ℕ → brain.Memory)
      (belief : ℕ → ℕ → SubGameState → BeliefMap) (input : ℕ → ℕ → SubGameState → TurnInput)
      → from_dict text_of raw ≡ ok c
      → c.sections.network_and_league.num_games ≡ num (pos n)
      → c.sections.movement_and_barriers.survival_threshold ≡ num (pos t)
      → ((k : ℕ) → (setup k).deps.survival_threshold ≡ t)
      → Closed n (
          run_series arithmetic digest n setup
            (λ k. decided brain (memory k) (belief k) (input k))
            none
            new_machine)
  loaded_series-Closed arithmetic digest brain n t setup memory belief input h games threshold s =
      run_series-decided-Closed arithmetic digest brain n setup memory belief input
        (games_of n h games) (λ k. rw (s k) (threshold_of t h threshold))
