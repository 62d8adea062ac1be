-- ===== src/Config/Tests.antt =====
-- The constitution config/thief/game.json, without its notes but one, and the series that it describes.
use Prim.Native.String.{String}
use ai2_final_thief_edward_d.Prelude.{ℕ, ◌≡◌, ◌↔◌, refl, true, none, some, [], ok}
use ai2_final_thief_edward_d.Prelude.Int.{pos}
use ai2_final_thief_edward_d.Json.{
  Json, num, float, str, arr, obj, dyadic, Items, nil, cons, Fields, end, field, lookup, get,
  json_eq,
}
use ai2_final_thief_edward_d.Lifecycle.{new_machine}
use ai2_final_thief_edward_d.Series.{SubGameSetup, run_series}
use ai2_final_thief_edward_d.Series.Completion.{Closed}
use ai2_final_thief_edward_d.Strategy.Utility.{default_weights}
use ai2_final_thief_edward_d.Strategy.Play.{entropy_escape_brain, decided}
use ai2_final_thief_edward_d.Scent.{zero_float}
use ai2_final_thief_edward_d.Config.{
  SharedGameConfig, required_keys, has_keys, require, keywords, tupled, extract_pheromones,
  sections_of, validate, from_dict,
}
use ai2_final_thief_edward_d.Config.Values.{less_than, tuple, clean}
use ai2_final_thief_edward_d.Config.Checks.{
  at_least, int_at_least, constant, is_expected_move_set, nine_tenths, one_tenth,
  validate_board_and_agents, validate_movement_and_barriers, check_scoring, validate_pheromones,
  validate_network_and_league, validate_rate_limiter_gatekeeper,
}
use ai2_final_thief_edward_d.Config.Rules.{Lawful}
use ai2_final_thief_edward_d.Config.Loading.{sections_ok, from_dict-Lawful}
use ai2_final_thief_edward_d.Config.Play.{loaded_series-Closed}
use ai2_final_thief_edward_d.Samples.{
  arithmetic, nonce_digest, belief_arith, belief, staying, setup, deps,
}

abbrev whole : String → ℕ → Fields → Fields
whole k n fs = field k (num (pos n)) fs

abbrev cell_of : ℕ → ℕ → Json
cell_of r c = arr (cons (num (pos r)) (cons (num (pos c)) nil))

abbrev moves : Items
moves = cons (str "N") (cons (str "S") (cons (str "E") (cons (str "W") (cons (str "STAY") nil))))

abbrev game_json : Fields
game_json = field "schema_version" (str "1.0") (
    field "_note" (str "Shared, agreed game terms") (
      field "agreed_between" (arr (cons (str "ed%do111") (cons (str "moamteam") nil))) (
        field "board_and_agents"
          (obj (
            whole "grid_size" 7 (
              whole "num_agents" 2 (
                field "thief_start" (cell_of 3 3) (
                  field "cop_start" (cell_of 0 0) (
                    field "axis_origin_corner" (str "top-left") (
                      whole "axis_start_index" 0
                        (field "_status_note" (str "grid_size=minimum") end))))))))
          (field "world" (obj (field "map_area" (str "Haifa") (whole "hint_max_words" 15 end))) (
            field "movement_and_barriers"
              (obj (
                field "move_set" (arr moves) (
                  whole "max_barriers" 14
                    (whole "max_moves" 35 (whole "survival_threshold" 35 end)))))
              (field "scoring"
                (obj (
                  whole "capture_cop" 20 (
                    whole "capture_thief" 5 (
                      whole "survival_cop" 5 (
                        whole "survival_thief" 10
                          (whole "tie_score" 2 (whole "technical_loss" 0 end)))))))
                (field "pheromones"
                  (obj (
                    field "pheromone_center_intensity" nine_tenths (
                      field "pheromone_decay" one_tenth (
                        whole "pheromone_grid_size" 5 (
                          field "pheromone_min_center_intensity" (float (dyadic (pos 1) 1)) end)))))
                  (field "network_and_league"
                    (obj (
                      whole "response_timeout_sec" 30 (
                        whole "watchdog_timeout_sec" 60 (
                          whole "num_games" 6 (
                            whole "diversity_reward" 10 (
                              whole "min_games_to_pass" 2 (
                                whole "max_games_per_team" 10
                                  (whole "token_budget_per_series" 200000 end))))))))
                    (field "rate_limiter_gatekeeper"
                      (obj (
                        whole "requests_per_minute" 30 (
                          whole "concurrent_requests" 2 (
                            whole "retry_backoff_sec" 5
                              (whole "max_retries" 3 (whole "queue_depth" 100 end))))))
                      end)))))))))

abbrev text_in : Json → String
text_in (str s) = s
text_in _ = ""

abbrev config : SharedGameConfig
config = record {
  schema_version = "1.0";
  agreed_between = cons (str "ed%do111") (cons (str "moamteam") nil);
  sections = record {
    board_and_agents = record {
      grid_size = num (pos 7);
      num_agents = num (pos 2);
      thief_start = cons (num (pos 3)) (cons (num (pos 3)) nil);
      cop_start = cons (num (pos 0)) (cons (num (pos 0)) nil);
      axis_origin_corner = str "top-left";
      axis_start_index = num (pos 0);
    };
    world = record { map_area = str "Haifa"; hint_max_words = num (pos 15) };
    movement_and_barriers = record {
      move_set = moves;
      max_barriers = num (pos 14);
      max_moves = num (pos 35);
      survival_threshold = num (pos 35);
    };
    scoring = record {
      capture_cop = num (pos 20);
      capture_thief = num (pos 5);
      survival_cop = num (pos 5);
      survival_thief = num (pos 10);
      tie_score = num (pos 2);
      technical_loss = num (pos 0);
    };
    pheromones = record {
      pheromone_center_intensity = nine_tenths;
      pheromone_decay = one_tenth;
      pheromone_grid_size = num (pos 5);
      pheromone_min_center_intensity = some (float (dyadic (pos 1) 1));
    };
    network_and_league = record {
      response_timeout_sec = num (pos 30);
      watchdog_timeout_sec = num (pos 60);
      num_games = num (pos 6);
      diversity_reward = num (pos 10);
      min_games_to_pass = num (pos 2);
      max_games_per_team = num (pos 10);
      token_budget_per_series = num (pos 200000);
    };
    rate_limiter_gatekeeper = record {
      requests_per_minute = num (pos 30);
      concurrent_requests = num (pos 2);
      retry_backoff_sec = num (pos 5);
      max_retries = num (pos 3);
      queue_depth = num (pos 100);
    };
  };
}

loads : from_dict text_in game_json ≡ ok config
unfolding from_dict sections_of validate tupled lookup keywords extract_pheromones require clean
    less_than tuple at_least int_at_least constant is_expected_move_set validate_board_and_agents
    validate_movement_and_barriers check_scoring validate_pheromones validate_network_and_league
    validate_rate_limiter_gatekeeper json_eq
loads = refl

from_dict-Lawful_example : (from_dict text_in game_json ≡ ok config) ↔ (
    ((has_keys required_keys game_json ≡ true)
      × (sections_of game_json ≡ ok config.sections)
      × Lawful config.sections
      × (tuple (get "agreed_between" game_json) ≡ some config.agreed_between)
      × (text_in (get "schema_version" game_json) ≡ config.schema_version))
    × (sections_ok game_json ≡ true))
from_dict-Lawful_example = from_dict-Lawful text_in game_json config

abbrev league_setup : ℕ → SubGameSetup
league_setup k = record (setup k) { deps = record deps { survival_threshold = 35 } }

loaded_series-Closed_example : Closed 6 (
    run_series arithmetic nonce_digest 6 league_setup
      (λ k.
        decided
          (entropy_escape_brain belief_arith default_weights (λ _. zero_float))
          (λ _. [])
          (λ _ _. belief)
          staying)
      none
      new_machine)
loaded_series-Closed_example =
    loaded_series-Closed text_in game_json config arithmetic nonce_digest
      (entropy_escape_brain belief_arith default_weights (λ _. zero_float)) 6 35 league_setup
      (λ _ _. []) (λ _ _ _. belief) (λ _. staying) loads refl refl (λ k. refl)
