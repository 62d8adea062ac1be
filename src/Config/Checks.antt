-- ===== src/Config/Checks.antt =====
-- The sections of the constitution and the rules that each must satisfy: shared/config_sections.py and
-- shared/config_validation.py of src/thief_peer. A comparison that raises a TypeError is a rejection too.
use Prim.Native.String.{String}
use ai2_final_thief_edward_d.Prelude.{
  ℕ, Bool, true, false, not, ◌&&◌, ◌||◌, Option, some, if◌then◌else◌, Result, ok, err, ◌>>◌,
  raise_if,
}
use ai2_final_thief_edward_d.Prelude.Int.{pos}
use ai2_final_thief_edward_d.Json.{Json, num, float, dyadic, Items, nil, cons, json_eq, is_str}
use ai2_final_thief_edward_d.Config.Values.{less_than, is_int, has_text, all_hashable}

pub data ConfigFailure : Type 0 where
  missing_keys : ConfigFailure
  not_an_object wrong_keys rejected : String → ConfigFailure

pub record BoardAndAgents : Type 0 where
  pub grid_size : Json
  pub num_agents : Json
  pub thief_start : Items
  pub cop_start : Items
  pub axis_origin_corner : Json
  pub axis_start_index : Json

pub record World : Type 0 where
  pub map_area : Json
  pub hint_max_words : Json

pub record MovementAndBarriers : Type 0 where
  pub move_set : Items
  pub max_barriers : Json
  pub max_moves : Json
  pub survival_threshold : Json

-- `Scoring`, before its values are known to be the whole numbers of the rules.
pub record ScoringSection : Type 0 where
  pub capture_cop : Json
  pub capture_thief : Json
  pub survival_cop : Json
  pub survival_thief : Json
  pub tie_score : Json
  pub technical_loss : Json

-- The optional intensity is absent where the file does not give it.
pub record Pheromones : Type 0 where
  pub pheromone_center_intensity : Json
  pub pheromone_decay : Json
  pub pheromone_grid_size : Json
  pub pheromone_min_center_intensity : Option Json

pub record NetworkAndLeague : Type 0 where
  pub response_timeout_sec : Json
  pub watchdog_timeout_sec : Json
  pub num_games : Json
  pub diversity_reward : Json
  pub min_games_to_pass : Json
  pub max_games_per_team : Json
  pub token_budget_per_series : Json

pub record RateLimiterGatekeeper : Type 0 where
  pub requests_per_minute : Json
  pub concurrent_requests : Json
  pub retry_backoff_sec : Json
  pub max_retries : Json
  pub queue_depth : Json

abbrev pub Check : Type 0
Check = Result ConfigFailure (Unit {0})

-- `if actual < minimum: raise`
unfoldable pub at_least : String → ℕ → Json → Check
unfolding less_than
at_least key minimum v = elim (less_than v minimum) [ some false ↦ ok tt | _ ↦ err (rejected key) ]

-- `if not isinstance(v, int) or v < minimum: raise`
unfoldable pub int_at_least : String → ℕ → Json → Check
unfolding at_least
int_at_least key minimum v = if is_int v then at_least key minimum v else err (rejected key)

-- `if actual != value: raise`
unfoldable pub constant : String → Json → Json → Check
unfolding json_eq
constant key value v = raise_if (not (json_eq v value)) (rejected key)

unfoldable pub validate_board_and_agents : BoardAndAgents → Check
unfolding int_at_least constant
validate_board_and_agents s =
    int_at_least "grid_size" 7 s.grid_size >> constant "num_agents" (num (pos 2)) s.num_agents

-- `x in EXPECTED_MOVE_SET`
abbrev pub is_move : Json → Bool
is_move x = is_str x "N" || (is_str x "S" || (is_str x "E" || (is_str x "W" || is_str x "STAY")))

abbrev pub all_moves : Items → Bool
all_moves nil = true
all_moves (cons x xs) = is_move x && all_moves xs

-- `set(section.move_set) == EXPECTED_MOVE_SET`
unfoldable pub is_expected_move_set : Items → Bool
is_expected_move_set xs =
    all_hashable xs
    && (all_moves xs
        && (has_text "N" xs
            && (has_text "S" xs && (has_text "E" xs && (has_text "W" xs && has_text "STAY" xs)))))

unfoldable pub validate_movement_and_barriers : MovementAndBarriers → Check
unfolding is_expected_move_set at_least
validate_movement_and_barriers s =
    raise_if (not (is_expected_move_set s.move_set)) (rejected "move_set")
    >> at_least "max_barriers" 14 s.max_barriers
    >> at_least "max_moves" 35 s.max_moves
    >> at_least "survival_threshold" 35 s.survival_threshold

-- `validate_scoring`
unfoldable pub check_scoring : ScoringSection → Check
unfolding constant
check_scoring s =
    constant "capture_cop" (num (pos 20)) s.capture_cop
    >> constant "capture_thief" (num (pos 5)) s.capture_thief
    >> constant "survival_cop" (num (pos 5)) s.survival_cop
    >> constant "survival_thief" (num (pos 10)) s.survival_thief
    >> constant "tie_score" (num (pos 2)) s.tie_score
    >> constant "technical_loss" (num (pos 0)) s.technical_loss

-- The doubles that Python reads for 0.9 and 0.10.
abbrev pub nine_tenths : Json
nine_tenths = float (dyadic (pos 8106479329266893) 53)

abbrev pub one_tenth : Json
one_tenth = float (dyadic (pos 3602879701896397) 55)

unfoldable pub validate_pheromones : Pheromones → Check
unfolding constant
validate_pheromones s =
    constant "pheromone_center_intensity" nine_tenths s.pheromone_center_intensity
    >> constant "pheromone_decay" one_tenth s.pheromone_decay
    >> constant "pheromone_grid_size" (num (pos 5)) s.pheromone_grid_size

unfoldable pub validate_network_and_league : NetworkAndLeague → Check
unfolding int_at_least constant
validate_network_and_league s =
    int_at_least "num_games" 1 s.num_games
    >> constant "diversity_reward" (num (pos 10)) s.diversity_reward
    >> constant "min_games_to_pass" (num (pos 2)) s.min_games_to_pass
    >> constant "max_games_per_team" (num (pos 10)) s.max_games_per_team

unfoldable pub validate_rate_limiter_gatekeeper : RateLimiterGatekeeper → Check
unfolding at_least
validate_rate_limiter_gatekeeper s =
    at_least "requests_per_minute" 30 s.requests_per_minute
    >> at_least "concurrent_requests" 2 s.concurrent_requests
    >> at_least "retry_backoff_sec" 5 s.retry_backoff_sec
    >> at_least "max_retries" 3 s.max_retries
    >> at_least "queue_depth" 100 s.queue_depth

-- `network_and_league.num_games == LEAGUE_NUM_GAMES`
unfoldable pub is_league_series_ready : NetworkAndLeague → Bool
unfolding json_eq
is_league_series_ready s = json_eq s.num_games (num (pos 6))
