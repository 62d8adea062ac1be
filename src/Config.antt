-- ===== src/Config.antt =====
-- The shared constitution, game.json: shared/config_models.py, shared/config_sections.py and
-- shared/config_validation.py of src/thief_peer. A section keeps the JSON values that the file gives, since
-- a dataclass does not check its annotations; the seven sections are one record, `Sections`. A failure says
-- at which key or section an exception came, not of which class it is. Python's `str` is an argument.
pub mod Values
pub mod Checks
pub mod Rules
pub mod Loading
pub mod Play
mod Tests
use Prim.Native.String.{String}
use ai2_final_thief_edward_d.Prelude.{
  Bool, true, not, ◌&&◌, ◌||◌, Option, none, some, List, [], ◌∷◌, ◌++◌, elem, if◌then◌else◌, Result,
  ok, err, ◌>>=◌, ◌>>◌, raise_if,
}
use ai2_final_thief_edward_d.Json.{Json, obj, Items, Fields, end, field, lookup, get, has_key}
use ai2_final_thief_edward_d.Json.Laws.{string_is_eq}
use ai2_final_thief_edward_d.Config.Values.{less_than, is_finite_number, tuple, clean}
use ai2_final_thief_edward_d.Config.Checks.{
  ConfigFailure, missing_keys, not_an_object, wrong_keys, rejected, BoardAndAgents, World,
  MovementAndBarriers, ScoringSection, Pheromones, NetworkAndLeague, RateLimiterGatekeeper,
  validate_board_and_agents, validate_movement_and_barriers, check_scoring, validate_pheromones,
  validate_network_and_league, validate_rate_limiter_gatekeeper,
}

pub record Sections : Type 0 where
  pub board_and_agents : BoardAndAgents
  pub world : World
  pub movement_and_barriers : MovementAndBarriers
  pub scoring : ScoringSection
  pub pheromones : Pheromones
  pub network_and_league : NetworkAndLeague
  pub rate_limiter_gatekeeper : RateLimiterGatekeeper

pub record SharedGameConfig : Type 0 where
  pub schema_version : String
  pub agreed_between : Items
  pub sections : Sections

abbrev pub required_keys : List String
required_keys =
    "schema_version" ∷ "agreed_between" ∷ "board_and_agents" ∷ "world" ∷ "movement_and_barriers"
    ∷ "scoring" ∷ "pheromones" ∷ "network_and_league" ∷ "rate_limiter_gatekeeper" ∷ []

abbrev pub has_keys : List String → Fields → Bool
has_keys [] fs = true
has_keys (k ∷ ks) fs = has_key k fs && has_keys ks fs

abbrev pub only_keys : List String → Fields → Bool
only_keys ks end = true
only_keys ks (field k v fs) = elem k ks && only_keys ks fs

-- `_require`
unfoldable pub require : Fields → String → Result ConfigFailure Fields
unfolding lookup clean
require raw key = elim (lookup key raw) [
  | some (obj fs) ↦ ok (clean fs)
  | some _ ↦ err (not_an_object key)
  | none ↦ err (not_an_object key)
]

-- The keyword arguments of a dataclass: the required ones, those with a default, and no others.
unfoldable pub keywords : Fields → String → List String → List String → Result ConfigFailure Fields
unfolding require lookup
keywords raw section required optional = require raw section >>= λ fs.
    if has_keys required fs && only_keys (required ++ optional) fs
    then ok fs
    else err (wrong_keys section)

-- `tuple(v)`
unfoldable pub tupled : String → Json → Result ConfigFailure Items
unfolding tuple
tupled key v = elim (tuple v) [ none ↦ err (rejected key) | some xs ↦ ok xs ]

-- The check that `_extract_pheromones` makes of the optional key.
abbrev pub extension_is_wrong : Option Json → Bool
extension_is_wrong none = Bool.false
extension_is_wrong (some v) =
    not (is_finite_number v) || (elim (less_than v 0) [ some b ↦ b | none ↦ true ])

unfoldable pub extract_pheromones : Fields → Result ConfigFailure Fields
unfolding require less_than lookup
extract_pheromones raw = require raw "pheromones" >>= λ fs.
    raise_if (extension_is_wrong (lookup "pheromone_min_center_intensity" fs))
      (rejected "pheromone_min_center_intensity")
    >> ok fs

abbrev pub board_keys : List String
board_keys =
    "grid_size" ∷ "num_agents" ∷ "thief_start" ∷ "cop_start" ∷ "axis_origin_corner"
    ∷ "axis_start_index" ∷ []

abbrev pub scoring_keys : List String
scoring_keys =
    "capture_cop" ∷ "capture_thief" ∷ "survival_cop" ∷ "survival_thief" ∷ "tie_score"
    ∷ "technical_loss" ∷ []

abbrev pub league_keys : List String
league_keys =
    "response_timeout_sec" ∷ "watchdog_timeout_sec" ∷ "num_games" ∷ "diversity_reward"
    ∷ "min_games_to_pass" ∷ "max_games_per_team" ∷ "token_budget_per_series" ∷ []

abbrev pub limit_keys : List String
limit_keys =
    "requests_per_minute" ∷ "concurrent_requests" ∷ "retry_backoff_sec" ∷ "max_retries"
    ∷ "queue_depth" ∷ []

abbrev pub pheromone_keys : List String
pheromone_keys = "pheromone_center_intensity" ∷ "pheromone_decay" ∷ "pheromone_grid_size" ∷ []

-- `Pheromones(**_extract_pheromones(data))`, up to its keywords.
abbrev pub pheromone_keywords : Fields → Result ConfigFailure Fields
pheromone_keywords raw = extract_pheromones raw >>= λ _.
    keywords raw "pheromones" pheromone_keys ("pheromone_min_center_intensity" ∷ [])

-- The sections of a file, with lists made tuples.
unfoldable pub sections_of : Fields → Result ConfigFailure Sections
unfolding keywords extract_pheromones tupled lookup
sections_of raw = keywords raw "board_and_agents" board_keys [] >>= λ board.
    keywords raw "world" ("map_area" ∷ "hint_max_words" ∷ []) [] >>= λ world.
    keywords raw "movement_and_barriers"
      ("move_set" ∷ "max_barriers" ∷ "max_moves" ∷ "survival_threshold" ∷ []) []
    >>= λ movement. keywords raw "scoring" scoring_keys [] >>= λ scoring.
        pheromone_keywords raw >>= λ scent.
        keywords raw "network_and_league" league_keys [] >>= λ league.
        keywords raw "rate_limiter_gatekeeper" limit_keys [] >>= λ limits.
        tupled "thief_start" (get "thief_start" board) >>= λ thief_start.
        tupled "cop_start" (get "cop_start" board) >>= λ cop_start.
        tupled "move_set" (get "move_set" movement) >>= λ move_set. ok (record {
          board_and_agents = record {
            grid_size = get "grid_size" board;
            num_agents = get "num_agents" board;
            thief_start = thief_start;
            cop_start = cop_start;
            axis_origin_corner = get "axis_origin_corner" board;
            axis_start_index = get "axis_start_index" board;
          };
          world = record {
            map_area = get "map_area" world;
            hint_max_words = get "hint_max_words" world;
          };
          movement_and_barriers = record {
            move_set = move_set;
            max_barriers = get "max_barriers" movement;
            max_moves = get "max_moves" movement;
            survival_threshold = get "survival_threshold" movement;
          };
          scoring = record {
            capture_cop = get "capture_cop" scoring;
            capture_thief = get "capture_thief" scoring;
            survival_cop = get "survival_cop" scoring;
            survival_thief = get "survival_thief" scoring;
            tie_score = get "tie_score" scoring;
            technical_loss = get "technical_loss" scoring;
          };
          pheromones = record {
            pheromone_center_intensity = get "pheromone_center_intensity" scent;
            pheromone_decay = get "pheromone_decay" scent;
            pheromone_grid_size = get "pheromone_grid_size" scent;
            pheromone_min_center_intensity = lookup "pheromone_min_center_intensity" scent;
          };
          network_and_league = record {
            response_timeout_sec = get "response_timeout_sec" league;
            watchdog_timeout_sec = get "watchdog_timeout_sec" league;
            num_games = get "num_games" league;
            diversity_reward = get "diversity_reward" league;
            min_games_to_pass = get "min_games_to_pass" league;
            max_games_per_team = get "max_games_per_team" league;
            token_budget_per_series = get "token_budget_per_series" league;
          };
          rate_limiter_gatekeeper = record {
            requests_per_minute = get "requests_per_minute" limits;
            concurrent_requests = get "concurrent_requests" limits;
            retry_backoff_sec = get "retry_backoff_sec" limits;
            max_retries = get "max_retries" limits;
            queue_depth = get "queue_depth" limits;
          };
        })

unfoldable pub validate : Sections → Result ConfigFailure (Unit {0})
unfolding validate_board_and_agents validate_movement_and_barriers check_scoring validate_pheromones
    validate_network_and_league validate_rate_limiter_gatekeeper
validate s =
    validate_board_and_agents s.board_and_agents
    >> validate_movement_and_barriers s.movement_and_barriers
    >> check_scoring s.scoring
    >> validate_pheromones s.pheromones
    >> validate_network_and_league s.network_and_league
    >> validate_rate_limiter_gatekeeper s.rate_limiter_gatekeeper

module _ (text_of : Json → String) where
  unfoldable pub from_dict : Fields → Result ConfigFailure SharedGameConfig
  unfolding sections_of validate tupled lookup
  from_dict raw =
      raise_if (not (has_keys required_keys raw)) missing_keys
      >> (sections_of raw >>= λ s.
          validate s
          >> (tupled "agreed_between" (get "agreed_between" raw) >>= λ names. ok (record {
            schema_version = text_of (get "schema_version" raw);
            agreed_between = names;
            sections = s;
          })))
