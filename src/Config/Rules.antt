-- ===== src/Config/Rules.antt =====
-- What a constitution that the validation passes has: each rule of the table, in terms of the values.
use Prim.Native.Nat.{◌^◌}
use Prim.Native.String.{String}
use ai2_final_thief_edward_d.Prelude.{
  ℕ, ◌*◌, ◌≤◌, ◌≡◌, ◌↔◌, refl, Bool, true, false, not, arith, ok, err, ◌>>◌, raise_if,
}
use ai2_final_thief_edward_d.Prelude.Int.{pos, ◌≤ℤ◌}
use ai2_final_thief_edward_d.Json.{
  Json, null, bool, num, float, str, arr, obj, dyadic, nan, infinite, json_eq,
}
use ai2_final_thief_edward_d.Config.{Sections, validate}
use ai2_final_thief_edward_d.Config.Values.{less_than, is_int}
use ai2_final_thief_edward_d.Config.Checks.{
  ConfigFailure, rejected, BoardAndAgents, MovementAndBarriers, ScoringSection, Pheromones,
  NetworkAndLeague, RateLimiterGatekeeper, Check, at_least, int_at_least, constant,
  is_expected_move_set, nine_tenths, one_tenth, validate_board_and_agents,
  validate_movement_and_barriers, check_scoring, validate_pheromones, validate_network_and_league,
  validate_rate_limiter_gatekeeper,
}

-- A value that Python does not hold to be below `n`: a number from `n` on, or NaN.
abbrev pub NotBelow : ℕ → Json → Type 0
NotBelow n (bool true) = n ≤ 1
NotBelow n (bool false) = n ≤ 0
NotBelow n (num m) = pos n ≤ℤ m
NotBelow n (float (dyadic m k)) = pos (n * 2 ^ k) ≤ℤ m
NotBelow n (float nan) = Unit
NotBelow n (float (infinite positive)) = positive ≡ true
NotBelow n _ = 1 ≤ 0

-- `v == value`
abbrev pub Equals : Json → Json → Type 0
Equals value v = json_eq v value ≡ true

at_least-ok : (key : String) (n : ℕ) (v : Json) → (at_least key n v ≡ ok tt) ↔ NotBelow n v
unfolding at_least less_than
at_least-ok key n null = ground arith
at_least-ok key n (bool true) = ground arith
at_least-ok key n (bool false) = ground arith
at_least-ok key n (num m) = ground arith
at_least-ok key n (float (dyadic m k)) = ground arith
at_least-ok key n (float nan) = ground arith
at_least-ok key n (float (infinite true)) = ground arith
at_least-ok key n (float (infinite false)) = ground arith
at_least-ok key n (str s) = ground arith
at_least-ok key n (arr xs) = ground arith
at_least-ok key n (obj fs) = ground arith

pub raise_if-ok : (t : Bool) (e : ConfigFailure) → (raise_if (not t) e ≡ ok tt) ↔ (t ≡ true)
raise_if-ok true e = ground arith
raise_if-ok false e = ground arith

int_at_least-ok :
    (key : String) (n : ℕ) (v : Json)
    → (int_at_least key n v ≡ ok tt) ↔ ((is_int v ≡ true) × NotBelow n v)
unfolding int_at_least
int_at_least-ok key n v = ground (arith, at_least-ok key n v)

constant-ok : (key : String) (value v : Json) → (constant key value v ≡ ok tt) ↔ Equals value v
unfolding constant
constant-ok key value v = raise_if-ok (json_eq v value) (rejected key)

-- Both of two checks in a row pass.
both : {P Q : Type 0} (a b : Check) → (a ≡ ok tt) ↔ P → (b ≡ ok tt) ↔ Q → (a >> b ≡ ok tt) ↔ (P × Q)
both (ok tt) b f g = (λ h. (f.0 refl, g.0 h), λ pq. g.1 pq.1)
both (err e) b f g = (λ h. ground (arith, h), λ pq. ground (arith, f.1 pq.0))

-- A board of at least 7 cells a side, with a whole number as its size, and two agents.
abbrev pub BoardRules : BoardAndAgents → Type 0
BoardRules s =
    ((is_int s.grid_size ≡ true) × NotBelow 7 s.grid_size) × Equals (num (pos 2)) s.num_agents

-- The five moves, and the minimal limits.
abbrev pub MovementRules : MovementAndBarriers → Type 0
MovementRules s =
    ((((is_expected_move_set s.move_set ≡ true) × NotBelow 14 s.max_barriers)
        × NotBelow 35 s.max_moves)
      × NotBelow 35 s.survival_threshold)

-- The scores of the rules.
abbrev pub ScoringRules : ScoringSection → Type 0
ScoringRules s =
    (((((Equals (num (pos 20)) s.capture_cop × Equals (num (pos 5)) s.capture_thief)
            × Equals (num (pos 5)) s.survival_cop)
          × Equals (num (pos 10)) s.survival_thief)
        × Equals (num (pos 2)) s.tie_score)
      × Equals (num (pos 0)) s.technical_loss)

abbrev pub PheromoneRules : Pheromones → Type 0
PheromoneRules s =
    ((Equals nine_tenths s.pheromone_center_intensity × Equals one_tenth s.pheromone_decay)
      × Equals (num (pos 5)) s.pheromone_grid_size)

abbrev pub LeagueRules : NetworkAndLeague → Type 0
LeagueRules s =
    (((((is_int s.num_games ≡ true) × NotBelow 1 s.num_games)
          × Equals (num (pos 10)) s.diversity_reward)
        × Equals (num (pos 2)) s.min_games_to_pass)
      × Equals (num (pos 10)) s.max_games_per_team)

abbrev pub LimitRules : RateLimiterGatekeeper → Type 0
LimitRules s =
    ((((NotBelow 30 s.requests_per_minute × NotBelow 2 s.concurrent_requests)
          × NotBelow 5 s.retry_backoff_sec)
        × NotBelow 3 s.max_retries)
      × NotBelow 100 s.queue_depth)

validate_board-ok : (s : BoardAndAgents) → (validate_board_and_agents s ≡ ok tt) ↔ BoardRules s
unfolding validate_board_and_agents
validate_board-ok s =
    both _ _ (int_at_least-ok "grid_size" 7 s.grid_size)
      (constant-ok "num_agents" (num (pos 2)) s.num_agents)

validate_movement-ok :
    (s : MovementAndBarriers) → (validate_movement_and_barriers s ≡ ok tt) ↔ MovementRules s
unfolding validate_movement_and_barriers
validate_movement-ok s =
    both _ _
      (both _ _
        (both _ _ (raise_if-ok (is_expected_move_set s.move_set) (rejected "move_set"))
          (at_least-ok "max_barriers" 14 s.max_barriers))
        (at_least-ok "max_moves" 35 s.max_moves))
      (at_least-ok "survival_threshold" 35 s.survival_threshold)

check_scoring-ok : (s : ScoringSection) → (check_scoring s ≡ ok tt) ↔ ScoringRules s
unfolding check_scoring
check_scoring-ok s =
    both _ _
      (both _ _
        (both _ _
          (both _ _
            (both _ _ (constant-ok "capture_cop" (num (pos 20)) s.capture_cop)
              (constant-ok "capture_thief" (num (pos 5)) s.capture_thief))
            (constant-ok "survival_cop" (num (pos 5)) s.survival_cop))
          (constant-ok "survival_thief" (num (pos 10)) s.survival_thief))
        (constant-ok "tie_score" (num (pos 2)) s.tie_score))
      (constant-ok "technical_loss" (num (pos 0)) s.technical_loss)

validate_pheromones-ok : (s : Pheromones) → (validate_pheromones s ≡ ok tt) ↔ PheromoneRules s
unfolding validate_pheromones
validate_pheromones-ok s =
    both _ _
      (both _ _ (constant-ok "pheromone_center_intensity" nine_tenths s.pheromone_center_intensity)
        (constant-ok "pheromone_decay" one_tenth s.pheromone_decay))
      (constant-ok "pheromone_grid_size" (num (pos 5)) s.pheromone_grid_size)

validate_league-ok :
    (s : NetworkAndLeague) → (validate_network_and_league s ≡ ok tt) ↔ LeagueRules s
unfolding validate_network_and_league
validate_league-ok s =
    both _ _
      (both _ _
        (both _ _ (int_at_least-ok "num_games" 1 s.num_games)
          (constant-ok "diversity_reward" (num (pos 10)) s.diversity_reward))
        (constant-ok "min_games_to_pass" (num (pos 2)) s.min_games_to_pass))
      (constant-ok "max_games_per_team" (num (pos 10)) s.max_games_per_team)

validate_limits-ok :
    (s : RateLimiterGatekeeper) → (validate_rate_limiter_gatekeeper s ≡ ok tt) ↔ LimitRules s
unfolding validate_rate_limiter_gatekeeper
validate_limits-ok s =
    both _ _
      (both _ _
        (both _ _
          (both _ _ (at_least-ok "requests_per_minute" 30 s.requests_per_minute)
            (at_least-ok "concurrent_requests" 2 s.concurrent_requests))
          (at_least-ok "retry_backoff_sec" 5 s.retry_backoff_sec))
        (at_least-ok "max_retries" 3 s.max_retries))
      (at_least-ok "queue_depth" 100 s.queue_depth)

-- All sections follow the rules.
abbrev pub Lawful : Sections → Type 0
Lawful s =
    (((((BoardRules s.board_and_agents × MovementRules s.movement_and_barriers)
            × ScoringRules s.scoring)
          × PheromoneRules s.pheromones)
        × LeagueRules s.network_and_league)
      × LimitRules s.rate_limiter_gatekeeper)

pub validate-Lawful : (s : Sections) → (validate s ≡ ok tt) ↔ Lawful s
unfolding validate
validate-Lawful s =
    both _ _
      (both _ _
        (both _ _
          (both _ _
            (both _ _ (validate_board-ok s.board_and_agents)
              (validate_movement-ok s.movement_and_barriers))
            (check_scoring-ok s.scoring))
          (validate_pheromones-ok s.pheromones))
        (validate_league-ok s.network_and_league))
      (validate_limits-ok s.rate_limiter_gatekeeper)
