-- ===== src/Samples.antt =====
-- Concrete values for the examples of the other modules.
use Prim.Native.String.{String}
use ai2_final_thief_edward_d.Prelude.{ℕ, Option, none, some, [], ◌∷◌, true, false}
use ai2_final_thief_edward_d.Prelude.Int.{ℤ, pos}
use ai2_final_thief_edward_d.Grid.{Position, Board, stay, thief}
use ai2_final_thief_edward_d.Json.{Json, null, str, obj, lookup}
use ai2_final_thief_edward_d.Inbox.{new_inbox}
use ai2_final_thief_edward_d.Router.{TurnRouter}
use ai2_final_thief_edward_d.Hints.{truth}
use ai2_final_thief_edward_d.Sealing.Payload.{SealedTurnPayload}
use ai2_final_thief_edward_d.Captures.{Scoring}
use ai2_final_thief_edward_d.Scent.{FloatArith, zero_float, zeros}
use ai2_final_thief_edward_d.Series.{SubGameSetup}
use ai2_final_thief_edward_d.Belief.{BeliefArith, BeliefMap}
use ai2_final_thief_edward_d.SubGame.{SubGameState, Deps, OpponentTurn, answered, TurnInput}

abbrev text_in : Option Json → String
text_in (some (str s)) = s
text_in _ = ""

-- A digest that tells payloads apart by their nonces.
unfoldable pub nonce_digest : Json → String
nonce_digest (obj fs) = text_in (lookup "nonce" fs)
nonce_digest _ = ""

abbrev pub payload : ℤ → String → SealedTurnPayload
payload step nonce = record {
  step = step;
  role = "thief";
  sub_game_number = pos 1;
  position = (pos 2, pos 3);
  move = some "N";
  intent = "lie";
  hint = "I am somewhere northern";
  scent_digest = "00";
  scent_grid = [];
  timestamp = "t";
  nonce = nonce;
  config_sha256 = "c0";
  barrier_placed = none;
  capture_claim = none;
  claim_response = none;
  win_claim = true;
  schema_version = "commitment/1";
  legacy_state = none;
}

abbrev pub cell : ℤ → ℤ → Position
cell r c = record { row = r; col = c }

abbrev pub board : Board
board = record { grid_size = 5; barriers = cell (pos 1) (pos 2) ∷ [] }

-- A router with room for one turn message.
abbrev pub router : TurnRouter
router = record {
  expected_game_uid = "g";
  expected_sender = thief;
  expected_config_sha256 = "c0";
  turn_inbox = new_inbox 1;
  audit_inbox = new_inbox 1;
  control_inbox = new_inbox 1;
  tracker = [];
  machine = none;
}

-- Every sum, difference and product is zero.
abbrev pub arithmetic : FloatArith
arithmetic = record { add = λ _ _. zero_float; sub = λ _ _. zero_float; mul = λ _ _. zero_float }

abbrev pub deps : Deps
deps = record { config_sha256 = "c0"; survival_threshold = 2; pheromone_decay = zero_float }

abbrev pub scoring : Scoring
scoring = record {
  capture_cop = pos 20;
  capture_thief = pos 5;
  survival_cop = pos 5;
  survival_thief = pos 10;
  tie_score = pos 2;
  technical_loss_score = pos 0;
}

abbrev pub opponent_turn : Option Position → Option Position → OpponentTurn
opponent_turn claim barrier = record {
  capture_claim = claim;
  barrier_placed = barrier;
  scent_grid = null;
  hint_region = none;
  barrier_unreadable = false;
  claim_unreadable = false;
  hint_unreadable = false;
}

-- The thief stays, and the opponent accepts both messages and claims nothing.
abbrev pub staying : ℕ → SubGameState → TurnInput
staying k s = record {
  direction = stay;
  intent = truth;
  hint = "";
  timestamp = "t";
  nonce = "n";
  commitment_answer = answered true (opponent_turn none none);
  reveal_answer = answered true (opponent_turn none none);
  error_text = "";
}

-- The arithmetic of the belief, where every result is zero.
abbrev pub belief_arith : BeliefArith
belief_arith = record {
  floats = arithmetic;
  div = λ _ _. zero_float;
  log2 = λ _. zero_float;
  sum = λ _. zero_float;
  of_ℕ = λ _. zero_float;
}

abbrev pub belief : BeliefMap
belief = record { grid_size = 5; grid = zeros 5 }

abbrev pub setup : ℕ → SubGameSetup
setup k = record {
  grid_size = 5;
  thief_start = cell (pos 2) (pos 2);
  deps = deps;
  scoring = scoring;
}
