-- ===== src/SubGame.antt =====
-- What a thief keeps of a sub-game, the exchange with the opponent and what is absorbed of its turn:
-- services/subgame_state.py, services/turn_exchange.py and services/turn_prep.py of src/thief_peer.
use Prim.Native.String.{String}
use ai2_final_thief_edward_d.Prelude.{
  ℕ, Bool, true, false, Option, none, some, List, [], ◌∷◌, Result, ok, err,
}
use ai2_final_thief_edward_d.Prelude.Int.{ℤ}
use ai2_final_thief_edward_d.Grid.{
  Position, position_is_eq, Direction, north, south, east, west, stay, Board, with_barrier,
}
use ai2_final_thief_edward_d.Rules.{IllegalAction}
use ai2_final_thief_edward_d.Lifecycle.{EventKind, Rejection, PeerStateMachine, apply}
use ai2_final_thief_edward_d.Json.{Json, Float}
use ai2_final_thief_edward_d.Sealing.Audit.{SealedRecord}
use ai2_final_thief_edward_d.Sealing.Exchange.{ExchangeFault, CommitRevealExchange, new_exchange}
use ai2_final_thief_edward_d.Captures.{SubGameResult}
use ai2_final_thief_edward_d.Hints.{HintIntent, truth, lie, Region, region_cells}
use ai2_final_thief_edward_d.Scent.{
  ScentField, empty_scent_field, validate_scent_grid, grid_floats, as_list,
}

-- `belief` and `hint_trust` are left out.
pub record SubGameState : Type 0 where
  pub grid_size : ℕ
  pub sub_game_number : ℤ
  pub position : Position
  pub board : Board
  pub own_scent : ScentField
  pub machine : PeerStateMachine
  pub exchange : CommitRevealExchange
  pub visited : List Position
  pub records : List SealedRecord
  pub step : ℕ
  pub police_scent : Option ScentField
  pub hint_region : Option (List Position)
  pub pending_claim_response : Option Bool

unfoldable pub initial : ℕ → ℤ → Position → PeerStateMachine → SubGameState
initial grid_size number start machine = record {
  grid_size = grid_size;
  sub_game_number = number;
  position = start;
  board = record { grid_size = grid_size; barriers = [] };
  own_scent = empty_scent_field grid_size;
  machine = machine;
  exchange = new_exchange;
  visited = start ∷ [];
  records = [];
  step = 0;
  police_scent = none;
  hint_region = none;
  pending_claim_response = none;
}

pub record Deps : Type 0 where
  pub config_sha256 : String
  pub survival_threshold : ℕ
  pub pheromone_decay : Float

-- What the code reads of the opponent's public turn: the cells of the claim and of the barrier, the region
-- that the hint names, and which of the three is a value that raises when it is read: a cell that is no
-- sequence of two, a hint that is no text. A turn that is no dict raises as an unreadable barrier does.
pub record OpponentTurn : Type 0 where
  pub capture_claim : Option Position
  pub barrier_placed : Option Position
  pub scent_grid : Json
  pub hint_region : Option Region
  pub barrier_unreadable : Bool
  pub claim_unreadable : Bool
  pub hint_unreadable : Bool

-- What `gateway.deliver_turn` does: raise PeerUnavailableError, or return an answer, by its "ok".
pub data Answer : Type 0 where
  unavailable : Answer
  answered : Bool → OpponentTurn → Answer

pub record TurnInput : Type 0 where
  pub direction : Direction
  pub intent : HintIntent
  pub hint : String
  pub timestamp : String
  pub nonce : String
  pub commitment_answer : Answer
  pub reveal_answer : Answer
  pub error_text : String

pub record ExchangeProgress : Type 0 where
  pub commit_sent : Bool
  pub ack_received : Bool
  pub reveal_sent : Bool

-- The exceptions that a turn ends in; `unreadable_turn` is the IndexError, TypeError or AttributeError of an
-- unreadable part of the opponent's turn. Of the two named alike, `services.turn_exchange.ExchangeError` is `delivery_error`, and
-- `domain.sealing.ExchangeError` is `exchange_error`.
pub data TurnFault : Type 0 where
  illegal_action : IllegalAction → TurnFault
  illegal_transition : Rejection → TurnFault
  exchange_error : ExchangeFault → TurnFault
  delivery_error : ExchangeProgress → TurnFault
  index_error : TurnFault
  unreadable_turn : TurnFault

pub record TurnResult : Type 0 where
  pub ended : Bool
  pub outcome : Option SubGameResult

abbrev pub Outcome : Type 0
Outcome = SubGameState × Result TurnFault TurnResult

-- services/turn_exchange.py
abbrev pub progress : Bool → Bool → Bool → ExchangeProgress
progress c a r = record { commit_sent = c; ack_received = a; reveal_sent = r }

unfoldable pub deliver_commit_and_reveal : Answer → Answer → Result ExchangeProgress OpponentTurn
deliver_commit_and_reveal unavailable _ = err (progress false false false)
deliver_commit_and_reveal (answered false _) _ = err (progress true false false)
deliver_commit_and_reveal (answered true _) unavailable = err (progress true true false)
deliver_commit_and_reveal (answered true _) (answered false _) = err (progress true true true)
deliver_commit_and_reveal (answered true _) (answered true opp) = ok opp

abbrev pub direction_text : Direction → String
direction_text north = "N"
direction_text south = "S"
direction_text east = "E"
direction_text west = "W"
direction_text stay = "STAY"

abbrev pub intent_text : HintIntent → String
intent_text truth = "truth"
intent_text lie = "lie"

-- `state.machine.apply(_ev(kind, detail))`, then the rest of the turn.
abbrev pub applying : SubGameState → EventKind → String → (SubGameState → Outcome) → Outcome
applying s kind detail rest =
    let (m, r) = apply s.machine (record { kind = kind; detail = detail }) in
    elim r [
      | ok _ ↦ rest (record s { machine = m })
      | err e ↦ (record s { machine = m }, err (illegal_transition e))
    ]

-- A call on `state.exchange`, then the rest of the turn.
abbrev pub exchanging :
    SubGameState → Result ExchangeFault CommitRevealExchange → (SubGameState → Outcome) → Outcome
exchanging s (ok x) rest = rest (record s { exchange = x })
exchanging s (err e) rest = (s, err (exchange_error e))

-- services/turn_prep.py
abbrev pub police_scent_of : Json → ℕ → Option ScentField
police_scent_of grid n = elim (validate_scent_grid grid n) [
  | some _ ↦ none
  | none ↦ elim (as_list grid) [
    | none ↦ none
    | some rows ↦ some (record { grid_size = n; grid = grid_floats rows })
  ]
]

abbrev pub region_of : Option Region → ℕ → Option (List Position)
region_of none n = none
region_of (some r) n = some (region_cells r n)

abbrev pub board_after : Board → Option Position → Board
board_after b none = b
board_after b (some cell) = with_barrier b cell

unfoldable pub absorb_public_evidence : SubGameState → OpponentTurn → SubGameState
absorb_public_evidence s opp = record s {
  police_scent = police_scent_of opp.scent_grid s.grid_size;
  hint_region = region_of opp.hint_region s.grid_size;
  board = board_after s.board opp.barrier_placed;
}
