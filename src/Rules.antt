-- ===== src/Rules.antt =====
-- What a peer may do on its turn: domain/actions.py and domain/rules.py of src/thief_peer.
pub mod Moves
pub mod Barriers
mod Tests
use ai2_final_thief_edward_d.Prelude.{
  ℕ, ◌≡◌, ◌↔◌, Bool, true, false, ◌&&◌, ◌||◌, not, List, [], ◌∷◌, arith, leb, if◌then◌else◌, Eq,
  elem, Result, ok, err, ◌>>◌, raise_if,
}
use ai2_final_thief_edward_d.Grid.{
  Role, police, thief, Position, position_eq, position_is_eq, Direction, north, south, east, west,
  stay, apply_direction, Board, is_in_bounds, is_barrier, with_barrier, adjacent_cells,
}

-- The three shapes of an action; `Rules.place_barrier` and `Rules.apply_move` take their fields.
pub data Action : Type 0 where
  move : Direction → Action
  stay_action : Action
  barrier : Position → Action

-- The messages of `IllegalActionError`.
pub data IllegalAction : Type 0 where
  illegal_direction not_police quota_exhausted illegal_barrier_cell : IllegalAction

unfoldable pub direction_eq : Direction → Direction → Bool
direction_eq north north = true
direction_eq south south = true
direction_eq east east = true
direction_eq west west = true
direction_eq stay stay = true
direction_eq _ _ = false

pub direction_eq_iff : (d e : Direction) → (direction_eq d e ≡ true) ↔ (d ≡ e)
unfolding direction_eq
direction_eq_iff d e = ground arith

instance abbrev pub direction_is_eq : Eq Direction
direction_is_eq = record { beq = direction_eq; beq_iff = direction_eq_iff }

-- The loop of `legal_move_directions`.
unfoldable pub open_directions : Position → Board → List Direction → List Direction
open_directions position board [] = []
open_directions position board (d ∷ ds) =
    let dest = apply_direction position d in
    if is_in_bounds board dest && not (is_barrier board dest)
    then d ∷ open_directions position board ds
    else open_directions position board ds

unfoldable pub legal_move_directions : Position → Board → List Direction
unfolding open_directions
legal_move_directions position board =
    stay ∷ open_directions position board (north ∷ south ∷ east ∷ west ∷ [])

unfoldable pub apply_move : Position → Direction → Board → Result IllegalAction Position
apply_move position d board = do
  raise_if (not (elem d (legal_move_directions position board))) illegal_direction
  ok (apply_direction position d)

unfoldable pub is_legal_barrier_cell : Position → Position → Board → Bool
is_legal_barrier_cell actor cell board =
    if not (is_in_bounds board cell)
    then false
    else if is_barrier board cell
    then false
    else position_eq cell actor || elem cell (adjacent_cells board actor)

abbrev pub is_police : Role → Bool
is_police police = true
is_police thief = false

unfoldable pub place_barrier :
    Role → Position → Position → Board → ℕ → ℕ → Result IllegalAction Board
place_barrier role actor cell board placed max_barriers = do
  raise_if (not (is_police role)) not_police
  raise_if (leb max_barriers placed) quota_exhausted
  raise_if (not (is_legal_barrier_cell actor cell board)) illegal_barrier_cell
  ok (with_barrier board cell)

abbrev pub is_ordinary_capture : Position → Position → Bool
is_ordinary_capture thief_position police_position = position_eq thief_position police_position

abbrev pub is_barrier_on_thief_capture : Position → Position → Bool
is_barrier_on_thief_capture barrier_cell thief_position = position_eq barrier_cell thief_position
