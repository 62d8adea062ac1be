-- ===== src/Rules/Moves.antt =====
-- Which moves are legal, and where they lead.
use ai2_final_thief_edward_d.Prelude.{
  ◌≡◌, refl, ◌⊎◌, Bool, true, false, ◌&&◌, ◌||◌, not, List, [], ◌∷◌, arith, ◌≤◌, elem, Result, ok,
  err,
}
use ai2_final_thief_edward_d.Prelude.Int.{◌+ℤ◌}
use ai2_final_thief_edward_d.Grid.{
  Position, Direction, position_is_eq, north, south, east, west, stay, apply_direction, Board,
  is_in_bounds, is_barrier, manhattan,
}
use ai2_final_thief_edward_d.Rules.{
  IllegalAction, illegal_direction, direction_eq, direction_eq_iff, direction_is_eq,
  open_directions, legal_move_directions, apply_move,
}

-- A cell that a peer may stand on: on the board, and with no barrier.
abbrev pub is_free : Board → Position → Bool
is_free b p = is_in_bounds b p && not (is_barrier b p)

elem-open_directions :
    (p : Position) (b : Board) (d : Direction) (ds : List Direction)
    → elem d (open_directions p b ds) ≡ (elem d ds && is_free b (apply_direction p d))
unfolding open_directions
elem-open_directions p b d [] = refl
elem-open_directions p b d (e ∷ ds) =
    ground (arith, direction_eq_iff d e, elem-open_directions p b d ds)

orthogonal_or_stay :
    (d : Direction) → (direction_eq d stay || elem d (north ∷ south ∷ east ∷ west ∷ [])) ≡ true
unfolding direction_eq
orthogonal_or_stay d = ground arith

-- The legal directions are STAY and the directions whose target cell is free.
pub elem-legal_move_directions :
    (p : Position) (b : Board) (d : Direction)
    → elem d (legal_move_directions p b) ≡ (direction_eq d stay || is_free b (apply_direction p d))
unfolding legal_move_directions
elem-legal_move_directions p b d =
    ground
      (arith, elem-open_directions p b d (north ∷ south ∷ east ∷ west ∷ []), orthogonal_or_stay d)

pub apply_direction-stay : (p : Position) → apply_direction p stay ≡ p
unfolding apply_direction ◌+ℤ◌
apply_direction-stay p = ground arith

step_length : (p : Position) (d : Direction) → manhattan p (apply_direction p d) ≤ 1
unfolding apply_direction manhattan ◌+ℤ◌
step_length p north = ground arith
step_length p south = ground arith
step_length p east = ground arith
step_length p west = ground arith
step_length p stay = ground arith

-- What a call of `apply_move` has done, by how it ended.
abbrev pub Moved : Position → Board → Direction → Result IllegalAction Position → Type 0
Moved p b d (ok q) =
    (q ≡ apply_direction p d) × (manhattan p q ≤ 1) × ((q ≡ p) ⊎ (is_free b q ≡ true))
Moved p b d (err e) =
    (e ≡ illegal_direction)
    × (is_free b (apply_direction p d) ≡ false)
    × (direction_eq d stay ≡ false)

-- Every call of `apply_move` ends as `Moved` says: the new position is one step in the direction, at
-- most one cell away, and a free cell unless the peer stays; a move is refused only if it is no STAY
-- and its target is not free.
pub apply_move-Moved : (p : Position) (d : Direction) (b : Board) → Moved p b d (apply_move p d b)
unfolding apply_move
apply_move-Moved p d b = ground (
  arith,
  elem-legal_move_directions p b d,
  apply_direction-stay p,
  step_length p d,
  direction_eq_iff d stay,
)
