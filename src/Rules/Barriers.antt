-- ===== src/Rules/Barriers.antt =====
-- Where a barrier may be placed, and what it does to the cells of the board.
use ai2_final_thief_edward_d.Prelude.{
  ℕ, ◌≡◌, ◌⊎◌, true, false, ◌&&◌, not, arith, ◌≤◌, ◌<◌, leb, ◌==◌, Result, ok, err,
}
use ai2_final_thief_edward_d.Grid.{
  Role, police, thief, Position, position_eq, position_is_eq, Board, with_barrier, manhattan,
}
use ai2_final_thief_edward_d.Grid.Adjacency.{elem-adjacent_cells}
use ai2_final_thief_edward_d.Rules.{
  IllegalAction, not_police, quota_exhausted, illegal_barrier_cell, illegal_direction,
  is_legal_barrier_cell, place_barrier,
}
use ai2_final_thief_edward_d.Rules.Moves.{is_free}

manhattan-eq-zero : (p q : Position) → position_eq q p ≡ (manhattan p q == 0)
unfolding manhattan
manhattan-eq-zero p q = ground arith

-- A cell may take a barrier if it is free and at most one step away.
pub is_legal_barrier_cell-manhattan :
    (actor cell : Position) (b : Board)
    → is_legal_barrier_cell actor cell b ≡ (is_free b cell && leb (manhattan actor cell) 1)
unfolding is_legal_barrier_cell
is_legal_barrier_cell-manhattan actor cell b =
    ground (arith, manhattan-eq-zero actor cell, elem-adjacent_cells b actor cell)

-- What a call of `place_barrier` has done, by how it ended.
abbrev pub Placed : Role → Position → Position → Board → ℕ → ℕ → Result IllegalAction Board → Type 0
Placed r actor cell b placed most (ok b') =
    (b' ≡ with_barrier b cell)
    × (r ≡ police)
    × (placed < most)
    × (is_free b cell ≡ true)
    × (manhattan actor cell ≤ 1)
Placed r actor cell b placed most (err not_police) = r ≡ thief
Placed r actor cell b placed most (err quota_exhausted) = (r ≡ police) × (most ≤ placed)
Placed r actor cell b placed most (err illegal_barrier_cell) =
    (r ≡ police) × (placed < most) × ((is_free b cell ≡ false) ⊎ (1 < manhattan actor cell))
Placed r actor cell b placed most (err illegal_direction) = ⊥

-- Every call of `place_barrier` ends as `Placed` says: it adds the cell for a police peer with quota
-- left, on a free cell at most one step away; and each refusal names a condition that fails, in the
-- order of the tests.
pub place_barrier-Placed :
    (r : Role) (actor cell : Position) (b : Board) (placed most : ℕ)
    → Placed r actor cell b placed most (place_barrier r actor cell b placed most)
unfolding place_barrier
place_barrier-Placed police actor cell b placed most =
    ground (arith, is_legal_barrier_cell-manhattan actor cell b)
place_barrier-Placed thief actor cell b placed most = ground arith

-- A barrier takes its own cell and no other.
pub is_free-with_barrier :
    (b : Board) (cell p : Position)
    → is_free (with_barrier b cell) p ≡ (is_free b p && not (position_eq p cell))
unfolding with_barrier
is_free-with_barrier b cell p = ground arith
