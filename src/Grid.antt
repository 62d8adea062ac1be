-- ===== src/Grid.antt =====
-- The board: domain/roles.py, domain/positions.py and domain/board.py of src/thief_peer.
-- Python's ints are unbounded and signed, so a coordinate is an integer; a grid size is a
-- natural number. A frozenset of cells is a list, used only through membership.
pub mod Adjacency
use ai2_final_thief_edward_d.Prelude.{
  ℕ, ◌+◌, ◌-◌, ◌≡◌, ◌↔◌, Bool, true, ◌&&◌, List, [], ◌∷◌, arith, if◌then◌else◌, Eq, elem,
}
use ai2_final_thief_edward_d.Prelude.Int.{
  ℤ, pos, negsuc, pos_part, neg_part, ◌+ℤ◌, ltb_ℤ, leb_ℤ, eq_ℤ, eq_ℤ_iff,
}

-- domain/roles.py
pub data Role : Type 0 where
  police thief : Role

abbrev pub opponent : Role → Role
opponent police = thief
opponent thief = police

-- domain/positions.py
pub record Position : Type 0 where
  pub row : ℤ
  pub col : ℤ

abbrev pub position_eq : Position → Position → Bool
position_eq p q = eq_ℤ p.row q.row && eq_ℤ p.col q.col

pub position_eq_iff : (p q : Position) → (position_eq p q ≡ true) ↔ (p ≡ q)
position_eq_iff p q = ground (arith, eq_ℤ_iff p.row q.row, eq_ℤ_iff p.col q.col)

instance abbrev pub position_is_eq : Eq Position
position_is_eq = record { beq = position_eq; beq_iff = position_eq_iff }

unfoldable pub is_within : Position → ℕ → Bool
is_within p grid_size =
    leb_ℤ (pos 0) p.row
    && ltb_ℤ p.row (pos grid_size)
    && (leb_ℤ (pos 0) p.col && ltb_ℤ p.col (pos grid_size))

abbrev pub translated : Position → ℤ → ℤ → Position
translated p d_row d_col = record { row = p.row +ℤ d_row; col = p.col +ℤ d_col }

pub data Direction : Type 0 where
  north south east west stay : Direction

-- The table `_DELTAS`.
abbrev pub delta : Direction → ℤ × ℤ
delta north = (negsuc 0, pos 0)
delta south = (pos 1, pos 0)
delta east = (pos 0, pos 1)
delta west = (pos 0, negsuc 0)
delta stay = (pos 0, pos 0)

unfoldable pub apply_direction : Position → Direction → Position
apply_direction p d = translated p (delta d).0 (delta d).1

-- domain/board.py
abbrev pub orthogonal_directions : List Direction
orthogonal_directions = north ∷ south ∷ east ∷ west ∷ []

pub record Board : Type 0 where
  pub grid_size : ℕ
  pub barriers : List Position

abbrev pub is_in_bounds : Board → Position → Bool
is_in_bounds b p = is_within p b.grid_size

abbrev pub is_barrier : Board → Position → Bool
is_barrier b p = elem p b.barriers

unfoldable pub with_barrier : Board → Position → Board
with_barrier b cell = record b { barriers = cell ∷ b.barriers }

-- The generator expression of `adjacent_cells`.
unfoldable pub neighbours : Board → Position → List Direction → List Position
neighbours b p [] = []
neighbours b p (d ∷ ds) =
    let cell = apply_direction p d in
    if is_in_bounds b cell then cell ∷ neighbours b p ds else neighbours b p ds

unfoldable pub adjacent_cells : Board → Position → List Position
unfolding neighbours
adjacent_cells b p = neighbours b p orthogonal_directions

-- `abs(a - b)`
abbrev pub distance : ℤ → ℤ → ℕ
distance a b =
    let x = pos_part a + neg_part b in let y = pos_part b + neg_part a in (x - y) + (y - x)

-- strategy/entropy_escape_utility.py
unfoldable pub manhattan : Position → Position → ℕ
manhattan a b = distance a.row b.row + distance a.col b.col
