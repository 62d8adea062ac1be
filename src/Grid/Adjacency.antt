-- ===== src/Grid/Adjacency.antt =====
-- The neighbours of a cell are the cells of the board at Manhattan distance one.
use ai2_final_thief_edward_d.Prelude.{
  ℕ, ◌+◌, ◌≡◌, Bool, false, ◌&&◌, ◌||◌, List, [], ◌∷◌, arith, ◌==◌, elem, ◌∙◌, ap,
}
use ai2_final_thief_edward_d.Prelude.Int.{ℤ, pos, negsuc, ◌+ℤ◌, eq_ℤ}
use ai2_final_thief_edward_d.Grid.{
  Position, position_is_eq, position_eq, position_eq_iff, Direction, apply_direction, Board,
  is_in_bounds, orthogonal_directions, neighbours, adjacent_cells, distance, manhattan,
}

-- Some direction of the list leads from `p` to `c`.
abbrev pub reaches : Position → List Direction → Position → Bool
reaches p [] c = false
reaches p (d ∷ ds) c = position_eq c (apply_direction p d) || reaches p ds c

pub elem-neighbours :
    (b : Board) (p c : Position) (ds : List Direction)
    → elem c (neighbours b p ds) ≡ (is_in_bounds b c && reaches p ds c)
unfolding neighbours
elem-neighbours b p c [] = ground arith
elem-neighbours b p c (d ∷ ds) =
    ground (arith, position_eq_iff c (apply_direction p d), elem-neighbours b p c ds)

-- One axis: which coordinates lie at distance zero, and at distance one.
axis_zero : (a b : ℤ) → eq_ℤ b (a +ℤ pos 0) ≡ (distance a b == 0)
unfolding ◌+ℤ◌
axis_zero a b = ground arith

axis_one : (a b : ℤ) → (eq_ℤ b (a +ℤ negsuc 0) || eq_ℤ b (a +ℤ pos 1)) ≡ (distance a b == 1)
unfolding ◌+ℤ◌
axis_one a b = ground arith

combine :
    (x0 x- x+ y0 y- y+ : Bool) (m n : ℕ)
    → x0 ≡ (m == 0)
    → (x- || x+) ≡ (m == 1)
    → y0 ≡ (n == 0)
    → (y- || y+) ≡ (n == 1)
    → (x- && y0 || (x+ && y0 || (x0 && y+ || (x0 && y- || false)))) ≡ (m + n == 1)
combine x0 x- x+ y0 y- y+ m n p q r s = ground arith

reaches-manhattan : (p c : Position) → reaches p orthogonal_directions c ≡ (manhattan p c == 1)
unfolding manhattan apply_direction
reaches-manhattan p c =
    combine _ _ _ _ _ _ _ _ (axis_zero p.row c.row) (axis_one p.row c.row) (axis_zero p.col c.col)
      (axis_one p.col c.col)

-- `adjacent_cells` holds exactly the cells of the board at Manhattan distance one.
pub elem-adjacent_cells :
    (b : Board) (p c : Position)
    → elem c (adjacent_cells b p) ≡ (is_in_bounds b c && (manhattan p c == 1))
unfolding adjacent_cells
elem-adjacent_cells b p c =
    elem-neighbours b p c orthogonal_directions
    ∙ ap (◌&&◌ (is_in_bounds b c)) (reaches-manhattan p c)
