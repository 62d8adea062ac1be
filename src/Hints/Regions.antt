-- ===== src/Hints/Regions.antt =====
-- A region is never empty and stays on the board, and a lie names another region than the truth.
use Prim.Native.Nat.{max}
use ai2_final_thief_edward_d.Prelude.{
  ℕ, zero, suc, ◌+◌, ◌-◌, ◌/◌, ◌%◌, ◌≤◌, ◌<◌, ◌≡◌, ◌≢◌, refl, true, false, List, [], ◌∷◌, map,
  length, get_or, arith, All, All-append,
}
use ai2_final_thief_edward_d.Grid.{Position, is_within, Direction}
use ai2_final_thief_edward_d.Hints.{
  truth, lie, Region, northern, southern, eastern, western, central, region_eq, regions,
  other_regions, region_for_direction, region_for_intent, range, cell, rectangle, or_centre,
  region_cells,
}

abbrev pub OnBoard : ℕ → Position → Type 0
OnBoard n p = is_within p n ≡ true

pub cell-OnBoard : (n r c : ℕ) → r < n → c < n → OnBoard n (cell r c)
unfolding is_within
cell-OnBoard n r c h k = ground arith

pub range_below : (lo k n : ℕ) → lo + k ≤ n → All (λ x. x < n) (range lo k)
range_below lo zero n h = tt
range_below lo (suc k) n h = (omega arith, range_below (suc lo) k n (omega arith))

row-OnBoard :
    (n r : ℕ) (cols : List ℕ) → r < n → All (λ c. c < n) cols → All (OnBoard n) (map (cell r) cols)
row-OnBoard n r [] h k = tt
row-OnBoard n r (c ∷ cols) h k = (cell-OnBoard n r c h k.0, row-OnBoard n r cols h k.1)

rectangle-OnBoard :
    (n : ℕ) (rows cols : List ℕ)
    → All (λ r. r < n) rows
    → All (λ c. c < n) cols
    → All (OnBoard n) (rectangle rows cols)
unfolding rectangle
rectangle-OnBoard n [] cols h k = tt
rectangle-OnBoard n (r ∷ rows) cols h k =
    All-append (OnBoard n) (map (cell r) cols) (rectangle rows cols) (row-OnBoard n r cols h.0 k)
      (rectangle-OnBoard n rows cols h.1 k)

or_centre-OnBoard :
    (n : ℕ) (cells : List Position) (p : Position)
    → All (OnBoard n) cells
    → OnBoard n p
    → All (OnBoard n) (or_centre cells p)
or_centre-OnBoard n [] p h k = (k, tt)
or_centre-OnBoard n (c ∷ cs) p h k = h

third_le : (n : ℕ) → 1 ≤ n → max 1 (n / 3) ≤ n
third_le n h = omega arith

rectangle_ne : (lo k lo' k' : ℕ) → rectangle (range lo (suc k)) (range lo' (suc k')) ≢ []
unfolding rectangle
rectangle_ne lo k lo' k' h = cc

or_centre_ne : (cells : List Position) (p : Position) → or_centre cells p ≢ []
or_centre_ne [] p h = cc
or_centre_ne (c ∷ cs) p h = cc

rectangle_ne_pos : (lo k lo' k' : ℕ) → 0 < k → 0 < k' → rectangle (range lo k) (range lo' k') ≢ []
rectangle_ne_pos lo zero lo' k' h h' = absurd (omega arith)
rectangle_ne_pos lo (suc k) lo' zero h h' = absurd (omega arith)
rectangle_ne_pos lo (suc k) lo' (suc k') h h' = rectangle_ne lo k lo' k'

block-OnBoard :
    (n lo k lo' k' : ℕ)
    → 0 < k
    → 0 < k'
    → lo + k ≤ n
    → lo' + k' ≤ n
    → (rectangle (range lo k) (range lo' k') ≢ [])
      × All (OnBoard n) (rectangle (range lo k) (range lo' k'))
block-OnBoard n lo k lo' k' p p' h h' = (
  rectangle_ne_pos lo k lo' k' p p',
  rectangle-OnBoard n _ _ (range_below lo k n h) (range_below lo' k' n h'),
)

-- On a board that is not empty, every region holds a cell, and all its cells are on the board.
pub region_cells-OnBoard :
    (region : Region) (n : ℕ)
    → 1 ≤ n
    → (region_cells region n ≢ []) × All (OnBoard n) (region_cells region n)
unfolding region_cells
region_cells-OnBoard northern n h =
    block-OnBoard n 0 (max 1 (n / 3)) 0 n (omega arith) h (omega arith) (omega arith)
region_cells-OnBoard southern n h =
    block-OnBoard n (n - max 1 (n / 3)) (max 1 (n / 3)) 0 n (omega arith) h (omega arith)
      (omega arith)
region_cells-OnBoard western n h =
    block-OnBoard n 0 n 0 (max 1 (n / 3)) h (omega arith) (omega arith) (omega arith)
region_cells-OnBoard eastern n h =
    block-OnBoard n 0 n (n - max 1 (n / 3)) (max 1 (n / 3)) h (omega arith) (omega arith)
      (omega arith)
region_cells-OnBoard central n h =
    let third = max 1 (n / 3) in
    let inner : All (λ x. x < n) (range third (n - third - third)) =
      range_below third (n - third - third) n (omega (arith, third_le n h)) in
    (
      or_centre_ne _ _,
      or_centre-OnBoard n _ _ (rectangle-OnBoard n _ _ inner inner)
          (cell-OnBoard n (n / 2) (n / 2) (omega arith) (omega arith)),
    )

-- A drawn index among the four other regions.
other_region :
    (d : Direction) (k : ℕ)
    → k < 4
    → region_eq
        (get_or (other_regions (region_for_direction d) regions) k central)
        (region_for_direction d)
      ≡ false
unfolding other_regions region_for_direction
other_region d zero h = ground arith
other_region d (suc zero) h = ground arith
other_region d (suc (suc zero)) h = ground arith
other_region d (suc (suc (suc zero))) h = ground arith
other_region d (suc (suc (suc (suc k)))) h = absurd (omega arith)

four_others : (d : Direction) → length (other_regions (region_for_direction d) regions) ≡ 4
unfolding other_regions region_for_direction
four_others d = ground arith

-- An honest hint names the region of the move, and a lie, whatever is drawn, names another one.
pub region_for_intent_lem :
    (d : Direction) (draw : ℕ)
    → (region_for_intent d truth draw ≡ region_for_direction d)
      × (region_eq (region_for_intent d lie draw) (region_for_direction d) ≡ false)
unfolding region_for_intent
region_for_intent_lem d draw = (refl, rw (four_others d) (other_region d (draw % 4) (omega arith)))
