-- ===== src/Hints.antt =====
-- Hints and the regions that they name: domain/hints.py and domain/hint_region.py of
-- src/thief_peer. A random choice is an argument: the index that `rng.choice` draws. The search of a
-- region's word in a text is left out.
pub mod Regions
use Prim.Native.Nat.{max}
use Prim.Native.String.{String}
use text.Mathlib.Text.{◌==◌ as str_eq}
use ai2_final_thief_edward_d.Prelude.{
  ℕ, zero, suc, ◌+◌, ◌-◌, ◌/◌, ◌%◌, Bool, true, false, not, ◌&&◌, Option, none, some, List, [], ◌∷◌,
  ◌++◌, map, length, get_or, if◌then◌else◌,
}
use ai2_final_thief_edward_d.Prelude.Int.{ℤ, pos}
use ai2_final_thief_edward_d.Grid.{Position, Direction, north, south, east, west, stay}

pub data HintIntent : Type 0 where
  truth lie : HintIntent

-- `REGIONS`, in its order.
pub data Region : Type 0 where
  northern southern eastern western central : Region

abbrev pub regions : List Region
regions = northern ∷ southern ∷ eastern ∷ western ∷ central ∷ []

abbrev pub region_text : Region → String
region_text northern = "northern"
region_text southern = "southern"
region_text eastern = "eastern"
region_text western = "western"
region_text central = "central"

abbrev pub region_eq : Region → Region → Bool
region_eq northern northern = true
region_eq southern southern = true
region_eq eastern eastern = true
region_eq western western = true
region_eq central central = true
region_eq _ _ = false

unfoldable pub region_for_direction : Direction → Region
region_for_direction north = northern
region_for_direction south = southern
region_for_direction east = eastern
region_for_direction west = western
region_for_direction stay = central

-- The list comprehension of `false_region_for_direction`.
unfoldable pub other_regions : Region → List Region → List Region
other_regions r [] = []
other_regions r (s ∷ ss) =
    if not (region_eq s r) then s ∷ other_regions r ss else other_regions r ss

-- `draw` is what the generator draws; `rng.choice` picks an element of the list by it.
unfoldable pub false_region_for_direction : Direction → ℕ → Region
unfolding region_for_direction other_regions
false_region_for_direction d draw =
    let candidates = other_regions (region_for_direction d) regions in
    get_or candidates (draw % length candidates) central

unfoldable pub region_for_intent : Direction → HintIntent → ℕ → Region
unfolding region_for_direction false_region_for_direction
region_for_intent d truth draw = region_for_direction d
region_for_intent d lie draw = false_region_for_direction d draw

-- `range(lo, lo + n)`, and the cells of a rectangle, row by row.
abbrev pub range : ℕ → ℕ → List ℕ
range lo zero = []
range lo (suc n) = lo ∷ range (suc lo) n

abbrev pub cell : ℕ → ℕ → Position
cell r c = record { row = pos r; col = pos c }

unfoldable pub rectangle : List ℕ → List ℕ → List Position
rectangle [] cols = []
rectangle (r ∷ rows) cols = map (cell r) cols ++ rectangle rows cols

abbrev pub or_centre : List Position → Position → List Position
or_centre [] p = p ∷ []
or_centre (c ∷ cs) p = c ∷ cs

-- `region_cells`, for a grid size of at least 1: then `grid_size - third` is not negative.
unfoldable pub region_cells : Region → ℕ → List Position
unfolding rectangle
region_cells region n =
    let third = max 1 (n / 3) in
    elim region [
      | northern ↦ rectangle (range 0 third) (range 0 n)
      | southern ↦ rectangle (range (n - third) third) (range 0 n)
      | western ↦ rectangle (range 0 n) (range 0 third)
      | eastern ↦ rectangle (range 0 n) (range (n - third) third)
      | central ↦
          let inner = range third (n - third - third) in
          or_centre (rectangle inner inner) (cell (n / 2) (n / 2))
    ]
