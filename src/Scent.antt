-- ===== src/Scent.antt =====
-- Scent: domain/scent.py and domain/scent_validation.py of src/thief_peer. Floats are exact values;
-- what the processor makes of a sum or a product is a parameter, `FloatArith`, of which nothing is
-- assumed. A read or a write outside a grid is `none` (IndexError).
pub mod Emission
pub mod Validation
mod Tests
use Prim.Native.Nat.{◌^◌}
use ai2_final_thief_edward_d.Prelude.{
  ℕ, zero, suc, ◌+◌, ◌*◌, Bool, true, false, not, ◌&&◌, ◌||◌, Option, none, some, List, [], ◌∷◌,
  ◌++◌, length, set, get_elem?, replicate, if◌then◌else◌, ◌==◌, ltb,
}
use ai2_final_thief_edward_d.Prelude.Int.{ℤ, pos, negsuc, pos_part, ◌+ℤ◌, ltb_ℤ, leb_ℤ}
use ai2_final_thief_edward_d.Grid.{Position}
use ai2_final_thief_edward_d.Json.{
  Json, null, bool, num, float, str, arr, obj, Float, dyadic, nan, infinite, Items, nil, cons,
  scaled,
}

pub record FloatArith : Type 0 where
  pub add : Float → Float → Float
  pub sub : Float → Float → Float
  pub mul : Float → Float → Float

abbrev pub Grid : Type 0
Grid = List (List Float)

abbrev pub zero_float : Float
zero_float = dyadic (pos 0) 0

-- The doubles nearest to 0.04, 0.14, 0.20, 0.42, 0.62 and 0.90.
abbrev pub corner : Float
corner = dyadic (pos 5764607523034235) 57

abbrev pub f14 : Float
f14 = dyadic (pos 1261007895663739) 53

abbrev pub f20 : Float
f20 = dyadic (pos 3602879701896397) 54

abbrev pub f42 : Float
f42 = dyadic (pos 7566047373982433) 54

abbrev pub f62 : Float
f62 = dyadic (pos 5584463537939415) 53

abbrev pub peak : Float
peak = dyadic (pos 8106479329266893) 53

abbrev pub emission_matrix : Grid
emission_matrix =
    (corner ∷ f14 ∷ f20 ∷ f14 ∷ corner ∷ [])
    ∷ (f14 ∷ f42 ∷ f62 ∷ f42 ∷ f14 ∷ [])
    ∷ (f20 ∷ f62 ∷ peak ∷ f62 ∷ f20 ∷ [])
    ∷ (f14 ∷ f42 ∷ f62 ∷ f42 ∷ f14 ∷ [])
    ∷ (corner ∷ f14 ∷ f20 ∷ f14 ∷ corner ∷ [])
    ∷ []

pub record ScentField : Type 0 where
  pub grid_size : ℕ
  pub grid : Grid

abbrev pub cell_at : Grid → ℕ → ℕ → Option Float
cell_at g r c = elim (get_elem? g r) [ none ↦ none | some row ↦ get_elem? row c ]

abbrev pub zeros : ℕ → Grid
zeros n = replicate n (replicate n zero_float)

unfoldable pub empty_scent_field : ℕ → ScentField
empty_scent_field n = record { grid_size = n; grid = zeros n }

-- `0 <= i < n`
abbrev pub in_range : ℤ → ℕ → Bool
in_range i n = leb_ℤ (pos 0) i && ltb_ℤ i (pos n)

-- `xs[i] = v` at an index that is not negative; out of range it raises IndexError.
abbrev pub set_at {ℓ} : {A : Type ℓ} → List A → ℕ → A → Option (List A)
set_at xs i v = if ltb i (length xs) then some (set xs i v) else none

-- The inner loop of `_emission_delta`, at column `col`, over a row of the matrix. An index that is negative
-- would count from the end, which `in_range` excludes.
unfoldable pub emit_row : ℕ → ℤ → List Float → List Float → Option (List Float)
emit_row n col [] row = some row
emit_row n col (v ∷ vs) row =
    let written = if in_range col n then set_at row (pos_part col) v else some row in
    elim written [ none ↦ none | some row' ↦ emit_row n (col +ℤ pos 1) vs row' ]

-- The outer loop, at row `row`, over the matrix; each row of the matrix starts at column `col`.
unfoldable pub emit : ℕ → ℤ → ℤ → Grid → Grid → Option Grid
unfolding emit_row
emit n row col [] delta = some delta
emit n row col (vs ∷ rows) delta =
    let written : Option Grid =
      if in_range row n
      then elim (get_elem? delta (pos_part row)) [
        | none ↦ none
        | some old ↦ elim (emit_row n col vs old) [
          | none ↦ none
          | some new ↦ set_at delta (pos_part row) new
        ]
      ]
      else some delta in
    elim written [ none ↦ none | some delta' ↦ emit n (row +ℤ pos 1) col rows delta' ]

unfoldable pub emission_delta : ℕ → Position → Option Grid
unfolding emit
emission_delta n source =
    emit n (source.row +ℤ negsuc 1) (source.col +ℤ negsuc 1) emission_matrix (zeros n)

-- `a < b` on floats; a comparison with NaN is false.
unfoldable pub float_lt : Float → Float → Bool
float_lt (dyadic m k) (dyadic n l) = ltb_ℤ (scaled m l) (scaled n k)
float_lt (dyadic m k) (infinite positive) = positive
float_lt (infinite positive) (dyadic n l) = not positive
float_lt (infinite positive) (infinite positive') = not positive && positive'
float_lt _ _ = false

-- `max(0.0, x)`
abbrev pub clamped : Float → Float
clamped x = if float_lt zero_float x then x else zero_float

-- `tuple(f(i) for i in range(lo, lo + n))`, where `f` may raise.
unfoldable pub tabulate {ℓ} : {A : Type ℓ} → (ℕ → Option A) → ℕ → ℕ → Option (List A)
tabulate f lo zero = some []
tabulate f lo (suc n) = elim (f lo) [
  | none ↦ none
  | some x ↦ elim (tabulate f (suc lo) n) [ none ↦ none | some xs ↦ some (x ∷ xs) ]
]

module _ (arithmetic : FloatArith) where
  -- `max(0.0, (1 - rho) * old + d)`
  abbrev pub decayed : Float → Float → Float → Float
  decayed rho old d =
      clamped (arithmetic.add (arithmetic.mul (arithmetic.sub (dyadic (pos 1) 0) rho) old) d)

  unfoldable pub updated_cell : Float → Grid → Grid → ℕ → ℕ → Option Float
  updated_cell rho old delta r c = elim (cell_at old r c) [
    | none ↦ none
    | some x ↦ elim (cell_at delta r c) [ none ↦ none | some d ↦ some (decayed rho x d) ]
  ]

  unfoldable pub apply_turn : ScentField → Position → Float → Option ScentField
  unfolding updated_cell
  apply_turn field source rho = elim (emission_delta field.grid_size source) [
    | none ↦ none
    | some delta ↦
        let rows =
          tabulate
            (λ (r : ℕ).
              tabulate (λ (c : ℕ). updated_cell rho field.grid delta r c) 0 field.grid_size)
            0 field.grid_size in
        elim rows [ none ↦ none | some g ↦ some (record { grid_size = field.grid_size; grid = g }) ]
  ]

-- domain/scent_validation.py. An int that no double can hold, for which math.isfinite raises, is left
-- out.
pub data ScentFault : Type 0 where
  missing bad_dimensions non_numeric non_finite negative exceeds_legal_maximum : ScentFault

-- The double that `LEGAL_MAX_VALUE` is.
abbrev pub legal_max_value : Float
legal_max_value = dyadic (pos 5319877059831399) 49

-- The float that a number is compared as; a bool is not a number here.
abbrev pub number_of : Json → Option Float
number_of (num n) = some (dyadic n 0)
number_of (float x) = some x
number_of _ = none

abbrev pub is_finite : Float → Bool
is_finite (dyadic _ _) = true
is_finite _ = false

unfoldable pub value_fault : Json → Option ScentFault
unfolding float_lt
value_fault v = elim (number_of v) [
  | none ↦ some non_numeric
  | some x ↦
      if not (is_finite x)
      then some non_finite
      else if float_lt x zero_float
      then some negative
      else if float_lt legal_max_value x
      then some exceeds_legal_maximum
      else none
]

unfoldable pub count_items : Items → ℕ
count_items nil = 0
count_items (cons x xs) = suc (count_items xs)

unfoldable pub values_fault : Items → Option ScentFault
unfolding value_fault
values_fault nil = none
values_fault (cons v vs) =
    let rest = values_fault vs in elim (value_fault v) [ some f ↦ some f | none ↦ rest ]

abbrev pub as_list : Json → Option Items
as_list (arr xs) = some xs
as_list _ = none

unfoldable pub row_fault : Json → ℕ → Option ScentFault
unfolding values_fault count_items
row_fault row n = elim (as_list row) [
  | none ↦ some bad_dimensions
  | some vs ↦ if not (count_items vs == n) then some bad_dimensions else values_fault vs
]

unfoldable pub rows_fault : Items → ℕ → Option ScentFault
unfolding row_fault
rows_fault nil n = none
rows_fault (cons row rows) n =
    let rest = rows_fault rows n in elim (row_fault row n) [ some f ↦ some f | none ↦ rest ]

abbrev pub is_null : Json → Bool
is_null null = true
is_null _ = false

unfoldable pub validate_scent_grid : Json → ℕ → Option ScentFault
unfolding rows_fault
validate_scent_grid grid n = if is_null grid then some missing else elim (as_list grid) [
  | none ↦ some bad_dimensions
  | some rows ↦ if not (count_items rows == n) then some bad_dimensions else rows_fault rows n
]

-- `float(v)` on a checked grid, row by row; a value that is no number has been refused.
unfoldable pub row_floats : Items → List Float
row_floats nil = []
row_floats (cons v vs) = elim (number_of v) [ none ↦ row_floats vs | some x ↦ x ∷ row_floats vs ]

unfoldable pub grid_floats : Items → Grid
unfolding row_floats
grid_floats nil = []
grid_floats (cons row rows) = elim (as_list row) [
  | none ↦ grid_floats rows
  | some vs ↦ row_floats vs ∷ grid_floats rows
]
