-- ===== src/Scent/Emission.antt =====
-- What `apply_turn` and `_emission_delta` do to the shape of a grid.
use ai2_final_thief_edward_d.Prelude.{
  ℕ, zero, suc, ◌+◌, ◌<◌, ◌≡◌, refl, ap, ◌∙◌, inl, inr, Bool-cases, Option, some, List, [], ◌∷◌,
  length, set, get_elem?, replicate, length-set, length-replicate, arith, ltb, true, All,
}
use ai2_final_thief_edward_d.Prelude.Int.{ℤ, pos, negsuc, pos_part, ◌+ℤ◌}
use ai2_final_thief_edward_d.Grid.{Position}
use ai2_final_thief_edward_d.Json.{Float}
use ai2_final_thief_edward_d.Scent.{
  FloatArith, Grid, zero_float, emission_matrix, ScentField, cell_at, zeros, in_range, emit_row,
  emit, emission_delta, tabulate, decayed, updated_cell, apply_turn,
}

-- A grid of `n` rows of `n` cells.
abbrev pub IsSquare : ℕ → Grid → Type 0
IsSquare n g = (length g ≡ n) × All (λ row. length row ≡ n) g

-- A scent field whose grid has the size that it claims.
abbrev pub IsField : ScentField → Type 0
IsField f = IsSquare f.grid_size f.grid

module _ {ℓ κ} {A : Type ℓ} (P : A → Type κ) where
  pub All-set :
      (xs : List A) (i : ℕ) (v : A) → All P xs → (i < length xs → P v) → All P (set xs i v)
  All-set [] i v h k = tt
  All-set (x ∷ xs) zero v h k = (k (omega arith), h.1)
  All-set (x ∷ xs) (suc i) v h k = (h.0, All-set xs i v h.1 (λ l. k (omega arith)))

  pub All-get :
      (xs : List A) (i : ℕ) → All P xs → i < length xs → (x : A) × (get_elem? xs i ≡ some x) × P x
  All-get [] i h l = elim l [ ]
  All-get (x ∷ xs) zero h l = (x, refl, h.0)
  All-get (x ∷ xs) (suc i) h l = All-get xs i h.1 (omega arith)

  pub All-replicate : (n : ℕ) (v : A) → P v → All P (replicate n v)
  All-replicate zero v p = tt
  All-replicate (suc n) v p = (p, All-replicate n v p)

  tabulate-All :
      (f : ℕ → Option A) (lo n : ℕ)
      → ((i : ℕ) → i < lo + n → (x : A) × (f i ≡ some x) × P x)
      → (xs : List A) × (tabulate f lo n ≡ some xs) × (length xs ≡ n) × All P xs
  unfolding tabulate
  tabulate-All f lo zero k = ([], refl, refl, tt)
  tabulate-All f lo (suc n) k =
      let x = k lo (omega arith) in
      let xs = tabulate-All f (suc lo) n (λ i l. k i (omega arith)) in
      (x.0 ∷ xs.0, rw (x.1, xs.1, tabulate) refl, ap suc xs.2, (x.2, xs.3))

-- The guard keeps a write within the `n` elements.
in_range-lt : (i : ℤ) (n : ℕ) → in_range i n ≡ true → ltb (pos_part i) n ≡ true
in_range-lt (pos m) n h = ground (arith, h)
in_range-lt (negsuc m) n h = ground (arith, h)

-- The inner loop raises nothing on a row of `n` cells.
emit_row-written :
    (n : ℕ) (col : ℤ) (vs row : List Float)
    → length row ≡ n
    → (row' : List Float) × (emit_row n col vs row ≡ some row') × (length row' ≡ n)
unfolding emit_row
emit_row-written n col [] row h = (row, refl, h)
emit_row-written n col (v ∷ vs) row h = elim (Bool-cases (in_range col n)) [
  | inl e ↦
      rw (e, h, in_range-lt col n e, emit_row)
        (emit_row-written n (col +ℤ pos 1) vs (set row (pos_part col) v)
          (length-set row (pos_part col) v ∙ h))
  | inr e ↦ rw (e, emit_row) (emit_row-written n (col +ℤ pos 1) vs row h)
]

set-IsSquare :
    (n : ℕ) (g : Grid) (i : ℕ) (row : List Float)
    → IsSquare n g
    → length row ≡ n
    → IsSquare n (set g i row)
set-IsSquare n g i row h l =
    (length-set g i row ∙ h.0, All-set (λ row. length row ≡ n) g i row h.1 (λ _. l))

emit-IsSquare :
    (n : ℕ) (row col : ℤ) (rows delta : Grid)
    → IsSquare n delta
    → (delta' : Grid) × (emit n row col rows delta ≡ some delta') × IsSquare n delta'
unfolding emit
emit-IsSquare n row col [] delta h = (delta, refl, h)
emit-IsSquare n row col (vs ∷ rows) delta h = elim (Bool-cases (in_range row n)) [
  | inl e ↦
      let l = in_range-lt row n e in
      let old = All-get (λ row. length row ≡ n) delta (pos_part row) h.1 (ground (arith, l, h.0)) in
      let new = emit_row-written n col vs old.0 old.2 in
      rw (e, old.1, new.1, h.0, l, emit)
        (emit-IsSquare n (row +ℤ pos 1) col rows (set delta (pos_part row) new.0)
          (set-IsSquare n delta (pos_part row) new.0 h new.2))
  | inr e ↦ rw (e, emit) (emit-IsSquare n (row +ℤ pos 1) col rows delta h)
]

pub zeros-IsSquare : (n : ℕ) → IsSquare n (zeros n)
zeros-IsSquare n = (
  length-replicate n (replicate n zero_float),
  All-replicate (λ row. length row ≡ n) n (replicate n zero_float) (length-replicate n zero_float),
)

pub emission_delta-IsSquare :
    (n : ℕ) (source : Position)
    → (delta : Grid) × (emission_delta n source ≡ some delta) × IsSquare n delta
unfolding emission_delta
emission_delta-IsSquare n source =
    emit-IsSquare n (source.row +ℤ negsuc 1) (source.col +ℤ negsuc 1) emission_matrix (zeros n)
      (zeros-IsSquare n)

cell_at-some :
    (n : ℕ) (g : Grid) (r c : ℕ)
    → IsSquare n g
    → r < n
    → c < n
    → (x : Float) × (cell_at g r c ≡ some x)
cell_at-some n g r c h hr hc =
    let row = All-get (λ row. length row ≡ n) g r h.1 (omega (arith, h.0)) in
    let cell = All-get (λ _. Unit) row.0 c (units row.0) (omega (arith, row.2)) in
    (cell.0, rw (row.1, cell.1, cell_at) refl)
  where
    units : (xs : List Float) → All (λ _. Unit {0}) xs
    units [] = tt
    units (x ∷ xs) = (tt, units xs)

module _ (arithmetic : FloatArith) where
  updated_row :
      (rho : Float) (n : ℕ) (old delta : Grid)
      → IsSquare n old
      → IsSquare n delta
      → (r : ℕ) → r < n
      → (row : List Float) × (tabulate (λ c. updated_cell arithmetic rho old delta r c) 0 n
          ≡ some row)
        × (length row ≡ n)
  unfolding updated_cell
  updated_row rho n old delta ho hd r l =
      let row =
        tabulate-All (λ _. Unit {0}) (λ c. updated_cell arithmetic rho old delta r c) 0 n
          (λ c lc.
            let x = cell_at-some n old r c ho l (omega arith) in
            let d = cell_at-some n delta r c hd l (omega arith) in
            (decayed arithmetic rho x.0 d.0, rw (x.1, d.1, updated_cell) refl, tt)) in
      (row.0, row.1, row.2)

  -- On a field whose grid is as large as it says, an update reads and writes every list within its bounds,
  -- so that it raises nothing, and gives such a field of the same size, whatever the emitter's position and the rounding.
  pub apply_turn-IsField :
      (f : ScentField) (source : Position) (rho : Float)
      → IsField f
      → (g : ScentField) × (apply_turn arithmetic f source rho ≡ some g)
        × (g.grid_size ≡ f.grid_size)
        × IsField g
  unfolding apply_turn
  apply_turn-IsField f source rho h =
      let n = f.grid_size in
      let (delta, written, square) = emission_delta-IsSquare n source in
      let rows =
        tabulate-All (λ row. length row ≡ n)
          (λ r. tabulate (λ c. updated_cell arithmetic rho f.grid delta r c) 0 n) 0 n
          (λ r l. updated_row rho n f.grid delta h square r (omega arith)) in
      (
        record { grid_size = n; grid = rows.0 },
        rw (written, rows.1, apply_turn) refl,
        refl,
        (rows.2, rows.3),
      )
