-- ===== src/Scent/Validation.antt =====
-- What a received scent grid is when the check passes it.
use ai2_final_thief_edward_d.Prelude.{
  ℕ, suc, ◌≡◌, refl, ap, inl, inr, true, false, none, some, Option-cases, List, length, arith, All,
}
use ai2_final_thief_edward_d.Json.{Json, Items, nil, cons, Float}
use ai2_final_thief_edward_d.Scent.{
  zero_float, legal_max_value, number_of, is_finite, float_lt, value_fault, values_fault,
  count_items, as_list, row_fault, rows_fault, validate_scent_grid, row_floats, grid_floats,
}

-- A finite number, not negative, and at most the legal maximum.
abbrev pub InRange : Float → Type 0
InRange x =
    (is_finite x ≡ true) × (float_lt x zero_float ≡ false) × (float_lt legal_max_value x ≡ false)

value_fault-InRange :
    (v : Json) → value_fault v ≡ none → (x : Float) × (number_of v ≡ some x) × InRange x
unfolding value_fault
value_fault-InRange v h = elim (Option-cases (number_of v)) [
  | inl e ↦ absurd (ground (arith, e, h))
  | inr (x, e) ↦ (x, e, ground (arith, e, h))
]

row_floats-InRange :
    (vs : Items)
    → values_fault vs ≡ none
    → (length (row_floats vs) ≡ count_items vs) × All InRange (row_floats vs)
unfolding values_fault row_floats count_items
row_floats-InRange nil h = (refl, tt)
row_floats-InRange (cons v vs) h = elim (Option-cases (value_fault v)) [
  | inr (f, e) ↦ absurd (ground (arith, e, h))
  | inl e ↦
      let x = value_fault-InRange v e in
      let rest = row_floats-InRange vs (ground (arith, e, h)) in
      rw (x.1, row_floats) (ap suc rest.0, (x.2, rest.1))
]

-- A row of `n` numbers in range.
abbrev pub IsRow : ℕ → List Float → Type 0
IsRow n row = (length row ≡ n) × All InRange row

row_fault-IsRow :
    (row : Json) (n : ℕ)
    → row_fault row n ≡ none
    → (vs : Items) × (as_list row ≡ some vs) × IsRow n (row_floats vs)
unfolding row_fault
row_fault-IsRow row n h = elim (Option-cases (as_list row)) [
  | inl e ↦ absurd (ground (arith, e, h))
  | inr (vs, e) ↦
      let ok_values : values_fault vs ≡ none = ground (arith, e, h) in
      let count : count_items vs ≡ n = ground (arith, e, h) in
      let r = row_floats-InRange vs ok_values in (vs, e, (ground (arith, r.0, count), r.1))
]

rows_fault-IsRow :
    (rows : Items) (n : ℕ)
    → rows_fault rows n ≡ none
    → (length (grid_floats rows) ≡ count_items rows) × All (IsRow n) (grid_floats rows)
unfolding rows_fault grid_floats count_items
rows_fault-IsRow nil n h = (refl, tt)
rows_fault-IsRow (cons row rows) n h = elim (Option-cases (row_fault row n)) [
  | inr (f, e) ↦ absurd (ground (arith, e, h))
  | inl e ↦
      let r = row_fault-IsRow row n e in
      let rest = rows_fault-IsRow rows n (ground (arith, e, h)) in
      rw (r.1, grid_floats) (ap suc rest.0, (r.2, rest.1))
]

-- A grid that the check passes is a list of `n` rows of `n` numbers, each of them finite, not negative
-- and at most the legal maximum.
pub validate_scent_grid-legal :
    (grid : Json) (n : ℕ)
    → validate_scent_grid grid n ≡ none
    → (rows : Items) × (as_list grid ≡ some rows)
      × (length (grid_floats rows) ≡ n)
      × All (IsRow n) (grid_floats rows)
unfolding validate_scent_grid
validate_scent_grid-legal grid n h = elim (Option-cases (as_list grid)) [
  | inl e ↦ absurd (ground (arith, e, h))
  | inr (rows, e) ↦
      let ok_rows : rows_fault rows n ≡ none = ground (arith, e, h) in
      let count : count_items rows ≡ n = ground (arith, e, h) in
      let r = rows_fault-IsRow rows n ok_rows in (rows, e, ground (arith, r.0, count), r.1)
]
