-- ===== src/Belief/Shape.antt =====
-- Reads, writes and rebuilt grids of a square grid raise nothing and keep its shape.
use ai2_final_thief_edward_d.Prelude.{
  and_then, ℕ, zero, suc, ◌+◌, ◌≤◌, ◌<◌, ◌≡◌, refl, ap, ◌∙◌, ◌&&◌, true, Option, some, List, [],
  ◌∷◌, length, set, get_elem?, length-set, arith, All, All-append,
}
use ai2_final_thief_edward_d.Prelude.Int.{ℤ, pos, pos_part, ltb_ℤ, leb_ℤ}
use ai2_final_thief_edward_d.Grid.{Position, is_within}
use ai2_final_thief_edward_d.Json.{Float}
use ai2_final_thief_edward_d.Hints.{cell}
use ai2_final_thief_edward_d.Hints.Regions.{OnBoard, cell-OnBoard}
use ai2_final_thief_edward_d.Scent.{Grid}
use ai2_final_thief_edward_d.Scent.Emission.{IsSquare, All-set}
use ai2_final_thief_edward_d.Belief.{BeliefArith, wrapped, read, add_at}
use ai2_final_thief_edward_d.Belief.Model.{row_entries, entries_from}
use ai2_final_thief_edward_d.Belief.Updates.{row_with, grid_with}

-- A computation that has not raised, with a value of which `P` holds.
pub data Gives {ℓ} {A : Type ℓ} (P : A → Type 0) : Option A → Type ℓ where
  gives : {a : A} → P a → Gives P (some a)

pub Gives-and_then {ℓ κ} :
    {A : Type ℓ} {B : Type κ} {P : A → Type 0} (Q : B → Type 0) (o : Option A) (k : A → Option B)
    → Gives P o
    → ((a : A) → P a → Gives Q (k a))
    → Gives Q (and_then o k)
Gives-and_then Q o k (gives {a = a} p) f = f a p

pub Gives-weaken {ℓ} :
    {A : Type ℓ} {P Q : A → Type 0} (o : Option A) → Gives P o → ((a : A) → P a → Q a) → Gives Q o
Gives-weaken o (gives {a = a} p) f = gives (f a p)

-- On the board, an index means itself.
wrapped_itself :
    (n : ℕ) (i : ℤ) → leb_ℤ (pos 0) i && ltb_ℤ i (pos n) ≡ true → wrapped i n ≡ some (pos_part i)
unfolding wrapped
wrapped_itself n i h = ground arith

wrapped-Gives :
    (n : ℕ) (i : ℤ) → leb_ℤ (pos 0) i && ltb_ℤ i (pos n) ≡ true → Gives (λ k. k < n) (wrapped i n)
wrapped-Gives n i h = rw (wrapped_itself n i h) (gives (ground (arith, h)))

on_row : (n : ℕ) (p : Position) → OnBoard n p → leb_ℤ (pos 0) p.row && ltb_ℤ p.row (pos n) ≡ true
unfolding is_within
on_row n p h = ground arith

on_col : (n : ℕ) (p : Position) → OnBoard n p → leb_ℤ (pos 0) p.col && ltb_ℤ p.col (pos n) ≡ true
unfolding is_within
on_col n p h = ground arith

get_elem?-Gives {ℓ} :
    {A : Type ℓ} (P : A → Type 0) (xs : List A) (i : ℕ)
    → All P xs
    → i < length xs
    → Gives P (get_elem? xs i)
get_elem?-Gives P [] i h l = elim l [ ]
get_elem?-Gives P (x ∷ xs) zero h l = gives h.0
get_elem?-Gives P (x ∷ xs) (suc i) h l = get_elem?-Gives P xs i h.1 (omega arith)

All-trivial {ℓ} : {A : Type ℓ} (xs : List A) → All (λ _. Unit {0}) xs
All-trivial [] = tt
All-trivial (x ∷ xs) = (tt, All-trivial xs)

-- The row of a cell on the board, and the place in it.
place-Gives {ℓ} :
    {B : Type ℓ} (Q : B → Type 0) (n : ℕ) (g : Grid) (p : Position)
    (k : ℕ → List Float → ℕ → Option B)
    → IsSquare n g
    → OnBoard n p
    → ((r : ℕ) (row : List Float) (c : ℕ) → length row ≡ n → c < length row → Gives Q (k r row c))
    → Gives Q (
        and_then
          (wrapped p.row (length g))
          (λ r. and_then (get_elem? g r) (λ row. and_then (wrapped p.col (length row)) (k r row))))
place-Gives Q n g p k h b f =
    Gives-and_then Q _ _ (wrapped-Gives (length g) p.row (on_row _ p (rw h.0 b))) (λ r hr.
      Gives-and_then Q _ _ (get_elem?-Gives (λ row. length row ≡ n) g r h.1 hr) (λ row e.
        Gives-and_then Q _ _ (wrapped-Gives (length row) p.col (on_col _ p (rw e b)))
          (λ c hc. f r row c e hc)))

pub read-Gives :
    (n : ℕ) (g : Grid) (p : Position)
    → IsSquare n g
    → OnBoard n p
    → Gives (λ _. Unit {0}) (read g p)
unfolding read
read-Gives n g p h b =
    place-Gives (λ _. Unit {0}) n g p (λ r row c. get_elem? row c) h b
      (λ r row c e hc. get_elem?-Gives _ row c (All-trivial row) hc)

pub add_at-IsSquare :
    (a : BeliefArith) (n : ℕ) (g : Grid) (p : Position) (x : Float)
    → IsSquare n g
    → OnBoard n p
    → Gives (IsSquare n) (add_at a g p x)
unfolding add_at
add_at-IsSquare a n g p x h b = place-Gives (IsSquare n) n g p _ h b (λ r row c e hc.
    Gives-and_then (IsSquare n) _ _ (get_elem?-Gives _ row c (All-trivial row) hc) (λ v _.
      let row' = set row c (a.floats.add v x) in
      gives (
        length-set g r row' ∙ h.0,
        All-set (λ row. length row ≡ n) g r row' h.1 (λ _. length-set row c _ ∙ e),
      )))

-- The cells that are visited are cells of the board.
row_entries-OnBoard :
    (n r c : ℕ) (row : List Float)
    → r < n
    → c + length row ≤ n
    → All (λ e. OnBoard n e.0) (row_entries r c row)
unfolding row_entries
row_entries-OnBoard n r c [] h k = tt
row_entries-OnBoard n r c (x ∷ row) h k =
    (cell-OnBoard n r c h (omega arith), row_entries-OnBoard n r (suc c) row h (omega arith))

pub entries_from-OnBoard :
    (n r : ℕ) (g : Grid)
    → r + length g ≤ n
    → All (λ row. length row ≡ n) g
    → All (λ e. OnBoard n e.0) (entries_from r g)
unfolding entries_from
entries_from-OnBoard n r [] h k = tt
entries_from-OnBoard n r (row ∷ g) h k =
    All-append (λ e. OnBoard n e.0) (row_entries r 0 row) (entries_from (suc r) g)
      (row_entries-OnBoard n r 0 row (omega arith) (omega (arith, k.0)))
      (entries_from-OnBoard n (suc r) g (omega arith) k.1)

module _ (f : Position → Float → Option Float) (n : ℕ)
    (total : (p : Position) (x : Float) → OnBoard n p → Gives (λ _. Unit {0}) (f p x)) where
  row_with-length :
      (r c : ℕ) (row : List Float)
      → r < n
      → c + length row ≤ n
      → Gives (λ xs. length xs ≡ length row) (row_with f r c row)
  unfolding row_with
  row_with-length r c [] h k = gives refl
  row_with-length r c (x ∷ row) h k =
      Gives-and_then _ _ _ (total (cell r c) x (cell-OnBoard n r c h (omega arith))) (λ y _.
        Gives-and_then _ _ _ (row_with-length r (suc c) row h (omega arith))
          (λ ys e. gives (ap suc e)))

  grid_with-rows :
      (r : ℕ) (g : Grid)
      → r + length g ≤ n
      → All (λ row. length row ≡ n) g
      → Gives (λ g'. (length g' ≡ length g) × All (λ row. length row ≡ n) g') (grid_with f r g)
  unfolding grid_with
  grid_with-rows r [] h k = gives (refl, tt)
  grid_with-rows r (row ∷ g) h k =
      Gives-and_then _ _ _ (row_with-length r 0 row (omega arith) (omega (arith, k.0))) (λ row' e.
        Gives-and_then _ _ _ (grid_with-rows (suc r) g (omega arith) k.1)
          (λ g' l. gives (ap suc l.0, (e ∙ k.0, l.1))))

  pub grid_with-IsSquare : (g : Grid) → IsSquare n g → Gives (IsSquare n) (grid_with f 0 g)
  grid_with-IsSquare g h =
      Gives-weaken (grid_with f 0 g) (grid_with-rows 0 g (omega (arith, h.0)) h.1)
        (λ g' l. (l.0 ∙ h.0, l.1))
