-- ===== src/Belief/Total.antt =====
-- On a board of the belief's size, an update of the belief raises nothing and keeps its shape.
use mathlib.Core.Path.{subst}
use ai2_final_thief_edward_d.Prelude.{
  and_then, ℕ, ◌*◌, ◌≤◌, ◌≡◌, refl, ◌∙◌, inl, inr, Bool-cases, Bool, true, false, Option, none,
  some, List, [], ◌∷◌, map, length, replicate, elem, length-replicate, length-map, arith, All, ◌==◌,
  if◌then◌else◌,
}
use ai2_final_thief_edward_d.Grid.{
  Position, position_is_eq, Board, is_in_bounds, adjacent_cells, neighbours, Direction,
  apply_direction, orthogonal_directions,
}
use ai2_final_thief_edward_d.Json.{Float}
use ai2_final_thief_edward_d.Hints.Regions.{OnBoard}
use ai2_final_thief_edward_d.Scent.{Grid, ScentField, zeros, zero_float}
use ai2_final_thief_edward_d.Scent.Emission.{IsSquare, zeros-IsSquare, All-replicate}
use ai2_final_thief_edward_d.Belief.{BeliefArith, BeliefMap, float_le, one_float, add_at}
use ai2_final_thief_edward_d.Belief.Model.{normalize, total_mass, tiny, entries}
use ai2_final_thief_edward_d.Belief.Updates.{
  grid_with, apply_barrier_mask, spread, spread_cell, transition_from, apply_transition,
  apply_scent_likelihood, region_values, boosted, scented, effective_trust, apply_hint_likelihood,
  with_scent, with_hint, update_belief,
}
use ai2_final_thief_edward_d.Belief.Shape.{
  Gives, gives, Gives-and_then, read-Gives, add_at-IsSquare, entries_from-OnBoard,
  grid_with-IsSquare,
}

-- A belief over a board of `n` rows and columns.
abbrev pub IsBelief : ℕ → BeliefMap → Type 0
IsBelief n b = (b.grid_size ≡ n) × IsSquare n b.grid

abbrev pub to_list {ℓ} : {A : Type ℓ} → Option A → List A
to_list none = []
to_list (some a) = a ∷ []

All-map {ℓ κ} :
    {A : Type ℓ} {B : Type κ} (P : A → Type 0) (Q : B → Type 0) (f : A → B) (xs : List A)
    → ((a : A) → P a → Q (f a))
    → All P xs
    → All Q (map f xs)
All-map P Q f [] h k = tt
All-map P Q f (x ∷ xs) h k = (h x k.0, All-map P Q f xs h k.1)

pub normalize-IsBelief :
    (a : BeliefArith) (n : ℕ) (raw : Grid)
    → 1 ≤ n
    → IsSquare n raw
    → Gives (IsBelief n) (normalize a n raw)
unfolding normalize
normalize-IsBelief a n raw h k = elim (Bool-cases (float_le (total_mass a raw) tiny)) [
  | inl e ↦
      let row = replicate n (a.div one_float (a.of_ℕ (n * n))) in
      rw (e, n_pos)
        (gives (
          refl,
          (length-replicate n row, All-replicate (λ r. length r ≡ n) n row (length-replicate n _)),
        ))
  | inr e ↦ rw e (
      gives (
        refl,
        (
          length-map raw _ ∙ k.0,
          All-map (λ r. length r ≡ n) (λ r. length r ≡ n) (map (λ v. a.div v (total_mass a raw)))
              raw (λ r l. length-map r _ ∙ l) k.1,
        ),
      ))
]
  where
    n_pos : (n == 0) ≡ false
    n_pos = ground arith

entries-OnBoard : (n : ℕ) (b : BeliefMap) → IsBelief n b → All (λ e. OnBoard n e.0) (entries b)
entries-OnBoard n b h = entries_from-OnBoard n 0 b.grid (ground (arith, h.1.0)) h.1.1

neighbours-OnBoard :
    (board : Board) (p : Position) (ds : List Direction)
    → All (OnBoard board.grid_size) (neighbours board p ds)
unfolding neighbours
neighbours-OnBoard board p [] = tt
neighbours-OnBoard board p (d ∷ ds) = elim (Bool-cases (is_in_bounds board (apply_direction p d))) [
  | inl e ↦ rw e (e, neighbours-OnBoard board p ds)
  | inr e ↦ rw e (neighbours-OnBoard board p ds)
]

pub adjacent_cells-OnBoard :
    (board : Board) (p : Position) → All (OnBoard board.grid_size) (adjacent_cells board p)
unfolding adjacent_cells
adjacent_cells-OnBoard board p = neighbours-OnBoard board p orthogonal_directions

module _ (a : BeliefArith) (n : ℕ) where
  spread-IsSquare :
      (share : Float) (qs : List Position) (raw : Grid)
      → All (OnBoard n) qs
      → IsSquare n raw
      → Gives (IsSquare n) (spread a share qs raw)
  unfolding spread
  spread-IsSquare share [] raw h k = gives k
  spread-IsSquare share (q ∷ qs) raw h k =
      Gives-and_then _ _ _ (add_at-IsSquare a n raw q share k h.0)
        (λ raw' k'. spread-IsSquare share qs raw' h.1 k')

  -- `neighbors_fn` names cells of the board only.
  module _ (neighbors_fn : Position → List Position)
      (inside : (p : Position) → All (OnBoard n) (neighbors_fn p)) where
    spread_cell-IsSquare :
        (q : Position) (p : Float) (raw : Grid)
        → OnBoard n q
        → IsSquare n raw
        → Gives (IsSquare n) (spread_cell a neighbors_fn q p raw)
    unfolding spread_cell
    spread_cell-IsSquare q p raw h k = elim (Bool-cases (float_le p zero_float)) [
      | inl e ↦ rw e (gives k)
      | inr e ↦ rw e (successors (neighbors_fn q) (inside q))
    ]
      where
        successors :
            (ss : List Position)
            → All (OnBoard n) ss
            → Gives (IsSquare n) (elim ss [
              | [] ↦ add_at a raw q p
              | s ∷ ss ↦ spread a (a.div p (a.of_ℕ (length (s ∷ ss)))) (s ∷ ss) raw
            ])
        successors [] l = add_at-IsSquare a n raw q p k h
        successors (s ∷ ss) l = spread-IsSquare _ (s ∷ ss) raw l k

    transition_from-IsSquare :
        (es : List (Position × Float)) (raw : Grid)
        → All (λ e. OnBoard n e.0) es
        → IsSquare n raw
        → Gives (IsSquare n) (transition_from a neighbors_fn es raw)
    unfolding transition_from
    transition_from-IsSquare [] raw h k = gives k
    transition_from-IsSquare ((q, p) ∷ es) raw h k =
        Gives-and_then _ _ _ (spread_cell-IsSquare q p raw h.0 k)
          (λ raw' k'. transition_from-IsSquare es raw' h.1 k')

    pub apply_transition-IsBelief :
        (b : BeliefMap)
        → 1 ≤ n
        → IsBelief n b
        → Gives (IsBelief n) (apply_transition a b neighbors_fn)
    unfolding apply_transition
    apply_transition-IsBelief b l h = rw h.0 (
        Gives-and_then _ _ _
          (transition_from-IsSquare (entries b) (zeros n) (entries-OnBoard n b h)
            (zeros-IsSquare n))
          (λ raw k. normalize-IsBelief a n raw l k))

  -- A grid rebuilt cell by cell and normalised.
  rebuilt-IsBelief :
      (f : Position → Float → Option Float) (b : BeliefMap)
      → 1 ≤ n
      → IsBelief n b
      → ((p : Position) (x : Float) → OnBoard n p → Gives (λ _. Unit {0}) (f p x))
      → Gives (IsBelief n) (and_then (grid_with f 0 b.grid) (normalize a b.grid_size))
  rebuilt-IsBelief f b l h t = rw h.0 (
      Gives-and_then _ _ _ (grid_with-IsSquare f n t b.grid h.1)
        (λ raw k. normalize-IsBelief a n raw l k))

  one_of_two :
      {A : Type 0} (c : Bool) (x y : A) → Gives (λ _. Unit {0}) (if c then some x else some y)
  one_of_two true x y = gives tt
  one_of_two false x y = gives tt

  apply_barrier_mask-IsBelief :
      (b : BeliefMap) (barriers : List Position)
      → 1 ≤ n
      → IsBelief n b
      → Gives (IsBelief n) (apply_barrier_mask a b barriers)
  unfolding apply_barrier_mask
  apply_barrier_mask-IsBelief b barriers l h =
      rebuilt-IsBelief _ b l h (λ p x _. one_of_two (elem p barriers) zero_float x)

  with_scent-IsBelief :
      (b : BeliefMap) (scent : Option ScentField)
      → 1 ≤ n
      → IsBelief n b
      → All (λ s. IsSquare n s.grid) (to_list scent)
      → Gives (IsBelief n) (with_scent a scent b)
  unfolding apply_scent_likelihood
  with_scent-IsBelief b none l h k = gives h
  with_scent-IsBelief b (some scent) l h k =
      rebuilt-IsBelief (scented a scent one_float) b l h (λ p x o.
        Gives-and_then _ _ _ (read-Gives n scent.grid p k.0 o) (λ v _. gives {a = weight p x v} tt))
    where
      weight : Position → Float → Float → Float
      weight p x v = a.floats.mul x (a.floats.add one_float (a.floats.mul one_float v))

  region_values-some :
      (g : Grid) (region : List Position)
      → IsSquare n g
      → All (OnBoard n) region
      → Gives (λ _. Unit {0}) (region_values g region)
  unfolding region_values
  region_values-some g [] h k = gives tt
  region_values-some g (p ∷ ps) h k =
      Gives-and_then _ _ _ (read-Gives n g p h k.0)
        (λ v _. Gives-and_then _ _ _ (region_values-some g ps h k.1) (λ vs _. gives tt))

  pub apply_hint_likelihood-IsBelief :
      (b : BeliefMap) (region : List Position) (trust : Float)
      → 1 ≤ n
      → IsBelief n b
      → All (OnBoard n) region
      → Gives (IsBelief n) (apply_hint_likelihood a b (some region) trust)
  unfolding apply_hint_likelihood
  apply_hint_likelihood-IsBelief b [] trust l h k = gives h
  apply_hint_likelihood-IsBelief b (c ∷ cs) trust l h k =
      Gives-and_then _ _ _ (region_values-some b.grid (c ∷ cs) h.1 k) (λ values _.
        let left = effective_trust a b.grid_size (c ∷ cs) trust values in
        rebuilt-IsBelief (boosted a left (c ∷ cs)) b l h
          (λ p x _. one_of_two (elem p (c ∷ cs)) (a.floats.mul x (a.floats.add one_float left)) x))

  with_hint-IsBelief :
      (b : BeliefMap) (region : Option (List Position)) (trust : Float)
      → 1 ≤ n
      → IsBelief n b
      → All (All (OnBoard n)) (to_list region)
      → Gives (λ r. IsBelief n r.0) (with_hint a region trust b)
  with_hint-IsBelief b none trust l h k = gives h
  with_hint-IsBelief b (some region) trust l h k =
      Gives-and_then _ _ _ (apply_hint_likelihood-IsBelief b region trust l h k.0)
        (λ b' h'. gives h')

  -- On a board of at least one cell, of the belief's size, with a scent field of that size if there is
  -- one and a hinted region of cells of the board if there is one, `update_belief` raises nothing, and
  -- the new belief has the same size. Barriers may lie anywhere.
  pub update_belief-IsBelief :
      (b : BeliefMap) (board : Board) (scent : Option ScentField) (region : Option (List Position))
      (trust : Float)
      → 1 ≤ n
      → board.grid_size ≡ n
      → IsBelief n b
      → All (λ s. IsSquare n s.grid) (to_list scent)
      → All (All (OnBoard n)) (to_list region)
      → Gives (λ r. IsBelief n r.0) (update_belief a b board scent region trust)
  unfolding update_belief
  update_belief-IsBelief b board scent region trust l e h hs hr =
      Gives-and_then _ _ _
        (apply_transition-IsBelief (adjacent_cells board)
          (λ p.
            subst (λ m. All (OnBoard m) (adjacent_cells board p)) e
              (adjacent_cells-OnBoard board p))
          b l h)
        (λ b1 h1.
          Gives-and_then _ _ _ (apply_barrier_mask-IsBelief b1 board.barriers l h1) (λ b2 h2.
            Gives-and_then _ _ _ (with_scent-IsBelief b2 scent l h2 hs)
              (λ b3 h3. with_hint-IsBelief b3 region trust l h3 hr)))
