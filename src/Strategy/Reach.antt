-- ===== src/Strategy/Reach.antt =====
-- The flood fill of `reachable_area` counts cells that are reachable, each once, within its bound, and
-- all of them where it stays below its limit.
use mathlib.Core.Path.{subst}
use ai2_final_thief_edward_d.Prelude.{
  and_then, ℕ, zero, suc, ◌+◌, ◌≤◌, ◌<◌, ◌≡◌, ◌⊎◌, inl, inr, refl, sym, true, false, Bool-cases,
  Option, none, some, List, [], ◌∷◌, length, arith, elem, All, ltb, if◌then◌else◌,
}
use ai2_final_thief_edward_d.Grid.{
  Position, position_is_eq, position_eq, position_eq_iff, Direction, Board, is_barrier,
  orthogonal_directions, neighbours, adjacent_cells,
}
use ai2_final_thief_edward_d.Strategy.Utility.{visit, flood, reachable_area}
use ai2_final_thief_edward_d.Strategy.Visit.{
  Distinct, visit-length, visit-bound, visit-Distinct, visit-All, visit-keeps, visit-covers,
  visit-waits, visit-inside, visit-queued,
}

-- The cells that a peer can walk to: from `start`, over cells without barriers.
pub data Reaches (board : Board) (start : Position) : Position → Type 0 where
  here : Reaches board start start
  there :
      (p q : Position)
      → Reaches board start p
      → elem q (adjacent_cells board p) ≡ true
      → is_barrier board q ≡ false
      → Reaches board start q

-- What holds of the seen cells and the queue after `popped` rounds.
record Sound (board : Board) (start : Position) (limit popped : ℕ) (seen queue : List Position)
    : Type 0 where
  reached : All (Reaches board start) seen
  distinct : Distinct seen
  count : length seen ≡ popped + length queue
  bound : length seen ≤ limit + 3
  started : elem start seen ≡ true
  queued : (p : Position) → elem p queue ≡ true → elem p seen ≡ true
  closed :
      (p q : Position)
      → elem p seen ≡ true
      → elem p queue ≡ false
      → elem q (adjacent_cells board p) ≡ true
      → is_barrier board q ≡ false
      → elem q seen ≡ true

All-elem :
    (P : Position → Type 0) (ps : List Position) (p : Position) → All P ps → elem p ps ≡ true → P p
All-elem P [] p h k = absurd (ground (arith, k))
All-elem P (q ∷ ps) p h k = elim (Bool-cases (position_eq p q)) [
  | inl e ↦ subst P (sym ((position_eq_iff p q).0 e)) h.0
  | inr e ↦ All-elem P ps p h.1 (ground (arith, k, e))
]

length-neighbours :
    (board : Board) (p : Position) (ds : List Direction)
    → length (neighbours board p ds) ≤ length ds
unfolding neighbours
length-neighbours board p [] = ground arith
length-neighbours board p (d ∷ ds) = ground (arith, length-neighbours board p ds)

length-adjacent_cells : (board : Board) (p : Position) → length (adjacent_cells board p) ≤ 4
unfolding adjacent_cells
length-adjacent_cells board p = length-neighbours board p orthogonal_directions

module _ (board : Board) (start : Position) (limit : ℕ) where
  round-Sound :
      (popped : ℕ) (c : Position) (seen queue : List Position)
      → length seen < limit
      → Sound board start limit popped seen (c ∷ queue)
      → Sound board start limit
          (suc popped)
          (visit board (adjacent_cells board c) seen queue).0
          (visit board (adjacent_cells board c) seen queue).1
  round-Sound popped c seen queue l h =
      let cs = adjacent_cells board c in
      let c_seen = h.queued c (ground (arith, position_eq_iff c c)) in
      record {
        reached =
            visit-All board (Reaches board start) cs seen queue
              (λ d k b. there c d (All-elem _ seen c h.reached c_seen) k b) h.reached;
        distinct = visit-Distinct board cs seen queue h.distinct;
        count = omega (arith, visit-length board cs seen queue, h.count);
        bound = omega (arith, visit-bound board cs seen queue, length-adjacent_cells board c, l);
        started = visit-keeps board cs seen queue start h.started;
        queued = λ p k. ground (
          arith,
          visit-inside board cs seen queue p k,
          h.queued p,
          visit-keeps board cs seen queue p,
        );
        closed = λ p q k n a b. elim (Bool-cases (position_eq p c)) [
          | inl e ↦
              visit-covers board cs seen queue q
                (subst (λ r. elem q (adjacent_cells board r) ≡ true) ((position_eq_iff p c).0 e) a)
                b
          | inr e ↦ visit-keeps board cs seen queue q (
              h.closed p q (ground (arith, visit-queued board cs seen queue p k, n))
                (ground (arith, e, n, visit-waits board cs seen queue p)) a b)
        ];
      }

  -- What the flood fill returns, if its fuel is enough.
  abbrev pub Filled : Option (List Position) → Type 0
  Filled none = ⊥
  Filled (some seen) =
      All (Reaches board start) seen
      × Distinct seen
      × (length seen ≤ limit + 3)
      × ((limit ≤ length seen) ⊎ ((p : Position) → Reaches board start p → elem p seen ≡ true))

  all_seen :
      (popped : ℕ) (seen : List Position)
      → Sound board start limit popped seen []
      → (p : Position) → Reaches board start p
      → elem p seen ≡ true
  all_seen popped seen h _ here = h.started
  all_seen popped seen h _ (there p q r a b) = h.closed p q (all_seen popped seen h p r) refl a b

  full-Filled :
      (popped : ℕ) (seen queue : List Position)
      → Sound board start limit popped seen queue
      → ltb (length seen) limit ≡ false
      → Filled (some seen)
  full-Filled popped seen queue h e = (h.reached, h.distinct, h.bound, inl (ground (arith, e)))

  flood-Filled :
      (fuel popped : ℕ) (seen queue : List Position)
      → Sound board start limit popped seen queue
      → limit ≤ popped + fuel
      → Filled (flood board limit fuel seen queue)
  unfolding flood
  flood-Filled fuel popped seen [] h l =
      (h.reached, h.distinct, h.bound, inr (λ p r. all_seen popped seen h p r))
  flood-Filled zero popped seen (c ∷ queue) h l =
      rw full (full-Filled popped seen (c ∷ queue) h full)
    where
      full : ltb (length seen) limit ≡ false
      full = ground (arith, h.count, l)
  flood-Filled (suc fuel) popped seen (c ∷ queue) h l =
      elim (Bool-cases (ltb (length seen) limit)) [
        | inl e ↦ rw e (
            flood-Filled fuel (suc popped) _ _
              (round-Sound popped c seen queue (ground (arith, e)) h) (omega (arith, l)))
        | inr e ↦ rw e (full-Filled popped seen (c ∷ queue) h e)
      ]

  -- From a cell without a barrier, the fill returns a count within its fuel: it is the length of a list
  -- without repeats, of at most three cells more than the limit, that holds cells reachable over cells
  -- without barriers only, and all of these if the count is below the limit.
  pub reachable_area-Filled :
      is_barrier board start ≡ false
      → (seen : List Position) × (reachable_area board start limit ≡ some (length seen))
        × Filled (some seen)
  unfolding reachable_area
  reachable_area-Filled e = counted (flood board limit limit (start ∷ []) (start ∷ [])) (
      flood-Filled limit 0 (start ∷ []) (start ∷ [])
        (record {
          reached = (here, tt);
          distinct = (refl, tt);
          count = refl;
          bound = omega arith;
          started = ground (arith, position_eq_iff start start);
          queued = λ p k. k;
          closed = λ p q k n a b. absurd (ground (arith, k, n));
        })
        (omega arith))
    where
      counted :
          (o : Option (List Position))
          → Filled o
          → (seen : List Position) × ((if is_barrier board start
                then some 0
                else and_then o (λ seen. some (length seen)))
              ≡ some (length seen))
            × Filled (some seen)
      counted none h = elim h [ ]
      counted (some seen) h = (seen, rw e refl, h)
