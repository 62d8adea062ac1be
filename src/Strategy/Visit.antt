-- ===== src/Strategy/Visit.antt =====
-- What one pass of `reachable_area` over the neighbours of a cell does to the seen cells and the queue.
use ai2_final_thief_edward_d.Prelude.{
  ◌+◌, ◌≤◌, ◌≡◌, inl, inr, refl, true, false, ◌||◌, Bool-cases, List, [], ◌∷◌, ◌++◌, length,
  length-append, arith, elem, elem-append, All,
}
use ai2_final_thief_edward_d.Grid.{Position, position_is_eq, position_eq_iff, Board, is_barrier}
use ai2_final_thief_edward_d.Strategy.Utility.{visit}

-- No cell stands twice in the list.
abbrev pub Distinct : List Position → Type 0
Distinct [] = Unit
Distinct (p ∷ ps) = (elem p ps ≡ false) × Distinct ps

module _ (board : Board) where
  pub visit-length :
      (cs seen queue : List Position)
      → length (visit board cs seen queue).0 + length queue
        ≡ length seen + length (visit board cs seen queue).1
  unfolding visit
  visit-length [] seen queue = refl
  visit-length (c ∷ cs) seen queue = ground (
    arith,
    visit-length cs seen queue,
    visit-length cs (c ∷ seen) (queue ++ (c ∷ [])),
    length-append queue (c ∷ []),
  )

  pub visit-bound :
      (cs seen queue : List Position)
      → length (visit board cs seen queue).0 ≤ length seen + length cs
  unfolding visit
  visit-bound [] seen queue = ground arith
  visit-bound (c ∷ cs) seen queue =
      ground (arith, visit-bound cs seen queue, visit-bound cs (c ∷ seen) (queue ++ (c ∷ [])))

  pub visit-Distinct :
      (cs seen queue : List Position) → Distinct seen → Distinct (visit board cs seen queue).0
  unfolding visit
  visit-Distinct [] seen queue h = h
  visit-Distinct (c ∷ cs) seen queue h = elim (Bool-cases (is_barrier board c || elem c seen)) [
    | inl e ↦ rw e (visit-Distinct cs seen queue h)
    | inr e ↦ rw e (visit-Distinct cs (c ∷ seen) (queue ++ (c ∷ [])) (ground (arith, e), h))
  ]

  -- Every new cell is an open neighbour.
  pub visit-All :
      (P : Position → Type 0) (cs seen queue : List Position)
      → ((c : Position) → elem c cs ≡ true → is_barrier board c ≡ false → P c)
      → All P seen
      → All P (visit board cs seen queue).0
  unfolding visit
  visit-All P [] seen queue f h = h
  visit-All P (c ∷ cs) seen queue f h = elim (Bool-cases (is_barrier board c || elem c seen)) [
    | inl e ↦ rw e (visit-All P cs seen queue (λ d k. f d (ground (arith, k))) h)
    | inr e ↦ rw e (
        visit-All P cs (c ∷ seen) (queue ++ (c ∷ [])) (λ d k. f d (ground (arith, k)))
          (f c (ground (arith, position_eq_iff c c)) (ground (arith, e)), h))
  ]

  pub visit-keeps :
      (cs seen queue : List Position) (p : Position)
      → elem p seen ≡ true
      → elem p (visit board cs seen queue).0 ≡ true
  unfolding visit
  visit-keeps [] seen queue p h = h
  visit-keeps (c ∷ cs) seen queue p h =
      ground (arith, visit-keeps cs seen queue p, visit-keeps cs (c ∷ seen) (queue ++ (c ∷ [])) p)

  -- Every open neighbour has been seen afterwards.
  pub visit-covers :
      (cs seen queue : List Position) (p : Position)
      → elem p cs ≡ true
      → is_barrier board p ≡ false
      → elem p (visit board cs seen queue).0 ≡ true
  unfolding visit
  visit-covers [] seen queue p h k = ground (arith, h)
  visit-covers (c ∷ cs) seen queue p h k = ground (
    arith,
    h,
    k,
    position_eq_iff p c,
    visit-covers cs seen queue p,
    visit-covers cs (c ∷ seen) (queue ++ (c ∷ [])) p,
    visit-keeps cs seen queue p,
    visit-keeps cs (c ∷ seen) (queue ++ (c ∷ [])) p,
  )

  -- The queue only grows, by seen cells.
  pub visit-waits :
      (cs seen queue : List Position) (p : Position)
      → elem p queue ≡ true
      → elem p (visit board cs seen queue).1 ≡ true
  unfolding visit
  visit-waits [] seen queue p h = h
  visit-waits (c ∷ cs) seen queue p h = ground (
    arith,
    elem-append p queue (c ∷ []),
    visit-waits cs seen queue p,
    visit-waits cs (c ∷ seen) (queue ++ (c ∷ [])) p,
  )

  pub visit-inside :
      (cs seen queue : List Position) (p : Position)
      → elem p (visit board cs seen queue).1 ≡ true
      → (elem p queue || elem p (visit board cs seen queue).0) ≡ true
  unfolding visit
  visit-inside [] seen queue p h = ground (arith, h)
  visit-inside (c ∷ cs) seen queue p h = ground (
    arith,
    h,
    position_eq_iff p c,
    elem-append p queue (c ∷ []),
    visit-inside cs seen queue p,
    visit-inside cs (c ∷ seen) (queue ++ (c ∷ [])) p,
    visit-keeps cs (c ∷ seen) (queue ++ (c ∷ [])) p,
  )

  -- A seen cell was seen before or waits in the queue.
  pub visit-queued :
      (cs seen queue : List Position) (p : Position)
      → elem p (visit board cs seen queue).0 ≡ true
      → (elem p seen || elem p (visit board cs seen queue).1) ≡ true
  unfolding visit
  visit-queued [] seen queue p h = ground (arith, h)
  visit-queued (c ∷ cs) seen queue p h = ground (
    arith,
    h,
    position_eq_iff p c,
    elem-append p queue (c ∷ []),
    visit-queued cs seen queue p,
    visit-queued cs (c ∷ seen) (queue ++ (c ∷ [])) p,
    visit-waits cs (c ∷ seen) (queue ++ (c ∷ [])) p,
  )
