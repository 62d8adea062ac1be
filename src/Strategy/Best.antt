-- ===== src/Strategy/Best.antt =====
-- The baseline brain moves to a cell of the greatest score.
use ai2_final_thief_edward_d.Prelude.{
  ℕ, ◌<◌, ◌≤◌, Bool, if◌then◌else◌, length, ◌≡◌, ◌∙◌, ◌⊎◌, refl, inl, inr, Bool-cases, true, false,
  Option, none, some, List, [], ◌∷◌, arith, elem,
}
use ai2_final_thief_edward_d.Grid.{
  Position, position_is_eq, Direction, stay, manhattan, apply_direction,
}
use ai2_final_thief_edward_d.Rules.{legal_move_directions, direction_is_eq, direction_eq_iff}
use ai2_final_thief_edward_d.Belief.Model.{most_likely}
use ai2_final_thief_edward_d.Strategy.{
  ThiefDecisionInput, or_fallback, Score, score_lt, score, max_from, max_by, truthful, shuffled,
  choose, decide,
}
use ai2_final_thief_edward_d.Strategy.Legal.{IsShuffle}
use ai2_final_thief_edward_d.Hints.{truth}

score_lt_irrefl : (a : Score) → score_lt a a ≡ false
score_lt_irrefl a = ground arith

score_lt_trans :
    (a b c : Score) → score_lt a b ≡ false → score_lt b c ≡ false → score_lt a c ≡ false
score_lt_trans a b c h k = ground arith

score_lt_asym : (a b : Score) → score_lt a b ≡ true → score_lt b a ≡ false
score_lt_asym a b h = ground arith

-- What the leader of the first two candidates, `c`, and the rest say about the maximum `m`.
step_greatest :
    (key : Direction → Score) (c d leader m e : Direction) (ds : List Direction)
    → ((f : Direction) → elem f (c ∷ ds) ≡ true → score_lt (key m) (key f) ≡ false)
    → score_lt (key c) (key leader) ≡ false
    → score_lt (key c) (key d) ≡ false
    → elem e (leader ∷ d ∷ ds) ≡ true
    → score_lt (key m) (key e) ≡ false
step_greatest key c d leader m e ds above p q h =
    let own = above c (ground (arith, direction_eq_iff c c)) in
    elim (Bool-cases (elem e ds)) [
      | inl k ↦ above e (ground (arith, k))
      | inr k ↦ elim (is_new k) [
        | inl l ↦ rw l (score_lt_trans (key m) (key c) (key leader) own p)
        | inr l ↦ rw l (score_lt_trans (key m) (key c) (key d) own q)
      ]
    ]
  where
    is_new : elem e ds ≡ false → (e ≡ leader) ⊎ (e ≡ d)
    is_new k = ground (arith, h, direction_eq_iff e leader, direction_eq_iff e d)

max_from-greatest :
    (key : Direction → Score) (leader : Direction) (ds : List Direction) (e : Direction)
    → elem e (leader ∷ ds) ≡ true
    → score_lt (key (max_from key leader ds)) (key e) ≡ false
unfolding max_from
max_from-greatest key leader [] e h = rw same (score_lt_irrefl (key leader))
  where
    same : e ≡ leader
    same = ground (arith, h, direction_eq_iff e leader)
max_from-greatest key leader (d ∷ ds) e h = elim (Bool-cases (score_lt (key leader) (key d))) [
  | inl l ↦
      let below = score_lt_asym (key leader) (key d) l in
      rw l (
        step_greatest key d d leader (max_from key d ds) e ds
          (λ f k. max_from-greatest key d ds f k) below (score_lt_irrefl (key d)) h)
  | inr l ↦ rw l (
      step_greatest key leader d leader (max_from key leader ds) e ds
        (λ f k. max_from-greatest key leader ds f k) (score_lt_irrefl (key leader)) l h)
]

-- The decision that the maximum of the candidates gives.
max_by-greatest :
    (ctx : ThiefDecisionInput) (key : Direction → Score) (cs : List Direction) (e : Direction)
    → elem e cs ≡ true
    → score_lt (key (or_fallback ctx (truthful (max_by key cs))).direction) (key e) ≡ false
max_by-greatest ctx key [] e h = ground (arith, h)
max_by-greatest ctx key (c ∷ cs) e h = max_from-greatest key c cs e h

shuffled-elem :
    (rng : Option (List Direction → List Direction)) (ds : List Direction) (e : Direction)
    → IsShuffle rng
    → elem e (shuffled rng ds) ≡ elem e ds
shuffled-elem none ds e h = refl
shuffled-elem (some shuffle) ds e h = h e ds

among-greatest :
    (rng : Option (List Direction → List Direction)) (ctx : ThiefDecisionInput)
    (key : Direction → Score) (ds : List Direction) (e : Direction)
    → IsShuffle rng
    → elem e ds ≡ true
    → score_lt
        (key
          (or_fallback ctx (elim ds [
            | [] ↦ some (record { direction = stay; intent = truth })
            | d ∷ ds ↦ truthful (max_by key (shuffled rng (d ∷ ds)))
          ])).direction)
        (key e)
      ≡ false
among-greatest rng ctx key [] e h k = ground (arith, k)
among-greatest rng ctx key (d ∷ ds) e h k =
    max_by-greatest ctx key (shuffled rng (d ∷ ds)) e (shuffled-elem rng (d ∷ ds) e h ∙ k)

-- To move along `d` is at least as good as to move along `e`: the target cell is farther from the
-- opponent's most likely cell; or as far, and it is unvisited where the other was visited; or as far and
-- visited alike, with at least as many legal directions from there.
module _ (ctx : ThiefDecisionInput) where
  abbrev cell_of : Direction → Position
  cell_of d = apply_direction ctx.position d

  abbrev distance : Direction → ℕ
  distance d = manhattan (cell_of d) (most_likely ctx.belief)

  abbrev was_visited : Direction → Bool
  was_visited d = elem (cell_of d) ctx.visited

  abbrev exits : Direction → ℕ
  exits d = length (legal_move_directions (cell_of d) ctx.board)

  abbrev pub AsGood : Direction → Direction → Type 0
  AsGood d e =
      (distance e < distance d)
      ⊎ ((distance e ≡ distance d)
          × (((was_visited d ≡ false) × (was_visited e ≡ true))
              ⊎ ((was_visited d ≡ was_visited e) × (exits e ≤ exits d))))

-- Any two scores, by their parts.
compared :
    (a b x y : ℕ) (u v : Bool)
    → score_lt (a, if u then 0 else 1, x) (b, if v then 0 else 1, y) ≡ false
    → (b < a) ⊎ ((b ≡ a) × (((u ≡ false) × (v ≡ true)) ⊎ ((u ≡ v) × (y ≤ x))))
compared a b x y true true h = ground (arith, h)
compared a b x y true false h = ground (arith, h)
compared a b x y false true h = ground (arith, h)
compared a b x y false false h = ground (arith, h)

score-AsGood :
    (ctx : ThiefDecisionInput) (d e : Direction)
    → score_lt (score ctx (most_likely ctx.belief) d) (score ctx (most_likely ctx.belief) e) ≡ false
    → AsGood ctx d e
unfolding score
score-AsGood ctx d e h =
    compared (distance ctx d) (distance ctx e) (exits ctx d) (exits ctx e) (was_visited ctx d)
      (was_visited ctx e) h

-- However the generator shuffles, the direction that the baseline brain chooses is at least as good as
-- every legal direction: its cell is farthest from the opponent's most likely cell, unvisited rather than
-- visited among the farthest, and with the most legal directions among those.
pub decide-greatest :
    (rng : Option (List Direction → List Direction)) (ctx : ThiefDecisionInput) (e : Direction)
    → IsShuffle rng
    → elem e ctx.legal_directions ≡ true
    → AsGood ctx (decide rng ctx).direction e
unfolding decide choose
decide-greatest rng ctx e h k =
    score-AsGood ctx (decide rng ctx).direction e
      (among-greatest rng ctx (score ctx (most_likely ctx.belief)) ctx.legal_directions e h k)
