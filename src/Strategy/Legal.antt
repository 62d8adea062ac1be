-- ===== src/Strategy/Legal.antt =====
-- Whatever the belief, the weights and the random draws, both brains choose a legal direction.
use ai2_final_thief_edward_d.Prelude.{
  and_then, ℕ, suc, ◌≡◌, sym, ◌∙◌, inl, inr, Option-cases, Bool, true, false, Option, none, some,
  List, [], ◌∷◌, arith, elem, if◌then◌else◌,
}
use ai2_final_thief_edward_d.Grid.{Direction, stay, apply_direction}
use ai2_final_thief_edward_d.Json.{Float, infinite}
use ai2_final_thief_edward_d.Rules.{direction_is_eq, direction_eq_iff}
use ai2_final_thief_edward_d.Hints.{truth}
use ai2_final_thief_edward_d.Scent.{float_lt}
use ai2_final_thief_edward_d.Belief.{BeliefArith, BeliefMap}
use ai2_final_thief_edward_d.Belief.Model.{most_likely}
use ai2_final_thief_edward_d.Strategy.{
  ThiefDecisionInput, Decision, fallback, first_or_stay, or_fallback, Score, score_lt, score,
  max_from, max_by, shuffled, truthful,
}
use ai2_final_thief_edward_d.Strategy
use ai2_final_thief_edward_d.Strategy.Escape
use ai2_final_thief_edward_d.Strategy.Escape.{utility, best_from, with_intent, intent_of}
use ai2_final_thief_edward_d.Strategy.Utility.{EntropyEscapeWeights, project_belief, capture_risk}

-- The directions that a brain may choose from: STAY where none is legal.
abbrev pub or_stay : List Direction → List Direction
or_stay [] = stay ∷ []
or_stay (d ∷ ds) = d ∷ ds

abbrev pub Allowed : ThiefDecisionInput → Decision → Type 0
Allowed ctx d = elem d.direction (or_stay ctx.legal_directions) ≡ true

-- A shuffle gives a list of the same directions.
abbrev pub IsShuffle : Option (List Direction → List Direction) → Type 0
IsShuffle none = Unit
IsShuffle (some shuffle) = (d : Direction) (ds : List Direction) → elem d (shuffle ds) ≡ elem d ds

-- Of a value that is there, `P` holds.
abbrev pub Holds {ℓ} : {A : Type ℓ} → (A → Type 0) → Option A → Type 0
Holds P none = Unit
Holds P (some a) = P a

Holds-and_then {ℓ κ} :
    {A : Type ℓ} {B : Type κ} (Q : B → Type 0) (o : Option A) (k : A → Option B)
    → ((a : A) → Holds Q (k a))
    → Holds Q (and_then o k)
Holds-and_then Q none k h = tt
Holds-and_then Q (some a) k h = h a

Holds-then {ℓ κ} :
    {A : Type ℓ} {B : Type κ} (P : A → Type 0) (Q : B → Type 0) (o : Option A) (k : A → Option B)
    → Holds P o
    → ((a : A) → P a → Holds Q (k a))
    → Holds Q (and_then o k)
Holds-then P Q none k h f = tt
Holds-then P Q (some a) k h f = f a h

fallback-Allowed : (ctx : ThiefDecisionInput) → Allowed ctx (fallback ctx)
unfolding fallback
fallback-Allowed ctx = first_allowed ctx.legal_directions
  where
    first_allowed : (ds : List Direction) → elem (first_or_stay ds) (or_stay ds) ≡ true
    first_allowed [] = ground (arith, direction_eq_iff stay stay)
    first_allowed (d ∷ ds) = ground (arith, direction_eq_iff d d)

or_fallback-Allowed :
    (ctx : ThiefDecisionInput) (o : Option Decision)
    → Holds (Allowed ctx) o
    → Allowed ctx (or_fallback ctx o)
or_fallback-Allowed ctx none h = fallback-Allowed ctx
or_fallback-Allowed ctx (some d) h = h

max_from-elem :
    (key : Direction → Score) (leader : Direction) (ds : List Direction)
    → elem (max_from key leader ds) (leader ∷ ds) ≡ true
unfolding max_from
max_from-elem key leader [] = ground (arith, direction_eq_iff leader leader)
max_from-elem key leader (d ∷ ds) =
    ground (arith, max_from-elem key d ds, max_from-elem key leader ds)

-- The shuffled candidates hold the maximum, and it is one of the legal directions.
chosen-Allowed :
    (key : Direction → Score) (rng : Option (List Direction → List Direction)) (ds : List Direction)
    → IsShuffle rng
    → (d : Direction) → max_by key (shuffled rng ds) ≡ some d
    → elem d ds ≡ true
chosen-Allowed key none [] h d e = ground (arith, e)
chosen-Allowed key none (c ∷ cs) h d e = ground (arith, e, max_from-elem key c cs)
chosen-Allowed key (some shuffle) ds h d e = sym (h d ds) ∙ max_by-elem (shuffle ds) e
  where
    max_by-elem : (cs : List Direction) → max_by key cs ≡ some d → elem d cs ≡ true
    max_by-elem [] k = ground (arith, k)
    max_by-elem (c ∷ cs) k = ground (arith, k, max_from-elem key c cs)

-- The direction that the baseline brain chooses is a legal one, or STAY where none is legal, whatever
-- the belief is and however the generator shuffles.
pub decide-Allowed :
    (rng : Option (List Direction → List Direction)) (ctx : ThiefDecisionInput)
    → IsShuffle rng
    → Allowed ctx (Strategy.decide rng ctx)
unfolding Strategy.decide Strategy.choose
decide-Allowed rng ctx h =
    or_fallback-Allowed ctx (Strategy.choose rng ctx) (choose-Allowed ctx.legal_directions)
  where
    choose-Allowed :
        (ds : List Direction)
        → Holds
            (λ (r : Decision). elem r.direction (or_stay ds) ≡ true)
            (elim ds [
              | [] ↦ some (record { direction = stay; intent = truth })
              | d ∷ ds ↦
                  truthful (max_by (score ctx (most_likely ctx.belief)) (shuffled rng (d ∷ ds)))
            ])
    choose-Allowed [] = ground (arith, direction_eq_iff stay stay)
    choose-Allowed (d ∷ ds) =
        elim (Option-cases (max_by (score ctx (most_likely ctx.belief)) (shuffled rng (d ∷ ds)))) [
          | inl e ↦ rw e tt
          | inr (c, e) ↦
              rw e (chosen-Allowed (score ctx (most_likely ctx.belief)) rng (d ∷ ds) h c e)
        ]

module _ (a : BeliefArith) (w : EntropyEscapeWeights) (draw : ℕ → Float) where
  -- The loop returns the direction that it starts from or a candidate.
  best_from-elem :
      (ctx : ThiefDecisionInput) (projected : BeliefMap) (recent : List Direction) (i : ℕ)
      (leader : Direction) (s : Float) (ds all : List Direction)
      → elem leader all ≡ true
      → ((d : Direction) → elem d ds ≡ true → elem d all ≡ true)
      → Holds (λ d. elem d all ≡ true) (best_from a w draw ctx projected recent i leader s ds)
  unfolding best_from
  best_from-elem ctx projected recent i leader s [] all h k = h
  best_from-elem ctx projected recent i leader s (d ∷ ds) all h k =
      Holds-and_then _ (utility a w draw ctx projected recent i d) _ (λ u.
        best_from-elem ctx projected recent (suc i) _ _ ds all (better (float_lt s u))
          (λ e l. k e (ground (arith, l))))
    where
      better : (c : Bool) → elem (if c then d else leader) all ≡ true
      better true = k d (ground (arith, direction_eq_iff d d))
      better false = h

  -- The direction that the entropy-escape brain chooses is a legal one, or STAY where none is legal,
  -- whatever the belief, the weights, the draws and the recent directions are.
  pub escape_stays_legal :
      (ctx : ThiefDecisionInput) (recent : List Direction)
      → Allowed ctx (Escape.decide a w draw ctx recent).0
  unfolding Escape.decide Escape.choose
  escape_stays_legal ctx recent =
      or_fallback-Allowed ctx (Escape.choose a w draw ctx recent)
        (choose-Allowed ctx.legal_directions)
    where
      choose-Allowed :
          (ds : List Direction)
          → Holds
              (λ (r : Decision). elem r.direction (or_stay ds) ≡ true)
              (elim ds [
                | [] ↦ some (record { direction = stay; intent = truth })
                | d ∷ ds ↦
                    and_then (project_belief a ctx.belief ctx.board w.lookahead_depth) (λ projected.
                      and_then
                        (best_from a w draw ctx projected recent 0 d (infinite false) (d ∷ ds))
                        (with_intent a w draw ctx))
              ])
      choose-Allowed [] = ground (arith, direction_eq_iff stay stay)
      choose-Allowed (d ∷ ds) =
          Holds-and_then (λ (r : Decision). elem r.direction (d ∷ ds) ≡ true)
            (project_belief a ctx.belief ctx.board w.lookahead_depth)
            (λ projected.
              and_then (best_from a w draw ctx projected recent 0 d (infinite false) (d ∷ ds))
                (with_intent a w draw ctx))
            (λ projected.
              Holds-then (λ c. elem c (d ∷ ds) ≡ true)
                (λ (r : Decision). elem r.direction (d ∷ ds) ≡ true)
                (best_from a w draw ctx projected recent 0 d (infinite false) (d ∷ ds))
                (with_intent a w draw ctx)
                (best_from-elem ctx projected recent 0 d (infinite false) (d ∷ ds) (d ∷ ds)
                  (ground (arith, direction_eq_iff d d)) (λ e l. l))
                (λ c k.
                  Holds-and_then (λ (r : Decision). elem r.direction (d ∷ ds) ≡ true)
                    (capture_risk (apply_direction ctx.position c) ctx.belief)
                    (λ risk. some (record { direction = c; intent = intent_of a w draw risk }))
                    (λ risk. k)))
