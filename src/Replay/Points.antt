-- ===== src/Replay/Points.antt =====
-- When the check of the scores finds nothing.
use Prim.Native.String.{String}
use text.Mathlib.Text.{◌==◌ as str_eq}
use ai2_final_thief_edward_d.Prelude.{
  ◌≡◌, refl, sym, ◌∙◌, ◌↔◌, arith, Bool, true, false, not, ◌&&◌, Option, none, some, List, [], ◌∷◌,
  ◌++◌, if◌then◌else◌, and_then,
}
use ai2_final_thief_edward_d.Prelude.Int.{ℤ, pos, ◌+ℤ◌, eq_ℤ, int_laws}
use ai2_final_thief_edward_d.Captures.{
  SubGameResult, capture, survival, technical_loss, Scoring, score_sub_game,
}
use ai2_final_thief_edward_d.Replay.Scores.{
  Entry, ReplayResult, ScoreFinding, wrong_score, not_zeroed, totals_differ, result_of, pair_eq,
  declared, check_scores, score_sums, is_zeroed, check_totals, verify_scores,
}

-- The declared scores are those that the table has for the named result.
abbrev pub scored_as : Entry → ℤ → ℤ → Bool
scored_as e police thief = eq_ℤ e.police_score police && eq_ℤ e.thief_score thief

abbrev pub score_ok : Scoring → Entry → Bool
score_ok s e =
    if str_eq e.result "capture"
    then scored_as e s.capture_cop s.capture_thief
    else if str_eq e.result "survival"
    then scored_as e s.survival_cop s.survival_thief
    else if str_eq e.result "technical_loss"
    then scored_as e s.technical_loss_score s.technical_loss_score
    else false

abbrev pub scores_ok : Scoring → List Entry → Bool
scores_ok scoring [] = true
scores_ok scoring (e ∷ es) = score_ok scoring e && scores_ok scoring es

abbrev pub total_of : (Entry → ℤ) → List Entry → ℤ
total_of f [] = pos 0
total_of f (e ∷ es) = f e +ℤ total_of f es

abbrev pub is_disputed : Option String → Bool
is_disputed none = false
is_disputed (some status) = str_eq status "disputed_zeroed"

-- The totals are the sums of the declared scores, or zero for a disputed series.
abbrev pub totals_ok : ReplayResult → Bool
totals_ok r =
    if is_disputed r.agreement_status
    then eq_ℤ r.police_total (pos 0) && eq_ℤ r.thief_total (pos 0)
    else eq_ℤ (total_of (λ e. e.police_score) r.sub_games) r.police_total
      && eq_ℤ (total_of (λ e. e.thief_score) r.sub_games) r.thief_total

-- The scores by the code's own table.
abbrev by_table : Scoring → Entry → Bool
by_table scoring e = elim (result_of e.result) [
  | none ↦ false
  | some outcome ↦ pair_eq (declared e) (score_sub_game outcome scoring false)
]

by_table-score_ok : (scoring : Scoring) (e : Entry) → by_table scoring e ≡ score_ok scoring e
unfolding result_of score_sub_game
by_table-score_ok scoring e =
    named (str_eq e.result "capture") (str_eq e.result "survival")
      (str_eq e.result "technical_loss")
  where
    named :
        (a b c : Bool)
        → (elim (if a
            then some capture
            else if b
            then some survival
            else if c
            then some technical_loss
            else none) [
              | none ↦ false
              | some outcome ↦ pair_eq (declared e) (score_sub_game outcome scoring false)
            ])
          ≡ (if a
              then scored_as e scoring.capture_cop scoring.capture_thief
              else if b
              then scored_as e scoring.survival_cop scoring.survival_thief
              else if c
              then scored_as e scoring.technical_loss_score scoring.technical_loss_score
              else false)
    named true b c = refl
    named false true c = refl
    named false false true = refl
    named false false false = refl

add_assoc : (a b c : ℤ) → (a +ℤ b) +ℤ c ≡ a +ℤ (b +ℤ c)
add_assoc a b c = grind int_laws

score_sums-total_of :
    (sums : ℤ × ℤ) (es : List Entry)
    → (score_sums sums es).0 ≡ sums.0 +ℤ total_of (λ e. e.police_score) es
      × (score_sums sums es).1 ≡ sums.1 +ℤ total_of (λ e. e.thief_score) es
unfolding score_sums
score_sums-total_of sums [] = (grind int_laws, grind int_laws)
score_sums-total_of sums (e ∷ es) =
    let h = score_sums-total_of (sums.0 +ℤ e.police_score, sums.1 +ℤ e.thief_score) es in
    (
      h.0 ∙ add_assoc sums.0 e.police_score (total_of (λ e. e.police_score) es),
      h.1 ∙ add_assoc sums.1 e.thief_score (total_of (λ e. e.thief_score) es),
    )

zero_add : (a : ℤ) → pos 0 +ℤ a ≡ a
zero_add a = grind int_laws

one_score :
    (scoring : Scoring) (e : Entry) (o : Option SubGameResult) (q : Option (List ScoreFinding))
    (b : Bool)
    → (q ≡ some []) ↔ (b ≡ true)
    → (and_then o (λ outcome. and_then q (λ rest.
          if not (pair_eq (declared e) (score_sub_game outcome scoring false))
          then some (wrong_score e.sub_game_number ∷ rest)
          else some rest))
        ≡ some [])
      ↔ ((elim o [
        | none ↦ false
        | some outcome ↦ pair_eq (declared e) (score_sub_game outcome scoring false)
      ])
            && b
          ≡ true)
one_score scoring e none q b f = ground arith
one_score scoring e (some outcome) none b f = ground (arith, f)
one_score scoring e (some outcome) (some rest) b f =
    by_test (pair_eq (declared e) (score_sub_game outcome scoring false))
  where
    by_test :
        (t : Bool)
        → ((if not t then some (wrong_score e.sub_game_number ∷ rest) else some rest) ≡ some [])
          ↔ (t && b ≡ true)
    by_test true = ground (arith, f)
    by_test false = ground arith

check_scores-ok :
    (scoring : Scoring) (es : List Entry)
    → (check_scores scoring es ≡ some []) ↔ (scores_ok scoring es ≡ true)
unfolding check_scores
check_scores-ok scoring [] = ground arith
check_scores-ok scoring (e ∷ es) = rw (sym (by_table-score_ok scoring e)) (
    one_score scoring e (result_of e.result) (check_scores scoring es) (scores_ok scoring es)
      (check_scores-ok scoring es))

check_totals-ok : (r : ReplayResult) → (check_totals r ≡ []) ↔ (totals_ok r ≡ true)
unfolding check_totals
check_totals-ok r =
    let h = score_sums-total_of (pos 0, pos 0) r.sub_games in
    rw
      (
        h.0,
        h.1,
        zero_add (total_of (λ e. e.police_score) r.sub_games),
        zero_add (total_of (λ e. e.thief_score) r.sub_games),
      )
      (totals (is_zeroed r) _ _)
  where
    totals :
        (z a b : Bool)
        → ((if z
              then (if a then [] else not_zeroed ∷ [])
              else (if b then [] else totals_differ ∷ []))
            ≡ [])
          ↔ ((if z then a else b) ≡ true)
    totals z a b = ground arith

-- `verify_scores` returns and finds nothing exactly if every sub-game names one of the three results, with
-- the scores that the table has for it, and the totals are the sums of the declared scores, or zero where
-- the series is disputed. With an unknown name it raises.
pub verify_scores-ok :
    (r : ReplayResult) (scoring : Scoring)
    → (verify_scores r scoring ≡ some []) ↔ (scores_ok scoring r.sub_games && totals_ok r ≡ true)
unfolding verify_scores
verify_scores-ok r scoring =
    combined (check_scores scoring r.sub_games) (check_totals r) (scores_ok scoring r.sub_games)
      (totals_ok r) (check_scores-ok scoring r.sub_games) (check_totals-ok r)
  where
    combined :
        (o : Option (List ScoreFinding)) (gs : List ScoreFinding) (a b : Bool)
        → (o ≡ some []) ↔ (a ≡ true)
        → (gs ≡ []) ↔ (b ≡ true)
        → (and_then o (λ fs. some (fs ++ gs)) ≡ some []) ↔ (a && b ≡ true)
    combined none gs a b f g = ground (arith, f)
    combined (some []) gs a b f g = ground (arith, f, g)
    combined (some (x ∷ fs)) gs a b f g = ground (arith, f, g)
