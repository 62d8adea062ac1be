-- ===== src/Replay/Sound.antt =====
-- What a replay report without findings says of the artifacts.
use Prim.Native.String.{String}
use mathlib.Core.Path.{subst}
use ai2_final_thief_edward_d.Prelude.{
  ℕ, ◌≡◌, ◌≤◌, ◌↔◌, refl, ap, sym, Bool, true, false, not, ◌&&◌, ◌||◌, Option, none, some, List, [],
  ◌∷◌, ◌++◌, map, length, ◌==◌, and_then, All, arith, inl, inr, Option-cases,
}
use ai2_final_thief_edward_d.Prelude.Int.{ℤ}
use ai2_final_thief_edward_d.Json.{Json, Fields}
use ai2_final_thief_edward_d.Json.Laws.{string_is_eq}
use ai2_final_thief_edward_d.Sequence.{int_is_eq}
use ai2_final_thief_edward_d.Captures.{Scoring}
use ai2_final_thief_edward_d.Sealing.Audit.{SealedRecord}
use ai2_final_thief_edward_d.Replay.{verify_log, records_from_steps}
use ai2_final_thief_edward_d.Replay.Clean.{records_ok, steps_ok, verify_log-ok}
use ai2_final_thief_edward_d.Replay.Scores.{ReplayResult, verify_scores}
use ai2_final_thief_edward_d.Replay.Points.{scores_ok, totals_ok, verify_scores-ok}
use ai2_final_thief_edward_d.Replay.Verifier.{
  ReplayConfig, ReplayLog, ReplayBundle, ReplayFinding, in_log, in_scores, duplicate_configs,
  duplicate_logs, counts_differ, option_is_eq, all_uids, check_game_uid, check_config_hashes,
  check_counts, collect, score_findings, report, log_findings, checks, verify_parts, verify_replay,
}
use ai2_final_thief_edward_d.Replay.Agree.{
  all_equal, no_repeat, finding_if-none, one_game, uid_test, hash_test, check_no_duplicates-none,
  all_counted, check_step_counts-none,
}

collect-cons :
    (o : Option (List ReplayFinding)) (os : List (Option (List ReplayFinding)))
    → (collect (o ∷ os) ≡ some []) ↔ ((o ≡ some []) × (collect os ≡ some []))
unfolding collect
collect-cons o os = parts o (collect os)
  where
    parts :
        (o q : Option (List ReplayFinding))
        → (and_then o (λ fs. and_then q (λ rest. some (fs ++ rest))) ≡ some [])
          ↔ ((o ≡ some []) × (q ≡ some []))
    parts none q = ground arith
    parts (some fs) none = ground arith
    parts (some []) (some gs) = ground arith
    parts (some (f ∷ fs)) (some gs) = ground arith

-- One more check, of which is known when it finds nothing.
next_check :
    {P Q : Type 0} (o : Option (List ReplayFinding)) (os : List (Option (List ReplayFinding)))
    → (o ≡ some []) ↔ P
    → (collect os ≡ some []) ↔ Q
    → (collect (o ∷ os) ≡ some []) ↔ (P × Q)
next_check o os f g = (
  λ h. let c = (collect-cons o os).0 h in (f.0 c.0, g.0 c.1),
  λ h. (collect-cons o os).1 (f.1 h.0, g.1 h.1),
)

last_check :
    {P : Type 0} (o : Option (List ReplayFinding))
    → (o ≡ some []) ↔ P
    → (collect (o ∷ []) ≡ some []) ↔ P
unfolding collect
last_check o f = (λ h. f.0 ((collect-cons o []).0 h).0, λ p. (collect-cons o []).1 (f.1 p, refl))

-- A check that cannot raise.
pure_check : {P : Type 0} (fs : List ReplayFinding) → (fs ≡ []) ↔ P → (some fs ≡ some []) ↔ P
pure_check fs f = (λ h. f.0 (ground (arith, h)), λ p. ap some (f.1 p))

then_iff : {P Q R : Type 0} → (P ↔ Q) → (Q ↔ R) → (P ↔ R)
then_iff f g = (λ p. g.0 (f.0 p), λ r. f.1 (g.1 r))

reported :
    (o : Option (List ReplayFinding)) (P : Type 0)
    → (o ≡ some []) ↔ P
    → (and_then o (λ fs. some (report fs)) ≡ some (report [])) ↔ P
reported none P f = (λ h. absurd (ground (arith, h)), λ p. absurd (ground (arith, f.1 p)))
reported (some []) P f = (λ h. f.0 refl, λ p. refl)
reported (some (x ∷ fs)) P f =
    (λ h. absurd (ground (arith, h)), λ p. absurd (ground (arith, f.1 p)))

mapped_none :
    {F : Type 0} (wrap : F → ReplayFinding) (o : Option (List F))
    → (and_then o (λ fs. some (map wrap fs)) ≡ some []) ↔ (o ≡ some [])
mapped_none wrap none = ground arith
mapped_none wrap (some []) = (λ h. refl, λ h. refl)
mapped_none wrap (some (f ∷ fs)) = ground arith

module _ (legacy_position : String → ℤ × ℤ) (digest : Json → String) where
  -- A log is clean: its steps are read as records that are untouched, and every step keeps to the board,
  -- to its role's fields and to the known fields.
  abbrev pub CleanLog : ℤ → ReplayLog → Type 0
  CleanLog n l =
      (rs : List SealedRecord) × (records_from_steps legacy_position l.steps ≡ some rs)
      × (records_ok digest rs && steps_ok n l.steps ≡ true)

  abbrev pub CleanLogs : ℤ → List ReplayLog → Type 0
  CleanLogs n logs = All (CleanLog n) logs

  unread_log :
      (n : ℤ) (steps : List Fields)
      → records_from_steps legacy_position steps ≡ none
      → verify_log legacy_position digest n steps ≡ none
  unfolding verify_log
  unread_log n steps e = rw e refl

  verify_log-CleanLog :
      (n : ℤ) (l : ReplayLog)
      → (verify_log legacy_position digest n l.steps ≡ some []) ↔ CleanLog n l
  verify_log-CleanLog n l = elim (Option-cases (records_from_steps legacy_position l.steps)) [
    | inl e ↦ (λ h. absurd (cc (h, unread_log n l.steps e)), λ (rs, f, h). absurd (cc (e, f)))
    | inr (rs, e) ↦ (
      λ h. (rs, e, (verify_log-ok digest legacy_position n l.steps rs e).0 h),
      λ (qs, f, h). (verify_log-ok digest legacy_position n l.steps qs f).1 h,
    )
  ]

  logs_then_scores :
      (n : ℤ) (r : ReplayResult) (scoring : Scoring) (logs : List ReplayLog)
      → (collect (
            map (log_findings legacy_position digest n) logs
            ++ (score_findings r (some scoring) ∷ []))
          ≡ some [])
        ↔ (CleanLogs n logs × (scores_ok scoring r.sub_games && totals_ok r ≡ true))
  logs_then_scores n r scoring [] =
      let f =
        last_check (score_findings r (some scoring)) (
          then_iff (mapped_none in_scores (verify_scores r scoring))
            (verify_scores-ok r scoring)) in
      (λ h. (tt, f.0 h), λ h. f.1 h.1)
  logs_then_scores n r scoring (l ∷ ls) =
      let f =
        next_check (log_findings legacy_position digest n l) _
          (then_iff (mapped_none in_log (verify_log legacy_position digest n l.steps))
            (verify_log-CleanLog n l))
          (logs_then_scores n r scoring ls) in
      (λ h. let x = f.0 h in ((x.0, x.1.0), x.1.1), λ h. f.1 (h.0.0, (h.0.1, h.1)))

  -- The artifacts agree with each other: one game, one configuration, as many configs and as many logs as
  -- scored sub-games and no number twice among them, clean logs, right scores, and for a log whose sub-game
  -- is scored the declared number of steps. Nothing asks that the sub-games are the same.
  pub record Consistent (b : ReplayBundle) (c : ReplayConfig) (r : ReplayResult) (scoring : Scoring)
      : Type 0 where
    pub game : one_game (all_uids b r) ≡ true
    pub hashes :
        all_equal r.config_sha256 (map (λ (d : ReplayConfig). d.config_sha256) b.configs) ≡ true
    pub configs : length b.configs ≡ length r.sub_games
    pub logs : length b.logs ≡ length r.sub_games
    pub config_numbers : no_repeat (map (λ (d : ReplayConfig). d.sub_game_number) b.configs) ≡ true
    pub log_numbers : no_repeat (map (λ (l : ReplayLog). l.sub_game_number) b.logs) ≡ true
    pub step_counts : all_counted b.logs r.sub_games ≡ true
    pub clean : CleanLogs c.grid_size b.logs
    pub scores : (scores_ok scoring r.sub_games && totals_ok r) ≡ true

  counts_test :
      (x y z : ℕ)
      → ((not ((x == y) && (y == z)) || (x == 0)) ≡ false) ↔ ((x ≡ z) × (y ≡ z) × (1 ≤ x))
  counts_test x y z = ground arith

  check_counts-none :
      (b : ReplayBundle) (r : ReplayResult)
      → 1 ≤ length b.configs
      → (check_counts b r ≡ [])
        ↔ ((length b.configs ≡ length r.sub_games) × (length b.logs ≡ length r.sub_games))
  unfolding check_counts
  check_counts-none b r l =
      let f = finding_if-none (not same || (length b.configs == 0)) counts_differ in
      let g = counts_test (length b.configs) (length b.logs) (length r.sub_games) in
      (λ h. let x = g.0 (f.0 h) in (x.0, x.1), λ h. f.1 (g.1 (h.0, h.1, l)))
    where
      same : Bool
      same = (length b.configs == length b.logs) && (length b.logs == length r.sub_games)

  checks-Consistent :
      (b : ReplayBundle) (c : ReplayConfig) (r : ReplayResult) (scoring : Scoring)
      → 1 ≤ length b.configs
      → c.scoring ≡ some scoring
      → (collect (checks legacy_position digest b c r) ≡ some []) ↔ Consistent b c r scoring
  unfolding check_game_uid check_config_hashes
  checks-Consistent b c r scoring l e = rw e (
      let f =
        next_check _ _ (pure_check _ (then_iff (finding_if-none _ _) (uid_test (all_uids b r)))) (
          next_check _ _
            (pure_check _ (then_iff (finding_if-none _ _) (hash_test r.config_sha256 _)))
            (next_check _ _ (pure_check _ (check_counts-none b r l)) (
              next_check _ _ (check_no_duplicates-none duplicate_configs _) (
                next_check _ _ (check_no_duplicates-none duplicate_logs _) (
                  next_check _ _ (pure_check _ (check_step_counts-none b.logs r.sub_games))
                    (logs_then_scores c.grid_size r scoring b.logs)))))) in
      (
        λ h.
            let x = f.0 h in
            record {
              game = x.0;
              hashes = x.1.0;
              configs = x.1.1.0.0;
              logs = x.1.1.0.1;
              config_numbers = x.1.1.1.0;
              log_numbers = x.1.1.1.1.0;
              step_counts = x.1.1.1.1.1.0;
              clean = x.1.1.1.1.1.1.0;
              scores = x.1.1.1.1.1.1.1;
            },
        λ k. f.1 (
          k.game,
          (
            k.hashes,
            (
              (k.configs, k.logs),
              (k.config_numbers, (k.log_numbers, (k.step_counts, (k.clean, k.scores)))),
            ),
          ),
        ),
      ))

  -- For a bundle with configs, logs, a result and a readable scoring table, `verify_replay` says VERIFIED
  -- without a finding exactly if the artifacts are consistent: one game, one configuration, as many configs
  -- and as many logs as scored sub-games, no number twice among either, logs whose records are untouched
  -- and whose steps keep to the rules, the scores and totals that the scoring table gives, and as many
  -- steps as declared in a log whose sub-game is scored. The numbers of the configs, of the logs and of the
  -- scored sub-games may differ.
  pub verify_replay-Consistent :
      (b : ReplayBundle) (c : ReplayConfig) (cs : List ReplayConfig) (l : ReplayLog)
      (ls : List ReplayLog) (r : ReplayResult) (scoring : Scoring)
      → b.configs ≡ c ∷ cs
      → b.logs ≡ l ∷ ls
      → b.result ≡ some r
      → c.scoring ≡ some scoring
      → (verify_replay legacy_position digest (some b) ≡ some (report []))
        ↔ Consistent b c r scoring
  unfolding verify_replay
  verify_replay-Consistent b c cs l ls r scoring e f g h =
      let k = checks-Consistent b c r scoring (ground (arith, e)) h in
      let o = collect (checks legacy_position digest b c r) in
      subst (λ v. (v ≡ some (report [])) ↔ Consistent b c r scoring) (sym parts)
        (reported o (Consistent b c r scoring) k)
    where
      parts :
          verify_parts legacy_position digest b b.configs b.logs b.result
          ≡ and_then (collect (checks legacy_position digest b c r)) (λ fs. some (report fs))
      parts = rw (e, f, g) refl
