-- ===== src/Replay/Verifier.antt =====
-- The check of a whole set of artifacts: services/replay_verifier.py and services/bilateral_verify.py of
-- src/thief_peer, on the artifacts that services/replay_loader.py has loaded. Each is read as a record; a
-- field that `get` may not find is an option. A report holds its findings as constructors; `none` is an
-- exception that nothing catches.
use Prim.Native.String.{String}
use ai2_final_thief_edward_d.Prelude.{
  ◌≡◌, ◌↔◌, Bool, true, false, not, ◌&&◌, ◌||◌, Option, none, some, List, [], ◌∷◌, ◌++◌, map,
  length, elem, ltb, ◌==◌, if◌then◌else◌, and_then, Eq, arith,
}
use ai2_final_thief_edward_d.Prelude.Int.{ℤ}
use ai2_final_thief_edward_d.Json.{Json, Fields}
use ai2_final_thief_edward_d.Json.Laws.{string_is_eq}
use ai2_final_thief_edward_d.Sequence.{int_is_eq}
use ai2_final_thief_edward_d.Captures.{Scoring}
use ai2_final_thief_edward_d.Replay.{verify_log}
use ai2_final_thief_edward_d.Replay.Checks.{Finding}
use ai2_final_thief_edward_d.Replay.Scores.{Entry, ReplayResult, ScoreFinding, verify_scores}

-- The terms of a config artifact: the scoring, if `scoring_from_terms` raises neither a KeyError nor a
-- TypeError.
pub record ReplayConfig : Type 0 where
  pub game_uid : Option String
  pub config_sha256 : Option String
  pub sub_game_number : Option ℤ
  pub grid_size : ℤ
  pub scoring : Option Scoring

pub record ReplayLog : Type 0 where
  pub game_uid : Option String
  pub sub_game_number : Option ℤ
  pub steps : List Fields

-- services/replay_loader.py; of the declaration only its game_uid is read.
pub record ReplayBundle : Type 0 where
  pub declaration : Option (Option String)
  pub configs : List ReplayConfig
  pub logs : List ReplayLog
  pub result : Option ReplayResult

pub data ReplayFinding : Type 0 where
  load_failed missing_artifacts game_uid_differs config_hash_differs counts_differ : ReplayFinding
  duplicate_configs duplicate_logs score_recomputation_failed : ReplayFinding
  step_count_differs : ℤ → ReplayFinding
  in_log : Finding → ReplayFinding
  in_scores : ScoreFinding → ReplayFinding

pub record ReplayReport : Type 0 where
  pub ok : Bool
  pub findings : List ReplayFinding

abbrev pub option_eq {ℓ} : {A : Type ℓ} ⦃e : Eq A⦄ → Option A → Option A → Bool
option_eq ⦃e⦄ (some a) (some b) = e.beq a b
option_eq none none = true
option_eq _ _ = false

pub option_eq_iff {ℓ} : {A : Type ℓ} ⦃e : Eq A⦄ (a b : Option A) → (option_eq a b ≡ true) ↔ (a ≡ b)
option_eq_iff none none = ground arith
option_eq_iff none (some b) = ground arith
option_eq_iff (some a) none = ground arith
option_eq_iff ⦃e⦄ (some a) (some b) = ground (arith, e.beq_iff a b)

instance abbrev pub option_is_eq {ℓ} : {A : Type ℓ} ⦃e : Eq A⦄ → Eq (Option A)
option_is_eq = record { beq = option_eq; beq_iff = option_eq_iff }

-- `set(xs)`
unfoldable pub set_of {ℓ} : {A : Type ℓ} ⦃e : Eq A⦄ → List A → List A
set_of [] = []
set_of (x ∷ xs) = let rest = set_of xs in if elem x rest then rest else x ∷ rest

-- `{n for n in xs if xs.count(n) > 1}`
unfoldable pub duplicates {ℓ} : {A : Type ℓ} ⦃e : Eq A⦄ → List A → List A
duplicates [] = []
duplicates (x ∷ xs) =
    let rest = duplicates xs in if elem x xs && not (elem x rest) then x ∷ rest else rest

abbrev pub finding_if : Bool → ReplayFinding → List ReplayFinding
finding_if test f = if test then f ∷ [] else []

-- `all_dicts`, of each its game_uid.
abbrev pub all_uids : ReplayBundle → ReplayResult → List (Option String)
all_uids b r =
    map (λ (c : ReplayConfig). c.game_uid) b.configs
    ++ map (λ (l : ReplayLog). l.game_uid) b.logs
    ++ (elim b.declaration [ none ↦ [] | some uid ↦ uid ∷ [] ])
    ++ (r.game_uid ∷ [])

unfoldable pub check_game_uid : ReplayBundle → ReplayResult → List ReplayFinding
unfolding set_of
check_game_uid b r =
    let uids = set_of (all_uids b r) in
    finding_if (not (length uids == 1) || elem none uids) game_uid_differs

abbrev pub all_hashes : ReplayBundle → ReplayResult → List (Option String)
all_hashes b r = r.config_sha256 ∷ map (λ (c : ReplayConfig). c.config_sha256) b.configs

unfoldable pub check_config_hashes : ReplayBundle → ReplayResult → List ReplayFinding
unfolding set_of
check_config_hashes b r = finding_if (ltb 1 (length (set_of (all_hashes b r)))) config_hash_differs

unfoldable pub check_counts : ReplayBundle → ReplayResult → List ReplayFinding
check_counts b r =
    let n_config = length b.configs in
    let n_log = length b.logs in
    let same = (n_config == n_log) && (n_log == length r.sub_games) in
    finding_if (not same || (n_config == 0)) counts_differ

-- `sorted` raises for `None` beside a number.
unfoldable pub check_no_duplicates : ReplayFinding → List (Option ℤ) → Option (List ReplayFinding)
unfolding duplicates
check_no_duplicates f numbers = elim (duplicates numbers) [
  | [] ↦ some []
  | n ∷ ns ↦ if ltb 0 (length ns) && elem none (n ∷ ns) then none else some (f ∷ [])
]

-- `logs_by_number.get(n)`: the last log of that number.
unfoldable pub log_of : ℤ → List ReplayLog → Option ReplayLog
log_of n [] = none
log_of n (l ∷ ls) = elim (log_of n ls) [
  | some m ↦ some m
  | none ↦ if option_eq l.sub_game_number (some n) then some l else none
]

unfoldable pub check_step_counts : List ReplayLog → List Entry → List ReplayFinding
unfolding log_of
check_step_counts logs [] = []
check_step_counts logs (e ∷ es) =
    let rest = check_step_counts logs es in
    elim (log_of e.sub_game_number logs) [
      | none ↦ rest
      | some l ↦
          if not (length l.steps == e.steps)
          then step_count_differs e.sub_game_number ∷ rest
          else rest
    ]

-- The findings of checks that may raise, in their order.
unfoldable pub collect : List (Option (List ReplayFinding)) → Option (List ReplayFinding)
collect [] = some []
collect (o ∷ os) = and_then o (λ fs. and_then (collect os) (λ rest. some (fs ++ rest)))

-- The `try` around the scores: a ValueError passes it.
abbrev pub score_findings : ReplayResult → Option Scoring → Option (List ReplayFinding)
score_findings r none = some (score_recomputation_failed ∷ [])
score_findings r (some scoring) = and_then (verify_scores r scoring) (λ fs. some (map in_scores fs))

abbrev pub report : List ReplayFinding → ReplayReport
report fs = record { ok = (elim fs [ [] ↦ true | _ ↦ false ]); findings = fs }

module _ (legacy_position : String → ℤ × ℤ) (digest : Json → String) where
  abbrev pub log_findings : ℤ → ReplayLog → Option (List ReplayFinding)
  log_findings n l =
      and_then (verify_log legacy_position digest n l.steps) (λ fs. some (map in_log fs))

  -- The checks of a bundle with its first config and its result.
  abbrev pub checks :
      ReplayBundle → ReplayConfig → ReplayResult → List (Option (List ReplayFinding))
  checks b c r =
      some (check_game_uid b r)
        ∷ some (check_config_hashes b r)
        ∷ some (check_counts b r)
        ∷ check_no_duplicates duplicate_configs
            (map (λ (d : ReplayConfig). d.sub_game_number) b.configs)
        ∷ check_no_duplicates duplicate_logs (map (λ (l : ReplayLog). l.sub_game_number) b.logs)
        ∷ some (check_step_counts b.logs r.sub_games)
        ∷ map (log_findings c.grid_size) b.logs
      ++ (score_findings r c.scoring ∷ [])

  abbrev pub verify_parts :
      ReplayBundle → List ReplayConfig → List ReplayLog → Option ReplayResult → Option ReplayReport
  verify_parts b (c ∷ cs) (l ∷ ls) (some r) =
      and_then (collect (checks b c r)) (λ fs. some (report fs))
  verify_parts b _ _ _ = some (report (missing_artifacts ∷ []))

  -- `verify_replay` on what the loader returns; `load_failed` if it raises.
  unfoldable pub verify_replay : Option ReplayBundle → Option ReplayReport
  unfolding check_game_uid check_config_hashes check_counts check_no_duplicates check_step_counts
      collect verify_log verify_scores
  verify_replay none = some (report (load_failed ∷ []))
  verify_replay (some b) = verify_parts b b.configs b.logs b.result
