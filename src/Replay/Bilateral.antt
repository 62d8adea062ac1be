-- ===== src/Replay/Bilateral.antt =====
-- The check of both sides' artifacts: services/bilateral_verify.py of src/thief_peer. A side is a
-- directory, of which the schema is peeked and the bundle is loaded. A log that can be read is taken to
-- have the keys that the loader reads.
use Prim.Native.String.{String}
use ai2_final_thief_edward_d.Prelude.{
  Bool, true, false, not, ◌&&◌, ◌||◌, Option, none, some, List, [], ◌∷◌, if◌then◌else◌, and_then,
}
use ai2_final_thief_edward_d.Prelude.Int.{ℤ}
use ai2_final_thief_edward_d.Json.{Json, null, is_str, get}
use ai2_final_thief_edward_d.Scent.{is_null}
use ai2_final_thief_edward_d.Replay.Scores.{ReplayResult}
use ai2_final_thief_edward_d.Replay.Verifier.{
  ReplayConfig, ReplayLog, ReplayBundle, ReplayFinding, ReplayReport, verify_replay,
}

pub data Verdict : Type 0 where
  verified_by_replay tampered legacy_schema : Verdict

pub record SideVerification : Type 0 where
  pub verdict : Verdict
  pub ok : Bool
  pub findings : List ReplayFinding
  pub independently_verified : Bool
  pub schema_version : Json

-- `ReplayReport.verdict`
abbrev pub verdict_of : ReplayReport → Verdict
verdict_of report = if report.ok then verified_by_replay else tampered

-- A directory of artifacts: its log files in order, `none` for one that cannot be read, and what is
-- loaded of its other files, `none` if that fails.
pub record SideDirectory : Type 0 where
  pub log_files : List (Option ReplayLog)
  pub others : Option (Option (Option String) × List ReplayConfig × Option ReplayResult)

-- `steps[0].get("schema_version") if steps else None`, of the first log.
abbrev pub peek_schema_version : SideDirectory → Json
peek_schema_version d = elim d.log_files [
  | [] ↦ null
  | none ∷ ls ↦ null
  | some l ∷ ls ↦ elim l.steps [ [] ↦ null | s ∷ ss ↦ get "schema_version" s ]
]

abbrev pub load_logs : List (Option ReplayLog) → Option (List ReplayLog)
load_logs [] = some []
load_logs (file ∷ files) = and_then file (λ l. and_then (load_logs files) (λ ls. some (l ∷ ls)))

-- The bundle of a directory, `none` if one of its files cannot be loaded.
abbrev pub load_bundle : SideDirectory → Option ReplayBundle
load_bundle d = and_then (load_logs d.log_files) (λ ls.
    and_then d.others
      (λ o. some (record { declaration = o.0; configs = o.1; logs = ls; result = o.2 })))

abbrev pub side_ok : SideVerification → Bool
side_ok s = s.independently_verified && s.ok

-- The last lines of `verify_bilateral`, with both sides.
abbrev pub paired :
    Option SideVerification
    → Option SideVerification
    → Option (SideVerification × SideVerification × Bool)
paired police thief =
    and_then police (λ p. and_then thief (λ t. some (p, t, side_ok p && side_ok t)))

module _ (legacy_position : String → ℤ × ℤ) (digest : Json → String) where
  unfoldable pub verify_side : SideDirectory → Option SideVerification
  unfolding verify_replay
  verify_side directory =
      let schema = peek_schema_version directory in
      if not (is_null schema) && not (is_str schema "commitment/1")
      then some (record {
        verdict = legacy_schema;
        ok = true;
        findings = [];
        independently_verified = false;
        schema_version = schema;
      })
      else and_then (verify_replay legacy_position digest (load_bundle directory)) (λ report.
        some (record {
          verdict = verdict_of report;
          ok = report.ok;
          findings = report.findings;
          independently_verified = true;
          schema_version = schema;
        }))

  unfoldable pub verify_bilateral :
      SideDirectory → SideDirectory → Option (SideVerification × SideVerification × Bool)
  unfolding verify_side
  verify_bilateral police thief = paired (verify_side police) (verify_side thief)

  -- The side's first record names the current schema or none, and its replay report is good.
  abbrev pub replayed : SideDirectory → Bool
  replayed directory =
      (is_null (peek_schema_version directory)
        || is_str (peek_schema_version directory) "commitment/1")
      && (elim (verify_replay legacy_position digest (load_bundle directory)) [
        | none ↦ false
        | some report ↦ report.ok
      ])
