-- ===== src/Artifact/Builders.antt =====
-- The artifacts of live results: services/artifact_builders.py of src/thief_peer. The reason of an audit is an
-- argument, and so are a series' `agreed` and `agreement_status`.
use Prim.Native.String.{String}
use ai2_final_thief_edward_d.Prelude.{Bool, true, false, List, [], ◌∷◌, if◌then◌else◌}
use ai2_final_thief_edward_d.Prelude.Int.{ℤ, pos}
use ai2_final_thief_edward_d.Json.{
  Json, null, bool, num, str, obj, Items, nil, cons, Fields, end, field,
}
use ai2_final_thief_edward_d.Sealing.Audit.{
  SealedRecord, AuditOutcome, verified, tamper_forfeit, AuditReport,
}
use ai2_final_thief_edward_d.Captures.{SubGameResult, capture, survival, technical_loss}
use ai2_final_thief_edward_d.Series.{
  SeriesSubGameRecord, TerminatedReason, completed, technical_loss_ended_series, SeriesResult,
}
use ai2_final_thief_edward_d.Replay.{log_step}
use ai2_final_thief_edward_d.Artifact.{ConfigArtifact, LogArtifact, ResultArtifact}

abbrev pub log_steps : List SealedRecord → Items
log_steps [] = nil
log_steps (r ∷ rs) = cons (obj (log_step r)) (log_steps rs)

abbrev pub verdict_text : AuditOutcome → String
verdict_text verified = "verified"
verdict_text tamper_forfeit = "tamper_forfeit"

unfoldable pub build_log_artifact :
    String → String → ℤ → List SealedRecord → AuditReport → String → LogArtifact
unfolding log_step
build_log_artifact game_uid game_id number records audit reason = record {
  schema_version = str "log/1";
  game_uid = str game_uid;
  game_id = str game_id;
  sub_game_number = number;
  steps = log_steps records;
  audit_verdict = str (verdict_text audit.outcome);
  audit_reason = str reason;
}

abbrev pub build_config_artifact : String → String → ℤ → String → Fields → ConfigArtifact
build_config_artifact game_uid game_id number config_sha256 terms = record {
  schema_version = str "config/1";
  game_uid = str game_uid;
  game_id = str game_id;
  sub_game_number = number;
  config_sha256 = str config_sha256;
  terms = obj terms;
}

abbrev pub result_text : SubGameResult → String
result_text capture = "capture"
result_text survival = "survival"
result_text technical_loss = "technical_loss"

-- `_WINNER.get(r.result)`
abbrev pub winner : SubGameResult → Json
winner capture = str "police"
winner survival = str "thief"
winner technical_loss = null

abbrev pub game_row : SeriesSubGameRecord → Fields
game_row r = field "sub_game_number" (num (pos r.sub_game_number)) (
    field "result" (str (result_text r.result)) (
      field "winner" (winner r.result) (
        field "police_score" (num r.police_score) (
          field "thief_score" (num r.thief_score) (
            field "steps" (num (pos r.steps_taken))
              (field "audit_ok" (bool r.audit_verified) end))))))

abbrev pub game_rows : List SeriesSubGameRecord → Items
game_rows [] = nil
game_rows (r ∷ rs) = cons (obj (game_row r)) (game_rows rs)

abbrev pub is_completed : TerminatedReason → Bool
is_completed completed = true
is_completed technical_loss_ended_series = false

-- With the series' `agreed` and `agreement_status`.
unfoldable pub build_result_artifact :
    String → String → String → String → String → SeriesResult → Bool → String → ResultArtifact
build_result_artifact game_uid game_id git_commit group_id config_sha256 series agreed status =
    record {
      schema_version = str "result/1";
      game_uid = str game_uid;
      game_id = str game_id;
      git_commit = str git_commit;
      group_id = str group_id;
      config_sha256 = str config_sha256;
      sub_games = game_rows series.sub_games;
      police_total = series.police_total;
      thief_total = series.thief_total;
      agreement_status =
          str (
            if is_completed series.terminated_reason
            then status
            else "technical_loss_ended_series");
      agreed = if is_completed series.terminated_reason then agreed else false;
    }
