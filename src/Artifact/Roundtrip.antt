-- ===== src/Artifact/Roundtrip.antt =====
-- An artifact that is written is read back, and a log keeps what the audit was given.
use Prim.Native.String.{String}
use ai2_final_thief_edward_d.Prelude.{
  ◌≡◌, refl, true, not, Option, some, List, [], ◌∷◌, map, All, ok, raise_if, and_then, ◌||◌,
}
use ai2_final_thief_edward_d.Prelude.Int.{ℤ}
use ai2_final_thief_edward_d.Json.{str, Items, nil, cons, Fields, lookup, as_dict, truthy, is_str}
use ai2_final_thief_edward_d.Sealing.Audit.{
  SealedRecord, AuditOutcome, verified, tamper_forfeit, AuditReport,
}
use ai2_final_thief_edward_d.Replay.{log_step, records_from_steps}
use ai2_final_thief_edward_d.Replay.Verdict.{IsThiefPayload, records_from_steps-log_step}
use ai2_final_thief_edward_d.Config.Values.{tuple}
use ai2_final_thief_edward_d.Declaration.Parsing.{int_of}
use ai2_final_thief_edward_d.Artifact.{
  bad_verdict, ConfigArtifact, LogArtifact, ResultArtifact, config_to_dict, log_to_dict,
  result_to_dict, validate_config, validate_log, validate_result, config_from_dict, log_from_dict,
  result_from_dict,
}
use ai2_final_thief_edward_d.Artifact.Builders.{log_steps, verdict_text, build_log_artifact}

-- The dicts that a loop over the steps sees.
abbrev pub dicts_of : Items → Option (List Fields)
dicts_of nil = some []
dicts_of (cons x xs) =
    and_then (as_dict x) (λ fs. and_then (dicts_of xs) (λ rest. some (fs ∷ rest)))

dicts_of-log_steps : (rs : List SealedRecord) → dicts_of (log_steps rs) ≡ some (map log_step rs)
dicts_of-log_steps [] = refl
dicts_of-log_steps (r ∷ rs) = rw (dicts_of-log_steps rs) refl

module _ (parse_int : String → Option ℤ) where
  pub config_from_dict-to_dict :
      (a : ConfigArtifact)
      → validate_config a ≡ ok tt
      → config_from_dict parse_int (config_to_dict a) ≡ ok a
  unfolding config_from_dict int_of lookup
  config_from_dict-to_dict a h = rw (h, validate_config) refl

  pub result_from_dict-to_dict :
      (a : ResultArtifact)
      → validate_result a ≡ ok tt
      → result_from_dict parse_int (result_to_dict a) ≡ ok a
  unfolding result_from_dict int_of tuple lookup
  result_from_dict-to_dict a h = rw (h, validate_result) refl

  pub log_from_dict-to_dict :
      (a : LogArtifact) → validate_log a ≡ ok tt → log_from_dict parse_int (log_to_dict a) ≡ ok a
  unfolding log_from_dict int_of tuple lookup
  log_from_dict-to_dict a h = rw (h, validate_log) refl

  known_verdict :
      (uid game_id reason : String) (n : ℤ) (rs : List SealedRecord) (audit : AuditReport)
      → truthy (str uid) ≡ true
      → validate_log (build_log_artifact uid game_id n rs audit reason) ≡ ok tt
  unfolding validate_log build_log_artifact
  known_verdict uid game_id reason n rs audit h = rw h (outcomes audit.outcome)
    where
      outcomes :
          (o : AuditOutcome)
          → (raise_if
              (not (
                is_str (str (verdict_text o)) "verified"
                || is_str (str (verdict_text o)) "tamper_forfeit"))
              bad_verdict)
            ≡ ok tt
      outcomes verified = refl
      outcomes tamper_forfeit = refl

  -- The log artifact that is built of a thief's sealed records and of the report of their audit, for a game
  -- with an id, is read back from its dict as it was, and its steps give the records again.
  pub log_from_dict-build_log_artifact :
      (legacy_position : String → ℤ × ℤ) (uid game_id reason : String) (n : ℤ)
      (rs : List SealedRecord) (audit : AuditReport)
      → truthy (str uid) ≡ true
      → All (λ r. IsThiefPayload r.payload) rs
      → (log_from_dict parse_int (log_to_dict (build_log_artifact uid game_id n rs audit reason))
          ≡ ok (build_log_artifact uid game_id n rs audit reason))
        × (and_then
              (dicts_of (build_log_artifact uid game_id n rs audit reason).steps)
              (records_from_steps legacy_position)
            ≡ some rs)
  unfolding build_log_artifact
  log_from_dict-build_log_artifact legacy_position uid game_id reason n rs audit h t = (
    log_from_dict-to_dict (build_log_artifact uid game_id n rs audit reason)
        (known_verdict uid game_id reason n rs audit h),
    rw (dicts_of-log_steps rs) (records_from_steps-log_step legacy_position rs t),
  )
