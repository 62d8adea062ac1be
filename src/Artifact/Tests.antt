-- ===== src/Artifact/Tests.antt =====
-- The log of two turns.
use Prim.Native.String.{String}
use ai2_final_thief_edward_d.Prelude.{◌≡◌, refl, Option, none, some, List, [], ◌∷◌, ok, and_then}
use ai2_final_thief_edward_d.Prelude.Int.{ℤ, pos}
use ai2_final_thief_edward_d.Sealing.Audit.{SealedRecord, AuditReport, audit_sealed_records}
use ai2_final_thief_edward_d.Replay.{records_from_steps}
use ai2_final_thief_edward_d.Artifact.{log_to_dict, log_from_dict}
use ai2_final_thief_edward_d.Artifact.Builders.{build_log_artifact}
use ai2_final_thief_edward_d.Artifact.Roundtrip.{dicts_of, log_from_dict-build_log_artifact}
use ai2_final_thief_edward_d.Samples.{nonce_digest, payload}

abbrev records : List SealedRecord
records =
    record { payload = payload (pos 0) "a"; commit_hash = "a" }
    ∷ record { payload = payload (pos 1) "b"; commit_hash = "b" }
    ∷ []

abbrev no_int : String → Option ℤ
no_int _ = none

abbrev origin : String → ℤ × ℤ
origin _ = (pos 0, pos 0)

abbrev audit : AuditReport
audit = audit_sealed_records nonce_digest records

log_from_dict-build_log_artifact_example :
    (log_from_dict no_int (log_to_dict (build_log_artifact "u" "g" (pos 1) records audit "clean"))
      ≡ ok (build_log_artifact "u" "g" (pos 1) records audit "clean"))
    × (and_then
          (dicts_of (build_log_artifact "u" "g" (pos 1) records audit "clean").steps)
          (records_from_steps origin)
        ≡ some records)
log_from_dict-build_log_artifact_example =
    log_from_dict-build_log_artifact no_int origin "u" "g" "clean" (pos 1) records audit refl
      ((refl, refl, refl, refl, refl), ((refl, refl, refl, refl, refl), tt))
