-- ===== src/Captures.antt =====
-- Captures and scores: domain/captures.py, domain/scoring.py, services/capture_resolution.py and
-- the Scoring section of shared/config_sections.py with its check in shared/config_validation.py.
pub mod Honesty
mod Tests
use ai2_final_thief_edward_d.Prelude.{Bool, true, false, ◌&&◌, Option, none, some, if◌then◌else◌}
use ai2_final_thief_edward_d.Prelude.Int.{ℤ, pos, eq_ℤ}
use ai2_final_thief_edward_d.Grid.{Position}
use ai2_final_thief_edward_d.Rules.{is_ordinary_capture, is_barrier_on_thief_capture}

pub record CaptureResponse : Type 0 where
  pub claimed_position : Position
  pub caught : Bool

pub data SubGameResult : Type 0 where
  capture survival technical_loss : SubGameResult

pub record Scoring : Type 0 where
  pub capture_cop : ℤ
  pub capture_thief : ℤ
  pub survival_cop : ℤ
  pub survival_thief : ℤ
  pub tie_score : ℤ
  pub technical_loss_score : ℤ

-- The (police, thief) pair. The last line of the source, for an unknown result, is never reached.
unfoldable pub score_sub_game : SubGameResult → Scoring → Bool → ℤ × ℤ
score_sub_game result s tie = if tie then (s.tie_score, s.tie_score) else elim result [
  | capture ↦ (s.capture_cop, s.capture_thief)
  | survival ↦ (s.survival_cop, s.survival_thief)
  | technical_loss ↦ (s.technical_loss_score, s.technical_loss_score)
]

-- `validate_scoring`, by whether it passes.
unfoldable pub validate_scoring : Scoring → Bool
validate_scoring s =
    eq_ℤ s.capture_cop (pos 20)
    && (eq_ℤ s.capture_thief (pos 5)
        && (eq_ℤ s.survival_cop (pos 5)
            && (eq_ℤ s.survival_thief (pos 10)
                && (eq_ℤ s.tie_score (pos 2) && eq_ℤ s.technical_loss_score (pos 0)))))

pub data CaptureReason : Type 0 where
  barrier_on_thief claim_correct claim_wrong no_evidence : CaptureReason

pub record CaptureResolution : Type 0 where
  pub captured : Bool
  pub response : Option CaptureResponse
  pub reason : CaptureReason

-- The test of `barrier_cell`, and the answer to `claimed_cell`.
abbrev pub barrier_hits : Option Position → Position → Bool
barrier_hits none own = false
barrier_hits (some b) own = is_barrier_on_thief_capture b own

abbrev pub answer_claim : Option Position → Position → CaptureResolution
answer_claim none own = record { captured = false; response = none; reason = no_evidence }
answer_claim (some c) own =
    let caught = is_ordinary_capture own c in
    record {
      captured = caught;
      response = some (record { claimed_position = c; caught = caught });
      reason = if caught then claim_correct else claim_wrong;
    }

unfoldable pub resolve_capture : Position → Option Position → Option Position → CaptureResolution
resolve_capture own claimed barrier =
    if barrier_hits barrier own
    then record { captured = true; response = none; reason = barrier_on_thief }
    else answer_claim claimed own
