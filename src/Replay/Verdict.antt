-- ===== src/Replay/Verdict.antt =====
-- The log of a thief that sealed its turns and kept them as they were is found clean.
use Prim.Native.String.{String}
use ai2_final_thief_edward_d.Prelude.{
  ◌≡◌, ◌↔◌, refl, Bool, true, false, ◌&&◌, none, some, List, [], ◌∷◌, map, All, arith,
}
use ai2_final_thief_edward_d.Prelude.Int.{ℤ}
use ai2_final_thief_edward_d.Json.{Json, lookup}
use ai2_final_thief_edward_d.Sealing.Payload.{SealedTurnPayload, is_legacy, to_canonical_dict}
use ai2_final_thief_edward_d.Sealing.Audit.{SealedRecord}
use ai2_final_thief_edward_d.Sealing.Verdict.{all_match, distinct, nonces, counted}
use ai2_final_thief_edward_d.Replay.{put, log_step, records_from_steps, verify_log}
use ai2_final_thief_edward_d.Replay.Checks.{all_known}
use ai2_final_thief_edward_d.Replay.Roundtrip.{record_from_step-log_step}
use ai2_final_thief_edward_d.Replay.Clean.{step_ok, steps_ok, records_ok, verify_log-ok}

-- What `seal_turn` puts into a thief's payload.
abbrev pub IsThiefPayload : SealedTurnPayload → Type 0
IsThiefPayload p =
    (p.schema_version ≡ "commitment/1")
    × (p.legacy_state ≡ none)
    × (p.role ≡ "thief")
    × (p.barrier_placed ≡ none)
    × (p.capture_claim ≡ none)

current_schema : (p : SealedTurnPayload) → IsThiefPayload p → is_legacy p ≡ false
current_schema p h = rw h.0 refl

log_step-ok : (n : ℤ) (r : SealedRecord) → IsThiefPayload r.payload → step_ok n (log_step r) ≡ true
unfolding log_step put to_canonical_dict lookup all_known
log_step-ok n r h = rw (current_schema r.payload h, h.0, h.2, h.3, h.4) refl

log_steps-ok :
    (n : ℤ) (rs : List SealedRecord)
    → All (λ r. IsThiefPayload r.payload) rs
    → steps_ok n (map log_step rs) ≡ true
log_steps-ok n [] h = refl
log_steps-ok n (r ∷ rs) h = rw (log_step-ok n r h.0) (log_steps-ok n rs h.1)

pub records_from_steps-log_step :
    (legacy_position : String → ℤ × ℤ) (rs : List SealedRecord)
    → All (λ r. IsThiefPayload r.payload) rs
    → records_from_steps legacy_position (map log_step rs) ≡ some rs
unfolding records_from_steps
records_from_steps-log_step legacy_position [] h = refl
records_from_steps-log_step legacy_position (r ∷ rs) h =
    rw
      (
        record_from_step-log_step legacy_position r (current_schema r.payload h.0) h.0.1,
        records_from_steps-log_step legacy_position rs h.1,
      )
      refl

-- The log of a thief's records finds nothing exactly if for each record the digest of the payload's canonical
-- dict is the commitment, no nonce is used twice, and the steps count up from 0. So a record that was changed,
-- one that is missing before another, and one that was moved are found; a log that was cut short at its end is
-- not.
pub verify_log-thief :
    (legacy_position : String → ℤ × ℤ) (digest : Json → String) (n : ℤ) (rs : List SealedRecord)
    → All (λ r. IsThiefPayload r.payload) rs
    → (verify_log legacy_position digest n (map log_step rs) ≡ some [])
      ↔ ((all_match digest rs && distinct (nonces rs)) && counted 0 rs ≡ true)
verify_log-thief legacy_position digest n rs h =
    without_steps (verify_log legacy_position digest n (map log_step rs) ≡ some [])
      (records_ok digest rs) (steps_ok n (map log_step rs)) (log_steps-ok n rs h)
      (verify_log-ok digest legacy_position n (map log_step rs) rs
        (records_from_steps-log_step legacy_position rs h))
  where
    without_steps : (P : Type 0) (a b : Bool) → b ≡ true → (P ↔ (a && b ≡ true)) → (P ↔ (a ≡ true))
    without_steps P a b e f = (λ p. ground (arith, f.0 p), λ h. f.1 (ground (arith, h, e)))
