-- ===== src/Messages.antt =====
-- The thief's turn messages: services/turn_messages.py of src/thief_peer.
pub mod Accepted
mod Tests
use Prim.Native.String.{String, ◌++◌}
use ai2_final_thief_edward_d.Prelude.Int.{ℤ, pos, ◌+ℤ◌}
use ai2_final_thief_edward_d.Json.{Json, num, str, obj, Fields, end, field, show_ℤ}
use ai2_final_thief_edward_d.Sealing.Payload.{SealedTurnPayload, public_reveal_dict}
use ai2_final_thief_edward_d.Sealing.Audit.{SealedRecord}

-- `_envelope`
unfoldable pub envelope : String → ℤ → ℤ → ℤ → String → String → Fields
envelope game_uid sub_game step sequence_id corr timestamp = field "schema_version" (str "1.0") (
    field "correlation_id" (str corr) (
      field "game_id" (str game_uid) (
        field "game_uid" (str game_uid) (
          field "sub_game_number" (num sub_game) (
            field "step" (num step) (
              field "sender" (str "thief") (
                field "timestamp" (str timestamp) (field "sequence_id" (num sequence_id) end))))))))

abbrev correlation : String → SealedTurnPayload → String
correlation kind p = kind ++ "-" ++ show_ℤ p.sub_game_number ++ "-" ++ show_ℤ p.step

unfoldable pub commitment_message : SealedRecord → String → String → Json
unfolding envelope
commitment_message r game_uid config_sha256 =
    let p = r.payload in
    obj (
      field "envelope"
        (obj (
          envelope game_uid p.sub_game_number p.step (p.step +ℤ p.step) (correlation "commit" p)
            p.timestamp))
        (field "message_type" (str "commitment") (
          field "commit_hash" (str r.commit_hash) (field "config_sha256" (str config_sha256) end))))

unfoldable pub reveal_message : SealedRecord → String → String → Json
unfolding envelope
reveal_message r game_uid config_sha256 =
    let p = r.payload in
    obj (
      field "envelope"
        (obj (
          envelope game_uid p.sub_game_number p.step (p.step +ℤ p.step +ℤ pos 1)
            (correlation "reveal" p) p.timestamp))
        (field "message_type" (str "reveal") (
          field "reveal" (obj (public_reveal_dict p))
            (field "config_sha256" (str config_sha256) end))))
