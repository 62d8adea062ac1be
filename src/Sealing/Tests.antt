-- ===== src/Sealing/Tests.antt =====
-- Commit, reveal and audit at concrete payloads.
use ai2_final_thief_edward_d.Prelude.{◌≡◌, refl, ◌&&◌, some, List, [], ◌∷◌}
use ai2_final_thief_edward_d.Prelude.Int.{pos}
use ai2_final_thief_edward_d.Sequence.{int_is_eq}
use ai2_final_thief_edward_d.Sealing.Payload.{SealedTurnPayload, to_canonical_dict}
use ai2_final_thief_edward_d.Sealing.Audit.{SealedRecord, is_verified, audit_sealed_records}
use ai2_final_thief_edward_d.Sealing.Binding.{canonical_binds}
use ai2_final_thief_edward_d.Sealing.Verdict.{all_match, distinct, nonces, audit-verified}
use ai2_final_thief_edward_d.Sealing.Exchange.{CommitRevealExchange, new_exchange}
use ai2_final_thief_edward_d.Sealing.Protocol.{
  Call, commit_call, acknowledge_call, reveal_call, after_all, IsCoherent, exchange-IsCoherent,
}
use ai2_final_thief_edward_d.Samples.{nonce_digest, payload}

abbrev first : SealedTurnPayload
first = payload (pos 0) "a"

-- A record whose payload is not the one that was committed to, beside one that is.
abbrev tampered : List SealedRecord
tampered =
    record { payload = first; commit_hash = "b" }
    ∷ record { payload = payload (pos 1) "c"; commit_hash = "c" }
    ∷ []

audit-verified_example :
    is_verified (audit_sealed_records nonce_digest tampered)
    ≡ (all_match nonce_digest tampered && distinct (nonces tampered))
audit-verified_example = audit-verified nonce_digest tampered

canonical_binds_example :
    record first { legacy_state = some "x" } ≡ record first { legacy_state = some "x" }
unfolding to_canonical_dict
canonical_binds_example =
    canonical_binds first (record first { legacy_state = some "x" }) refl refl refl

-- A reveal before its acknowledgement, which raises, and then the three calls in order.
abbrev calls : List Call
calls =
    commit_call (pos 0) "a"
    ∷ reveal_call (pos 0) (record { payload = first; commit_hash = "a" })
    ∷ acknowledge_call (pos 0)
    ∷ reveal_call (pos 0) (record { payload = first; commit_hash = "a" })
    ∷ []

exchange-IsCoherent_example : IsCoherent nonce_digest (after_all nonce_digest new_exchange calls)
exchange-IsCoherent_example = exchange-IsCoherent nonce_digest calls

abbrev committed_once : CommitRevealExchange
committed_once = record { phase = []; committed_hash = (pos 0, "a") ∷ []; records = [] }
