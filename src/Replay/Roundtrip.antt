-- ===== src/Replay/Roundtrip.antt =====
-- A sealed record of the current schema comes back from the step that the log keeps of it.
use Prim.Native.String.{String}
use ai2_final_thief_edward_d.Prelude.{
  ◌≡◌, refl, Bool, false, Option, none, some, List, [], ◌∷◌, arith,
}
use ai2_final_thief_edward_d.Prelude.Int.{ℤ}
use ai2_final_thief_edward_d.Json.{Float, str, lookup}
use ai2_final_thief_edward_d.Sealing.Payload.{
  SealedTurnPayload, is_legacy, canonical_fields, to_canonical_dict, row_items, grid_items,
  text_or_null, bool_or_null, pair_or_null,
}
use ai2_final_thief_edward_d.Sealing.Audit.{SealedRecord}
use ai2_final_thief_edward_d.Replay.{
  put, log_step, optional_text, optional_bool, optional_pair, row_of, grid_of, payload_from_step,
  record_from_step,
}

optional_text-text_or_null : (o : Option String) → optional_text (text_or_null o) ≡ some o
optional_text-text_or_null none = refl
optional_text-text_or_null (some s) = refl

optional_bool-bool_or_null : (o : Option Bool) → optional_bool (bool_or_null o) ≡ some o
optional_bool-bool_or_null none = refl
optional_bool-bool_or_null (some s) = refl

optional_pair-pair_or_null : (o : Option (ℤ × ℤ)) → optional_pair (pair_or_null o) ≡ some o
optional_pair-pair_or_null none = refl
optional_pair-pair_or_null (some (r, c)) = refl

row_of-row_items : (xs : List Float) → row_of (row_items xs) ≡ some xs
row_of-row_items [] = refl
row_of-row_items (x ∷ xs) = rw (row_of-row_items xs) refl

grid_of-grid_items : (xss : List (List Float)) → grid_of (grid_items xss) ≡ some xss
grid_of-grid_items [] = refl
grid_of-grid_items (xs ∷ xss) = rw (row_of-row_items xs, grid_of-grid_items xss) refl

module _ (legacy_position : String → ℤ × ℤ) where
  payload_from_step-put :
      (p : SealedTurnPayload) (h : String)
      → payload_from_step legacy_position (put "commit_hash" (str h) (canonical_fields false p))
        ≡ some (record p { legacy_state = none })
  unfolding payload_from_step put lookup
  payload_from_step-put p h =
      rw
        (
          optional_text-text_or_null p.move,
          optional_bool-bool_or_null p.claim_response,
          optional_pair-pair_or_null p.barrier_placed,
          optional_pair-pair_or_null p.capture_claim,
          grid_of-grid_items p.scent_grid,
        )
        refl

  same_payload :
      (p : SealedTurnPayload) → p.legacy_state ≡ none → record p { legacy_state = none } ≡ p
  same_payload p e = ground (arith, e)

  -- A record whose payload has the current schema and no legacy state is read back from the step that the
  -- log keeps of it.
  pub record_from_step-log_step :
      (r : SealedRecord)
      → is_legacy r.payload ≡ false
      → r.payload.legacy_state ≡ none
      → record_from_step legacy_position (log_step r) ≡ some r
  unfolding log_step to_canonical_dict lookup put
  record_from_step-log_step r e l =
      rw (e, payload_from_step-put r.payload r.commit_hash, same_payload r.payload l) refl
