-- ===== src/Replay.antt =====
-- The check of one log: services/replay_checks.py of src/thief_peer up to `verify_log`. A log's dict is
-- read as a record, and a step is a dict of JSON values. `none` is an exception: a missing key, or a
-- value that a record of the sealed fields' types cannot hold. The search for a cell in the text of a
-- legacy state is an argument. A finding is a constructor instead of a text.
pub mod Checks
pub mod Points
pub mod Scores
pub mod Verifier
pub mod Agree
pub mod Sound
pub mod Bilateral
pub mod Roundtrip
pub mod Clean
pub mod Verdict
pub mod Log
pub mod Turns
pub mod Played
mod Tests
use Prim.Native.String.{String}
use text.Mathlib.Text.{◌==◌ as str_eq}
use ai2_final_thief_edward_d.Prelude.{
  ℕ, Bool, true, false, not, ◌&&◌, ◌||◌, Option, none, some, List, [], ◌∷◌, ◌++◌, elem,
  if◌then◌else◌, and_then,
}
use ai2_final_thief_edward_d.Prelude.Int.{ℤ, pos, leb_ℤ, ltb_ℤ}
use ai2_final_thief_edward_d.Json.{
  Json, null, bool, num, float, str, arr, Float, Items, nil, cons, Fields, end, field, lookup, get,
  has_key, or_else, is_str, truthy,
}
use ai2_final_thief_edward_d.Json.Laws.{string_is_eq}
use ai2_final_thief_edward_d.Sealing.Payload.{SealedTurnPayload, to_canonical_dict}
use ai2_final_thief_edward_d.Sealing.Audit.{
  SealedRecord, is_verified, is_nil, audit_sealed_records, steps_in_order,
}
use ai2_final_thief_edward_d.Replay.Checks.{
  Finding, audit_failed, out_of_sequence, thief_barrier, thief_claim, police_response, police_win,
  unknown_fields, out_of_bounds, unless, check_role_fields, known_keys, all_known,
  check_unknown_fields, inside, check_cell, check_step, check_steps, check_records,
}

-- services/artifact_builders.py: `{**payload.to_canonical_dict(), "commit_hash": record.commit_hash}`.
unfoldable pub put : String → Json → Fields → Fields
put key v end = field key v end
put key v (field k w fs) = if str_eq key k then field k v fs else field k w (put key v fs)

unfoldable pub log_step : SealedRecord → Fields
unfolding put to_canonical_dict
log_step r = put "commit_hash" (str r.commit_hash) (to_canonical_dict r.payload)

-- The values that a field of the sealed record can hold.
abbrev pub whole_of : Json → Option ℤ
whole_of (num n) = some n
whole_of _ = none

abbrev pub string_of : Json → Option String
string_of (str s) = some s
string_of _ = none

abbrev pub bool_of : Json → Option Bool
bool_of (bool b) = some b
bool_of _ = none

abbrev pub optional_text : Json → Option (Option String)
optional_text null = some none
optional_text (str s) = some (some s)
optional_text _ = none

abbrev pub optional_bool : Json → Option (Option Bool)
optional_bool null = some none
optional_bool (bool b) = some (some b)
optional_bool _ = none

-- `tuple(cell)`
abbrev pub pair_of : Json → Option (ℤ × ℤ)
pair_of (arr (cons (num r) (cons (num c) nil))) = some (r, c)
pair_of _ = none

-- `tuple(cell) if cell else None`
abbrev pub optional_pair : Json → Option (Option (ℤ × ℤ))
optional_pair v = if truthy v then and_then (pair_of v) (λ p. some (some p)) else some none

abbrev pub row_of : Items → Option (List Float)
row_of nil = some []
row_of (cons (float x) xs) = and_then (row_of xs) (λ ys. some (x ∷ ys))
row_of (cons _ xs) = none

abbrev pub grid_of : Items → Option (List (List Float))
grid_of nil = some []
grid_of (cons (arr row) rows) =
    and_then (row_of row) (λ xs. and_then (grid_of rows) (λ xss. some (xs ∷ xss)))
grid_of (cons _ rows) = none

-- `tuple(tuple(row) for row in step["scent_grid"]) if "scent_grid" in step else ()`
abbrev pub scent_of : Option Json → Option (List (List Float))
scent_of none = some []
scent_of (some (arr rows)) = grid_of rows
scent_of (some _) = none

-- The position, with the legacy state that it was read from.
abbrev pub position_of : (String → ℤ × ℤ) → Option Json → Json → Option ((ℤ × ℤ) × Option String)
position_of legacy_position (some v) state = and_then (pair_of v) (λ p. some (p, none))
position_of legacy_position none state =
    and_then (string_of state) (λ s. some (legacy_position s, some s))

-- `step.get(key, default)`
abbrev pub get_or_default : String → Json → Fields → Json
get_or_default key default step = or_else (lookup key step) default

module _ (legacy_position : String → ℤ × ℤ) where
  unfoldable pub payload_from_step : Fields → Option SealedTurnPayload
  unfolding lookup
  payload_from_step s =
      and_then (string_of (get_or_default "schema_version" (str "sealed-turn/1") s)) (λ version.
        and_then
          (position_of legacy_position (lookup "position" s) (get_or_default "state" (str "") s))
          (λ place. and_then (and_then (lookup "step" s) whole_of) (λ step.
            and_then (and_then (lookup "role" s) string_of) (λ role.
              and_then (and_then (lookup "sub_game_number" s) whole_of) (λ number.
                and_then (and_then (lookup "move" s) optional_text) (λ move.
                  and_then (optional_pair (get "barrier_placed" s)) (λ barrier.
                    and_then (optional_pair (get "capture_claim" s)) (λ claim.
                      and_then (optional_bool (get "claim_response" s)) (λ response.
                        and_then (bool_of (get_or_default "win_claim" (bool false) s)) (λ win.
                          and_then (and_then (lookup "intent" s) string_of) (λ intent.
                            and_then (and_then (lookup "hint" s) string_of) (λ hint.
                              and_then (and_then (lookup "scent_digest" s) string_of) (λ digest.
                                and_then (scent_of (lookup "scent_grid" s)) (λ grid.
                                  and_then (and_then (lookup "timestamp" s) string_of) (λ time.
                                    and_then (and_then (lookup "nonce" s) string_of) (λ nonce.
                                      and_then (and_then (lookup "config_sha256" s) string_of)
                                        (λ sha. some (record {
                                          step = step;
                                          role = role;
                                          sub_game_number = number;
                                          position = place.0;
                                          move = move;
                                          intent = intent;
                                          hint = hint;
                                          scent_digest = digest;
                                          scent_grid = grid;
                                          timestamp = time;
                                          nonce = nonce;
                                          config_sha256 = sha;
                                          barrier_placed = barrier;
                                          capture_claim = claim;
                                          claim_response = response;
                                          win_claim = win;
                                          schema_version = version;
                                          legacy_state = place.1;
                                        }))))))))))))))))))

  -- `SealedRecord(payload_from_step(s), s["commit_hash"])`
  abbrev pub record_from_step : Fields → Option SealedRecord
  record_from_step s = and_then (payload_from_step s) (λ p.
      and_then (and_then (lookup "commit_hash" s) string_of)
        (λ h. some (record { payload = p; commit_hash = h })))

  unfoldable pub records_from_steps : List Fields → Option (List SealedRecord)
  unfolding payload_from_step lookup
  records_from_steps [] = some []
  records_from_steps (s ∷ ss) =
      and_then (record_from_step s) (λ r. and_then (records_from_steps ss) (λ rs. some (r ∷ rs)))

  unfoldable pub verify_log : (Json → String) → ℤ → List Fields → Option (List Finding)
  unfolding records_from_steps check_steps audit_sealed_records steps_in_order
  verify_log digest n steps =
      and_then (records_from_steps steps)
        (λ rs. and_then (check_steps n steps) (λ fs. some (check_records digest rs ++ fs)))
