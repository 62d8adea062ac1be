-- ===== src/Replay/Checks.antt =====
-- The checks of a step beside the audit: services/replay_checks.py of src/thief_peer.
use Prim.Native.String.{String}
use ai2_final_thief_edward_d.Prelude.{
  Bool, true, not, ◌&&◌, Option, none, some, List, [], ◌∷◌, ◌++◌, elem, if◌then◌else◌, and_then,
}
use ai2_final_thief_edward_d.Prelude.Int.{ℤ, pos, leb_ℤ, ltb_ℤ}
use ai2_final_thief_edward_d.Scent.{is_null}
use ai2_final_thief_edward_d.Json.{
  Json, null, num, arr, cons, Fields, end, field, lookup, get, is_str, truthy,
}
use ai2_final_thief_edward_d.Json.Laws.{string_is_eq}
use ai2_final_thief_edward_d.Sealing.Audit.{
  SealedRecord, is_verified, audit_sealed_records, steps_in_order,
}

pub data Finding : Type 0 where
  audit_failed out_of_sequence thief_barrier thief_claim : Finding
  police_response police_win unknown_fields : Finding
  out_of_bounds : String → Finding

-- A finding, if the test fails.
abbrev pub unless : Bool → Finding → List Finding
unless test finding = if test then [] else finding ∷ []

unfoldable pub check_role_fields : Fields → List Finding
unfolding lookup
check_role_fields s =
    if is_str (get "role" s) "thief"
    then unless (is_null (get "barrier_placed" s)) thief_barrier
      ++ unless (is_null (get "capture_claim" s)) thief_claim
    else if is_str (get "role" s) "police"
    then unless (is_null (get "claim_response" s)) police_response
      ++ unless (not (truthy (get "win_claim" s))) police_win
    else []

-- The keys that a step of the current schema may have: CANONICAL_FIELD_SET and the writer's own.
abbrev pub known_keys : List String
known_keys =
    "schema_version" ∷ "step" ∷ "role" ∷ "sub_game_number" ∷ "position" ∷ "move" ∷ "intent" ∷ "hint"
    ∷ "scent_digest" ∷ "scent_grid" ∷ "barrier_placed" ∷ "capture_claim" ∷ "claim_response"
    ∷ "win_claim" ∷ "config_sha256" ∷ "timestamp" ∷ "nonce" ∷ "commit_hash" ∷ []

unfoldable pub all_known : Fields → Bool
all_known end = true
all_known (field k v fs) = elem k known_keys && all_known fs

unfoldable pub check_unknown_fields : Fields → List Finding
unfolding lookup all_known
check_unknown_fields s =
    if is_str (get "schema_version" s) "commitment/1"
    then unless (all_known s) unknown_fields
    else []

-- `0 <= cell[0] < grid_size and 0 <= cell[1] < grid_size`
abbrev pub inside : ℤ → ℤ → ℤ → Bool
inside n r c = leb_ℤ (pos 0) r && ltb_ℤ r n && (leb_ℤ (pos 0) c && ltb_ℤ c n)

unfoldable pub check_cell : ℤ → String → Json → Option (List Finding)
check_cell n name null = some []
check_cell n name (arr (cons (num r) (cons (num c) rest))) =
    some (unless (inside n r c) (out_of_bounds name))
check_cell n name _ = none

-- One round of the loop over the steps.
unfoldable pub check_step : ℤ → Fields → Option (List Finding)
unfolding lookup check_cell check_role_fields check_unknown_fields
check_step n s = and_then (check_cell n "barrier_placed" (get "barrier_placed" s)) (λ barrier.
    and_then (check_cell n "capture_claim" (get "capture_claim" s))
      (λ claim. some (barrier ++ claim ++ check_role_fields s ++ check_unknown_fields s)))

unfoldable pub check_steps : ℤ → List Fields → Option (List Finding)
unfolding check_step
check_steps n [] = some []
check_steps n (s ∷ ss) =
    and_then (check_step n s) (λ fs. and_then (check_steps n ss) (λ rest. some (fs ++ rest)))

-- The findings of the audit and of the order of the steps.
abbrev pub check_records : (Json → String) → List SealedRecord → List Finding
check_records digest rs =
    unless (is_verified (audit_sealed_records digest rs)) audit_failed
    ++ unless (steps_in_order rs (pos 0)) out_of_sequence
