-- ===== src/Replay/Clean.antt =====
-- When the check of a log finds nothing.
use Prim.Native.String.{String}
use mathlib.Core.Path.{subst}
use ai2_final_thief_edward_d.Prelude.{
  ◌≡◌, ◌↔◌, refl, sym, Bool, true, false, not, ◌&&◌, Option, none, some, List, [], ◌∷◌, ◌++◌,
  and_then, arith, if◌then◌else◌,
}
use ai2_final_thief_edward_d.Prelude.Int.{ℤ, pos}
use ai2_final_thief_edward_d.Json.{Json, null, num, arr, cons, Fields, get, is_str, truthy}
use ai2_final_thief_edward_d.Sealing.Audit.{
  SealedRecord, is_verified, is_nil, audit_sealed_records, steps_in_order,
}
use ai2_final_thief_edward_d.Sealing.Verdict.{
  all_match, distinct, nonces, counted, steps_in_order-counted, audit-verified,
}
use ai2_final_thief_edward_d.Replay.{records_from_steps, verify_log}
use ai2_final_thief_edward_d.Replay.Checks.{
  Finding, audit_failed, out_of_sequence, unless, check_role_fields, all_known,
  check_unknown_fields, inside, check_cell, check_step, check_steps, check_records,
}
use ai2_final_thief_edward_d.Scent.{is_null}

-- A cell that is absent or on the board.
abbrev pub cell_ok : ℤ → Json → Bool
cell_ok n null = true
cell_ok n (arr (cons (num r) (cons (num c) rest))) = inside n r c
cell_ok n _ = false

-- No field that belongs to the other role.
abbrev pub role_ok : Fields → Bool
role_ok s =
    if is_str (get "role" s) "thief"
    then is_null (get "barrier_placed" s) && is_null (get "capture_claim" s)
    else if is_str (get "role" s) "police"
    then is_null (get "claim_response" s) && not (truthy (get "win_claim" s))
    else true

-- No unknown field in a step of the current schema.
abbrev pub fields_ok : Fields → Bool
fields_ok s = if is_str (get "schema_version" s) "commitment/1" then all_known s else true

abbrev pub step_ok : ℤ → Fields → Bool
step_ok n s =
    cell_ok n (get "barrier_placed" s)
    && (cell_ok n (get "capture_claim" s) && (role_ok s && fields_ok s))

abbrev pub steps_ok : ℤ → List Fields → Bool
steps_ok n [] = true
steps_ok n (s ∷ ss) = step_ok n s && steps_ok n ss

is_nil-unless : (t : Bool) (f : Finding) → is_nil (unless t f) ≡ t
is_nil-unless true f = refl
is_nil-unless false f = refl

is_nil-append : (fs gs : List Finding) → is_nil (fs ++ gs) ≡ (is_nil fs && is_nil gs)
is_nil-append [] gs = refl
is_nil-append (f ∷ fs) gs = refl

nil_of : (fs : List Finding) → is_nil fs ≡ true → fs ≡ []
nil_of [] h = refl
nil_of (f ∷ fs) h = ground (arith, h)

-- A check whose findings are those of two checks.
both_nil : (fs gs : List Finding) → (fs ++ gs ≡ []) ↔ ((fs ≡ []) × (gs ≡ []))
both_nil fs gs = ground (arith, is_nil-append fs gs)

check_cell-ok :
    (n : ℤ) (name : String) (v : Json) → (check_cell n name v ≡ some []) ↔ (cell_ok n v ≡ true)
unfolding check_cell
check_cell-ok n name v = ground arith

check_role_fields-ok : (s : Fields) → (check_role_fields s ≡ []) ↔ (role_ok s ≡ true)
unfolding check_role_fields
check_role_fields-ok s = ground arith

check_unknown_fields-ok : (s : Fields) → (check_unknown_fields s ≡ []) ↔ (fields_ok s ≡ true)
unfolding check_unknown_fields
check_unknown_fields-ok s = ground arith

-- The findings of four checks, of which two may raise, and the tests that say when each finds nothing.
four_checks :
    (o q : Option (List Finding)) (r u : List Finding) (a b c d : Bool)
    → (o ≡ some []) ↔ (a ≡ true)
    → (q ≡ some []) ↔ (b ≡ true)
    → (r ≡ []) ↔ (c ≡ true)
    → (u ≡ []) ↔ (d ≡ true)
    → (and_then o (λ fs. and_then q (λ gs. some (fs ++ gs ++ r ++ u))) ≡ some [])
      ↔ (a && (b && (c && d)) ≡ true)
four_checks none q r u a b c d f g h k = ground (arith, f)
four_checks (some fs) none r u a b c d f g h k = ground (arith, g)
four_checks (some fs) (some gs) r u a b c d f g h k =
    ground (arith, f, g, h, k, both_nil (fs ++ gs ++ r) u, both_nil (fs ++ gs) r, both_nil fs gs)

two_checks :
    (o q : Option (List Finding)) (a b : Bool)
    → (o ≡ some []) ↔ (a ≡ true)
    → (q ≡ some []) ↔ (b ≡ true)
    → (and_then o (λ fs. and_then q (λ gs. some (fs ++ gs))) ≡ some []) ↔ (a && b ≡ true)
two_checks none q a b f g = ground (arith, f)
two_checks (some fs) none a b f g = ground (arith, g)
two_checks (some fs) (some gs) a b f g = ground (arith, f, g, both_nil fs gs)

check_step-ok : (n : ℤ) (s : Fields) → (check_step n s ≡ some []) ↔ (step_ok n s ≡ true)
unfolding check_step
check_step-ok n s =
    four_checks (check_cell n "barrier_placed" (get "barrier_placed" s))
      (check_cell n "capture_claim" (get "capture_claim" s)) (check_role_fields s)
      (check_unknown_fields s) (cell_ok n (get "barrier_placed" s))
      (cell_ok n (get "capture_claim" s)) (role_ok s) (fields_ok s)
      (check_cell-ok n "barrier_placed" (get "barrier_placed" s))
      (check_cell-ok n "capture_claim" (get "capture_claim" s)) (check_role_fields-ok s)
      (check_unknown_fields-ok s)

check_steps-ok : (n : ℤ) (ss : List Fields) → (check_steps n ss ≡ some []) ↔ (steps_ok n ss ≡ true)
unfolding check_steps
check_steps-ok n [] = ground arith
check_steps-ok n (s ∷ ss) =
    two_checks (check_step n s) (check_steps n ss) (step_ok n s) (steps_ok n ss) (check_step-ok n s)
      (check_steps-ok n ss)

module _ (digest : Json → String) where
  -- The records are untouched: each hashes to its commitment, no nonce is used twice, and the steps count
  -- up from 0.
  abbrev pub records_ok : List SealedRecord → Bool
  records_ok rs = (all_match digest rs && distinct (nonces rs)) && counted 0 rs

  check_records-ok :
      (rs : List SealedRecord) → (some (check_records digest rs) ≡ some []) ↔ (records_ok rs ≡ true)
  check_records-ok rs =
      two_checks (some (unless (is_verified (audit_sealed_records digest rs)) audit_failed))
        (some (unless (steps_in_order rs (pos 0)) out_of_sequence))
        (all_match digest rs && distinct (nonces rs)) (counted 0 rs)
        (subst
          (λ t.
            (some (unless t audit_failed) ≡ some [])
            ↔ ((all_match digest rs && distinct (nonces rs)) ≡ true))
          (sym (audit-verified digest rs))
          (passes (all_match digest rs && distinct (nonces rs)) audit_failed))
        (subst (λ t. (some (unless t out_of_sequence) ≡ some []) ↔ (counted 0 rs ≡ true))
          (sym (steps_in_order-counted rs)) (passes (counted 0 rs) out_of_sequence))
    where
      passes : (t : Bool) (f : Finding) → (some (unless t f) ≡ some []) ↔ (t ≡ true)
      passes true f = ground arith
      passes false f = ground arith

  -- A log whose steps are records is found clean exactly if the records are untouched and every step
  -- keeps to the board, to its role's fields and to the known fields.
  pub verify_log-ok :
      (legacy_position : String → ℤ × ℤ) (n : ℤ) (steps : List Fields) (rs : List SealedRecord)
      → records_from_steps legacy_position steps ≡ some rs
      → (verify_log legacy_position digest n steps ≡ some [])
        ↔ (records_ok rs && steps_ok n steps ≡ true)
  unfolding verify_log
  verify_log-ok legacy_position n steps rs e = rw e (
      two_checks (some (check_records digest rs)) (check_steps n steps) (records_ok rs)
        (steps_ok n steps) (check_records-ok rs) (check_steps-ok n steps))
