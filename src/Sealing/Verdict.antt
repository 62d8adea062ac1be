-- ===== src/Sealing/Verdict.antt =====
-- When the audit says VERIFIED, and what it reports otherwise.
use Prim.Native.String.{String}
use text.Mathlib.Text.{◌==◌ as str_eq}
use text.Mathlib.TextEquality.{eq_iff}
use ai2_final_thief_edward_d.Prelude.{
  ℕ, suc, length, ◌≡◌, refl, Bool, true, false, not, ◌&&◌, ◌||◌, List, [], ◌∷◌, map, elem, arith,
}
use ai2_final_thief_edward_d.Prelude.Int.{ℤ, pos, ◌+ℤ◌, eq_ℤ, eq_ℤ_iff}
use ai2_final_thief_edward_d.Json.{Json, obj}
use ai2_final_thief_edward_d.Json.Laws.{string_is_eq}
use ai2_final_thief_edward_d.Sequence.{int_is_eq}
use ai2_final_thief_edward_d.Sealing.Payload.{SealedTurnPayload, to_canonical_dict}
use ai2_final_thief_edward_d.Sealing.Audit.{
  SealedRecord, ints_eq, range_from, steps, steps_in_order, is_verified, insert_sorted, sorted_set,
  reused_from, is_nil, hash_payload, seal, recompute_matches, mismatched_in, audit_sealed_records,
}

abbrev pub nonces : List SealedRecord → List String
nonces = map (λ r. r.payload.nonce)

-- No text is there twice, and none is among those seen before.
abbrev pub distinct : List String → Bool
distinct [] = true
distinct (x ∷ xs) = not (elem x xs) && distinct xs

-- The steps count up from `k`.
abbrev pub counted : ℕ → List SealedRecord → Bool
counted k [] = true
counted k (r ∷ rs) = eq_ℤ r.payload.step (pos k) && counted (suc k) rs

next_int : (k : ℕ) → pos k +ℤ pos 1 ≡ pos (suc k)
unfolding ◌+ℤ◌
next_int k = ground arith

ints_eq-counted :
    (k : ℕ) (rs : List SealedRecord)
    → ints_eq (steps rs) (range_from (pos k) (length rs)) ≡ counted k rs
ints_eq-counted k [] = refl
ints_eq-counted k (r ∷ rs) = rw (next_int k, ints_eq-counted (suc k) rs) refl

pub steps_in_order-counted : (rs : List SealedRecord) → steps_in_order rs (pos 0) ≡ counted 0 rs
unfolding steps_in_order
steps_in_order-counted rs = ints_eq-counted 0 rs

abbrev apart : List String → List String → Bool
apart seen [] = true
apart seen (x ∷ xs) = not (elem x seen) && apart seen xs

apart-cons :
    (x : String) (seen xs : List String) → apart (x ∷ seen) xs ≡ (not (elem x xs) && apart seen xs)
apart-cons x seen [] = refl
apart-cons x seen (y ∷ ys) = ground (arith, eq_iff x y, eq_iff y x, apart-cons x seen ys)

is_nil-reused_from :
    (seen : List String) (rs : List SealedRecord)
    → is_nil (reused_from seen rs) ≡ (apart seen (nonces rs) && distinct (nonces rs))
unfolding reused_from
is_nil-reused_from seen [] = refl
is_nil-reused_from seen (r ∷ rs) = ground (
  arith,
  is_nil-reused_from (r.payload.nonce ∷ seen) rs,
  apart-cons r.payload.nonce seen (nonces rs),
)

apart_nil : (xs : List String) → apart [] xs ≡ true
apart_nil [] = refl
apart_nil (x ∷ xs) = apart_nil xs

elem-insert_sorted : (x y : ℤ) (ys : List ℤ) → elem x (insert_sorted y ys) ≡ (eq_ℤ x y || elem x ys)
unfolding insert_sorted
elem-insert_sorted x y [] = refl
elem-insert_sorted x y (z ∷ zs) =
    ground (arith, eq_ℤ_iff x y, eq_ℤ_iff y z, elem-insert_sorted x y zs)

elem-sorted_set : (x : ℤ) (xs : List ℤ) → elem x (sorted_set xs) ≡ elem x xs
unfolding sorted_set
elem-sorted_set x [] = refl
elem-sorted_set x (y ∷ ys) =
    ground (arith, elem-insert_sorted x y (sorted_set ys), elem-sorted_set x ys)

module _ (digest : Json → String) where
  -- The digest of the record's canonical dict is the commitment.
  abbrev pub untouched : SealedRecord → Bool
  untouched r = str_eq (digest (obj (to_canonical_dict r.payload))) r.commit_hash

  abbrev pub all_match : List SealedRecord → Bool
  all_match [] = true
  all_match (r ∷ rs) = untouched r && all_match rs

  pub recompute_matches-untouched : (r : SealedRecord) → recompute_matches digest r ≡ untouched r
  unfolding recompute_matches hash_payload
  recompute_matches-untouched r = refl

  is_nil-mismatched_in : (rs : List SealedRecord) → is_nil (mismatched_in digest rs) ≡ all_match rs
  unfolding mismatched_in
  is_nil-mismatched_in [] = refl
  is_nil-mismatched_in (r ∷ rs) =
      ground (arith, is_nil-mismatched_in rs, recompute_matches-untouched r)

  -- The audit says VERIFIED exactly when for every record the digest of the payload's canonical dict is the
  -- commitment, and no nonce is used twice.
  pub audit-verified :
      (rs : List SealedRecord)
      → is_verified (audit_sealed_records digest rs) ≡ (all_match rs && distinct (nonces rs))
  unfolding audit_sealed_records
  audit-verified rs =
      ground (arith, is_nil-mismatched_in rs, is_nil-reused_from [] rs, apart_nil (nonces rs))

  -- Some record of step `s` does not hash to its commitment.
  abbrev pub mismatch_at : ℤ → List SealedRecord → Bool
  mismatch_at s [] = false
  mismatch_at s (r ∷ rs) = (eq_ℤ s r.payload.step && not (untouched r)) || mismatch_at s rs

  elem-mismatched_in :
      (s : ℤ) (rs : List SealedRecord) → elem s (mismatched_in digest rs) ≡ mismatch_at s rs
  unfolding mismatched_in
  elem-mismatched_in s [] = refl
  elem-mismatched_in s (r ∷ rs) =
      ground (arith, elem-mismatched_in s rs, recompute_matches-untouched r)

  mismatch_at-nil :
      (s : ℤ) (rs : List SealedRecord)
      → is_nil (mismatched_in digest rs) ≡ true
      → mismatch_at s rs ≡ false
  unfolding mismatched_in
  mismatch_at-nil s [] h = refl
  mismatch_at-nil s (r ∷ rs) h = ground (arith, mismatch_at-nil s rs, recompute_matches-untouched r)

  -- The report names exactly the steps of the records that do not hash to their commitments.
  pub audit-mismatched_steps :
      (s : ℤ) (rs : List SealedRecord)
      → elem s (audit_sealed_records digest rs).mismatched_steps ≡ mismatch_at s rs
  unfolding audit_sealed_records
  audit-mismatched_steps s rs = ground (
    arith,
    mismatch_at-nil s rs,
    elem-mismatched_in s rs,
    elem-sorted_set s (mismatched_in digest rs),
  )

  -- Records that were sealed and kept as they were match their commitments.
  pub seal-all_match : (ps : List SealedTurnPayload) → all_match (map (seal digest) ps) ≡ true
  unfolding seal hash_payload
  seal-all_match [] = refl
  seal-all_match (p ∷ ps) =
      ground (arith, eq_iff (hash_payload digest p) (hash_payload digest p), seal-all_match ps)
