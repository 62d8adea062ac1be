-- ===== src/Sealing/Audit.antt =====
-- Sealing a record and the final audit: domain/sealing/commit.py and domain/sealing/audit.py.
-- `digest` stands for `canonical_sha256_hex`, the SHA-256 of a value's canonical JSON text; of it
-- is used only that it is a function. `secrets.compare_digest` is the equality of texts. The
-- report's reason text is dropped.
use Prim.Native.String.{String}
use text.Mathlib.Text.{◌==◌ as str_eq}
use ai2_final_thief_edward_d.Prelude.{
  ℕ, zero, suc, Bool, true, false, not, ◌&&◌, List, [], ◌∷◌, map, length, elem, if◌then◌else◌,
}
use ai2_final_thief_edward_d.Prelude.Int.{ℤ, pos, ◌+ℤ◌, ltb_ℤ, eq_ℤ}
use ai2_final_thief_edward_d.Json.{Json, obj}
use ai2_final_thief_edward_d.Json.Laws.{string_is_eq}
use ai2_final_thief_edward_d.Sealing.Payload.{SealedTurnPayload, to_canonical_dict}

pub record SealedRecord : Type 0 where
  pub payload : SealedTurnPayload
  pub commit_hash : String

pub data AuditOutcome : Type 0 where
  verified tamper_forfeit : AuditOutcome

pub record AuditReport : Type 0 where
  pub outcome : AuditOutcome
  pub mismatched_steps : List ℤ
  pub reused_nonces : List String

abbrev pub is_verified : AuditReport → Bool
is_verified report = elim report.outcome [ verified ↦ true | tamper_forfeit ↦ false ]

abbrev pub steps : List SealedRecord → List ℤ
steps = map (λ r. r.payload.step)

-- `list(range(start, start + n))`
abbrev pub range_from : ℤ → ℕ → List ℤ
range_from start zero = []
range_from start (suc n) = start ∷ range_from (start +ℤ pos 1) n

abbrev pub ints_eq : List ℤ → List ℤ → Bool
ints_eq [] [] = true
ints_eq (x ∷ xs) (y ∷ ys) = eq_ℤ x y && ints_eq xs ys
ints_eq _ _ = false

unfoldable pub steps_in_order : List SealedRecord → ℤ → Bool
steps_in_order records start = ints_eq (steps records) (range_from start (length records))

-- `sorted(set(xs))`
unfoldable pub insert_sorted : ℤ → List ℤ → List ℤ
insert_sorted x [] = x ∷ []
insert_sorted x (y ∷ ys) =
    if ltb_ℤ x y then x ∷ y ∷ ys else if eq_ℤ x y then y ∷ ys else y ∷ insert_sorted x ys

unfoldable pub sorted_set : List ℤ → List ℤ
unfolding insert_sorted
sorted_set [] = []
sorted_set (x ∷ xs) = insert_sorted x (sorted_set xs)

-- The second loop of the audit: the nonces seen so far, and the repeats from here on.
unfoldable pub reused_from : List String → List SealedRecord → List String
reused_from seen [] = []
reused_from seen (r ∷ rs) =
    let rest = reused_from (r.payload.nonce ∷ seen) rs in
    if elem r.payload.nonce seen then r.payload.nonce ∷ rest else rest

abbrev pub is_nil {ℓ} : {A : Type ℓ} → List A → Bool
is_nil [] = true
is_nil (_ ∷ _) = false

module _ (digest : Json → String) where
  -- `commit_hash`
  unfoldable pub hash_payload : SealedTurnPayload → String
  hash_payload payload = digest (obj (to_canonical_dict payload))

  unfoldable pub seal : SealedTurnPayload → SealedRecord
  seal payload = record { payload = payload; commit_hash = hash_payload payload }

  unfoldable pub verify_hash : Json → String → Bool
  verify_hash payload expected = str_eq (digest payload) expected

  -- `SealedRecord.recompute_matches`
  unfoldable pub recompute_matches : SealedRecord → Bool
  recompute_matches r = str_eq (hash_payload r.payload) r.commit_hash

  -- The first loop of the audit.
  unfoldable pub mismatched_in : List SealedRecord → List ℤ
  mismatched_in [] = []
  mismatched_in (r ∷ rs) =
      if not (recompute_matches r) then r.payload.step ∷ mismatched_in rs else mismatched_in rs

  unfoldable pub audit_sealed_records : List SealedRecord → AuditReport
  unfolding mismatched_in reused_from
  audit_sealed_records records =
      let mismatched = mismatched_in records in
      let reused = reused_from [] records in
      if is_nil mismatched && is_nil reused
      then record { outcome = verified; mismatched_steps = []; reused_nonces = [] }
      else record {
        outcome = tamper_forfeit;
        mismatched_steps = sorted_set mismatched;
        reused_nonces = reused;
      }
