-- ===== src/Sealing/Binding.antt =====
-- A canonical dict determines the payload that it was made from.
use Prim.Native.String.{String}
use ai2_final_thief_edward_d.Prelude.{
  ◌≡◌, refl, sym, ap, ◌∙◌, Bool, false, Option, List, [], ◌∷◌, arith,
}
use ai2_final_thief_edward_d.Prelude.Int.{ℤ}
use ai2_final_thief_edward_d.Json.{Float}
use ai2_final_thief_edward_d.Sealing.Payload.{
  SealedTurnPayload, is_legacy, canonical_fields, to_canonical_dict, row_items, grid_items,
  text_or_null, bool_or_null, pair_or_null,
}

row_items-injective : (a b : List Float) → row_items a ≡ row_items b → a ≡ b
row_items-injective [] [] h = refl
row_items-injective [] (y ∷ ys) h = cc
row_items-injective (x ∷ xs) [] h = cc
row_items-injective (x ∷ xs) (y ∷ ys) h = ground (arith, row_items-injective xs ys)

grid_items-injective : (a b : List (List Float)) → grid_items a ≡ grid_items b → a ≡ b
grid_items-injective [] [] h = refl
grid_items-injective [] (y ∷ ys) h = cc
grid_items-injective (x ∷ xs) [] h = cc
grid_items-injective (x ∷ xs) (y ∷ ys) h =
    ground (arith, row_items-injective x y, grid_items-injective xs ys)

text-injective : (a b : Option String) → text_or_null a ≡ text_or_null b → a ≡ b
text-injective a b h = ground arith

bool-injective : (a b : Option Bool) → bool_or_null a ≡ bool_or_null b → a ≡ b
bool-injective a b h = ground arith

pair-injective : (a b : Option (ℤ × ℤ)) → pair_or_null a ≡ pair_or_null b → a ≡ b
pair-injective a b h = ground arith

canonical-injective :
    (p q : SealedTurnPayload)
    → canonical_fields false p ≡ canonical_fields false q
    → record p { legacy_state = q.legacy_state } ≡ q
canonical-injective p q h = ground (
  arith,
  text-injective p.move q.move,
  bool-injective p.claim_response q.claim_response,
  pair-injective p.barrier_placed q.barrier_placed,
  pair-injective p.capture_claim q.capture_claim,
  grid_items-injective p.scent_grid q.scent_grid,
)

-- Payloads of the current schema with the same canonical dict agree in every field but
-- `legacy_state`, which that schema does not use.
pub canonical_binds :
    (p q : SealedTurnPayload)
    → is_legacy p ≡ false
    → is_legacy q ≡ false
    → to_canonical_dict p ≡ to_canonical_dict q
    → record p { legacy_state = q.legacy_state } ≡ q
unfolding to_canonical_dict
canonical_binds p q hp hq h =
    canonical-injective p q
      (sym (ap (λ b. canonical_fields b p) hp) ∙ h ∙ ap (λ b. canonical_fields b q) hq)
