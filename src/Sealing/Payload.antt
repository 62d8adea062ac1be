-- ===== src/Sealing/Payload.antt =====
-- The sealed record of one step, and what of it the reveal shows: domain/sealing/payload.py.
use Prim.Native.String.{String, ◌++◌}
use text.Mathlib.Text.{◌==◌ as str_eq}
use ai2_final_thief_edward_d.Prelude.{Bool, true, false, ◌||◌, Option, none, some, List, [], ◌∷◌}
use ai2_final_thief_edward_d.Prelude.Int.{ℤ}
use ai2_final_thief_edward_d.Json.{
  Json, null, bool, num, float, str, arr, Float, Items, nil, cons, Fields, end, field, delete,
  show_ℤ,
}

pub record SealedTurnPayload : Type 0 where
  pub step : ℤ
  pub role : String
  pub sub_game_number : ℤ
  pub position : ℤ × ℤ
  pub move : Option String
  pub intent : String
  pub hint : String
  pub scent_digest : String
  pub scent_grid : List (List Float)
  pub timestamp : String
  pub nonce : String
  pub config_sha256 : String
  pub barrier_placed : Option (ℤ × ℤ)
  pub capture_claim : Option (ℤ × ℤ)
  pub claim_response : Option Bool
  pub win_claim : Bool
  pub schema_version : String
  pub legacy_state : Option String

-- Python's values as JSON: `None`, pairs and grids as lists.
abbrev pub text_or_null : Option String → Json
text_or_null none = null
text_or_null (some s) = str s

abbrev pub bool_or_null : Option Bool → Json
bool_or_null none = null
bool_or_null (some b) = bool b

abbrev pub pair_json : ℤ × ℤ → Json
pair_json (r, c) = arr (cons (num r) (cons (num c) nil))

abbrev pub pair_or_null : Option (ℤ × ℤ) → Json
pair_or_null none = null
pair_or_null (some p) = pair_json p

abbrev pub row_items : List Float → Items
row_items [] = nil
row_items (x ∷ xs) = cons (float x) (row_items xs)

abbrev pub grid_items : List (List Float) → Items
grid_items [] = nil
grid_items (row ∷ rows) = cons (arr (row_items row)) (grid_items rows)

abbrev pub is_legacy : SealedTurnPayload → Bool
is_legacy p = str_eq p.schema_version "sealed-turn/1" || str_eq p.schema_version "sealed-turn/2"

-- `self.legacy_state`, or the text that stands for it.
abbrev pub state_text : SealedTurnPayload → String
state_text p = elim p.legacy_state [
  | some s ↦ s
  | none ↦ "pos=" ++ show_ℤ p.position.0 ++ "," ++ show_ℤ p.position.1 ++ ";visited=1"
]

-- The fields behind the one that differs between the two schemas.
abbrev pub common_fields : SealedTurnPayload → Fields
common_fields p = field "move" (text_or_null p.move) (
    field "intent" (str p.intent) (
      field "hint" (str p.hint) (
        field "scent_digest" (str p.scent_digest) (
          field "scent_grid" (arr (grid_items p.scent_grid)) (
            field "barrier_placed" (pair_or_null p.barrier_placed) (
              field "capture_claim" (pair_or_null p.capture_claim) (
                field "claim_response" (bool_or_null p.claim_response) (
                  field "win_claim" (bool p.win_claim) (
                    field "config_sha256" (str p.config_sha256) (
                      field "timestamp" (str p.timestamp)
                        (field "nonce" (str p.nonce) end)))))))))))

-- `to_canonical_dict`, by whether the schema is a legacy one.
abbrev pub canonical_fields : Bool → SealedTurnPayload → Fields
canonical_fields legacy p = field "schema_version" (str p.schema_version) (
    field "step" (num p.step) (
      field "role" (str p.role) (
        field "sub_game_number" (num p.sub_game_number) (elim legacy [
          | true ↦ field "state" (str (state_text p)) (common_fields p)
          | false ↦ field "position" (pair_json p.position) (common_fields p)
        ]))))

unfoldable pub to_canonical_dict : SealedTurnPayload → Fields
to_canonical_dict p = canonical_fields (is_legacy p) p

unfoldable pub public_reveal_dict : SealedTurnPayload → Fields
unfolding to_canonical_dict
public_reveal_dict p = delete "intent" (delete "nonce" (to_canonical_dict p))
