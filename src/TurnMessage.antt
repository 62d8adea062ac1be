-- ===== src/TurnMessage.antt =====
-- The structural check of a turn message: protocol/turn_message.py of src/thief_peer, with the
-- exceptions that the router's handlers end in.
use Prim.Native.String.{String}
use ai2_final_thief_edward_d.Prelude.{
  Bool, true, false, ◌||◌, ◌&&◌, Option, none, some, List, [], ◌∷◌, if◌then◌else◌, Result, ok, err,
}
use ai2_final_thief_edward_d.Json.{Json, Fields, get, has_key, as_dict, is_str, hashable}
use ai2_final_thief_edward_d.Sequence.{
  MessageType, commitment, commit_ack, reveal, hint, scent, barrier, capture_claim,
  capture_response,
}

pub data Raised : Type 0 where
  type_error attribute_error inbox_full_error not_modelled : Raised

abbrev pub type_text : MessageType → String
type_text commitment = "commitment"
type_text commit_ack = "commit_ack"
type_text reveal = "reveal"
type_text hint = "hint"
type_text scent = "scent"
type_text barrier = "barrier"
type_text capture_claim = "capture_claim"
type_text capture_response = "capture_response"

-- `MESSAGE_TYPES`
abbrev pub message_types : List MessageType
message_types =
    commitment ∷ commit_ack ∷ reveal ∷ hint ∷ scent ∷ barrier ∷ capture_claim ∷ capture_response
    ∷ []

unfoldable pub parse_type : Json → List MessageType → Option MessageType
parse_type v [] = none
parse_type v (t ∷ ts) = if is_str v (type_text t) then some t else parse_type v ts

-- `_REQUIRED_FIELDS`
abbrev pub required_fields : MessageType → List String
required_fields commitment = "commit_hash" ∷ []
required_fields commit_ack = "commit_hash" ∷ []
required_fields reveal = "reveal" ∷ []
required_fields hint = "hint_text" ∷ "hint_intent" ∷ []
required_fields scent = "grid_size" ∷ "grid" ∷ []
required_fields barrier = "cell_row" ∷ "cell_col" ∷ []
required_fields capture_claim = "claimed_row" ∷ "claimed_col" ∷ []
required_fields capture_response = "caught" ∷ []

abbrev pub envelope_fields : List String
envelope_fields = "game_uid" ∷ "sub_game_number" ∷ "step" ∷ "sender" ∷ []

unfoldable pub has_all : List String → Fields → Bool
has_all [] fs = true
has_all (k ∷ ks) fs = has_key k fs && has_all ks fs

-- The last two tests of `structural_reason`.
unfoldable pub type_shape : MessageType → Fields → Bool
type_shape hint m = is_str (get "hint_intent" m) "truth" || is_str (get "hint_intent" m) "lie"
type_shape reveal m = elim (as_dict (get "reveal" m)) [ none ↦ false | some _ ↦ true ]
type_shape _ m = true

-- A structurally valid message: its fields, its envelope and its type.
pub record Parsed : Type 0 where
  pub fields : Fields
  pub envelope : Fields
  pub mtype : MessageType

-- The check of one message type: `none` is a rejection.
unfoldable pub check_type : Fields → Fields → MessageType → Option Parsed
unfolding has_all type_shape
check_type m e t =
    if has_all (required_fields t) m && type_shape t m
    then some (record { fields = m; envelope = e; mtype = t })
    else none

-- `structural_reason`, by its verdict. A `message_type` that is a list or a dict cannot be looked up
-- in a frozenset, which raises.
unfoldable pub structural_reason : Json → Result Raised (Option Parsed)
unfolding check_type parse_type
structural_reason message = elim (as_dict message) [
  | none ↦ ok none
  | some m ↦ elim (as_dict (get "envelope" m)) [
    | none ↦ ok none
    | some e ↦
        if has_all envelope_fields e
        then if hashable (get "message_type" m)
          then elim (parse_type (get "message_type" m) message_types) [
            | none ↦ ok none
            | some t ↦ ok (check_type m e t)
          ]
          else err type_error
        else ok none
  ]
]
