-- ===== src/Sealing/Secrecy.antt =====
-- The reveal tells nothing of the nonce and of the hint's truth, and all of the rest.
use Prim.Native.String.{String}
use text.Mathlib.Text.{◌==◌ as str_eq}
use ai2_final_thief_edward_d.Prelude.{
  ◌≡◌, refl, Bool, true, false, none, arith, if◌then◌else◌, ◌||◌,
}
use ai2_final_thief_edward_d.Json.{lookup, delete}
use ai2_final_thief_edward_d.Json.Laws.{HasDistinctKeys, lookup-delete, delete-HasDistinctKeys}
use ai2_final_thief_edward_d.Sealing.Payload.{
  SealedTurnPayload, is_legacy, canonical_fields, to_canonical_dict, public_reveal_dict,
}

hidden_fields :
    (legacy : Bool) (p : SealedTurnPayload) (nonce intent : String)
    → delete "intent"
        (delete "nonce" (canonical_fields legacy (record p { nonce = nonce; intent = intent })))
      ≡ delete "intent" (delete "nonce" (canonical_fields legacy p))
unfolding delete
hidden_fields true p nonce intent = refl
hidden_fields false p nonce intent = refl

-- Two payloads that differ only in the nonce and the intent have the same reveal.
reveal_hides :
    (p : SealedTurnPayload) (nonce intent : String)
    → public_reveal_dict (record p { nonce = nonce; intent = intent }) ≡ public_reveal_dict p
unfolding public_reveal_dict
reveal_hides p nonce intent = hidden_fields (is_legacy p) p nonce intent

canonical_fields-HasDistinctKeys :
    (legacy : Bool) (p : SealedTurnPayload) → HasDistinctKeys (canonical_fields legacy p)
unfolding lookup
canonical_fields-HasDistinctKeys true p = ground arith
canonical_fields-HasDistinctKeys false p = ground arith

-- Every field but the nonce and the intent is revealed as it was sealed, and those two are absent.
pub reveal_shows :
    (p : SealedTurnPayload) (k : String)
    → lookup k (public_reveal_dict p)
      ≡ (if str_eq k "intent" || str_eq k "nonce" then none else lookup k (to_canonical_dict p))
unfolding public_reveal_dict
reveal_shows p k =
    let d = canonical_fields-HasDistinctKeys (is_legacy p) p in
    ground (
      arith,
      lookup-delete "intent" k (delete "nonce" (to_canonical_dict p))
          (delete-HasDistinctKeys "nonce" _ d),
      lookup-delete "nonce" k (to_canonical_dict p) d,
    )
