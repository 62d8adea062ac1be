-- ===== src/Json/Tests.antt =====
-- Values compared and printed at one input.
use ai2_final_thief_edward_d.Prelude.{◌≡◌, refl, false, true}
use ai2_final_thief_edward_d.Prelude.Int.{pos, negsuc}
use ai2_final_thief_edward_d.Json.Laws.{IsPlain, json_eq_refl}
use ai2_final_thief_edward_d.Json.{
  str, Json, num, float, dyadic, bool, obj, field, end, lookup, count_fields, json_eq, show_ℤ,
}

shown : show_ℤ (negsuc 1204) ≡ "-1205"
unfolding show_ℤ
shown = refl

reordered :
    json_eq
      (obj (field "a" (num (pos 1)) (field "b" (bool false) end)))
      (obj (field "b" (num (pos 0)) (field "a" (float (dyadic (pos 4) 2)) end)))
    ≡ true
unfolding json_eq lookup count_fields
reordered = refl

abbrev message : Json
message = obj (field "type" (str "hint") (field "step" (num (pos 2)) end))

json_eq_refl_example : json_eq message message ≡ true
unfolding IsPlain lookup
json_eq_refl_example = json_eq_refl message (tt, refl, (tt, refl, tt))
