-- ===== src/Config/Values.antt =====
-- What the configuration's checks read in a JSON value: Python's `<` with a number, `tuple`, `set` and the
-- prefix of a key, for shared/config_models.py and shared/config_validation.py of src/thief_peer.
use Prim.Native.Nat.{◌^◌}
use Prim.Native.Char.{code}
use Prim.Native.String.{String, [], ◌∷◌, char_at}
use ai2_final_thief_edward_d.Prelude.{
  ℕ, Bool, true, false, not, ◌&&◌, ◌||◌, Option, none, some, ◌*◌, ◌==◌, if◌then◌else◌,
}
use ai2_final_thief_edward_d.Prelude.Int.{ℤ, pos, ltb_ℤ}
use ai2_final_thief_edward_d.Json.{
  Json, bool, num, float, str, arr, obj, dyadic, nan, infinite, Items, nil, cons, Fields, end,
  field, is_str, hashable,
}

-- `v < n` for a whole number `n`: no answer where Python raises a TypeError; NaN is not below anything.
abbrev pub fraction_below : ℕ → ℤ × ℕ → Bool
fraction_below n (m, k) = ltb_ℤ m (pos (n * 2 ^ k))

unfoldable pub less_than : Json → ℕ → Option Bool
less_than (bool true) n = some (fraction_below n (pos 1, 0))
less_than (bool false) n = some (fraction_below n (pos 0, 0))
less_than (num m) n = some (fraction_below n (m, 0))
less_than (float (dyadic m k)) n = some (fraction_below n (m, k))
less_than (float nan) n = some false
less_than (float (infinite positive)) n = some (not positive)
less_than _ n = none

-- `isinstance(v, int)`
abbrev pub is_int : Json → Bool
is_int (bool _) = true
is_int (num _) = true
is_int _ = false

-- `isinstance(v, (int, float)) and not isinstance(v, bool) and math.isfinite(v)`
abbrev pub is_finite_number : Json → Bool
is_finite_number (num _) = true
is_finite_number (float (dyadic _ _)) = true
is_finite_number _ = false

abbrev pub characters : String → Items
characters [] = nil
characters (c ∷ s) = cons (str (c ∷ [])) (characters s)

abbrev pub dict_keys : Fields → Items
dict_keys end = nil
dict_keys (field k v fs) = cons (str k) (dict_keys fs)

-- `tuple(v)`; no answer where Python raises a TypeError.
unfoldable pub tuple : Json → Option Items
tuple (arr xs) = some xs
tuple (str s) = some (characters s)
tuple (obj fs) = some (dict_keys fs)
tuple _ = none

-- `text in xs`
abbrev pub has_text : String → Items → Bool
has_text t nil = false
has_text t (cons x xs) = is_str x t || has_text t xs

abbrev pub all_hashable : Items → Bool
all_hashable nil = true
all_hashable (cons x xs) = hashable x && all_hashable xs

-- `k.startswith("_")`
abbrev pub is_comment : String → Bool
is_comment k = code (char_at k 0) == 95

-- `{k: v for k, v in section.items() if not k.startswith("_")}`
unfoldable pub clean : Fields → Fields
clean end = end
clean (field k v fs) = if is_comment k then clean fs else field k v (clean fs)
