-- ===== src/Json.antt =====
-- The values that the peers exchange: what Python's json module reads and writes, with Python's
-- `==` on them. A finite float is a mantissa over a power of two. A dict is a list of fields; its
-- `==` ignores their order, and `None` equals only itself, as in Python.
pub mod Laws
pub mod Digits
mod Tests
use Prim.Native.Nat.{◌^◌}
use Prim.Native.String.{String, ◌++◌}
use text.Mathlib.Text.{◌==◌ as str_eq}
use ai2_final_thief_edward_d.Prelude.{
  ℕ, zero, suc, ◌+◌, ◌-◌, ◌*◌, ◌/◌, ◌%◌, Bool, true, false, ◌&&◌, ◌||◌, not, Option, none, some,
  List, [], ◌∷◌, ◌==◌, ltb, if◌then◌else◌,
}
use ai2_final_thief_edward_d.Prelude.Int.{ℤ, pos, negsuc, eq_ℤ, ltb_ℤ}

pub data Float : Type 0 where
  dyadic : ℤ → ℕ → Float
  nan : Float
  infinite : Bool → Float

mutual
  pub data Json : Type 0 where
    null : Json
    bool : Bool → Json
    num : ℤ → Json
    float : Float → Json
    str : String → Json
    arr : Items → Json
    obj : Fields → Json

  pub data Items : Type 0 where
    nil : Items
    cons : Json → Items → Items

  pub data Fields : Type 0 where
    end : Fields
    field : String → Json → Fields → Fields

-- `n * 2 ^ k`
abbrev pub scaled : ℤ → ℕ → ℤ
scaled (pos n) k = pos (n * 2 ^ k)
scaled (negsuc n) k = negsuc (suc n * 2 ^ k - 1)

-- A number as a fraction over a power of two; a bool counts as an int.
abbrev pub fraction : Json → Option (ℤ × ℕ)
fraction (bool true) = some (pos 1, 0)
fraction (bool false) = some (pos 0, 0)
fraction (num n) = some (n, 0)
fraction (float (dyadic m k)) = some (m, k)
fraction _ = none

abbrev pub fraction_eq : ℤ × ℕ → ℤ × ℕ → Bool
fraction_eq (m, k) (n, l) = eq_ℤ (scaled m l) (scaled n k)

abbrev pub option_fraction_eq : Option (ℤ × ℕ) → Option (ℤ × ℕ) → Bool
option_fraction_eq (some a) (some b) = fraction_eq a b
option_fraction_eq _ _ = false

abbrev pub bool_eq : Bool → Bool → Bool
bool_eq true b = b
bool_eq false b = not b

-- `d.get(k)` with the absent key told apart.
unfoldable pub lookup : String → Fields → Option Json
lookup k end = none
lookup k (field j v fs) = if str_eq k j then some v else lookup k fs

unfoldable pub count_fields : Fields → ℕ
count_fields end = 0
count_fields (field k v fs) = suc (count_fields fs)

-- `a == b`
unfoldable mutual
  pub json_eq : Json → Json → Bool
  json_eq null b = elim b [ null ↦ true | _ ↦ false ]
  json_eq (bool x) b = option_fraction_eq (fraction (bool x)) (fraction b)
  json_eq (num n) b = option_fraction_eq (fraction (num n)) (fraction b)
  json_eq (float (dyadic m k)) b = option_fraction_eq (some (m, k)) (fraction b)
  json_eq (float nan) b = false
  json_eq (float (infinite s)) b = elim b [ float (infinite t) ↦ bool_eq s t | _ ↦ false ]
  json_eq (str s) b = elim b [ str t ↦ str_eq s t | _ ↦ false ]
  json_eq (arr xs) b = elim b [ arr ys ↦ items_eq xs ys | _ ↦ false ]
  json_eq (obj fs) b = elim b [
    | obj gs ↦ (count_fields fs == count_fields gs) && fields_eq fs gs
    | _ ↦ false
  ]

  pub items_eq : Items → Items → Bool
  items_eq nil ys = elim ys [ nil ↦ true | _ ↦ false ]
  items_eq (cons x xs) ys = elim ys [ cons y ys' ↦ json_eq x y && items_eq xs ys' | _ ↦ false ]

  -- Every field of the first dict is in the second with an equal value.
  pub fields_eq : Fields → Fields → Bool
  fields_eq end gs = true
  fields_eq (field k v fs) gs = elim (lookup k gs) [
    | none ↦ false
    | some w ↦ json_eq v w && fields_eq fs gs
  ]

-- `bool(v)`
abbrev pub truthy : Json → Bool
truthy null = false
truthy (bool b) = b
truthy (num n) = not (eq_ℤ n (pos 0))
truthy (float (dyadic m k)) = not (eq_ℤ m (pos 0))
truthy (float _) = true
truthy (str s) = not (str_eq s "")
truthy (arr nil) = false
truthy (arr _) = true
truthy (obj end) = false
truthy (obj _) = true

-- Lists and dicts cannot be keys.
abbrev pub hashable : Json → Bool
hashable (arr _) = false
hashable (obj _) = false
hashable _ = true

abbrev pub or_else {ℓ} : {A : Type ℓ} → Option A → A → A
or_else none d = d
or_else (some a) d = a

-- `d.get(k)`: `None` for an absent key.
abbrev pub get : String → Fields → Json
get k fs = or_else (lookup k fs) null

abbrev pub has_key : String → Fields → Bool
has_key k fs = elim (lookup k fs) [ none ↦ false | some _ ↦ true ]

-- `del d[k]`, for a key that is there once.
unfoldable pub delete : String → Fields → Fields
delete k end = end
delete k (field j v fs) = if str_eq k j then fs else field j v (delete k fs)

-- `isinstance(v, dict)`
abbrev pub as_dict : Json → Option Fields
as_dict (obj fs) = some fs
as_dict _ = none

-- `v == "text"`
abbrev pub is_str : Json → String → Bool
is_str (str s) t = str_eq s t
is_str _ t = false

-- `str(n)`, with fuel for the digits: a number has fewer digits than `n + 1`.
abbrev pub digit : ℕ → String
digit d =
    if d == 0
    then "0"
    else if d == 1
    then "1"
    else if d == 2
    then "2"
    else if d == 3
    then "3"
    else if d == 4
    then "4"
    else if d == 5
    then "5"
    else if d == 6
    then "6"
    else if d == 7
    then "7"
    else if d == 8
    then "8"
    else "9"

pub show_digits : ℕ → ℕ → String
show_digits zero n = ""
show_digits (suc fuel) n =
    let rest = show_digits fuel (n / 10) in if ltb n 10 then digit n else rest ++ digit (n % 10)

unfoldable pub show_ℕ : ℕ → String
unfolding show_digits
show_ℕ n = show_digits (n + 1) n

unfoldable pub show_ℤ : ℤ → String
unfolding show_ℕ
show_ℤ (pos n) = show_ℕ n
show_ℤ (negsuc n) = "-" ++ show_ℕ (suc n)
