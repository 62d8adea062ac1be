-- ===== src/Json/Laws.antt =====
-- Equality of values is reflexive where no dict repeats a key and no float is NaN.
use Prim.Native.String.{String}
use text.Mathlib.Text.{◌==◌ as str_eq}
use text.Mathlib.TextEquality.{eq_iff}
use ai2_final_thief_edward_d.Prelude.{
  ◌≡◌, refl, ◌≢◌, true, false, none, some, arith, ==_iff, Eq, if◌then◌else◌, Bool-cases, inl, inr,
}
use ai2_final_thief_edward_d.Prelude.Int.{ℤ, eq_ℤ}
use ai2_final_thief_edward_d.Json.{
  Json, null, bool, num, float, str, arr, obj, dyadic, nan, infinite, Items, nil, cons, Fields, end,
  field, scaled, lookup, count_fields, json_eq, items_eq, fields_eq, delete,
}

instance abbrev pub string_is_eq : Eq String
string_is_eq = record { beq = str_eq; beq_iff = eq_iff }

-- A value as a parser of JSON without NaN builds it: the keys of every dict are distinct.
unfoldable mutual
  pub IsPlain : Json → Type 0
  IsPlain null = Unit
  IsPlain (bool _) = Unit
  IsPlain (num _) = Unit
  IsPlain (float f) = f ≢ nan
  IsPlain (str _) = Unit
  IsPlain (arr xs) = IsPlainItems xs
  IsPlain (obj fs) = IsPlainFields fs

  pub IsPlainItems : Items → Type 0
  IsPlainItems nil = Unit
  IsPlainItems (cons x xs) = IsPlain x × IsPlainItems xs

  pub IsPlainFields : Fields → Type 0
  IsPlainFields end = Unit
  IsPlainFields (field k v fs) = IsPlain v × (lookup k fs ≡ none) × IsPlainFields fs

-- Every field of the first dict is found in the second.
abbrev Agrees : Fields → Fields → Type 0
Agrees end gs = Unit
Agrees (field k v fs) gs = (lookup k gs ≡ some v) × Agrees fs gs

Agrees-field :
    (k : String) (v : Json) (fs gs : Fields)
    → lookup k fs ≡ none
    → Agrees fs gs
    → Agrees fs (field k v gs)
unfolding lookup
Agrees-field k v end gs h a = tt
Agrees-field k v (field j w fs) gs h a =
    (ground (arith, eq_iff k j, eq_iff j k), Agrees-field k v fs gs (ground arith) a.1)

Agrees-refl : (fs : Fields) → IsPlainFields fs → Agrees fs fs
unfolding lookup IsPlainFields
Agrees-refl end h = tt
Agrees-refl (field k v fs) h =
    (ground (arith, eq_iff k k), Agrees-field k v fs fs h.1 (Agrees-refl fs h.2))

eq_ℤ_refl : (n : ℤ) → eq_ℤ n n ≡ true
eq_ℤ_refl n = ground arith

mutual
  unfolding json_eq IsPlain

  json_eq_self : (v : Json) → IsPlain v → json_eq v v ≡ true
  json_eq_self null h = refl
  json_eq_self (bool true) h = refl
  json_eq_self (bool false) h = refl
  json_eq_self (num n) h = eq_ℤ_refl (scaled n 0)
  json_eq_self (float (dyadic m k)) h = eq_ℤ_refl (scaled m k)
  json_eq_self (float nan) h = absurd (h refl)
  json_eq_self (float (infinite true)) h = refl
  json_eq_self (float (infinite false)) h = refl
  json_eq_self (str s) h = (eq_iff s s).1 refl
  json_eq_self (arr xs) h = items_eq_self xs h
  json_eq_self (obj fs) h =
      ground (
        arith,
        ==_iff (count_fields fs) (count_fields fs),
        fields_eq_self fs fs (Agrees-refl fs h) h,
      )

  items_eq_self : (xs : Items) → IsPlainItems xs → items_eq xs xs ≡ true
  items_eq_self nil h = refl
  items_eq_self (cons x xs) h = ground (arith, json_eq_self x h.0, items_eq_self xs h.1)

  fields_eq_self : (fs gs : Fields) → Agrees fs gs → IsPlainFields fs → fields_eq fs gs ≡ true
  fields_eq_self end gs a h = refl
  fields_eq_self (field k v fs) gs a h =
      ground (arith, a.0, json_eq_self v h.0, fields_eq_self fs gs a.1 h.2)

-- A value with no NaN and no key twice equals itself.
pub json_eq_refl : (v : Json) → IsPlain v → json_eq v v ≡ true
json_eq_refl v h = json_eq_self v h

-- No key is there twice.
abbrev pub HasDistinctKeys : Fields → Type 0
HasDistinctKeys end = Unit
HasDistinctKeys (field k v fs) = (lookup k fs ≡ none) × HasDistinctKeys fs

-- A deleted key is gone, and every other key is kept.
pub lookup-delete :
    (k j : String) (fs : Fields)
    → HasDistinctKeys fs
    → lookup j (delete k fs) ≡ (if str_eq j k then none else lookup j fs)
unfolding lookup delete
lookup-delete k j end h = ground arith
lookup-delete k j (field i v fs) h =
    ground (arith, eq_iff j k, eq_iff k i, eq_iff j i, eq_iff i k, lookup-delete k j fs h.1)

lookup-delete-none :
    (k j : String) (fs : Fields) → lookup j fs ≡ none → lookup j (delete k fs) ≡ none
unfolding lookup delete
lookup-delete-none k j end h = refl
lookup-delete-none k j (field i v fs) h = ground (arith, lookup-delete-none k j fs)

pub delete-HasDistinctKeys :
    (k : String) (fs : Fields) → HasDistinctKeys fs → HasDistinctKeys (delete k fs)
unfolding delete
delete-HasDistinctKeys k end h = tt
delete-HasDistinctKeys k (field i v fs) h = elim (Bool-cases (str_eq k i)) [
  | inl e ↦ rw e h.1
  | inr e ↦ rw e (lookup-delete-none k i fs h.0, delete-HasDistinctKeys k fs h.1)
]
