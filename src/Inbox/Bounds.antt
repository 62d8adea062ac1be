-- ===== src/Inbox/Bounds.antt =====
-- The inbox never holds more than its capacity, and a refused message leaves it as it was.
use Prim.Native.String.{String}
use text.Mathlib.Text.{◌==◌ as str_eq}
use text.Mathlib.TextEquality.{eq_iff}
use ai2_final_thief_edward_d.Prelude.{
  sym, ◌∙◌, ◌&&◌, ◌↔◌, not, Bool, List, ◌≤◌, ◌<◌, ◌≡◌, ◌⊎◌, inl, inr, true, false, some, [], ◌∷◌,
  ◌++◌, length-append, arith, refl, Bool-cases, Result, ok, err, if◌then◌else◌,
}
use ai2_final_thief_edward_d.Prelude.Dict.{lookup, lookup-insert}
use ai2_final_thief_edward_d.Json.{
  Json, null, bool, num, float, str, arr, obj, dyadic, nan, infinite, is_str, truthy, hashable,
  json_eq,
}
use ai2_final_thief_edward_d.Json.Laws.{string_is_eq, IsPlain, json_eq_refl}
use ai2_final_thief_edward_d.Inbox.{
  BoundedInbox, InboxFull, inbox_full, correlated, correlate, size, note, is_full, enqueue,
  is_idempotent_replay, is_duplicate_conflict,
}

-- The queue respects its bound, if it has one.
abbrev pub IsBounded : BoundedInbox → Type 0
IsBounded b = (b.capacity ≡ 0) ⊎ (size b ≤ b.capacity)

-- What a call of `enqueue` has done, by how it ended. An id that is a string is a correlation id if it is
-- not empty.
abbrev pub Enqueued : BoundedInbox → String → Json → Json → Result InboxFull BoundedInbox → Type 0
Enqueued b key m c (ok b') =
    (b'.queue ≡ b.queue ++ record { logical_key = key; message = m } ∷ [])
    × (b'.capacity ≡ b.capacity)
    × IsBounded b'
    × ((k : String)
        → lookup k b'.seen_by_key ≡ (if str_eq k key then some m else lookup k b.seen_by_key))
    × ((s : String)
        → correlated (str s) b'.seen_by_correlation
          ≡ (if truthy c && is_str c s then some m else correlated (str s) b.seen_by_correlation))
Enqueued b key m c (err _) = (0 < b.capacity) × (b.capacity ≤ size b)

is_str_iff : (c : Json) (s : String) → (is_str c s ≡ true) ↔ (c ≡ str s)
is_str_iff null s = ground arith
is_str_iff (bool b) s = ground arith
is_str_iff (num n) s = ground arith
is_str_iff (float x) s = ground arith
is_str_iff (str t) s = ground (arith, eq_iff t s)
is_str_iff (arr xs) s = ground arith
is_str_iff (obj fs) s = ground arith

-- Only a string is equal to a string.
json_eq-str : (c : Json) (s : String) → json_eq c (str s) ≡ is_str c s
unfolding json_eq
json_eq-str null s = refl
json_eq-str (bool true) s = refl
json_eq-str (bool false) s = refl
json_eq-str (num n) s = refl
json_eq-str (float (dyadic m k)) s = refl
json_eq-str (float nan) s = refl
json_eq-str (float (infinite positive)) s = refl
json_eq-str (str t) s = refl
json_eq-str (arr xs) s = refl
json_eq-str (obj fs) s = refl

str-json_eq : (c : Json) (s : String) → json_eq (str s) c ≡ is_str c s
unfolding json_eq
str-json_eq null s = refl
str-json_eq (bool b) s = refl
str-json_eq (num n) s = refl
str-json_eq (float x) s = refl
str-json_eq (str t) s = ground (arith, eq_iff s t, eq_iff t s)
str-json_eq (arr xs) s = refl
str-json_eq (obj fs) s = refl

-- Equal values are the same string, if one of them is a string.
is_str_agree : (c d : Json) (s : String) → json_eq c d ≡ true → is_str d s ≡ is_str c s
is_str_agree c d s h = elim (Bool-cases (is_str d s)) [
  | inl e ↦
      let f : json_eq c (str s) ≡ true = rw ((is_str_iff d s).0 e) at h in
      e ∙ sym f ∙ json_eq-str c s
  | inr e ↦ elim (Bool-cases (is_str c s)) [
    | inl g ↦
        let f : json_eq (str s) d ≡ true = rw ((is_str_iff c s).0 g) at h in
        sym (str-json_eq d s) ∙ f ∙ sym g
    | inr g ↦ e ∙ sym g
  ]
]

unlike : (c d : Json) (s : String) → json_eq c d ≡ false → is_str c s ≡ true → is_str d s ≡ false
unlike c d s h e =
    let f : json_eq (str s) d ≡ false = rw ((is_str_iff c s).0 e) at h in sym (str-json_eq d s) ∙ f

correlated-correlate :
    (c m : Json) (s : String) (l : List (Json × Json))
    → correlated (str s) (correlate c m l) ≡ (if is_str c s then some m else correlated (str s) l)
unfolding correlated correlate
correlated-correlate c m s [] = rw (str-json_eq c s) refl
correlated-correlate c m s ((d, n) ∷ l) = elim (Bool-cases (json_eq c d)) [
  | inl e ↦ rw (e, str-json_eq d s, is_str_agree c d s e) (first (is_str c s))
  | inr e ↦
      rw (e, str-json_eq d s, correlated-correlate c m s l)
        (later (is_str c s) (is_str d s) (unlike c d s e))
]
  where
    first :
        (t : Bool)
        → (if t then some m else correlated (str s) l)
          ≡ (if t then some m else (if t then some n else correlated (str s) l))
    first true = refl
    first false = refl

    later :
        (t u : Bool)
        → (t ≡ true → u ≡ false)
        → (if u then some n else (if t then some m else correlated (str s) l))
          ≡ (if t then some m else (if u then some n else correlated (str s) l))
    later true u k = rw (k refl) refl
    later false u k = refl

noted_correlation :
    (t : Bool) (c m : Json) (s : String) (l : List (Json × Json))
    → correlated (str s) (if t then correlate c m l else l)
      ≡ (if t && is_str c s then some m else correlated (str s) l)
noted_correlation true c m s l = correlated-correlate c m s l
noted_correlation false c m s l = refl

pub enqueue_full :
    (b : BoundedInbox) (key : String) (m c : Json)
    → is_full b ≡ true
    → enqueue b key m c ≡ err inbox_full
unfolding enqueue
enqueue_full b key m c e = ground arith

pub enqueue_room :
    (b : BoundedInbox) (key : String) (m c : Json)
    → is_full b ≡ false
    → enqueue b key m c
      ≡ ok (
          note key m c
            (record b { queue = b.queue ++ record { logical_key = key; message = m } ∷ [] }))
unfolding enqueue
enqueue_room b key m c e = ground arith

pub enqueue-parts :
    (b : BoundedInbox) (key : String) (m c : Json)
    → IsBounded b
    → Enqueued b key m c (enqueue b key m c)
enqueue-parts b key m c h = elim (Bool-cases (is_full b)) [
  | inl e ↦ rw (enqueue_full b key m c e) (unfold is_full in ground arith)
  | inr e ↦ rw (enqueue_room b key m c e) (
    refl,
    refl,
    unfold is_full in
        ground (arith, length-append b.queue (record { logical_key = key; message = m } ∷ [])),
    λ k. lookup-insert key k m b.seen_by_key,
    λ s. noted_correlation (truthy c) c m s b.seen_by_correlation,
  )
]

-- On an inbox within its bound every call of `enqueue`, with an id that can be hashed or is not stored,
-- ends as `Enqueued` says: the message is the last of the queue, which keeps within the bound; the key
-- now leads to it, and so does the id, if that is a string that is not empty, while all other keys and
-- strings lead where they led; or the queue is full.
pub enqueue-Enqueued :
    (b : BoundedInbox) (key : String) (m c : Json)
    → IsBounded b
    → (truthy c && not (hashable c)) ≡ false
    → Enqueued b key m c (enqueue b key m c)
enqueue-Enqueued b key m c h k = enqueue-parts b key m c h

-- A message that was enqueued is an idempotent replay when it comes again, and no conflict.
pub enqueue-replay :
    (b : BoundedInbox) (key : String) (m c : Json) {b' : BoundedInbox}
    → IsPlain m
    → enqueue b key m c ≡ ok b'
    → (is_idempotent_replay b' key m ≡ true) × (is_duplicate_conflict b' key m ≡ false)
unfolding is_idempotent_replay is_duplicate_conflict
enqueue-replay b key m c {b'} p h = elim (Bool-cases (is_full b)) [
  | inl e ↦ absurd (cc (enqueue_full b key m c e))
  | inr e ↦ ground (
    arith,
    enqueue_room b key m c e,
    lookup-insert key key m b.seen_by_key,
    eq_iff key key,
    json_eq_refl m p,
  )
]
