-- ===== src/Replay/Agree.antt =====
-- When each check of a bundle of artifacts finds nothing.
use Prim.Native.String.{String}
use ai2_final_thief_edward_d.Prelude.{
  ◌≡◌, ◌↔◌, refl, Bool, true, false, not, ◌&&◌, ◌||◌, Option, none, some, List, [], ◌∷◌, length,
  elem, ltb, ◌==◌, if◌then◌else◌, Eq, arith,
}
use ai2_final_thief_edward_d.Prelude.Int.{ℤ}
use ai2_final_thief_edward_d.Json.Laws.{string_is_eq}
use ai2_final_thief_edward_d.Sequence.{int_is_eq}
use ai2_final_thief_edward_d.Replay.Scores.{Entry}
use ai2_final_thief_edward_d.Replay.Verifier.{
  ReplayLog, ReplayFinding, option_is_eq, option_eq_iff, set_of, duplicates, finding_if,
  check_no_duplicates, log_of, check_step_counts,
}

module _ {A : Type 0} ⦃e : Eq A⦄ where
  abbrev pub all_equal : A → List A → Bool
  all_equal x [] = true
  all_equal x (y ∷ ys) = e.beq x y && all_equal x ys

  -- No value stands twice in the list.
  abbrev pub no_repeat : List A → Bool
  no_repeat [] = true
  no_repeat (x ∷ xs) = not (elem x xs) && no_repeat xs

  elem-set_of : (x : A) (ys : List A) → elem x (set_of ys) ≡ elem x ys
  unfolding set_of
  elem-set_of x [] = refl
  elem-set_of x (y ∷ ys) = ground (arith, e.beq_iff x y, elem-set_of x ys, elem-set_of y ys)

  all_equal-elem : (x y : A) (ys : List A) → all_equal y ys ≡ true → elem x ys ≡ true → x ≡ y
  all_equal-elem x y [] h k = ground (arith, k)
  all_equal-elem x y (z ∷ zs) h k =
      ground (arith, h, k, e.beq_iff y z, e.beq_iff x z, all_equal-elem x y zs)

  size_step :
      (x y : A) (ys l : List A)
      → (length l ≡ 1) ↔ (all_equal y ys ≡ true)
      → elem x l ≡ elem x (y ∷ ys)
      → elem y l ≡ elem y (y ∷ ys)
      → (length (if elem x l then l else x ∷ l) ≡ 1) ↔ (all_equal x (y ∷ ys) ≡ true)
  size_step x y ys [] f h k = ground (arith, k, e.beq_iff y y)
  size_step x y ys (z ∷ zs) f h k = ground (arith, f, h, e.beq_iff x y, all_equal-elem x y ys)

  -- A set of values has one element exactly if the values are all equal.
  pub length-set_of :
      (x : A) (xs : List A) → (length (set_of (x ∷ xs)) ≡ 1) ↔ (all_equal x xs ≡ true)
  unfolding set_of
  length-set_of x [] = ground arith
  length-set_of x (y ∷ ys) =
      size_step x y ys (set_of (y ∷ ys)) (length-set_of y ys) (elem-set_of x (y ∷ ys))
        (elem-set_of y (y ∷ ys))

  pub duplicates-none : (xs : List A) → (duplicates xs ≡ []) ↔ (no_repeat xs ≡ true)
  unfolding duplicates
  duplicates-none [] = ground arith
  duplicates-none (x ∷ xs) = repeat_step x xs (duplicates xs) (no_repeat xs) (duplicates-none xs)
    where
      repeat_step :
          (x : A) (xs ds : List A) (b : Bool)
          → (ds ≡ []) ↔ (b ≡ true)
          → ((if elem x xs && not (elem x ds) then x ∷ ds else ds) ≡ [])
            ↔ (not (elem x xs) && b ≡ true)
      repeat_step x xs [] b f = ground (arith, f)
      repeat_step x xs (d ∷ ds) b f = ground (arith, f)

pub finding_if-none : (t : Bool) (f : ReplayFinding) → (finding_if t f ≡ []) ↔ (t ≡ false)
finding_if-none true f = ground arith
finding_if-none false f = ground arith

-- All artifacts name one game.
abbrev pub one_game : List (Option String) → Bool
one_game [] = false
one_game (none ∷ xs) = false
one_game (some u ∷ xs) = all_equal (some u) xs

pub uid_test :
    (xs : List (Option String))
    → ((not (length (set_of xs) == 1) || elem none (set_of xs)) ≡ false) ↔ (one_game xs ≡ true)
unfolding set_of
uid_test [] = ground arith
uid_test (none ∷ xs) = ground (arith, elem-set_of none (none ∷ xs))
uid_test (some u ∷ xs) =
    named (set_of (some u ∷ xs)) (all_equal (some u) xs) (length-set_of (some u) xs)
      (elem-set_of none (some u ∷ xs)) (λ h k. absent (all_equal-elem none (some u) xs h k))
  where
    absent : none ≡ some u → ⊥
    absent h = ground arith

    named :
        (l : List (Option String)) (b : Bool)
        → (length l ≡ 1) ↔ (b ≡ true)
        → elem none l ≡ elem none xs
        → (b ≡ true → elem none xs ≡ true → ⊥)
        → ((not (length l == 1) || elem none l) ≡ false) ↔ (b ≡ true)
    named l b f g h = ground (arith, f, g, h)

pub hash_test :
    (x : Option String) (xs : List (Option String))
    → (ltb 1 (length (set_of (x ∷ xs))) ≡ false) ↔ (all_equal x xs ≡ true)
hash_test x xs =
    one_of (set_of (x ∷ xs)) (all_equal x xs) (length-set_of x xs) (elem-set_of x (x ∷ xs))
  where
    one_of :
        (l : List (Option String)) (b : Bool)
        → (length l ≡ 1) ↔ (b ≡ true)
        → elem x l ≡ elem x (x ∷ xs)
        → (ltb 1 (length l) ≡ false) ↔ (b ≡ true)
    one_of [] b f h = ground (arith, f, h, option_eq_iff x x)
    one_of (y ∷ ys) b f h = ground (arith, f)

raised_or_found :
    (f : ReplayFinding) {d : Option ℤ} {ds : List (Option ℤ)} {b : Bool} (t : Bool)
    → (d ∷ ds ≡ []) ↔ (b ≡ true)
    → ((if t then none else some (f ∷ [])) ≡ some []) ↔ (b ≡ true)
raised_or_found f true g = ground (arith, g)
raised_or_found f false g = ground (arith, g)

pub check_no_duplicates-none :
    (f : ReplayFinding) (numbers : List (Option ℤ))
    → (check_no_duplicates f numbers ≡ some []) ↔ (no_repeat numbers ≡ true)
unfolding check_no_duplicates
check_no_duplicates-none f numbers = listed (duplicates numbers) (duplicates-none numbers)
  where
    listed :
        (ds : List (Option ℤ)) {b : Bool}
        → (ds ≡ []) ↔ (b ≡ true)
        → ((elim ds [
          | [] ↦ some []
          | n ∷ ns ↦ if ltb 0 (length ns) && elem none (n ∷ ns) then none else some (f ∷ [])
        ])
            ≡ some [])
          ↔ (b ≡ true)
    listed [] g = ground (arith, g)
    listed (d ∷ ds) g = raised_or_found f (ltb 0 (length ds) && elem none (d ∷ ds)) g

-- The log of the entry, if there is one, has as many steps as the entry says.
abbrev pub counted : List ReplayLog → Entry → Bool
counted logs e = elim (log_of e.sub_game_number logs) [
  | none ↦ true
  | some l ↦ length l.steps == e.steps
]

abbrev pub all_counted : List ReplayLog → List Entry → Bool
all_counted logs [] = true
all_counted logs (e ∷ es) = counted logs e && all_counted logs es

pub check_step_counts-none :
    (logs : List ReplayLog) (es : List Entry)
    → (check_step_counts logs es ≡ []) ↔ (all_counted logs es ≡ true)
unfolding check_step_counts
check_step_counts-none logs [] = ground arith
check_step_counts-none logs (e ∷ es) = ground (arith, check_step_counts-none logs es)
