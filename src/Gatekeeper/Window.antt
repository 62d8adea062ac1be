-- ===== src/Gatekeeper/Window.antt =====
-- What the sliding window forgets does not count any more.
use ai2_final_thief_edward_d.Prelude.{
  ℕ, ◌+◌, ◌-◌, ◌≤◌, ◌<◌, ◌≡◌, refl, ◌&&◌, List, [], ◌∷◌, ◌++◌, length, arith, leb, if◌then◌else◌,
}
use ai2_final_thief_edward_d.Gatekeeper.{expire}

module _ (minute : ℕ) where
  -- How many of the instants are at most a minute before `t`, or later.
  unfoldable pub within : ℕ → List ℕ → ℕ
  within t [] = 0
  within t (x ∷ xs) = (if leb (t - x) minute then 1 else 0) + within t xs

  -- How many of the instants lie in the minute that ends at `t`.
  unfoldable pub in_minute : ℕ → List ℕ → ℕ
  in_minute t [] = 0
  in_minute t (x ∷ xs) = (if leb x t && leb (t - x) minute then 1 else 0) + in_minute t xs

  pub in_minute_le : (t : ℕ) (xs : List ℕ) → in_minute t xs ≤ within t xs
  unfolding within in_minute
  in_minute_le t [] = ground arith
  in_minute_le t (x ∷ xs) = ground (arith, in_minute_le t xs)

  pub within_later : (s t : ℕ) (xs : List ℕ) → s ≤ t → within t xs ≤ within s xs
  unfolding within
  within_later s t [] h = ground arith
  within_later s t (x ∷ xs) h = ground (arith, within_later s t xs h)

  pub within_le : (t : ℕ) (xs : List ℕ) → within t xs ≤ length xs
  unfolding within
  within_le t [] = ground arith
  within_le t (x ∷ xs) = ground (arith, within_le t xs)

  pub within-append : (t : ℕ) (xs ys : List ℕ) → within t (xs ++ ys) ≡ within t xs + within t ys
  unfolding within
  within-append t [] ys = omega arith
  within-append t (x ∷ xs) ys = ground (arith, within-append t xs ys)

  pub within-expire :
      (now t : ℕ) (xs : List ℕ) → now ≤ t → within t (expire minute now xs) ≡ within t xs
  unfolding within expire
  within-expire now t [] h = refl
  within-expire now t (x ∷ xs) h = ground (arith, within-expire now t xs h)

  pub length-expire : (now : ℕ) (xs : List ℕ) → length (expire minute now xs) ≤ length xs
  unfolding expire
  length-expire now [] = ground arith
  length-expire now (x ∷ xs) = ground (arith, length-expire now xs)

  -- An admission after fewer than `limit` others in its last minute keeps every minute within the limit.
  pub admitted_bounded :
      (limit now now' : ℕ) (admitted : List ℕ)
      → now ≤ now'
      → within now admitted < limit
      → ((t : ℕ) → in_minute t admitted ≤ limit)
      → (t : ℕ) → in_minute t (now' ∷ admitted) ≤ limit
  unfolding in_minute
  admitted_bounded limit now now' admitted l h k t =
      ground (arith, k t, in_minute_le t admitted, within_later now t admitted)
