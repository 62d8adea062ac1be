-- ===== src/Json/Digits.antt =====
-- The fuel with which a number is printed is enough.
use ai2_final_thief_edward_d.Prelude.{
  ℕ, zero, suc, ◌+◌, ◌/◌, ◌<◌, ◌≡◌, refl, inl, inr, Bool-cases, ltb, arith,
}
use ai2_final_thief_edward_d.Json.{show_digits, show_ℕ}

show_digits-fuel : (f g n : ℕ) → n < f → n < g → show_digits f n ≡ show_digits g n
unfolding show_digits
show_digits-fuel zero g n h k = absurd (omega (arith, h))
show_digits-fuel (suc f) zero n h k = absurd (omega (arith, k))
show_digits-fuel (suc f) (suc g) n h k = elim (Bool-cases (ltb n 10)) [
  | inl e ↦ rw e refl
  | inr e ↦
      let smaller : 10 < suc n = ground (arith, e) in
      let rest =
        show_digits-fuel f g (n / 10) (omega (arith, h, smaller)) (omega (arith, k, smaller)) in
      rw (e, rest) refl
]

-- More fuel than `show_ℕ` gives prints the same text.
pub show_ℕ-fuel : (fuel n : ℕ) → n < fuel → show_digits fuel n ≡ show_ℕ n
unfolding show_ℕ
show_ℕ-fuel fuel n h = show_digits-fuel fuel (n + 1) n h (omega arith)
