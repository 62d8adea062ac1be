-- ===== src/Agreement/Symmetry.antt =====
-- Both peers come to the same agreement, and agree exactly on equal results.
use Prim.Native.String.{String}
use text.Mathlib.TextEquality.{eq_iff}
use ai2_final_thief_edward_d.Prelude.{ℕ, ◌≡◌, ◌≢◌, ◌⊎◌, true, some, arith}
use ai2_final_thief_edward_d.Prelude.Int.{ℤ, eq_ℤ_iff}
use ai2_final_thief_edward_d.Agreement.{
  FinalAgreement, agreed, disputed, build_result_agreement_message, resolve_agreement,
}

-- A peer's own view of the series: its totals, the number of sub-games and its digest.
pub record Outcome : Type 0 where
  pub police : ℤ
  pub thief : ℤ
  pub sub_games : ℕ
  pub digest : String

-- What a peer with result `a` resolves when the other's message, built from `b`, has arrived.
abbrev pub resolved : Outcome → Outcome → FinalAgreement
resolved a b =
    resolve_agreement a.police a.thief a.sub_games a.digest
      (some (build_result_agreement_message b.police b.thief b.sub_games b.digest))

abbrev pub agreement_on : Outcome → FinalAgreement
agreement_on a = record {
  is_agreed = true;
  status = agreed;
  police_total = a.police;
  thief_total = a.thief;
}

-- When both messages arrive, both peers resolve to the same agreement: on their totals, if the totals,
-- the numbers of sub-games and the digests are all equal, and else a dispute with zero for both.
pub resolved-symmetric :
    (a b : Outcome)
    → (resolved a b ≡ resolved b a)
      × (((a ≡ b) × (resolved a b ≡ agreement_on a)) ⊎ ((a ≢ b) × (resolved a b ≡ disputed)))
unfolding resolve_agreement build_result_agreement_message
resolved-symmetric a b = ground (
  arith,
  eq_ℤ_iff a.police b.police,
  eq_ℤ_iff b.police a.police,
  eq_ℤ_iff a.thief b.thief,
  eq_ℤ_iff b.thief a.thief,
  eq_iff a.digest b.digest,
  eq_iff b.digest a.digest,
)
