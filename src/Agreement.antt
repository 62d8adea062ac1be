-- ===== src/Agreement.antt =====
-- The agreement of both peers on the series' totals: services/series_scoring.py and
-- services/result_agreement.py of src/thief_peer. A digest is a text; of the message are kept the
-- fields that the other side compares. A total that is there is an int.
pub mod Symmetry
mod Tests
use Prim.Native.String.{String}
use text.Mathlib.Text.{◌==◌ as str_eq}
use ai2_final_thief_edward_d.Prelude.{
  ℕ, Bool, true, false, not, ◌&&◌, ◌||◌, Option, none, some, if◌then◌else◌, ◌==◌,
}
use ai2_final_thief_edward_d.Prelude.Int.{ℤ, pos, eq_ℤ}

pub data AgreementStatus : Type 0 where
  unverified_self_play agreed disputed_zeroed : AgreementStatus

-- The field `agreed` is `is_agreed` here.
pub record FinalAgreement : Type 0 where
  pub is_agreed : Bool
  pub status : AgreementStatus
  pub police_total : ℤ
  pub thief_total : ℤ

abbrev pub disputed : FinalAgreement
disputed = record {
  is_agreed = false;
  status = disputed_zeroed;
  police_total = pos 0;
  thief_total = pos 0;
}

unfoldable pub resolve_final_agreement : ℤ → ℤ → Option ℤ → Option ℤ → FinalAgreement
resolve_final_agreement our_police our_thief (some their_police) (some their_thief) =
    if eq_ℤ our_police their_police && eq_ℤ our_thief their_thief
    then record {
      is_agreed = true;
      status = agreed;
      police_total = our_police;
      thief_total = our_thief;
    }
    else disputed
resolve_final_agreement our_police our_thief _ _ = record {
  is_agreed = false;
  status = unverified_self_play;
  police_total = our_police;
  thief_total = our_thief;
}

-- A result_agreement message, as its receiver reads it.
pub record ResultAgreement : Type 0 where
  pub their_police : Option ℤ
  pub their_thief : Option ℤ
  pub num_sub_games : Option ℕ
  pub result_digest : Option String

-- `build_result_agreement_message`
unfoldable pub build_result_agreement_message : ℤ → ℤ → ℕ → String → ResultAgreement
build_result_agreement_message police_total thief_total num_sub_games result_digest = record {
  their_police = some police_total;
  their_thief = some thief_total;
  num_sub_games = some num_sub_games;
  result_digest = some result_digest;
}

abbrev pub same_count : Option ℕ → ℕ → Bool
same_count none n = false
same_count (some m) n = m == n

abbrev pub same_digest : Option String → String → Bool
same_digest none d = false
same_digest (some e) d = str_eq e d

-- `exchange_and_resolve_agreement` behind the wait, by the message that has arrived, if any.
unfoldable pub resolve_agreement : ℤ → ℤ → ℕ → String → Option ResultAgreement → FinalAgreement
unfolding resolve_final_agreement
resolve_agreement our_police our_thief n digest none =
    resolve_final_agreement our_police our_thief none none
resolve_agreement our_police our_thief n digest (some theirs) =
    if not (same_count theirs.num_sub_games n) || not (same_digest theirs.result_digest digest)
    then disputed
    else resolve_final_agreement our_police our_thief theirs.their_police theirs.their_thief
