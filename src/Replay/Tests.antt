-- ===== src/Replay/Tests.antt =====
-- Logs, scores and bundles at concrete inputs.
use ai2_final_thief_edward_d.Prelude.{
  ◌≡◌, ◌↔◌, refl, Bool, true, false, ◌&&◌, none, some, List, [], ◌∷◌, map, ℕ, ◌==◌, if◌then◌else◌,
  Result, ok, err, arith,
}
use Prim.Native.String.{String}
use ai2_final_thief_edward_d.Prelude.Int.{ℤ, pos, ◌+ℤ◌}
use ai2_final_thief_edward_d.Json.{str, lookup as field_of, show_ℕ, field, end}
use ai2_final_thief_edward_d.Sealing.Audit.{
  SealedRecord, seal, hash_payload, recompute_matches, mismatched_in, reused_from,
  audit_sealed_records, sorted_set, insert_sorted,
}
use ai2_final_thief_edward_d.Sealing.Payload.{to_canonical_dict}
use ai2_final_thief_edward_d.Sealing.Verdict.{all_match, distinct, nonces, counted}
use ai2_final_thief_edward_d.Captures.{score_sub_game, technical_loss, resolve_capture}
use ai2_final_thief_edward_d.Replay.{log_step, record_from_step, verify_log}
use ai2_final_thief_edward_d.Replay.Scores.{ReplayResult, result_of, score_sums, verify_scores}
use ai2_final_thief_edward_d.Replay.Points.{scores_ok, totals_ok, verify_scores-ok}
use ai2_final_thief_edward_d.Replay.Roundtrip.{record_from_step-log_step}
use ai2_final_thief_edward_d.Replay.Verdict.{verify_log-thief}
use ai2_final_thief_edward_d.Replay.Verifier.{
  ReplayConfig, ReplayLog, ReplayBundle, report, verify_replay,
}
use ai2_final_thief_edward_d.Replay.Sound.{Consistent, verify_replay-Consistent}
use ai2_final_thief_edward_d.Replay.Bilateral.{SideDirectory, SideVerification, legacy_schema}
use ai2_final_thief_edward_d.Samples.{nonce_digest, payload, scoring}
use ai2_final_thief_edward_d.Prelude.Dict.{lookup, insert}
use ai2_final_thief_edward_d.Grid.{is_within, apply_direction}
use ai2_final_thief_edward_d.Rules.{
  direction_eq, legal_move_directions, open_directions, apply_move,
}
use ai2_final_thief_edward_d.Lifecycle.{
  new_machine, auditing, apply, resolve, transitions, guards, resolve_table, resolve_live,
  can_apply, force_error,
}
use ai2_final_thief_edward_d.Sealing.Exchange.{commit, acknowledge, reveal}
use ai2_final_thief_edward_d.Scent.{
  empty_scent_field, emit, emit_row, emission_delta, float_lt, tabulate, updated_cell, apply_turn,
  value_fault, count_items, values_fault, row_fault, rows_fault, validate_scent_grid,
}
use ai2_final_thief_edward_d.SubGame.{
  SubGameState, TurnInput, TurnFault, initial, deliver_commit_and_reveal, absorb_public_evidence,
}
use ai2_final_thief_edward_d.Turn.{
  run_turn, run_turn_body, deciding, delivering, seal_turn, resolve_and_advance,
}
use ai2_final_thief_edward_d.Game.{
  SubGameRunResult, run_sub_game, play_sub_game, run_turns, finalize, abort, fast_forward,
}
use ai2_final_thief_edward_d.Game.Turns.{is_loss, IsLegal}
use ai2_final_thief_edward_d.Replay.Played.{run_sub_game-verify_log}
use ai2_final_thief_edward_d.Samples.{arithmetic, deps, cell, staying}

abbrev origin : String → ℤ × ℤ
origin _ = (pos 0, pos 0)

-- Two records of the thief, as it sealed them.
abbrev records : List SealedRecord
records = seal nonce_digest (payload (pos 0) "a") ∷ seal nonce_digest (payload (pos 1) "b") ∷ []

record_from_step-log_step_example :
    record_from_step origin (log_step (seal nonce_digest (payload (pos 0) "a")))
    ≡ some (seal nonce_digest (payload (pos 0) "a"))
unfolding seal
record_from_step-log_step_example =
    record_from_step-log_step origin (seal nonce_digest (payload (pos 0) "a")) refl refl

verify_log-thief_example :
    (verify_log origin nonce_digest (pos 5) (map log_step records) ≡ some [])
    ↔ ((all_match nonce_digest records && distinct (nonces records)) && counted 0 records ≡ true)
unfolding seal
verify_log-thief_example =
    verify_log-thief origin nonce_digest (pos 5) records
      ((refl, refl, refl, refl, refl), ((refl, refl, refl, refl, refl), tt))

-- One sub-game that the thief survived.
abbrev result : ReplayResult
result = record {
  game_uid = some "g";
  config_sha256 = some "c0";
  sub_games =
      record {
        sub_game_number = pos 1;
        result = "survival";
        police_score = pos 5;
        thief_score = pos 10;
        steps = 2;
      }
      ∷ [];
  police_total = pos 5;
  thief_total = pos 10;
  agreement_status = some "agreed";
}

scores_are_right : verify_scores result scoring ≡ some []
unfolding verify_scores result_of score_sub_game score_sums ◌+ℤ◌
scores_are_right = refl

verify_scores-ok_example :
    (verify_scores result scoring ≡ some [])
    ↔ (scores_ok scoring result.sub_games && totals_ok result ≡ true)
verify_scores-ok_example = verify_scores-ok result scoring

abbrev config : ReplayConfig
config = record {
  game_uid = some "g";
  config_sha256 = some "c0";
  sub_game_number = some (pos 1);
  grid_size = pos 5;
  scoring = some scoring;
}

abbrev log : ReplayLog
log = record { game_uid = some "g"; sub_game_number = some (pos 1); steps = map log_step records }

abbrev bundle : ReplayBundle
bundle = record {
  declaration = some (some "g");
  configs = config ∷ [];
  logs = log ∷ [];
  result = some result;
}

verify_replay-Consistent_example :
    (verify_replay origin nonce_digest (some bundle) ≡ some (report []))
    ↔ Consistent origin nonce_digest bundle config result scoring
verify_replay-Consistent_example =
    verify_replay-Consistent origin nonce_digest bundle config [] log [] result scoring refl refl
      refl refl

-- A legacy side: nothing is replayed, and its own verdict is good.
abbrev legacy_side : SideVerification
legacy_side = record {
  verdict = legacy_schema;
  ok = true;
  findings = [];
  independently_verified = false;
  schema_version = str "sealed-turn/2";
}

abbrev legacy_directory : SideDirectory
legacy_directory = record {
  log_files =
      some (record {
        game_uid = none;
        sub_game_number = some (pos 1);
        steps = field "schema_version" (str "sealed-turn/2") end ∷ [];
      })
      ∷ [];
  others = some (none, [], none);
}

-- A thief that stays until it has survived, with a nonce for each step.
abbrev careful : ℕ → SubGameState → TurnInput
careful k s = record (staying k s) { nonce = if s.step == 0 then "n0" else "n1" }

careful-IsLegal : IsLegal careful
unfolding legal_move_directions direction_eq
careful-IsLegal k s = refl

abbrev played : SubGameState × Result TurnFault SubGameRunResult
played =
    run_sub_game arithmetic nonce_digest 5 (pos 1) (cell (pos 2) (pos 2)) new_machine true careful
      deps scoring none

abbrev lost : SubGameRunResult
lost = record {
  result = technical_loss;
  steps_taken = 0;
  records = [];
  audit = none;
  police_score = pos 0;
  thief_score = pos 0;
}

abbrev reported : Result TurnFault SubGameRunResult → SubGameRunResult
reported (ok r) = r
reported (err _) = lost

abbrev is_reported : Result TurnFault SubGameRunResult → Bool
is_reported (ok r) = true
is_reported (err f) = false

settled :
    (o : SubGameState × Result TurnFault SubGameRunResult)
    → is_reported o.1 ≡ true
    → o ≡ (o.0, ok (reported o.1))
settled (s, ok r) h = refl
settled (s, err f) h = ground (arith, h)

is_over : is_reported played.1 ≡ true
unfolding run_sub_game play_sub_game run_turns finalize abort fast_forward initial empty_scent_field
    apply resolve transitions guards resolve_table resolve_live can_apply force_error run_turn
    run_turn_body deciding delivering seal_turn resolve_and_advance absorb_public_evidence
    deliver_commit_and_reveal emit emit_row emission_delta float_lt tabulate updated_cell apply_turn
    value_fault count_items values_fault row_fault rows_fault validate_scent_grid commit acknowledge
    reveal seal hash_payload recompute_matches mismatched_in reused_from audit_sealed_records
    sorted_set insert_sorted apply_move legal_move_directions open_directions direction_eq is_within
    apply_direction ◌+ℤ◌ score_sub_game resolve_capture nonce_digest to_canonical_dict show_ℕ lookup
    insert field_of
is_over = refl

is_audited : played.0.machine.state ≡ auditing
unfolding run_sub_game play_sub_game run_turns finalize abort fast_forward initial empty_scent_field
    apply resolve transitions guards resolve_table resolve_live can_apply force_error run_turn
    run_turn_body deciding delivering seal_turn resolve_and_advance absorb_public_evidence
    deliver_commit_and_reveal emit emit_row emission_delta float_lt tabulate updated_cell apply_turn
    value_fault count_items values_fault row_fault rows_fault validate_scent_grid commit acknowledge
    reveal seal hash_payload recompute_matches mismatched_in reused_from audit_sealed_records
    sorted_set insert_sorted apply_move legal_move_directions open_directions direction_eq is_within
    apply_direction ◌+ℤ◌ score_sub_game resolve_capture nonce_digest to_canonical_dict show_ℕ lookup
    insert field_of
is_audited = refl

run_sub_game-verify_log_example :
    (verify_log origin nonce_digest (pos 5) (map log_step (reported played.1).records) ≡ some [])
    ↔ (is_loss (reported played.1).result ≡ false)
run_sub_game-verify_log_example =
    run_sub_game-verify_log arithmetic nonce_digest origin (pos 5) 5 (pos 1) (cell (pos 2) (pos 2))
      careful deps scoring played.0 (reported played.1) (omega arith) careful-IsLegal
      (settled played is_over) is_audited
