-- ===== src/Artifact.antt =====
-- The artifacts that a series leaves: services/artifact_models.py of src/thief_peer. A field keeps the JSON
-- value that it is given where the code does not convert it. A failure says where an exception came, not of
-- which class it is. What `int` reads in a text is an argument.
pub mod Builders
pub mod Roundtrip
mod Tests
use Prim.Native.String.{String}
use ai2_final_thief_edward_d.Prelude.{
  Bool, true, false, not, ◌&&◌, ◌||◌, List, [], ◌∷◌, Option, none, some, if◌then◌else◌, Result, ok,
  err, ◌>>=◌, ◌>>◌, raise_if,
}
use ai2_final_thief_edward_d.Prelude.Int.{ℤ, pos}
use ai2_final_thief_edward_d.Json.{
  Json, null, bool, num, str, arr, obj, Items, nil, cons, Fields, end, field, lookup, get, is_str,
  truthy,
}
use ai2_final_thief_edward_d.Sealing.Audit.{
  SealedRecord, AuditOutcome, verified, tamper_forfeit, AuditReport,
}
use ai2_final_thief_edward_d.Captures.{SubGameResult, capture, survival, technical_loss}
use ai2_final_thief_edward_d.Series.{
  SeriesSubGameRecord, TerminatedReason, completed, technical_loss_ended_series, SeriesResult,
}
use ai2_final_thief_edward_d.Replay.{log_step, get_or_default}
use ai2_final_thief_edward_d.Config.{has_keys}
use ai2_final_thief_edward_d.Config.Values.{tuple}
use ai2_final_thief_edward_d.Declaration.{length_of, is_64}
use ai2_final_thief_edward_d.Declaration.Parsing.{int_of}

pub data ArtifactFailure : Type 0 where
  missing_fields no_identity bad_digest bad_verdict bad_number bad_list : ArtifactFailure

abbrev expect {ℓ} : {A : Type ℓ} → ArtifactFailure → Option A → Result ArtifactFailure A
expect e none = err e
expect e (some a) = ok a

pub record ConfigArtifact : Type 0 where
  pub schema_version : Json
  pub game_uid : Json
  pub game_id : Json
  pub sub_game_number : ℤ
  pub config_sha256 : Json
  pub terms : Json

pub record LogArtifact : Type 0 where
  pub schema_version : Json
  pub game_uid : Json
  pub game_id : Json
  pub sub_game_number : ℤ
  pub steps : Items
  pub audit_verdict : Json
  pub audit_reason : Json

pub record ResultArtifact : Type 0 where
  pub schema_version : Json
  pub game_uid : Json
  pub game_id : Json
  pub git_commit : Json
  pub group_id : Json
  pub config_sha256 : Json
  pub sub_games : Items
  pub police_total : ℤ
  pub thief_total : ℤ
  pub agreement_status : Json
  pub agreed : Bool

abbrev pub config_to_dict : ConfigArtifact → Fields
config_to_dict a = field "schema_version" a.schema_version (
    field "game_uid" a.game_uid (
      field "game_id" a.game_id (
        field "sub_game_number" (num a.sub_game_number)
          (field "config_sha256" a.config_sha256 (field "terms" a.terms end)))))

abbrev pub log_to_dict : LogArtifact → Fields
log_to_dict a = field "schema_version" a.schema_version (
    field "game_uid" a.game_uid (
      field "game_id" a.game_id (
        field "sub_game_number" (num a.sub_game_number) (
          field "steps" (arr a.steps)
            (field "audit_verdict" a.audit_verdict (field "audit_reason" a.audit_reason end))))))

abbrev pub result_to_dict : ResultArtifact → Fields
result_to_dict a = field "schema_version" a.schema_version (
    field "game_uid" a.game_uid (
      field "game_id" a.game_id (
        field "git_commit" a.git_commit (
          field "group_id" a.group_id (
            field "config_sha256" a.config_sha256 (
              field "sub_games" (arr a.sub_games) (
                field "police_total" (num a.police_total) (
                  field "thief_total" (num a.thief_total) (
                    field "agreement_status" a.agreement_status
                      (field "agreed" (bool a.agreed) end))))))))))

unfoldable pub validate_config : ConfigArtifact → Result ArtifactFailure (Unit {0})
unfolding length_of
validate_config a =
    raise_if (not (truthy a.game_uid && truthy a.game_id)) no_identity
    >> raise_if (not (is_64 (length_of a.config_sha256))) bad_digest

unfoldable pub validate_log : LogArtifact → Result ArtifactFailure (Unit {0})
validate_log a =
    raise_if (not (truthy a.game_uid)) no_identity
    >> raise_if (not (is_str a.audit_verdict "verified" || is_str a.audit_verdict "tamper_forfeit"))
        bad_verdict

unfoldable pub validate_result : ResultArtifact → Result ArtifactFailure (Unit {0})
unfolding length_of
validate_result a =
    raise_if (not (truthy a.game_uid && truthy a.group_id)) no_identity
    >> raise_if (not (is_64 (length_of a.config_sha256))) bad_digest

-- `_require`
abbrev pub require_keys : List String → Fields → Result ArtifactFailure (Unit {0})
require_keys keys fs = raise_if (not (has_keys keys fs)) missing_fields

-- `artifact.validate(); return artifact`
abbrev pub validated :
    {A : Type 0} → (A → Result ArtifactFailure (Unit {0})) → A → Result ArtifactFailure A
validated check a = check a >> ok a

module _ (parse_int : String → Option ℤ) where
  unfoldable pub config_from_dict : Fields → Result ArtifactFailure ConfigArtifact
  unfolding validate_config int_of lookup
  config_from_dict fs =
      require_keys ("game_uid" ∷ "game_id" ∷ "sub_game_number" ∷ "config_sha256" ∷ "terms" ∷ []) fs
      >> (expect bad_number (int_of parse_int (get "sub_game_number" fs)) >>= λ number.
          validated validate_config (record {
            schema_version = get_or_default "schema_version" (str "config/1") fs;
            game_uid = get "game_uid" fs;
            game_id = get "game_id" fs;
            sub_game_number = number;
            config_sha256 = get "config_sha256" fs;
            terms = get "terms" fs;
          }))

  unfoldable pub log_from_dict : Fields → Result ArtifactFailure LogArtifact
  unfolding validate_log int_of tuple lookup
  log_from_dict fs =
      require_keys ("game_uid" ∷ "game_id" ∷ "sub_game_number" ∷ "steps" ∷ "audit_verdict" ∷ []) fs
      >> (expect bad_number (int_of parse_int (get "sub_game_number" fs)) >>= λ number.
          expect bad_list (tuple (get "steps" fs)) >>= λ steps. validated validate_log (record {
            schema_version = get_or_default "schema_version" (str "log/1") fs;
            game_uid = get "game_uid" fs;
            game_id = get "game_id" fs;
            sub_game_number = number;
            steps = steps;
            audit_verdict = get "audit_verdict" fs;
            audit_reason = get_or_default "audit_reason" (str "") fs;
          }))

  unfoldable pub result_from_dict : Fields → Result ArtifactFailure ResultArtifact
  unfolding validate_result int_of tuple lookup
  result_from_dict fs =
      require_keys
        ("game_uid" ∷ "game_id" ∷ "git_commit" ∷ "group_id" ∷ "config_sha256" ∷ "sub_games" ∷ []) fs
      >> (expect bad_list (tuple (get "sub_games" fs)) >>= λ games.
          expect bad_number (int_of parse_int (get_or_default "police_total" (num (pos 0)) fs))
          >>= λ police.
              expect bad_number (int_of parse_int (get_or_default "thief_total" (num (pos 0)) fs))
              >>= λ thief. validated validate_result (record {
                schema_version = get_or_default "schema_version" (str "result/1") fs;
                game_uid = get "game_uid" fs;
                game_id = get "game_id" fs;
                git_commit = get "git_commit" fs;
                group_id = get "group_id" fs;
                config_sha256 = get "config_sha256" fs;
                sub_games = games;
                police_total = police;
                thief_total = thief;
                agreement_status = get_or_default "agreement_status" (str "") fs;
                agreed = truthy (get_or_default "agreed" (bool false) fs);
              }))
