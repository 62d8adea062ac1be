-- ===== src/Declaration.antt =====
-- The declaration that a peer makes before a series: domain/declaration.py, domain/declaration_parsing.py and
-- domain/declaration_checks.py of src/thief_peer, with HardwareInfo of domain/hardware.py. The fields keep
-- the JSON values that they are given, since a dataclass does not check its annotations. A failure says where
-- an exception came, not of which class it is. What `int` reads in a text is an argument.
pub mod Parsing
mod Tests
use Prim.Native.String.{String, count}
use ai2_final_thief_edward_d.Prelude.{
  ℕ, zero, suc, Bool, true, false, not, ◌&&◌, ◌||◌, ◌==◌, List, [], ◌∷◌, ◌++◌, Option, none, some,
  if◌then◌else◌, Result, ok, err, ◌>>=◌, ◌>>◌, raise_if,
}
use ai2_final_thief_edward_d.Prelude.Int.{ℤ, pos, ltb_ℤ}
use ai2_final_thief_edward_d.Json.{
  Json, num, str, arr, obj, Items, nil, cons, Fields, end, field, get, json_eq, is_str, truthy,
  count_fields,
}

pub data DeclarationFailure : Type 0 where
  ambiguous : String → DeclarationFailure
  unknown_fields missing_fields bad_hardware bad_members bad_number : DeclarationFailure
  no_group config_digest unsupported_schema bad_role too_few_games content_digest :
      DeclarationFailure

pub record HardwareInfo : Type 0 where
  pub operating_system : Json
  pub platform_detail : Json
  pub python_version : Json
  pub cpu_model : Json
  pub cpu_model_status : Json
  pub cpu_cores : Json
  pub ram_gb : Json
  pub ram_status : Json
  pub gpu_model : Json
  pub gpu_available : Json
  pub gpu_status : Json
  pub vram_gb : Json
  pub vram_status : Json

pub record PeerDeclaration : Type 0 where
  pub schema_version : Json
  pub game_id : Json
  pub game_uid : Json
  pub role : Json
  pub group_id : Json
  pub group_name : Json
  pub members : Items
  pub police_repository : Json
  pub thief_repository : Json
  pub police_mcp_url : Json
  pub thief_mcp_url : Json
  pub timezone : Json
  pub timestamp : Json
  pub token_budget : ℤ
  pub num_sub_games : ℤ
  pub shared_config_sha256 : Json
  pub code_version : Json
  pub git_commit : Json
  pub strategy_class : Json
  pub banter_provider : Json
  pub hardware : HardwareInfo
  pub content_sha256 : Json

abbrev pub hardware_fields : List String
hardware_fields =
    "operating_system" ∷ "platform_detail" ∷ "python_version" ∷ "cpu_model" ∷ "cpu_model_status"
    ∷ "cpu_cores" ∷ "ram_gb" ∷ "ram_status" ∷ "gpu_model" ∷ "gpu_available" ∷ "gpu_status"
    ∷ "vram_gb" ∷ "vram_status" ∷ []

abbrev pub top_level_fields : List String
top_level_fields =
    "schema_version" ∷ "game_id" ∷ "game_uid" ∷ "role" ∷ "group_id" ∷ "group_name" ∷ "members"
    ∷ "police_repository" ∷ "thief_repository" ∷ "police_mcp_url" ∷ "thief_mcp_url" ∷ "timezone"
    ∷ "timestamp" ∷ "token_budget" ∷ "num_sub_games" ∷ "shared_config_sha256" ∷ "code_version"
    ∷ "git_commit" ∷ "strategy_class" ∷ "banter_provider" ∷ "hardware" ∷ "content_sha256" ∷ []

abbrev pub hardware_to_dict : HardwareInfo → Fields
hardware_to_dict hw = field "operating_system" hw.operating_system (
    field "platform_detail" hw.platform_detail (
      field "python_version" hw.python_version (
        field "cpu_model" hw.cpu_model (
          field "cpu_model_status" hw.cpu_model_status (
            field "cpu_cores" hw.cpu_cores (
              field "ram_gb" hw.ram_gb (
                field "ram_status" hw.ram_status (
                  field "gpu_model" hw.gpu_model (
                    field "gpu_available" hw.gpu_available (
                      field "gpu_status" hw.gpu_status (
                        field "vram_gb" hw.vram_gb
                          (field "vram_status" hw.vram_status end))))))))))))

unfoldable pub to_dict : PeerDeclaration → Fields
to_dict d = field "schema_version" d.schema_version (
    field "game_id" d.game_id (
      field "game_uid" d.game_uid (
        field "role" d.role (
          field "group_id" d.group_id (
            field "group_name" d.group_name (
              field "members" (arr d.members) (
                field "police_repository" d.police_repository (
                  field "thief_repository" d.thief_repository (
                    field "police_mcp_url" d.police_mcp_url (
                      field "thief_mcp_url" d.thief_mcp_url (
                        field "timezone" d.timezone (
                          field "timestamp" d.timestamp (
                            field "token_budget" (num d.token_budget) (
                              field "num_sub_games" (num d.num_sub_games) (
                                field "shared_config_sha256" d.shared_config_sha256 (
                                  field "code_version" d.code_version (
                                    field "git_commit" d.git_commit (
                                      field "strategy_class" d.strategy_class (
                                        field "banter_provider" d.banter_provider (
                                          field "hardware" (obj (hardware_to_dict d.hardware)) (
                                            field "content_sha256" d.content_sha256
                                              end)))))))))))))))))))))

abbrev pub items_count : Items → ℕ
items_count nil = zero
items_count (cons x xs) = suc (items_count xs)

-- `len(v)`; no answer where Python raises a TypeError.
unfoldable pub length_of : Json → Option ℕ
unfolding count_fields
length_of (str s) = some (count s)
length_of (arr xs) = some (items_count xs)
length_of (obj fs) = some (count_fields fs)
length_of _ = none

-- `len(v) == 64`
abbrev pub is_64 : Option ℕ → Bool
is_64 (some n) = n == 64
is_64 none = false

unfoldable pub validate : PeerDeclaration → Result DeclarationFailure (Unit {0})
unfolding length_of json_eq
validate d =
    raise_if (not (truthy d.group_id && truthy d.group_name)) no_group
    >> raise_if (not (is_64 (length_of d.shared_config_sha256))) config_digest
    >> raise_if (not (is_str d.schema_version "declaration/2")) unsupported_schema
    >> raise_if (not (is_str d.role "police" || is_str d.role "thief")) bad_role
    >> raise_if (ltb_ℤ d.num_sub_games (pos 1)) too_few_games
    >> raise_if (not (is_64 (length_of d.content_sha256))) content_digest

-- A reason to refuse to play.
pub data Mismatch : Type 0 where
  config_mismatch identity_mismatch schema_mismatch : Mismatch

-- `if test: problems.append(reason)`
abbrev pub noted_if : Bool → Mismatch → List Mismatch
noted_if test reason = if test then reason ∷ [] else []

unfoldable pub declaration_mismatches : PeerDeclaration → String → String → String → List Mismatch
declaration_mismatches d expected_config_sha256 expected_group_id expected_schema_version =
    noted_if (not (is_str d.shared_config_sha256 expected_config_sha256)) config_mismatch
    ++ noted_if (not (is_str d.group_id expected_group_id)) identity_mismatch
    ++ noted_if (not (is_str d.schema_version expected_schema_version)) schema_mismatch
