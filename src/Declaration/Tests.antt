-- ===== src/Declaration/Tests.antt =====
-- A declaration that names its commit by the old name, and its digest by the new one.
use Prim.Native.String.{String}
use ai2_final_thief_edward_d.Prelude.{◌≡◌, refl, false, Option, none, ok}
use ai2_final_thief_edward_d.Prelude.Int.{ℤ, pos}
use ai2_final_thief_edward_d.Json.{null, bool, num, str, nil, cons, Fields, lookup, delete, json_eq}
use ai2_final_thief_edward_d.Replay.{put}
use ai2_final_thief_edward_d.Config.Values.{tuple}
use ai2_final_thief_edward_d.Declaration.{
  HardwareInfo, PeerDeclaration, to_dict, length_of, validate,
}
use ai2_final_thief_edward_d.Declaration.Parsing.{
  normalize_alias, normalize_aliases, known_hardware, read_hardware, int_of, read_fields,
  parse_declaration,
}
use ai2_final_thief_edward_d.Declaration.Parsing.Roundtrip.{
  renamed, legacy_dict, parse_declaration-stable,
}

abbrev digest : String
digest = "0123456789abcdef0123456789abcdef0123456789abcdef0123456789abcdef"

abbrev hardware : HardwareInfo
hardware = record {
  operating_system = str "Linux";
  platform_detail = str "x86_64";
  python_version = str "3.12";
  cpu_model = null;
  cpu_model_status = str "unavailable";
  cpu_cores = num (pos 8);
  ram_gb = null;
  ram_status = str "unavailable";
  gpu_model = null;
  gpu_available = bool false;
  gpu_status = str "unavailable";
  vram_gb = null;
  vram_status = str "unavailable";
}

abbrev declaration : PeerDeclaration
declaration = record {
  schema_version = str "declaration/2";
  game_id = str "g";
  game_uid = str "u";
  role = str "thief";
  group_id = str "ed%do111";
  group_name = str "ed";
  members = cons (str "a") (cons (str "b") nil);
  police_repository = str "p";
  thief_repository = str "t";
  police_mcp_url = str "http://p";
  thief_mcp_url = str "http://t";
  timezone = str "UTC";
  timestamp = str "now";
  token_budget = pos 200000;
  num_sub_games = pos 6;
  shared_config_sha256 = str digest;
  code_version = str "1";
  git_commit = str "abc";
  strategy_class = str "s";
  banter_provider = str "none";
  hardware = hardware;
  content_sha256 = str digest;
}

abbrev no_int : String → Option ℤ
no_int _ = none

abbrev received : Fields
received = renamed "git_commit" "commit_hash" (to_dict declaration)

is_read : parse_declaration no_int received ≡ ok declaration
unfolding parse_declaration normalize_aliases normalize_alias known_hardware read_hardware int_of
    read_fields tuple to_dict validate length_of lookup put delete json_eq
is_read = refl

parse_declaration-stable_example :
    (parse_declaration no_int (to_dict declaration) ≡ ok declaration)
    × (parse_declaration no_int (legacy_dict declaration) ≡ ok declaration)
parse_declaration-stable_example = parse_declaration-stable no_int received declaration is_read
