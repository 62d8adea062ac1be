-- ===== src/Declaration/Parsing.antt =====
-- Reading a declaration: domain/declaration_parsing.py of src/thief_peer.
pub mod Roundtrip
use Prim.Native.Nat.{◌^◌}
use Prim.Native.String.{String}
use ai2_final_thief_edward_d.Prelude.{
  ℕ, suc, ◌+◌, ◌-◌, ◌/◌, Bool, true, false, not, ◌&&◌, Option, none, some, List, [], ◌∷◌,
  if◌then◌else◌, Result, ok, err, ◌>>=◌, ◌>>◌, raise_if, and_then,
}
use ai2_final_thief_edward_d.Prelude.Int.{ℤ, pos, negsuc, sub_ℕ}
use ai2_final_thief_edward_d.Json.{
  Json, bool, num, float, str, obj, dyadic, Items, Fields, lookup, get, delete, json_eq,
}
use ai2_final_thief_edward_d.Replay.{put}
use ai2_final_thief_edward_d.Config.{has_keys, only_keys}
use ai2_final_thief_edward_d.Config.Values.{tuple}
use ai2_final_thief_edward_d.Declaration.{
  DeclarationFailure, ambiguous, unknown_fields, missing_fields, bad_hardware, bad_members,
  bad_number, HardwareInfo, PeerDeclaration, hardware_fields, top_level_fields, validate,
}

-- One round of the loop over the aliases.
unfoldable pub normalize_alias : String → String → Fields → Result DeclarationFailure Fields
unfolding lookup delete put json_eq
normalize_alias alias canonical raw = elim (lookup alias raw) [
  | none ↦ ok raw
  | some v ↦ elim (lookup canonical (delete alias raw)) [
    | none ↦ ok (put canonical v (delete alias raw))
    | some w ↦ if json_eq w v then ok (delete alias raw) else err (ambiguous alias)
  ]
]

unfoldable pub normalize_aliases : Fields → Result DeclarationFailure Fields
unfolding normalize_alias
normalize_aliases raw = normalize_alias "commit_hash" "git_commit" raw >>= λ fs.
    normalize_alias "config_sha256" "shared_config_sha256" fs

-- A value, or the exception.
abbrev pub expect {ℓ} : {A : Type ℓ} → DeclarationFailure → Option A → Result DeclarationFailure A
expect e none = err e
expect e (some a) = ok a

-- `HardwareInfo(**{k: hw_raw[k] for k in HARDWARE_FIELDS})`, for a dict with these keys and no others.
abbrev pub hardware_from : Fields → HardwareInfo
hardware_from fs = record {
  operating_system = get "operating_system" fs;
  platform_detail = get "platform_detail" fs;
  python_version = get "python_version" fs;
  cpu_model = get "cpu_model" fs;
  cpu_model_status = get "cpu_model_status" fs;
  cpu_cores = get "cpu_cores" fs;
  ram_gb = get "ram_gb" fs;
  ram_status = get "ram_status" fs;
  gpu_model = get "gpu_model" fs;
  gpu_available = get "gpu_available" fs;
  gpu_status = get "gpu_status" fs;
  vram_gb = get "vram_gb" fs;
  vram_status = get "vram_status" fs;
}

-- The keys of the hardware are known; what is no dict is refused at once.
unfoldable pub known_hardware : Json → Result DeclarationFailure Fields
known_hardware (obj fs) = raise_if (not (only_keys hardware_fields fs)) bad_hardware >> ok fs
known_hardware _ = err bad_hardware

unfoldable pub read_hardware : Fields → Result DeclarationFailure HardwareInfo
unfolding lookup
read_hardware fs =
    raise_if (not (has_keys hardware_fields fs)) bad_hardware >> ok (hardware_from fs)

module _ (parse_int : String → Option ℤ) where
  -- `int(v)`; a float loses what is behind its point.
  unfoldable pub int_of : Json → Option ℤ
  int_of (bool true) = some (pos 1)
  int_of (bool false) = some (pos 0)
  int_of (num n) = some n
  int_of (float (dyadic (pos m) k)) = some (pos (m / 2 ^ k))
  int_of (float (dyadic (negsuc m) k)) = some (sub_ℕ 0 (suc m / 2 ^ k))
  int_of (str s) = parse_int s
  int_of _ = none

  -- The declaration that the dict's values make, before its check.
  unfoldable pub read_fields : Fields → Result DeclarationFailure PeerDeclaration
  unfolding known_hardware read_hardware int_of tuple lookup
  read_fields fs = known_hardware (get "hardware" fs) >>= λ hw_raw.
      expect bad_members (tuple (get "members" fs)) >>= λ members.
      expect bad_number (int_of (get "token_budget" fs)) >>= λ token_budget.
      expect bad_number (int_of (get "num_sub_games" fs)) >>= λ num_sub_games.
      read_hardware hw_raw >>= λ hardware. ok (record {
        schema_version = get "schema_version" fs;
        game_id = get "game_id" fs;
        game_uid = get "game_uid" fs;
        role = get "role" fs;
        group_id = get "group_id" fs;
        group_name = get "group_name" fs;
        members = members;
        police_repository = get "police_repository" fs;
        thief_repository = get "thief_repository" fs;
        police_mcp_url = get "police_mcp_url" fs;
        thief_mcp_url = get "thief_mcp_url" fs;
        timezone = get "timezone" fs;
        timestamp = get "timestamp" fs;
        token_budget = token_budget;
        num_sub_games = num_sub_games;
        shared_config_sha256 = get "shared_config_sha256" fs;
        code_version = get "code_version" fs;
        git_commit = get "git_commit" fs;
        strategy_class = get "strategy_class" fs;
        banter_provider = get "banter_provider" fs;
        hardware = hardware;
        content_sha256 = get "content_sha256" fs;
      })

  unfoldable pub parse_declaration : Fields → Result DeclarationFailure PeerDeclaration
  unfolding normalize_aliases read_fields validate lookup
  parse_declaration raw = normalize_aliases raw >>= λ fs.
      raise_if (not (only_keys top_level_fields fs)) unknown_fields
      >> raise_if (not (has_keys top_level_fields fs)) missing_fields
      >> (read_fields fs >>= λ d. validate d >> ok d)
