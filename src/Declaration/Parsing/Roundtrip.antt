-- ===== src/Declaration/Parsing/Roundtrip.antt =====
-- What is read from the dicts that a declaration can be sent as.
use Prim.Native.String.{String}
use ai2_final_thief_edward_d.Prelude.{
  ◌≡◌, refl, Bool, true, false, not, Option, arith, Result, Result-cases, inl, inr, ok, err, ◌>>=◌,
  ◌>>◌, raise_if,
}
use ai2_final_thief_edward_d.Prelude.Int.{ℤ}
use ai2_final_thief_edward_d.Json.{Fields, lookup, delete, get}
use ai2_final_thief_edward_d.Replay.{put}
use ai2_final_thief_edward_d.Config.{has_keys, only_keys}
use ai2_final_thief_edward_d.Config.Values.{tuple}
use ai2_final_thief_edward_d.Declaration.{
  DeclarationFailure, unknown_fields, missing_fields, PeerDeclaration, top_level_fields, to_dict,
  validate,
}
use ai2_final_thief_edward_d.Declaration.Parsing.{
  normalize_alias, normalize_aliases, known_hardware, read_hardware, int_of, read_fields,
  parse_declaration,
}

-- The canonical dict has no alias.
normalize_aliases-to_dict : (d : PeerDeclaration) → normalize_aliases (to_dict d) ≡ ok (to_dict d)
unfolding normalize_aliases normalize_alias to_dict lookup
normalize_aliases-to_dict d = refl

only_keys-to_dict : (d : PeerDeclaration) → only_keys top_level_fields (to_dict d) ≡ true
unfolding to_dict
only_keys-to_dict d = refl

has_keys-to_dict : (d : PeerDeclaration) → has_keys top_level_fields (to_dict d) ≡ true
unfolding to_dict lookup
has_keys-to_dict d = refl

-- The check that ends the reading.
checked :
    (r : Result DeclarationFailure PeerDeclaration) (d : PeerDeclaration)
    → (r >>= λ e. validate e >> ok e) ≡ ok d
    → validate d ≡ ok tt
checked (err e) d h = ground (arith, h)
checked (ok e) d h = elim (Result-cases (validate e)) [
  | inl (tt, v) ↦ ground (arith, v, h)
  | inr (f, v) ↦ ground (arith, v, h)
]

guarded :
    (s t : Bool) (r : Result DeclarationFailure PeerDeclaration) (d : PeerDeclaration)
    → (raise_if (not s) unknown_fields
        >> raise_if (not t) missing_fields
        >> (r >>= λ e. validate e >> ok e))
      ≡ ok d
    → validate d ≡ ok tt
guarded false t r d h = ground (arith, h)
guarded true false r d h = ground (arith, h)
guarded true true r d h = checked r d h

-- The dict of a peer that still sends the fields of the first schema under their old names.
abbrev pub renamed : String → String → Fields → Fields
renamed canonical alias fs = put alias (get canonical fs) (delete canonical fs)

abbrev pub legacy_dict : PeerDeclaration → Fields
legacy_dict d =
    renamed "git_commit" "commit_hash" (renamed "shared_config_sha256" "config_sha256" (to_dict d))

abbrev normal_dict : PeerDeclaration → Fields
normal_dict d = put "shared_config_sha256" d.shared_config_sha256 (
    put "git_commit" d.git_commit (delete "git_commit" (delete "shared_config_sha256" (to_dict d))))

normalize_aliases-legacy :
    (d : PeerDeclaration) → normalize_aliases (legacy_dict d) ≡ ok (normal_dict d)
unfolding normalize_aliases normalize_alias to_dict lookup put delete
normalize_aliases-legacy d = refl

only_keys-normal : (d : PeerDeclaration) → only_keys top_level_fields (normal_dict d) ≡ true
unfolding to_dict put delete
only_keys-normal d = refl

has_keys-normal : (d : PeerDeclaration) → has_keys top_level_fields (normal_dict d) ≡ true
unfolding to_dict lookup put delete
has_keys-normal d = refl

module _ (parse_int : String → Option ℤ) where
  read_fields-to_dict : (d : PeerDeclaration) → read_fields parse_int (to_dict d) ≡ ok d
  unfolding read_fields known_hardware read_hardware int_of tuple to_dict lookup
  read_fields-to_dict d = refl

  read_fields-normal : (d : PeerDeclaration) → read_fields parse_int (normal_dict d) ≡ ok d
  unfolding read_fields known_hardware read_hardware int_of tuple to_dict lookup put delete
  read_fields-normal d = refl

  reads :
      (raw fs : Fields) (d : PeerDeclaration)
      → normalize_aliases raw ≡ ok fs
      → only_keys top_level_fields fs ≡ true
      → has_keys top_level_fields fs ≡ true
      → read_fields parse_int fs ≡ ok d
      → validate d ≡ ok tt
      → parse_declaration parse_int raw ≡ ok d
  unfolding parse_declaration
  reads raw fs d n k m r v = rw (n, k, m, r, v) refl

  parse_declaration-to_dict :
      (d : PeerDeclaration) → validate d ≡ ok tt → parse_declaration parse_int (to_dict d) ≡ ok d
  parse_declaration-to_dict d =
      reads (to_dict d) (to_dict d) d (normalize_aliases-to_dict d) (only_keys-to_dict d)
        (has_keys-to_dict d) (read_fields-to_dict d)

  parse_declaration-legacy :
      (d : PeerDeclaration)
      → validate d ≡ ok tt
      → parse_declaration parse_int (legacy_dict d) ≡ ok d
  parse_declaration-legacy d =
      reads (legacy_dict d) (normal_dict d) d (normalize_aliases-legacy d) (only_keys-normal d)
        (has_keys-normal d) (read_fields-normal d)

  parse_declaration-valid :
      (raw : Fields) (d : PeerDeclaration)
      → parse_declaration parse_int raw ≡ ok d
      → validate d ≡ ok tt
  unfolding parse_declaration
  parse_declaration-valid raw d h = elim (Result-cases (normalize_aliases raw)) [
    | inl (fs, e) ↦
        guarded (only_keys top_level_fields fs) (has_keys top_level_fields fs)
          (read_fields parse_int fs) d (ground (arith, e, h))
    | inr (f, e) ↦ ground (arith, e, h)
  ]

  -- Whatever dict a declaration was read from, its canonical dict, and the dict with its digest and its
  -- commit under the names of the first schema, are read as the same declaration.
  pub parse_declaration-stable :
      (raw : Fields) (d : PeerDeclaration)
      → parse_declaration parse_int raw ≡ ok d
      → (parse_declaration parse_int (to_dict d) ≡ ok d)
        × (parse_declaration parse_int (legacy_dict d) ≡ ok d)
  parse_declaration-stable raw d h =
      let v = parse_declaration-valid raw d h in
      (parse_declaration-to_dict d v, parse_declaration-legacy d v)
