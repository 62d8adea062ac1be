-- ===== src/Config/Loading.antt =====
-- Which files are loaded, and what is loaded from them.
use Prim.Native.String.{String}
use text.Mathlib.Text.{◌==◌ as str_eq}
use ai2_final_thief_edward_d.Json.Laws.{string_is_eq}
use ai2_final_thief_edward_d.Prelude.{
  sym, inl, inr, Bool-cases, elem, ◌||◌, ◌≡◌, ◌↔◌, refl, Bool, true, false, not, ◌&&◌, Option, none,
  some, List, [], ◌∷◌, ◌++◌, if◌then◌else◌, arith, Result, ok, err, ◌>>=◌, ◌>>◌, raise_if,
}
use ai2_final_thief_edward_d.Json.{
  Json, null, bool, num, float, str, arr, obj, end, field, has_key, Items, Fields, get, lookup,
}
use ai2_final_thief_edward_d.Config.{
  board_keys, scoring_keys, league_keys, limit_keys, pheromone_keys, pheromone_keywords,
  extract_pheromones, require, keywords, only_keys, Sections, SharedGameConfig, required_keys,
  has_keys, tupled, sections_of, validate, from_dict,
}
use ai2_final_thief_edward_d.Config.Values.{tuple, clean, is_comment}
use ai2_final_thief_edward_d.Config.Checks.{
  ConfigFailure, missing_keys, not_an_object, wrong_keys, Check,
}
use ai2_final_thief_edward_d.Config.Rules.{Lawful, raise_if-ok, validate-Lawful}

abbrev config_of : String → Items → Sections → SharedGameConfig
config_of version names s = record {
  schema_version = version;
  agreed_between = names;
  sections = s;
}

-- The end of the loading, once the sections have passed.
abbrev named :
    String → Result ConfigFailure Items → Sections → Result ConfigFailure SharedGameConfig
named version names s = names >>= λ n. ok (config_of version n s)

abbrev NamedBy : String → Result ConfigFailure Items → Sections → SharedGameConfig → Type 0
NamedBy version names s c =
    (s ≡ c.sections) × (names ≡ ok c.agreed_between) × (version ≡ c.schema_version)

named-ok :
    (version : String) (names : Result ConfigFailure Items) (s : Sections) (c : SharedGameConfig)
    → (named version names s ≡ ok c) ↔ NamedBy version names s c
named-ok version (err e) s c = ground arith
named-ok version (ok n) s c = ground arith

passed :
    (a : Check) (r : Result ConfigFailure SharedGameConfig) (c : SharedGameConfig)
    → (a >> r ≡ ok c) ↔ ((a ≡ ok tt) × (r ≡ ok c))
passed (ok tt) r c = ground arith
passed (err e) r c = ground arith

loaded :
    (r : Result ConfigFailure Sections) (v : Sections → Check) (version : String)
    (names : Result ConfigFailure Items) (c : SharedGameConfig)
    → ((r >>= λ s. v s >> named version names s) ≡ ok c) ↔ (
        (r ≡ ok c.sections)
        × (v c.sections ≡ ok tt)
        × (names ≡ ok c.agreed_between)
        × (version ≡ c.schema_version))
loaded (err e) v version names c = ground arith
loaded (ok s) v version names c =
    ground (arith, passed (v s) (named version names s) c, named-ok version names s c)

tupled-ok : (key : String) (v : Json) (xs : Items) → (tupled key v ≡ ok xs) ↔ (tuple v ≡ some xs)
unfolding tupled
tupled-ok key v xs = ground arith

-- A key that is no comment is there.
abbrev is_present : String → Fields → Bool
is_present key end = false
is_present key (field k v fs) = (not (is_comment k) && str_eq key k) || is_present key fs

abbrev all_present : List String → Fields → Bool
all_present [] fs = true
all_present (key ∷ keys) fs = is_present key fs && all_present keys fs

-- Every key is a comment or one of the keys.
abbrev all_among : List String → Fields → Bool
all_among keys end = true
all_among keys (field k v fs) = (is_comment k || elem k keys) && all_among keys fs

has_key-field :
    (key k : String) (v : Json) (fs : Fields)
    → has_key key (field k v fs) ≡ (str_eq key k || has_key key fs)
unfolding lookup
has_key-field key k v fs = by_test (str_eq key k)
  where
    by_test :
        (t : Bool)
        → (elim (if t then some v else lookup key fs) [ none ↦ false | some w ↦ true ])
          ≡ (t || has_key key fs)
    by_test true = refl
    by_test false = refl

has_key-clean : (key : String) (fs : Fields) → has_key key (clean fs) ≡ is_present key fs
unfolding clean lookup
has_key-clean key end = refl
has_key-clean key (field k v fs) = elim (Bool-cases (is_comment k)) [
  | inl e ↦ rw e (has_key-clean key fs)
  | inr e ↦ rw (e, has_key-field key k v (clean fs), has_key-clean key fs) refl
]

has_keys-clean : (keys : List String) (fs : Fields) → has_keys keys (clean fs) ≡ all_present keys fs
has_keys-clean [] fs = refl
has_keys-clean (key ∷ keys) fs = rw (has_key-clean key fs, has_keys-clean keys fs) refl

only_keys-clean : (keys : List String) (fs : Fields) → only_keys keys (clean fs) ≡ all_among keys fs
unfolding clean
only_keys-clean keys end = refl
only_keys-clean keys (field k v fs) = elim (Bool-cases (is_comment k)) [
  | inl e ↦ rw e (only_keys-clean keys fs)
  | inr e ↦ rw (e, only_keys-clean keys fs) refl
]

-- The value of a section is a dict that has, comments aside, each required key and no key but those and
-- the optional ones.
abbrev pub section_ok : List String → List String → Option Json → Bool
section_ok required optional (some (obj fs)) =
    all_present required fs && all_among (required ++ optional) fs
section_ok required optional _ = false

-- Each of the seven sections has the keys of its dataclass.
abbrev pub sections_ok : Fields → Bool
sections_ok raw =
    section_ok board_keys [] (lookup "board_and_agents" raw)
    && (section_ok ("map_area" ∷ "hint_max_words" ∷ []) [] (lookup "world" raw)
        && (section_ok ("move_set" ∷ "max_barriers" ∷ "max_moves" ∷ "survival_threshold" ∷ []) []
              (lookup "movement_and_barriers" raw)
            && (section_ok scoring_keys [] (lookup "scoring" raw)
                && (section_ok pheromone_keys ("pheromone_min_center_intensity" ∷ [])
                      (lookup "pheromones" raw)
                    && (section_ok league_keys [] (lookup "network_and_league" raw)
                        && section_ok limit_keys [] (lookup "rate_limiter_gatekeeper" raw))))))

keywords-section_ok :
    (raw : Fields) (section : String) (required optional : List String) {fs : Fields}
    → keywords raw section required optional ≡ ok fs
    → section_ok required optional (lookup section raw) ≡ true
unfolding keywords require
keywords-section_ok raw section required optional h = by_value (lookup section raw) h
  where
    by_value :
        (v : Option Json) {fs : Fields}
        → ((elim v [
          | some (obj gs) ↦ ok (clean gs)
          | some _ ↦ err (not_an_object section)
          | none ↦ err (not_an_object section)
        ])
            >>= λ gs.
                if has_keys required gs && only_keys (required ++ optional) gs
                then ok gs
                else err (wrong_keys section))
          ≡ ok fs
        → section_ok required optional v ≡ true
    by_value (some (obj gs)) h =
        rw (sym (has_keys-clean required gs), sym (only_keys-clean (required ++ optional) gs))
          (passed_test (has_keys required (clean gs) && only_keys (required ++ optional) (clean gs))
            h)
      where
        passed_test :
            (t : Bool) {fs : Fields}
            → (if t then ok (clean gs) else err (wrong_keys section)) ≡ ok fs
            → t ≡ true
        passed_test t h = ground (arith, h)
    by_value (some null) h = ground (arith, h)
    by_value (some (bool b)) h = ground (arith, h)
    by_value (some (num n)) h = ground (arith, h)
    by_value (some (float x)) h = ground (arith, h)
    by_value (some (str s)) h = ground (arith, h)
    by_value (some (arr xs)) h = ground (arith, h)
    by_value none h = ground (arith, h)

-- A chain of results that ends well has passed its first one.
first_ok {ℓ κ} :
    {A : Type ℓ} {B : Type κ} (r : Result ConfigFailure A) (k : A → Result ConfigFailure B) {b : B}
    → (r >>= k) ≡ ok b
    → (a : A) × (r ≡ ok a) × (k a ≡ ok b)
first_ok (ok a) k h = (a, refl, h)
first_ok (err e) k h = ground (arith, h)

sections_of-sections_ok :
    (raw : Fields) (s : Sections) → sections_of raw ≡ ok s → sections_ok raw ≡ true
unfolding sections_of
sections_of-sections_ok raw s h =
    let a = first_ok (keywords raw "board_and_agents" board_keys []) _ h in
    let b = first_ok (keywords raw "world" ("map_area" ∷ "hint_max_words" ∷ []) []) _ a.2 in
    let c =
      first_ok
        (keywords raw "movement_and_barriers"
          ("move_set" ∷ "max_barriers" ∷ "max_moves" ∷ "survival_threshold" ∷ []) [])
        _ b.2 in
    let d = first_ok (keywords raw "scoring" scoring_keys []) _ c.2 in
    let e = first_ok (pheromone_keywords raw) _ d.2 in
    let p = first_ok (extract_pheromones raw) _ e.1 in
    let f = first_ok (keywords raw "network_and_league" league_keys []) _ e.2 in
    let g = first_ok (keywords raw "rate_limiter_gatekeeper" limit_keys []) _ f.2 in
    rw
      (
        keywords-section_ok raw "board_and_agents" board_keys [] a.1,
        keywords-section_ok raw "world" ("map_area" ∷ "hint_max_words" ∷ []) [] b.1,
        keywords-section_ok raw "movement_and_barriers"
            ("move_set" ∷ "max_barriers" ∷ "max_moves" ∷ "survival_threshold" ∷ []) [] c.1,
        keywords-section_ok raw "scoring" scoring_keys [] d.1,
        keywords-section_ok raw "pheromones" pheromone_keys ("pheromone_min_center_intensity" ∷ [])
            p.2,
        keywords-section_ok raw "network_and_league" league_keys [] f.1,
        keywords-section_ok raw "rate_limiter_gatekeeper" limit_keys [] g.1,
      )
      refl

with_last : {P Q R : Type 0} → (P ↔ Q) → (Q → R) → (P ↔ (Q × R))
with_last f g = (λ p. (f.0 p, g (f.0 p)), λ q. f.1 q.0)

module _ (text_of : Json → String) where
  from_dict-parts :
      (raw : Fields) (c : SharedGameConfig)
      → (from_dict text_of raw ≡ ok c) ↔ (
          (has_keys required_keys raw ≡ true)
          × (sections_of raw ≡ ok c.sections)
          × Lawful c.sections
          × (tuple (get "agreed_between" raw) ≡ some c.agreed_between)
          × (text_of (get "schema_version" raw) ≡ c.schema_version))
  unfolding from_dict
  from_dict-parts raw c =
      let version = text_of (get "schema_version" raw) in
      let names = tupled "agreed_between" (get "agreed_between" raw) in
      ground (
        arith,
        passed (raise_if (not (has_keys required_keys raw)) missing_keys)
            (sections_of raw >>= λ s. validate s >> named version names s) c,
        raise_if-ok (has_keys required_keys raw) missing_keys,
        loaded (sections_of raw) validate version names c,
        validate-Lawful c.sections,
        tupled-ok "agreed_between" (get "agreed_between" raw) c.agreed_between,
      )

  -- A file is loaded exactly if it has all of its keys, its sections can be built, the values follow the
  -- rules of every table (each minimum, each constant, the move set; NaN counts as not below a minimum),
  -- and the names of the peers are a sequence; what is loaded are those sections and names. Each of the
  -- seven sections of a loaded file is a dict with the keys of its dataclass and no others but comments.
  pub from_dict-Lawful :
      (raw : Fields) (c : SharedGameConfig)
      → (from_dict text_of raw ≡ ok c) ↔ (
          ((has_keys required_keys raw ≡ true)
            × (sections_of raw ≡ ok c.sections)
            × Lawful c.sections
            × (tuple (get "agreed_between" raw) ≡ some c.agreed_between)
            × (text_of (get "schema_version" raw) ≡ c.schema_version))
          × (sections_ok raw ≡ true))
  from_dict-Lawful raw c =
      with_last (from_dict-parts raw c) (λ h. sections_of-sections_ok raw c.sections h.1)
