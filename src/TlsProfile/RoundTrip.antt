-- ===== src/TlsProfile/RoundTrip.antt =====
-- The entries that ConfigToEnvMap writes are read back as the configuration.
use network_observability_cl.Base.{
  ◌≡◌, refl, sym, ap, ◌∙◌, arith, ℕ, String, false, Option, none, some, List, [], ◌∷◌, map, All,
  ◌==◌, ==_iff, str_eq, str_eq_iff, str_eq_refl, if◌then◌else◌, Bool-cases, inl, inr, if_true,
  if_false,
}
use network_observability_cl.Base.Strings.{split}
use network_observability_cl.Endpoint.Port.{parse_uint16}
use network_observability_cl.TlsProfile.{TlsConfig}
use network_observability_cl.TlsProfile.EnvMap.{
  format_uint16, uint16_slice_to_string, EnvNames, TextMap, assign, assign_ids, config_to_env_map,
}
use network_observability_cl.TlsProfile.Decimal.{Uint16, parse_uint16-format_uint16, ids_read}

-- m[key] on the entries.
unfoldable pub entry : String → TextMap → Option String
entry key [] = none
entry key ((k, s) ∷ entries) = if str_eq k key then some s else entry key entries

-- All of them, or none if one is missing.
unfoldable pub all_some : List (Option ℕ) → Option (List ℕ)
all_some [] = some []
all_some (none ∷ os) = none
all_some (some n ∷ os) = elim (all_some os) [ none ↦ none | some ns ↦ some (n ∷ ns) ]

-- A reader of the entries: a number or a list of numbers, and nothing where there is no entry.
abbrev pub read_ids : Option String → Option (List ℕ)
read_ids none = some []
read_ids (some s) = all_some (map parse_uint16 (split 44 s))

abbrev pub read_version : Option String → Option ℕ
read_version none = some 0
read_version (some s) = parse_uint16 s

pub record ReadsAs (names : EnvNames) (entries : TextMap) (config : TlsConfig) : Type 0 where
  pub version_read : read_version (entry names.env_min_version entries) ≡ some config.min_version
  pub suites_read : read_ids (entry names.env_cipher_suites entries) ≡ some config.cipher_suites
  pub curves_read :
      read_ids (entry names.env_curve_preferences entries) ≡ some config.curve_preferences

-- Numbers that a uint16 holds.
pub record InUint16 (config : TlsConfig) : Type 0 where
  pub version_in : Uint16 config.min_version
  pub suites_in : All Uint16 config.cipher_suites
  pub curves_in : All Uint16 config.curve_preferences

-- The three names of the entries differ.
pub record DifferentNames (names : EnvNames) : Type 0 where
  pub version_suites : str_eq names.env_min_version names.env_cipher_suites ≡ false
  pub version_curves : str_eq names.env_min_version names.env_curve_preferences ≡ false
  pub suites_curves : str_eq names.env_cipher_suites names.env_curve_preferences ≡ false

entry-assign :
    (j k : String) (s : String) (entries : TextMap)
    → entry j (assign k s entries) ≡ (if str_eq k j then some s else entry j entries)
unfolding entry assign
entry-assign j k s [] = refl
entry-assign j k s ((i, t) ∷ entries) =
    ground (arith, str_eq_iff k j, str_eq_iff i k, str_eq_iff i j, entry-assign j k s entries)

all_some-map : (ns : List ℕ) → all_some (map some ns) ≡ some ns
unfolding all_some
all_some-map [] = refl
all_some-map (n ∷ ns) = rw (all_some-map ns) refl

-- The entry of a list of ids.
read-assign_ids :
    (key : String) (ids : List ℕ) (entries : TextMap)
    → All Uint16 ids
    → entry key entries ≡ none
    → read_ids (entry key (assign_ids key ids entries)) ≡ some ids
read-assign_ids key [] entries h absent = rw absent refl
read-assign_ids key (id ∷ ids) entries h absent =
    let text = uint16_slice_to_string (id ∷ ids) in
    ap read_ids (
      entry-assign key key text entries ∙ if_true (some text) (entry key entries) (str_eq_refl key))
    ∙ ap all_some (ids_read id ids h)
    ∙ all_some-map (id ∷ ids)

other-assign_ids :
    (j key : String) (ids : List ℕ) (entries : TextMap)
    → str_eq key j ≡ false
    → entry j (assign_ids key ids entries) ≡ entry j entries
other-assign_ids j key [] entries h = refl
other-assign_ids j key (id ∷ ids) entries h =
    entry-assign j key (uint16_slice_to_string (id ∷ ids)) entries
    ∙ if_false (some (uint16_slice_to_string (id ∷ ids))) (entry j entries) h

different : (j k : String) → str_eq j k ≡ false → str_eq k j ≡ false
different j k h = ground (arith, str_eq_iff j k, str_eq_iff k j, h)

module _ (names : EnvNames) (apart : DifferentNames names) where
  version_entries : ℕ → TextMap
  version_entries v = if v == 0 then [] else assign names.env_min_version (format_uint16 v) []

  entry-version_entries :
      (v : ℕ) (j : String)
      → entry j (version_entries v) ≡ (
          if v == 0
          then none
          else (if str_eq names.env_min_version j then some (format_uint16 v) else none))
  unfolding version_entries entry
  entry-version_entries v j = elim (Bool-cases (v == 0)) [
    | inl unset ↦ rw unset refl
    | inr known ↦ rw known (entry-assign j names.env_min_version (format_uint16 v) [])
  ]

  no_other :
      (v : ℕ) (j : String)
      → str_eq names.env_min_version j ≡ false
      → entry j (version_entries v) ≡ none
  no_other v j h = rw (entry-version_entries v j) (ground (arith, h))

  read-version_entries :
      (v : ℕ) → Uint16 v → read_version (entry names.env_min_version (version_entries v)) ≡ some v
  read-version_entries v h = elim (Bool-cases (v == 0)) [
    | inl unset ↦
        ap read_version (entry-version_entries v names.env_min_version ∙ if_true none _ unset)
        ∙ ap some (sym ((==_iff v 0).0 unset))
    | inr known ↦
        ap read_version (
          entry-version_entries v names.env_min_version
          ∙ if_false none _ known
          ∙ if_true (some (format_uint16 v)) none (str_eq_refl names.env_min_version))
        ∙ parse_uint16-format_uint16 v h
  ]

  -- For names of entries that differ: the entries of a configuration whose numbers a uint16 holds
  -- are read back, by splitting at commas and parsing decimal numbers, as that configuration, where
  -- a missing entry is read as 0 or the empty list.
  pub config_to_env_map-ReadsAs :
      (config : TlsConfig)
      → InUint16 config
      → ReadsAs names (config_to_env_map names (some config)) config
  unfolding config_to_env_map version_entries
  config_to_env_map-ReadsAs config h =
      let version = version_entries config.min_version in
      let suites = assign_ids names.env_cipher_suites config.cipher_suites version in
      let curves_at =
        other-assign_ids names.env_min_version names.env_curve_preferences config.curve_preferences
          suites
          (different names.env_min_version names.env_curve_preferences apart.version_curves) in
      record {
        version_read =
            ap read_version (
              curves_at
              ∙ other-assign_ids names.env_min_version names.env_cipher_suites config.cipher_suites
                  version
                  (different names.env_min_version names.env_cipher_suites apart.version_suites))
            ∙ read-version_entries config.min_version h.version_in;
        suites_read =
            ap read_ids (
              other-assign_ids names.env_cipher_suites names.env_curve_preferences
                config.curve_preferences suites
                (different names.env_cipher_suites names.env_curve_preferences apart.suites_curves))
            ∙ read-assign_ids names.env_cipher_suites config.cipher_suites version h.suites_in
                (no_other config.min_version names.env_cipher_suites apart.version_suites);
        curves_read =
            read-assign_ids names.env_curve_preferences config.curve_preferences suites h.curves_in
              (other-assign_ids names.env_curve_preferences names.env_cipher_suites
                  config.cipher_suites version apart.suites_curves
                ∙ no_other config.min_version names.env_curve_preferences apart.version_curves);
      }
