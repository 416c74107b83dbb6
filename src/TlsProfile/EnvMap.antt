-- ===== src/TlsProfile/EnvMap.antt =====
-- The entries of the ConfigMap: ConfigToEnvMap and uint16SliceToString of
-- internal/pkg/tlsresolver/config.go. The names of the entries are those of package tlsprofile.
use network_observability_cl.Base.{
  ℕ, String, Option, none, some, List, [], ◌∷◌, ◌==◌, str_eq, if◌then◌else◌,
}
use network_observability_cl.Base.Strings.{concat, digits_before}
use network_observability_cl.TlsProfile.{TlsConfig}

-- strconv.FormatUint(n, 10) for a uint16, which has at most five digits.
unfoldable pub format_uint16 : ℕ → String
format_uint16 n = digits_before 5 n String.[]

-- strings.Join(parts, ",") of the ids.
unfoldable pub uint16_slice_to_string : List ℕ → String
uint16_slice_to_string [] = String.[]
uint16_slice_to_string (id ∷ []) = format_uint16 id
uint16_slice_to_string (id ∷ next ∷ ids) =
    concat (format_uint16 id) (String.◌∷◌ "," (uint16_slice_to_string (next ∷ ids)))

-- The names of the entries.
pub record EnvNames : Type 0 where
  pub env_min_version : String
  pub env_cipher_suites : String
  pub env_curve_preferences : String

-- map[string]string.
abbrev pub TextMap : Type 0
TextMap = List (String × String)

-- data[key] = s.
unfoldable pub assign : String → String → TextMap → TextMap
assign key s [] = (key, s) ∷ []
assign key s ((k, t) ∷ data_map) =
    if str_eq k key then (k, s) ∷ data_map else (k, t) ∷ assign key s data_map

abbrev pub assign_ids : String → List ℕ → TextMap → TextMap
assign_ids key [] data_map = data_map
assign_ids key (id ∷ ids) data_map = assign key (uint16_slice_to_string (id ∷ ids)) data_map

-- A missing configuration is none.
unfoldable pub config_to_env_map : EnvNames → Option TlsConfig → TextMap
config_to_env_map names none = []
config_to_env_map names (some config) =
    assign_ids names.env_curve_preferences config.curve_preferences (
      assign_ids names.env_cipher_suites config.cipher_suites (
        if config.min_version == 0
        then []
        else assign names.env_min_version (format_uint16 config.min_version) []))
