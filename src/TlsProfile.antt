-- ===== src/TlsProfile.antt =====
-- The conversion of an OpenShift TLS security profile into the settings of crypto/tls:
-- internal/pkg/tlsresolver/config.go.
--
-- The tables of the OpenShift and Go packages are parameters: the specifications of the predefined
-- profiles, the IANA names of OpenSSL's cipher suites, the suites that Go knows, and its secure defaults.
pub mod Compose
pub mod EnvMap
pub mod Decimal
pub mod RoundTrip
pub mod Resolve
pub mod Written
pub mod Server
use network_observability_cl.Base.{
  ℕ, String, Bool, true, false, Option, none, some, List, [], ◌∷◌, ◌++◌, ◌==◌, str_eq,
  if◌then◌else◌,
}

-- configv1.TLSProtocolVersion and configv1.TLSGroup: the names that the code knows, and any other.
pub data TlsProtocolVersion : Type 0 where
  tls10 tls11 tls12 tls13 : TlsProtocolVersion
  other_version : String → TlsProtocolVersion

pub data TlsGroup : Type 0 where
  x25519 secp256r1 secp384r1 secp521r1 x25519_mlkem768 secp256r1_mlkem768 secp384r1_mlkem1024 :
      TlsGroup
  other_group : String → TlsGroup

pub record TlsProfileSpec : Type 0 where
  pub ciphers : List String
  pub groups : List TlsGroup
  pub min_tls_version : TlsProtocolVersion

pub data ProfileType : Type 0 where
  old intermediate modern custom_type : ProfileType
  other_type : String → ProfileType

pub record TlsSecurityProfile : Type 0 where
  pub profile_type : ProfileType
  pub custom : Option TlsProfileSpec

-- The fields of tls.Config that are read and written; 0 and the empty list are "not set".
pub record TlsConfig : Type 0 where
  pub min_version : ℕ
  pub cipher_suites : List ℕ
  pub curve_preferences : List ℕ

pub data ProfileError : Type 0 where
  custom_missing : ProfileError
  unknown_type : String → ProfileError
  unknown_version : String → ProfileError

-- Settings beside an error, as profileToTLSConfig and ComposeTLSConfig return them.
pub record Converted : Type 0 where
  pub settings : TlsConfig
  pub error : Option ProfileError

pub record TlsTables : Type 0 where
  -- configv1.TLSProfiles.
  pub old_spec : TlsProfileSpec
  pub intermediate_spec : TlsProfileSpec
  pub modern_spec : TlsProfileSpec
  -- crypto.OpenSSLToIANACipherSuites.
  pub openssl_to_iana : List String → List String
  -- tls.CipherSuites() and tls.InsecureCipherSuites(): names and ids.
  pub cipher_suites : List (String × ℕ)
  pub insecure_cipher_suites : List (String × ℕ)
  -- crypto.SecureTLSConfig(&tls.Config{}).
  pub secure : TlsConfig

abbrev pub no_settings : TlsConfig
no_settings = record { min_version = 0; cipher_suites = []; curve_preferences = [] }

unfoldable pub curve_id_by_group : TlsGroup → Option ℕ
curve_id_by_group x25519 = some 29
curve_id_by_group secp256r1 = some 23
curve_id_by_group secp384r1 = some 24
curve_id_by_group secp521r1 = some 25
curve_id_by_group x25519_mlkem768 = some 4588
curve_id_by_group secp256r1_mlkem768 = some 4587
curve_id_by_group secp384r1_mlkem1024 = some 4589
curve_id_by_group (other_group name) = none

-- The version, 0 beside an error.
unfoldable pub tls_version_from_string : TlsProtocolVersion → ℕ × Option ProfileError
tls_version_from_string tls10 = (0x0301, none)
tls_version_from_string tls11 = (0x0302, none)
tls_version_from_string tls12 = (0x0303, none)
tls_version_from_string tls13 = (0x0304, none)
tls_version_from_string (other_version name) = (0, some (unknown_version name))

-- One of the two loops of cipherSuiteByName; `next` is what follows the loop.
unfoldable pub suite_in : String → List (String × ℕ) → ℕ → ℕ
suite_in name [] next = next
suite_in name ((suite, id) ∷ suites) next =
    let rest = suite_in name suites next in if str_eq suite name then id else rest

unfoldable pub cipher_suite_by_name : TlsTables → String → ℕ
unfolding suite_in
cipher_suite_by_name tables name =
    suite_in name tables.cipher_suites (suite_in name tables.insecure_cipher_suites 0)

-- The two loops of profileToTLSConfig, which skip what Go does not know.
unfoldable pub cipher_ids : TlsTables → List String → List ℕ
cipher_ids tables [] = []
cipher_ids tables (name ∷ names) =
    let rest = cipher_ids tables names in
    let id = cipher_suite_by_name tables name in if id == 0 then rest else id ∷ rest

unfoldable pub curve_ids : List TlsGroup → List ℕ
curve_ids [] = []
curve_ids (group ∷ groups) = elim (curve_id_by_group group) [
  | none ↦ curve_ids groups
  | some id ↦ id ∷ curve_ids groups
]

-- The settings of a specification.
unfoldable pub convert_spec : TlsTables → TlsProfileSpec → Converted
convert_spec tables spec =
    let (version, error) = tls_version_from_string spec.min_tls_version in
    record {
      settings = record {
        min_version = version;
        cipher_suites = cipher_ids tables (tables.openssl_to_iana spec.ciphers);
        curve_preferences = curve_ids spec.groups;
      };
      error = error;
    }

abbrev pub no_conversion : ProfileError → Converted
no_conversion e = record { settings = no_settings; error = some e }

-- The switch on the profile's type, with its custom specification.
unfoldable pub convert_type : TlsTables → ProfileType → Option TlsProfileSpec → Converted
convert_type tables old custom = convert_spec tables tables.old_spec
convert_type tables intermediate custom = convert_spec tables tables.intermediate_spec
convert_type tables modern custom = convert_spec tables tables.modern_spec
convert_type tables custom_type none = no_conversion custom_missing
convert_type tables custom_type (some spec) = convert_spec tables spec
convert_type tables (other_type name) custom = no_conversion (unknown_type name)

unfoldable pub profile_to_tls_config : TlsTables → Option TlsSecurityProfile → Converted
profile_to_tls_config tables none = record { settings = no_settings; error = none }
profile_to_tls_config tables (some p) = convert_type tables p.profile_type p.custom

-- if minVersion != 0 and if len(…) > 0.
abbrev pub or_default : ℕ → ℕ → ℕ
or_default n base = if n == 0 then base else n

abbrev pub or_default_list : List ℕ → List ℕ → List ℕ
or_default_list [] base = base
or_default_list (x ∷ xs) base = x ∷ xs

unfoldable pub apply_settings : TlsConfig → TlsConfig → TlsConfig
apply_settings base s = record {
  min_version = or_default s.min_version base.min_version;
  cipher_suites = or_default_list s.cipher_suites base.cipher_suites;
  curve_preferences = or_default_list s.curve_preferences base.curve_preferences;
}

unfoldable pub compose_tls_config : TlsTables → Option TlsSecurityProfile → Converted
compose_tls_config tables none = record { settings = tables.secure; error = none }
compose_tls_config tables (some p) =
    let c = profile_to_tls_config tables (some p) in
    record { settings = apply_settings tables.secure c.settings; error = c.error }
