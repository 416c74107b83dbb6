-- ===== src/TlsProfile/Resolve.antt =====
-- The resolution of the TLS settings: Resolve, fetchTLSProfile and applyConfigMap of
-- internal/pkg/tlsresolver/resolve.go. What the Kubernetes API replies is a parameter.
use network_observability_cl.Base.{Bool, false, Option, none, some, str_eq, if◌then◌else◌}
use network_observability_cl.TlsProfile.{
  TlsTables, TlsSecurityProfile, ProfileType, intermediate, other_type, compose_tls_config,
}
use network_observability_cl.TlsProfile.EnvMap.{EnvNames, TextMap, config_to_env_map}

pub data ResolveError : Type 0 where
  cannot_get_api_server : ResolveError
  cannot_read_profile : ResolveError
  cannot_decode_profile : ResolveError
  cannot_create_config_map : ResolveError
  cannot_get_config_map : ResolveError
  cannot_update_config_map : ResolveError

pub data Outcome (A : Type 0) : Type 0 where
  ok : A → Outcome A
  error : ResolveError → Outcome A

-- What a Get of the API server returns.
pub data Reply (A : Type 0) : Type 0 where
  found : A → Reply A
  not_found : Reply A
  failed : Reply A

-- unstructured.NestedMap (an error, nothing, or a map), len(spec) and FromUnstructured.
pub record Converter (Obj Spec : Type 0) : Type 0 where
  pub nested_profile : Obj → Reply Spec
  pub is_empty : Spec → Bool
  pub decode : Spec → Option TlsSecurityProfile

abbrev pub intermediate_profile : TlsSecurityProfile
intermediate_profile = record { profile_type = intermediate; custom = none }

-- profile.Type == "".
abbrev pub is_unset : ProfileType → Bool
is_unset (other_type name) = str_eq name ""
is_unset _ = false

abbrev pub decoded_profile : Option TlsSecurityProfile → Outcome TlsSecurityProfile
decoded_profile none = error cannot_decode_profile
decoded_profile (some profile) =
    if is_unset profile.profile_type then ok intermediate_profile else ok profile

module _ {Obj Spec : Type 0} (converter : Converter Obj Spec) where
  abbrev pub profile_in : Reply Spec → Outcome TlsSecurityProfile
  profile_in failed = error cannot_read_profile
  profile_in not_found = ok intermediate_profile
  profile_in (found spec) =
      if converter.is_empty spec
      then ok intermediate_profile
      else decoded_profile (converter.decode spec)

  unfoldable pub fetch_tls_profile : Reply Obj → Outcome TlsSecurityProfile
  fetch_tls_profile not_found = ok intermediate_profile
  fetch_tls_profile failed = error cannot_get_api_server
  fetch_tls_profile (found object) = profile_in (converter.nested_profile object)

-- Which calls on the ConfigMap fail.
pub record Faults : Type 0 where
  pub get_fails : Bool
  pub create_fails : Bool
  pub update_fails : Bool

-- What is returned, and the ConfigMap that is left; none is a ConfigMap that does not exist.
abbrev pub Applied : Type 0
Applied = Outcome Unit × Option TextMap

abbrev pub apply_on : Faults → TextMap → Option TextMap → Applied
apply_on faults entries none =
    if faults.create_fails then (error cannot_create_config_map, none) else (ok tt, some entries)
apply_on faults entries (some existing) =
    if faults.update_fails
    then (error cannot_update_config_map, some existing)
    else (ok tt, some entries)

unfoldable pub apply_config_map : Faults → TextMap → Option TextMap → Applied
apply_config_map faults entries existing =
    if faults.get_fails
    then (error cannot_get_config_map, existing)
    else apply_on faults entries existing

module _ (tables : TlsTables) (names : EnvNames) where
  abbrev pub resolved_entries : TlsSecurityProfile → TextMap
  resolved_entries profile =
      config_to_env_map names (some (compose_tls_config tables (some profile)).settings)

  -- The error of ComposeTLSConfig is only logged.
  abbrev pub resolve_profile : Faults → Outcome TlsSecurityProfile → Option TextMap → Applied
  resolve_profile faults (error e) existing = (error e, existing)
  resolve_profile faults (ok profile) existing =
      apply_config_map faults (resolved_entries profile) existing

  unfoldable pub resolve :
      {Obj Spec : Type 0} → Converter Obj Spec → Reply Obj → Faults → Option TextMap → Applied
  resolve converter reply faults existing =
      resolve_profile faults (fetch_tls_profile converter reply) existing
