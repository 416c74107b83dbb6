-- ===== src/TlsProfile/Compose.antt =====
-- What a composed TLS configuration keeps of the secure defaults, with and without an error.
use network_observability_cl.Base.{
  ℕ, ◌<◌, ◌≤◌, Option, none, some, List, [], ◌∷◌, ◌≡◌, ◌≢◌, ◌⊎◌, inl, inr, refl, arith, All, String,
  if_cases, ◌==◌,
}
use network_observability_cl.TlsProfile.{
  TlsConfig, TlsTables, TlsProtocolVersion, TlsSecurityProfile, TlsProfileSpec, ProfileType,
  ProfileError, Converted, tls_version_from_string, convert_spec, convert_type,
  profile_to_tls_config, or_default, or_default_list, apply_settings, compose_tls_config,
  cipher_ids, cipher_suite_by_name,
}

-- A minimum version and cipher suites are set, and no suite has the id 0 of an unknown one.
pub record Usable (c : TlsConfig) : Type 0 where
  pub has_version : 0 < c.min_version
  pub has_ciphers : c.cipher_suites ≢ []
  pub known : All (λ id. 0 < id) c.cipher_suites

or_default-positive : (n base : ℕ) → 0 < base → 0 < or_default n base
or_default-positive n base h = ground arith

or_default_list-nonempty : (xs base : List ℕ) → base ≢ [] → or_default_list xs base ≢ []
or_default_list-nonempty [] base h = h
or_default_list-nonempty (x ∷ xs) base h = λ e. cc

or_default_list-All :
    (P : ℕ → Type 0) (xs base : List ℕ) → All P xs → All P base → All P (or_default_list xs base)
or_default_list-All P [] base h k = k
or_default_list-All P (x ∷ xs) base h k = h

-- A name of no suite is skipped.
cipher_ids-known :
    (tables : TlsTables) (names : List String) → All (λ id. 0 < id) (cipher_ids tables names)
unfolding cipher_ids
cipher_ids-known tables [] = tt
cipher_ids-known tables (name ∷ names) =
    let rest = cipher_ids-known tables names in
    let id = cipher_suite_by_name tables name in
    if_cases (All (λ id. 0 < id)) (id == 0) (cipher_ids tables names) (id ∷ cipher_ids tables names)
      (λ unknown. rest) (λ found. (ground (arith, found), rest))

KnownSuites : Converted → Type 0
KnownSuites c = All (λ id. 0 < id) c.settings.cipher_suites

convert_spec-known :
    (tables : TlsTables) (spec : TlsProfileSpec) → KnownSuites (convert_spec tables spec)
unfolding convert_spec KnownSuites
convert_spec-known tables spec = cipher_ids-known tables (tables.openssl_to_iana spec.ciphers)

convert_type-known :
    (tables : TlsTables) (t : ProfileType) (custom : Option TlsProfileSpec)
    → KnownSuites (convert_type tables t custom)
unfolding convert_type KnownSuites
convert_type-known tables ProfileType.old custom = convert_spec-known tables tables.old_spec
convert_type-known tables ProfileType.intermediate custom =
    convert_spec-known tables tables.intermediate_spec
convert_type-known tables ProfileType.modern custom = convert_spec-known tables tables.modern_spec
convert_type-known tables ProfileType.custom_type none = tt
convert_type-known tables ProfileType.custom_type (some spec) = convert_spec-known tables spec
convert_type-known tables (ProfileType.other_type name) custom = tt

-- Whatever the profile, and also beside an error, the composed configuration has a minimum version and
-- cipher suites, none of them with the id 0 of an unknown suite, if that holds of the secure defaults;
-- these need not have curves.
pub compose-Usable :
    (tables : TlsTables) (p : Option TlsSecurityProfile)
    → Usable tables.secure
    → Usable (compose_tls_config tables p).settings
unfolding compose_tls_config profile_to_tls_config apply_settings KnownSuites
compose-Usable tables none u = u
compose-Usable tables (some p) u =
    let s = (profile_to_tls_config tables (some p)).settings in
    record {
      has_version = or_default-positive s.min_version tables.secure.min_version u.has_version;
      has_ciphers =
          or_default_list-nonempty s.cipher_suites tables.secure.cipher_suites u.has_ciphers;
      known =
          or_default_list-All (λ id. 0 < id) s.cipher_suites tables.secure.cipher_suites
            (convert_type-known tables p.profile_type p.custom) u.known;
    }

-- The version of a known name is one of TLS 1.0 to TLS 1.3.
InRange : ℕ → Type 0
InRange v = (0x0301 ≤ v) × (v ≤ 0x0304)

-- The two outcomes of a conversion: an error and no version, or a version and no error.
VersionOrError : Converted → Type 0
VersionOrError c =
    ((c.settings.min_version ≡ 0) × (e : ProfileError) × (c.error ≡ some e))
    ⊎ (InRange c.settings.min_version × (c.error ≡ none))

convert_spec-VersionOrError :
    (tables : TlsTables) (spec : TlsProfileSpec) (v : TlsProtocolVersion)
    → spec.min_tls_version ≡ v
    → VersionOrError (convert_spec tables spec)
unfolding convert_spec tls_version_from_string VersionOrError InRange
convert_spec-VersionOrError tables spec TlsProtocolVersion.tls10 e =
    rw e (inr ((omega arith, omega arith), refl))
convert_spec-VersionOrError tables spec TlsProtocolVersion.tls11 e =
    rw e (inr ((omega arith, omega arith), refl))
convert_spec-VersionOrError tables spec TlsProtocolVersion.tls12 e =
    rw e (inr ((omega arith, omega arith), refl))
convert_spec-VersionOrError tables spec TlsProtocolVersion.tls13 e =
    rw e (inr ((omega arith, omega arith), refl))
convert_spec-VersionOrError tables spec (TlsProtocolVersion.other_version name) e =
    rw e (inl (refl, ProfileError.unknown_version name, refl))

convert_type-VersionOrError :
    (tables : TlsTables) (t : ProfileType) (custom : Option TlsProfileSpec)
    → VersionOrError (convert_type tables t custom)
unfolding convert_type VersionOrError
convert_type-VersionOrError tables ProfileType.old custom =
    convert_spec-VersionOrError tables tables.old_spec _ refl
convert_type-VersionOrError tables ProfileType.intermediate custom =
    convert_spec-VersionOrError tables tables.intermediate_spec _ refl
convert_type-VersionOrError tables ProfileType.modern custom =
    convert_spec-VersionOrError tables tables.modern_spec _ refl
convert_type-VersionOrError tables ProfileType.custom_type none =
    inl (refl, ProfileError.custom_missing, refl)
convert_type-VersionOrError tables ProfileType.custom_type (some spec) =
    convert_spec-VersionOrError tables spec _ refl
convert_type-VersionOrError tables (ProfileType.other_type name) custom =
    inl (refl, ProfileError.unknown_type name, refl)

-- A profile either gives the minimum version, which is then one of TLS 1.0 to TLS 1.3, and no error; or
-- an error is returned, and the minimum version is the secure default.
pub compose-version :
    (tables : TlsTables) (p : TlsSecurityProfile)
    → let c = compose_tls_config tables (some p) in
      ((c.error ≡ none) × (0x0301 ≤ c.settings.min_version) × (c.settings.min_version ≤ 0x0304))
      ⊎ ((c.error ≢ none) × (c.settings.min_version ≡ tables.secure.min_version))
unfolding compose_tls_config profile_to_tls_config apply_settings VersionOrError InRange
compose-version tables p = elim (convert_type-VersionOrError tables p.profile_type p.custom) [
  | inl (zero_version, e, failed) ↦ inr (λ x. cc (x, failed), ground (arith, zero_version))
  | inr (range, fine) ↦ inl (fine, ground (arith, range), ground (arith, range))
]
