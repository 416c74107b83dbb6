-- ===== src/TlsProfile/Written.antt =====
-- What Resolve of internal/pkg/tlsresolver/resolve.go leaves in the ConfigMap.
use network_observability_cl.Base.{
  ◌≡◌, refl, arith, Bool, true, ◌||◌, Option, none, some, inl, inr, ◌⊎◌, if_cases,
}
use network_observability_cl.TlsProfile.{
  TlsTables, TlsConfig, TlsSecurityProfile, compose_tls_config,
}
use network_observability_cl.TlsProfile.EnvMap.{EnvNames, TextMap}
use network_observability_cl.TlsProfile.RoundTrip.{
  DifferentNames, InUint16, ReadsAs, config_to_env_map-ReadsAs,
}
use network_observability_cl.TlsProfile.Resolve.{
  ResolveError, cannot_create_config_map, cannot_get_config_map, cannot_update_config_map, Outcome,
  ok, error, Reply, Converter, fetch_tls_profile, Faults, Applied, apply_on, apply_config_map,
  resolved_entries, resolve_profile, resolve,
}

abbrev pub settings_of : TlsTables → TlsSecurityProfile → TlsConfig
settings_of tables profile = (compose_tls_config tables (some profile)).settings

-- Some call on the ConfigMap fails.
abbrev pub faulty : Faults → Bool
faulty faults = faults.get_fails || (faults.create_fails || faults.update_fails)

-- Either the ConfigMap is written, and reads as the settings of the profile that was fetched; or an
-- error is returned, of the fetch or of a call that fails, and the ConfigMap is what it was.
abbrev pub Written :
    TlsTables → EnvNames → Faults → Option TextMap → Outcome TlsSecurityProfile → Applied → Type 0
Written tables names faults existing fetched applied =
    ((profile : TlsSecurityProfile) × (entries : TextMap) × (fetched ≡ ok profile)
      × (applied.0 ≡ ok tt)
      × (applied.1 ≡ some entries)
      × ReadsAs names entries (settings_of tables profile))
    ⊎ ((e : ResolveError) × (applied.0 ≡ error e)
        × (applied.1 ≡ existing)
        × ((fetched ≡ error e) ⊎ (faulty faults ≡ true)))

module _ (tables : TlsTables) (names : EnvNames) (apart : DifferentNames names) where
  fresh-Written :
      (faults : Faults) (profile : TlsSecurityProfile) (existing : Option TextMap)
      → InUint16 (settings_of tables profile)
      → Written tables names faults existing
          (ok profile)
          (ok tt, some (resolved_entries tables names profile))
  fresh-Written faults profile existing h = inl (
    profile,
    resolved_entries tables names profile,
    refl,
    refl,
    refl,
    config_to_env_map-ReadsAs names apart (settings_of tables profile) h,
  )

  apply_on-Written :
      (faults : Faults) (profile : TlsSecurityProfile) (existing : Option TextMap)
      → InUint16 (settings_of tables profile)
      → Written tables names faults existing
          (ok profile)
          (apply_on faults (resolved_entries tables names profile) existing)
  apply_on-Written faults profile none h =
      if_cases (Written tables names faults none (ok profile)) faults.create_fails
        (error cannot_create_config_map, none) (ok tt, some (resolved_entries tables names profile))
        (λ broken. inr (cannot_create_config_map, refl, refl, inr (ground (arith, broken))))
        (λ works. fresh-Written faults profile none h)
  apply_on-Written faults profile (some existing) h =
      if_cases (Written tables names faults (some existing) (ok profile)) faults.update_fails
        (error cannot_update_config_map, some existing)
        (ok tt, some (resolved_entries tables names profile))
        (λ broken. inr (cannot_update_config_map, refl, refl, inr (ground (arith, broken))))
        (λ works. fresh-Written faults profile (some existing) h)

  resolve_profile-Written :
      (faults : Faults) (fetched : Outcome TlsSecurityProfile) (existing : Option TextMap)
      → ((profile : TlsSecurityProfile)
          → fetched ≡ ok profile
          → InUint16 (settings_of tables profile))
      → Written tables names faults existing fetched
          (resolve_profile tables names faults fetched existing)
  unfolding apply_config_map
  resolve_profile-Written faults (error e) existing h = inr (e, refl, refl, inl refl)
  resolve_profile-Written faults (ok profile) existing h =
      let entries = resolved_entries tables names profile in
      if_cases (Written tables names faults existing (ok profile)) faults.get_fails
        (error cannot_get_config_map, existing) (apply_on faults entries existing)
        (λ broken. inr (cannot_get_config_map, refl, refl, inr (ground (arith, broken))))
        (λ works. apply_on-Written faults profile existing (h profile refl))

  -- For names of entries that differ and settings whose numbers a uint16 holds: Resolve, once it
  -- has its clients, either returns no error and leaves a ConfigMap that reads back as the settings
  -- composed for the profile that was fetched, or returns an error, that of the fetch or one for a
  -- call on the ConfigMap that fails, and leaves the ConfigMap as it was.
  pub resolve-Written :
      {Obj Spec : Type 0} (converter : Converter Obj Spec) (reply : Reply Obj) (faults : Faults)
      (existing : Option TextMap)
      → ((profile : TlsSecurityProfile)
          → fetch_tls_profile converter reply ≡ ok profile
          → InUint16 (settings_of tables profile))
      → Written tables names faults existing
          (fetch_tls_profile converter reply)
          (resolve tables names converter reply faults existing)
  unfolding resolve
  resolve-Written converter reply faults existing h =
      resolve_profile-Written faults (fetch_tls_profile converter reply) existing h
