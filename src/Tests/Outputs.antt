-- ===== src/Tests/Outputs.antt =====
-- The metrics, the key log, the flow database and the TLS settings at concrete inputs.
use network_observability_cl.Base.{
  inl, ◌≡◌, refl, subst, arith, ◌≤◌, ℕ, true, false, none, some, List, [], ◌∷◌, ◌++◌, map, pos,
  length, Bytes, codes,
}
use network_observability_cl.Record.{at, GenericMap, text, integer}
use network_observability_cl.Metrics.{
  Series, Graph, gather, no_bases, take, update_data, series_data, left_out, new_query, first_from,
  add_labels, align, place_samples, zeros,
}
use network_observability_cl.Metrics.Shape.{Shape, update_data-Shape}
use network_observability_cl.Metrics.Aligned.{values_of, series_data-Long, series_data-break}
use network_observability_cl.Table.Columns.{contains_text}
use network_observability_cl.KeyLog.{
  KeyLog, no_keys, embed_tls_keylog, watch_tick, FileEvent, grows, ticks, follow,
}
use network_observability_cl.KeyLog.Follows.{Follows, joined, follow-Follows}
use network_observability_cl.FlowDb.{insertion_of}
use network_observability_cl.FlowDb.Decoded.{inserted_columns, insertion_of-Decoded}
use network_observability_cl.TlsProfile.{
  TlsConfig, TlsSecurityProfile, compose_tls_config, convert_type, convert_spec,
  profile_to_tls_config, apply_settings, cipher_ids, cipher_suite_by_name, suite_in, curve_ids,
  curve_id_by_group, tls_version_from_string,
}
use network_observability_cl.TlsProfile.EnvMap.{EnvNames, config_to_env_map}
use network_observability_cl.TlsProfile.RoundTrip.{
  DifferentNames, InUint16, ReadsAs, config_to_env_map-ReadsAs,
}
use network_observability_cl.TlsProfile.Resolve.{
  Outcome, ok, not_found, Converter, Faults, fetch_tls_profile, resolve, intermediate_profile,
}
use network_observability_cl.TlsProfile.Written.{Written, settings_of, resolve-Written}
use network_observability_cl.Tests.{some_tables}

abbrev series : List ℕ → Series ℕ
series times = record {
  metric = ("node", "a") ∷ [];
  values = map (λ t. record { timestamp = pos t; value = t }) times;
}

abbrev some_graph : Graph ℕ
some_graph = record { query = new_query "up"; labels = []; legends = []; graph_data = [] }

abbrev two_series : List (Series ℕ)
two_series = series (1 ∷ 2 ∷ 3 ∷ []) ∷ series (2 ∷ 3 ∷ []) ∷ []

-- The second series starts at the second timestamp.
aligned_data :
    series_data 0 (gather two_series no_bases) two_series
    ≡ some ((1 ∷ 2 ∷ 3 ∷ []) ∷ (0 ∷ 2 ∷ 3 ∷ []) ∷ [])
unfolding series_data gather align place_samples zeros first_from add_labels contains_text
aligned_data = refl

update_data-Shape_example :
    (after : Graph ℕ) × (update_data 0 (λ labels. labels) two_series some_graph ≡ some after)
    × Shape 0
        (gather (take 25 two_series) no_bases).max_values_len
        (take 25 two_series)
        after.graph_data
    × (length after.legends ≡ length after.graph_data)
    × (length after.legends ≤ 25)
update_data-Shape_example =
    update_data-Shape 0 (λ labels. labels) (series (1 ∷ 2 ∷ 3 ∷ [])) (series (2 ∷ 3 ∷ []) ∷ [])
      some_graph (omega arith, (omega arith, tt))

series_data-Long_example :
    series_data 0
      (gather (series (1 ∷ 2 ∷ []) ∷ series (2 ∷ 3 ∷ []) ∷ []) no_bases)
      (series (1 ∷ 2 ∷ []) ∷ series (2 ∷ 3 ∷ []) ∷ [])
    ≡ some (map (values_of 0) (series (1 ∷ 2 ∷ []) ∷ series (2 ∷ 3 ∷ []) ∷ []))
series_data-Long_example =
    series_data-Long 0 2 (series (1 ∷ 2 ∷ [])) (series (2 ∷ 3 ∷ []) ∷ []) (omega arith)
      (refl, (refl, tt))

abbrev stopped_matrix : List (Series ℕ)
stopped_matrix = series (1 ∷ 2 ∷ 3 ∷ []) ∷ series (1 ∷ 2 ∷ []) ∷ series (4 ∷ 5 ∷ 6 ∷ []) ∷ []

series_data-break_example :
    series_data 0 (gather stopped_matrix no_bases) stopped_matrix
    ≡ some (
        map (values_of 0) (series (1 ∷ 2 ∷ 3 ∷ []) ∷ [])
        ++ left_out (series (1 ∷ 2 ∷ []) ∷ series (4 ∷ 5 ∷ 6 ∷ []) ∷ []))
unfolding gather first_from
series_data-break_example =
    series_data-break 0 (series (1 ∷ 2 ∷ 3 ∷ []) ∷ []) (series (1 ∷ 2 ∷ []))
      (record { timestamp = pos 1; value = 1 }) (record { timestamp = pos 2; value = 2 } ∷ [])
      (series (4 ∷ 5 ∷ 6 ∷ []) ∷ []) (refl, tt) refl (omega arith)
      (inl (pos 1, pos 2 ∷ pos 3 ∷ [], refl, refl))

abbrev key_events : List FileEvent
key_events = ticks true false ∷ grows (codes "CLIENT") ∷ ticks true true ∷ grows (codes "\n") ∷ []

abbrev key_start : Bytes × KeyLog
key_start = (codes "#", embed_tls_keylog (some (codes "#")) true no_keys)

follow-Follows_example :
    Follows (follow key_events key_start).0 (follow key_events key_start).1
    × (joined
          (watch_tick
            (some (follow key_events key_start).0)
            true
            (follow key_events key_start).1).blocks
        ≡ (follow key_events key_start).0)
follow-Follows_example = follow-Follows (codes "#") true true key_events

abbrev plain_flow : GenericMap
plain_flow = ("DnsErrno", integer 3) ∷ ("SrcAddr", text "10.0.0.1") ∷ []

insertion_of-Decoded_example :
    ((insertion_of plain_flow).columns ≡ map (λ c. c.0) inserted_columns)
    × ((insertion_of plain_flow).placeholders ≡ 18)
    × ((insertion_of plain_flow).arguments ≡ map (λ c. at plain_flow c.1) inserted_columns)
    × (length inserted_columns ≡ 18)
insertion_of-Decoded_example = insertion_of-Decoded plain_flow (tt, (tt, tt))

abbrev some_names : EnvNames
some_names = record {
  env_min_version = "TLS_MIN_VERSION";
  env_cipher_suites = "TLS_CIPHER_SUITES";
  env_curve_preferences = "TLS_CURVE_PREFERENCES";
}

some_names-DifferentNames : DifferentNames some_names
some_names-DifferentNames = record {
  version_suites = refl;
  version_curves = refl;
  suites_curves = refl;
}

abbrev some_config : TlsConfig
some_config = record {
  min_version = 771;
  cipher_suites = 0xc02b ∷ 5 ∷ [];
  curve_preferences = 29 ∷ 4588 ∷ [];
}

config_to_env_map-ReadsAs_example :
    ReadsAs some_names (config_to_env_map some_names (some some_config)) some_config
config_to_env_map-ReadsAs_example =
    config_to_env_map-ReadsAs some_names some_names-DifferentNames some_config (record {
      version_in = omega arith;
      suites_in = (omega arith, (omega arith, tt));
      curves_in = (omega arith, (omega arith, tt));
    })

abbrev no_converter : Converter Unit Unit
no_converter = record { nested_profile = λ o. not_found; is_empty = λ s. true; decode = λ s. none }

abbrev no_faults : Faults
no_faults = record { get_fails = false; create_fails = false; update_fails = false }

ok_eq : {a b : TlsSecurityProfile} → Path (Outcome TlsSecurityProfile) (ok a) (ok b) → a ≡ b
ok_eq e = cc

intermediate-InUint16 : InUint16 (settings_of some_tables intermediate_profile)
unfolding compose_tls_config profile_to_tls_config convert_type convert_spec apply_settings
    cipher_ids cipher_suite_by_name suite_in curve_ids curve_id_by_group tls_version_from_string
intermediate-InUint16 = record {
  version_in = omega arith;
  suites_in = (omega arith, tt);
  curves_in = (omega arith, tt);
}

resolve-Written_example :
    Written some_tables some_names no_faults none
      (fetch_tls_profile no_converter not_found)
      (resolve some_tables some_names no_converter not_found no_faults none)
unfolding fetch_tls_profile
resolve-Written_example =
    resolve-Written some_tables some_names some_names-DifferentNames no_converter not_found
      no_faults none
      (λ profile e.
        subst (λ p. InUint16 (settings_of some_tables p)) (ok_eq e) intermediate-InUint16)
