-- ===== src/Tests/Parts.antt =====
-- The theorems on the other parts at concrete inputs.
use network_observability_cl.Base.{
  ◌↔◌, ◌⊎◌, Bytes, codes, length, ◌≤◌, true, false, none, some, ◌++◌, map, ◌≡◌, ◌≢◌, refl, arith,
}
use network_observability_cl.Base.Permutations.{Perm}
use network_observability_cl.Record.{lookup, truncate_ratio}
use network_observability_cl.Endpoint.{plaintext_has_tuple, flow_tuple_from_map, valid_ip_string}
use network_observability_cl.Endpoint.Port.{port_of_value}
use network_observability_cl.Plaintext.{plaintext_tuple_verified}
use network_observability_cl.Correlation.Rounds.{export_id}
use network_observability_cl.Collector.{
  plaintext_log, shut_down, collect, receive, handle_flow, new_collector, option_enabled,
  handle_plaintext_record, route_plaintext, export_directly,
}
use network_observability_cl.Plaintext.{enrich_plaintext_for_export}
use network_observability_cl.Record.{put}
use network_observability_cl.Collector.Account.{one_to}
use network_observability_cl.Collector.Log.{log_complete}
use network_observability_cl.Platform.{Ip, PlatformLaws, ipv4_zero, ipv6_unspecified}
use network_observability_cl.Plaintext.{overlay_correlated_wire}
use network_observability_cl.Plaintext.Overlay.{overlay_correlated-tuple}
use network_observability_cl.Tests.{local_ip, peer_ip}
use network_observability_cl.Base.{String, Option, str_eq, subst, Bool-cases, inl, inr}
use network_observability_cl.TlsProfile.{compose_tls_config}
use network_observability_cl.TlsProfile.Compose.{Usable, compose-Usable, compose-version}
use network_observability_cl.PayloadText.{
  strip_leading_application_prefix, is_application_text_start, slice_json_object,
}
use network_observability_cl.PayloadText.Cuts.{strip_leading-suffix}
use network_observability_cl.PayloadText.Layers.{unwrap_payload_layers}
use network_observability_cl.PayloadText.Objects.{IsObject}
use network_observability_cl.PayloadText.Objects.Sound.{slice_json_object_iff}
use network_observability_cl.PayloadText.Peeled.{Peeled, unwrap_payload_layers-Peeled}
use network_observability_cl.Tests.{
  some_tables, broken_profile, leaked_prefix, framed_object, two_flows, after_two_flows, reply_map,
  small, plain, bare_record, small_decoders,
}

log_complete_example :
    Perm
      (map export_id (plaintext_log small plain (shut_down small plain 9 after_two_flows)))
      (one_to after_two_flows.last_id)
    × (after_two_flows.last_id ≤ 2)
    × (after_two_flows.completed ≡ false → after_two_flows.last_id ≡ 2)
unfolding collect receive handle_flow new_collector option_enabled handle_plaintext_record
    route_plaintext export_directly lookup plaintext_tuple_verified enrich_plaintext_for_export put
    plaintext_has_tuple valid_ip_string port_of_value truncate_ratio
log_complete_example =
    log_complete small plain "enable_openssl" 100 9 two_flows after_two_flows refl (omega arith)
      refl

compose-Usable_example : Usable (compose_tls_config some_tables (some broken_profile)).settings
compose-Usable_example =
    compose-Usable some_tables (some broken_profile)
      (record { has_version = omega arith; has_ciphers = λ e. cc; known = (omega arith, tt) })

compose-version_example :
    (((compose_tls_config some_tables (some broken_profile)).error ≡ none)
      × (0x0301 ≤ (compose_tls_config some_tables (some broken_profile)).settings.min_version)
      × ((compose_tls_config some_tables (some broken_profile)).settings.min_version ≤ 0x0304))
    ⊎ (((compose_tls_config some_tables (some broken_profile)).error ≢ none)
        × ((compose_tls_config some_tables (some broken_profile)).settings.min_version ≡ 0x0303))
compose-version_example = compose-version some_tables broken_profile

strip_leading-suffix_example :
    ((front : Bytes) × (leaked_prefix ≡ front ++ strip_leading_application_prefix leaked_prefix)
      × (length front ≤ 8))
    × ((strip_leading_application_prefix leaked_prefix ≡ leaked_prefix)
        ⊎ (is_application_text_start (strip_leading_application_prefix leaked_prefix) ≡ true))
    × (strip_leading_application_prefix (strip_leading_application_prefix leaked_prefix)
        ≡ strip_leading_application_prefix leaked_prefix)
strip_leading-suffix_example = strip_leading-suffix leaked_prefix

slice_json_object_iff_example : (slice_json_object framed_object ≡ some (codes "{\"a\":\"}\"}")) ↔ (
    IsObject (codes "{\"a\":\"}\"}")
    × ((rest : Bytes) × (framed_object ≡ codes "{\"a\":\"}\"}" ++ rest)))
slice_json_object_iff_example = slice_json_object_iff framed_object (codes "{\"a\":\"}\"}")

ip_eq : {a b : Ip} → Path (Option Ip) (some a) (some b) → a ≡ b
ip_eq e = cc

reparse_at :
    (k ip : Ip)
    → Path (Option Ip) (some k) (some ip)
    → small.parse_ip (small.ip_string k) ≡ some k
    → small.parse_ip (small.ip_string ip) ≡ some ip
reparse_at k ip h e = subst (λ x. small.parse_ip (small.ip_string x) ≡ some x) (ip_eq h) e

small_reparse :
    (s : String) (ip : Ip)
    → small.parse_ip s ≡ some ip
    → small.parse_ip (small.ip_string ip) ≡ some ip
small_reparse s ip h = elim (Bool-cases (str_eq s "10.0.0.1")) [
  | inl a ↦ reparse_at local_ip ip (rw a at h) refl
  | inr a ↦ elim (Bool-cases (str_eq s "10.0.0.2")) [
    | inl b ↦ reparse_at peer_ip ip (rw (a, b) at h) refl
    | inr b ↦ elim (Bool-cases (str_eq s "0.0.0.0")) [
      | inl c ↦ reparse_at ipv4_zero ip (rw (a, b, c) at h) refl
      | inr c ↦ elim (Bool-cases (str_eq s "::")) [
        | inl d ↦ reparse_at ipv6_unspecified ip (rw (a, b, c, d) at h) refl
        | inr d ↦ cc (rw (a, b, c, d) at h)
      ]
    ]
  ]
]

small_laws : PlatformLaws small
small_laws = record { reparse = small_reparse; empty_text = refl; any_ipv4 = refl; any_ipv6 = refl }

overlay_correlated-tuple_example :
    flow_tuple_from_map small (overlay_correlated_wire small bare_record reply_map)
    ≡ some (record { src_ip = "10.0.0.2"; dst_ip = "10.0.0.1"; src_port = 443; dst_port = 8080 })
unfolding flow_tuple_from_map valid_ip_string lookup port_of_value truncate_ratio
overlay_correlated-tuple_example =
    overlay_correlated-tuple small small_laws bare_record reply_map
      (record { src_ip = "10.0.0.2"; dst_ip = "10.0.0.1"; src_port = 443; dst_port = 8080 }) refl

unwrap_payload_layers-Peeled_example :
    Peeled small_decoders 6 leaked_prefix (unwrap_payload_layers small_decoders leaked_prefix)
unwrap_payload_layers-Peeled_example = unwrap_payload_layers-Peeled small_decoders leaked_prefix
