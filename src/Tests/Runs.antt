-- ===== src/Tests/Runs.antt =====
-- What the definitions compute at concrete inputs.
use network_observability_cl.Base.{codes, true, false, none, some, [], ◌∷◌, ◌≡◌, refl}
use network_observability_cl.Record.{Values, lookup, Value, integer}
use network_observability_cl.Endpoint.Port.{parse_port_string}
use network_observability_cl.Filters.{parse_capture_filters}
use network_observability_cl.Collector.{option_enabled}
use network_observability_cl.TlsProfile.{
  compose_tls_config, profile_to_tls_config, convert_type, convert_spec, cipher_ids,
  cipher_suite_by_name, apply_settings, tls_version_from_string,
}
use network_observability_cl.PayloadText.{
  strip_leading_application_prefix, text_within, is_application_text_start, has_any_prefix,
  bytes_after, extract_http_body, bytes_after_first, ellipsize_plaintext_display, cut_at,
  back_to_rune, reversed_onto,
}
use network_observability_cl.Columns.{
  name_of, to_proto, to_dscp, to_direction, direction_cell, join_directions, direction_value,
}
use network_observability_cl.Tests.{peer_ip, small, some_tables, broken_profile, leaked_prefix}

port_with_service : parse_port_string " 443 (https)" ≡ some 443
unfolding parse_port_string
port_with_service = refl

port_out_of_range : parse_port_string "65536" ≡ none
unfolding parse_port_string
port_out_of_range = refl

-- The options are split at bars, and a key is read with or without its dashes.
options_parsed :
    parse_capture_filters small "--port=443|peer_ip=10.0.0.2|dport=443|sport=80"
    ≡ record { ports = 443 ∷ 80 ∷ []; peer_ips = peer_ip ∷ []; peer_nets = [] }
unfolding parse_capture_filters
options_parsed = refl

openssl_enabled : option_enabled "--port=80|--enable_openssl=true" "enable_openssl" ≡ true
unfolding option_enabled
openssl_enabled = refl

openssl_disabled : option_enabled "enable_openssl=false" "enable_openssl" ≡ false
unfolding option_enabled
openssl_disabled = refl

custom_ciphers :
    (compose_tls_config some_tables (some broken_profile)).settings.cipher_suites ≡ 0x0005 ∷ []
unfolding compose_tls_config profile_to_tls_config convert_type convert_spec cipher_ids
    cipher_suite_by_name apply_settings tls_version_from_string
custom_ciphers = refl

stripped : strip_leading_application_prefix leaked_prefix ≡ codes "GET / HTTP/1.1"
unfolding strip_leading_application_prefix text_within is_application_text_start has_any_prefix
    bytes_after
stripped = refl

http_body : extract_http_body (codes "HTTP/1.1 200\n\nok") ≡ codes "ok"
unfolding extract_http_body bytes_after bytes_after_first
http_body = refl

-- A cut inside the two bytes of a rune goes back in front of it.
ellipsized : ellipsize_plaintext_display (97 ∷ 0xc3 ∷ 0xa9 ∷ 98 ∷ []) 2 ≡ 97 ∷ codes "..."
unfolding ellipsize_plaintext_display cut_at back_to_rune reversed_onto
ellipsized = refl

-- The protocol of a plaintext record, and a direction that was merged.
tcp_cell : to_proto (λ v. "?") (("Proto", integer 6) ∷ []) "Proto" ≡ some "TCP"
unfolding to_proto lookup name_of
tcp_cell = refl

both_directions :
    to_direction
      (λ v. "?")
      (("FlowDirection", Value.arr (Values.cons (integer 0) (Values.cons (integer 1) Values.nil)))
        ∷ [])
      "FlowDirection"
    ≡ some "Ingress,Egress"
unfolding to_direction direction_cell join_directions direction_value lookup
both_directions = refl

no_dscp : to_dscp (λ v. "?") [] "Dscp" ≡ some "n/a"
unfolding to_dscp lookup
no_dscp = refl
