-- ===== src/Tests.antt =====
-- Concrete inputs for the tests: two addresses, records and packets of one connection, a short
-- capture, a TLS profile, and payloads.
pub mod Sorting
pub mod Cells
pub mod Screens
pub mod Outputs
pub mod Runs
pub mod Witnesses
pub mod Parts
pub mod Payloads
pub mod Captures
use network_observability_cl.Base.{
  Bytes, codes, ℕ, String, Bool, true, false, Option, none, some, List, [], ◌∷◌, ◌≡◌, refl, str_eq,
  if◌then◌else◌,
}
use network_observability_cl.Record.{Values, lookup, GenericMap, Value, integer}
use network_observability_cl.Platform.{Platform, Ip, TcpLayer, ipv4_zero, ipv6_unspecified}
use network_observability_cl.Endpoint.{bytes_eq}
use network_observability_cl.Endpoint.Port.{parse_port_string}
use network_observability_cl.Plaintext.{Display}
use network_observability_cl.Packet.{BufferedWirePacket, PendingPlaintext}
use network_observability_cl.Filters.{CaptureFilters, parse_capture_filters}
use network_observability_cl.Collector.{
  Collector, Arrival, count_bytes, handle_plaintext_record, new_collector, option_enabled,
  enabled_in,
}
use network_observability_cl.TlsProfile.{
  TlsProfileSpec, TlsGroup, TlsProtocolVersion, TlsTables, TlsSecurityProfile, ProfileType,
  compose_tls_config, profile_to_tls_config, convert_type, convert_spec, cipher_ids,
  cipher_suite_by_name, apply_settings, tls_version_from_string,
}
use network_observability_cl.PayloadText.{
  strip_leading_application_prefix, text_within, is_application_text_start, has_any_prefix,
  bytes_after, extract_http_body, bytes_after_first, ellipsize_plaintext_display, cut_at,
  back_to_rune, reversed_onto,
}
use network_observability_cl.PayloadText.Layers.{Decoders}
use network_observability_cl.Columns.{
  name_of, to_proto, to_dscp, to_direction, direction_cell, join_directions, direction_value,
}
use network_observability_cl.History.{Event, wire, plaintext, tick}

abbrev pub local_ip : Ip
local_ip = 0 ∷ 0 ∷ 0 ∷ 0 ∷ 0 ∷ 0 ∷ 0 ∷ 0 ∷ 0 ∷ 0 ∷ 255 ∷ 255 ∷ 10 ∷ 0 ∷ 0 ∷ 1 ∷ []

abbrev pub peer_ip : Ip
peer_ip = 0 ∷ 0 ∷ 0 ∷ 0 ∷ 0 ∷ 0 ∷ 0 ∷ 0 ∷ 0 ∷ 0 ∷ 255 ∷ 255 ∷ 10 ∷ 0 ∷ 0 ∷ 2 ∷ []

-- A platform that knows two addresses and one frame.
abbrev pub small : Platform
small = record {
  parse_ip = λ s.
      if str_eq s "10.0.0.1"
      then some local_ip
      else if str_eq s "10.0.0.2"
      then some peer_ip
      else if str_eq s "0.0.0.0"
      then some ipv4_zero
      else if str_eq s "::"
      then some ipv6_unspecified
      else none;
  ip_string = λ ip.
      if bytes_eq ip local_ip
      then "10.0.0.1"
      else if bytes_eq ip peer_ip
      then "10.0.0.2"
      else if bytes_eq ip ipv4_zero
      then "0.0.0.0"
      else "::";
  parse_cidr = λ s. none;
  decode_base64 = λ s. if str_eq s "AAAA" then some (0 ∷ 0 ∷ 0 ∷ []) else none;
  to_lower = λ s. s;
  decode_tcp = λ t frame. TcpLayer.tcp (1 ∷ 2 ∷ []);
}

abbrev pub plain : Display
plain = record { payload_len = λ m. 2; preview = λ m. "GET /"; comment = λ m id. "plaintext" }

abbrev pub no_filters : CaptureFilters
no_filters = record { ports = []; peer_ips = []; peer_nets = [] }

abbrev pub connection : GenericMap
connection =
    ("SrcAddr", Value.text "10.0.0.1")
    ∷ ("DstAddr", Value.text "10.0.0.2")
    ∷ ("SrcPort", integer 8080)
    ∷ ("DstPort", Value.text "443(https)")
    ∷ []

abbrev pub wire_map : GenericMap
wire_map = ("TimeFlowStartMs", integer 1000) ∷ connection

abbrev pub write_record : GenericMap
write_record = ("TupleSource", Value.text "kernel") ∷ ("Direction", Value.text "write") ∷ wire_map

abbrev pub read_record : GenericMap
read_record = ("TupleSource", Value.text "kernel") ∷ ("Direction", Value.text "read") ∷ wire_map

-- A record that knows no address.
abbrev pub bare_record : GenericMap
bare_record = ("TLSSource", Value.text "openssl") ∷ []

-- A record that knows its local endpoint, and one that knows its peer as well.
abbrev pub local_record : GenericMap
local_record = ("SrcAddr", Value.text "10.0.0.1") ∷ ("SrcPort", integer 8080) ∷ []

abbrev pub pod_record : GenericMap
pod_record = ("DstAddr", Value.text "10.0.0.2") ∷ local_record

-- The packet that goes back.
abbrev pub reply_map : GenericMap
reply_map =
    ("SrcAddr", Value.text "10.0.0.2")
    ∷ ("DstAddr", Value.text "10.0.0.1")
    ∷ ("SrcPort", integer 443)
    ∷ ("DstPort", integer 8080)
    ∷ []

abbrev pub packet_at : ℕ → BufferedWirePacket
packet_at now = record {
  received_at = now;
  packet_time = some 1_000_000_000;
  generic_map = wire_map;
  frame = 0 ∷ 0 ∷ 0 ∷ [];
  annotations = [];
  packet_id = none;
  annotated = false;
}

abbrev pub reply_packet : BufferedWirePacket
reply_packet = record (packet_at 5) { generic_map = reply_map }

abbrev pub annotated_packets : List BufferedWirePacket
annotated_packets =
    record (packet_at 5) { annotations = "plaintext" ∷ []; packet_id = some 7; annotated = true }
    ∷ []

abbrev pub pending_at : ℕ → GenericMap → Bool → PendingPlaintext
pending_at now m ambiguous = record {
  received_at = now;
  event_time = some 1_000_000_000;
  fields = m;
  original = m;
  id = 7;
  connection_ambiguous = ambiguous;
}

-- A packet, a record that matches it, one that does not, a frame that does not decode, and a tick.
abbrev pub short_capture : List Event
short_capture =
    wire 1 1 wire_map "AAAA"
    ∷ plaintext 2 2 write_record 7
    ∷ plaintext 3 3 bare_record 8
    ∷ wire 4 4 wire_map "?"
    ∷ tick 5 5
    ∷ []

-- Two plaintext flows, a verified one and one without a tuple, in a capture with a byte limit of 100.
abbrev pub plaintext_flow : GenericMap → GenericMap
plaintext_flow m = ("RecordType", Value.text "plaintext") ∷ m

abbrev pub two_flows : List Arrival
two_flows =
    Arrival.flow 1 1 10 (some (plaintext_flow write_record))
    ∷ Arrival.flow 2 2 20 (some (plaintext_flow bare_record))
    ∷ []

abbrev pub after_two_flows : Collector
after_two_flows = count_bytes 100 20 (
    handle_plaintext_record small plain 2 2 (plaintext_flow bare_record) (
      count_bytes 100 10 (
        handle_plaintext_record small plain 1 1 (plaintext_flow write_record)
          (new_collector small plain "enable_openssl" true))))

abbrev pub modern_spec : TlsProfileSpec
modern_spec = record {
  ciphers = "ECDHE" ∷ [];
  groups = TlsGroup.x25519 ∷ TlsGroup.other_group "brainpool" ∷ [];
  min_tls_version = TlsProtocolVersion.tls13;
}

abbrev pub some_tables : TlsTables
some_tables = record {
  old_spec = modern_spec;
  intermediate_spec = modern_spec;
  modern_spec = modern_spec;
  openssl_to_iana = λ names. names;
  cipher_suites = ("ECDHE", 0xc02b) ∷ [];
  insecure_cipher_suites = ("RC4", 0x0005) ∷ [];
  secure = record { min_version = 0x0303; cipher_suites = 0xc02b ∷ []; curve_preferences = [] };
}

-- A custom profile with a version that does not exist.
abbrev pub broken_profile : TlsSecurityProfile
broken_profile = record {
  profile_type = ProfileType.custom_type;
  custom = some (record {
    ciphers = "RC4" ∷ "none" ∷ [];
    groups = [];
    min_tls_version = TlsProtocolVersion.other_version "VersionTLS14";
  });
}

abbrev pub leaked_prefix : Bytes
leaked_prefix = 1 ∷ 2 ∷ codes "GET / HTTP/1.1"

-- An object with a brace inside a string, and bytes behind it.
abbrev pub framed_object : Bytes
framed_object = codes "{\"a\":\"}\"}}tail"

-- No object, string or base64 text is decoded, no space is trimmed and every longer rune is printable.
abbrev pub small_decoders : Decoders
small_decoders = record {
  trim_bytes = λ b. b;
  object_of = λ b. none;
  string_of = λ b. none;
  base64 = λ b. none;
  is_print = λ b. true;
}
