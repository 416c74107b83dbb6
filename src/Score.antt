-- ===== src/Score.antt =====
-- How well a wire packet fits a plaintext record: scorePlaintextWireMatch, its four tiers and its
-- guards, of cmd/packet_capture_wire_buffer.go. A score of -1, "no match", is none.
pub mod Bounds
pub mod Connection
use network_observability_cl.Base.{
  ℕ, ◌+◌, String, Bool, true, false, ◌&&◌, ◌||◌, not, Option, none, some, ltb, ◌==◌, str_eq,
  if◌then◌else◌, is_some,
}
use network_observability_cl.Record.{GenericMap, at, is_text}
use network_observability_cl.Platform.{Platform}
use network_observability_cl.Endpoint.Port.{map_port_from_generic}
use network_observability_cl.Endpoint.{
  FlowTuple, flow_tuple_from_map, tuples_equal, tuples_reverse_equal, plaintext_has_tuple,
  valid_ip_string, plaintext_pod_endpoint, plaintext_peer_ip, wire_egress_from, wire_ingress_to,
  wire_packet_has_ip, wire_packet_has_ip_port, has_text, has_number, or_else, ◌>>=◌,
}
use network_observability_cl.Filters.{
  CaptureFilters, active, is_nonempty, wire_packet_matches_capture_filters,
}
use network_observability_cl.Plaintext.{Display}
use network_observability_cl.Packet.{
  BufferedWirePacket, PendingPlaintext, strict_match_base, remote_match_base, loose_match_base,
  filter_match_base,
}
use network_observability_cl.Timing.{times_correlated, time_correlation_bonus}
use network_observability_cl.Workload.{
  apply_wire_payload_score_adjustments, plaintext_wire_pod_compatible,
}

abbrev pub is_write : GenericMap → Bool
is_write pt = is_text "write" (at pt "Direction")

abbrev pub is_read : GenericMap → Bool
is_read pt = is_text "read" (at pt "Direction")

abbrev pub one_if : Bool → ℕ
one_if true = 1
one_if false = 0

-- The two direction rewards: 5 for a write that the packet sends, 5 for a read that it delivers.
abbrev pub direction_bonus : GenericMap → Bool → Bool → ℕ
direction_bonus pt sends delivers =
    (if is_write pt && sends then 5 else 0) + (if is_read pt && delivers then 5 else 0)

abbrev pub guard_some {ℓ} : {A : Type ℓ} → Bool → Option A → Option A
guard_some true o = o
guard_some false o = none

module _ (env : Platform) where
  -- One round of plaintextEndpointsCompatible: the address and the port under `addr` and `port`,
  -- where they are known, are those of the wire packet under its own two keys.
  unfoldable pub side_compatible :
      GenericMap → GenericMap → String → String → String → String → Bool
  side_compatible wire pt addr port wire_addr wire_port = elim (valid_ip_string env (at pt addr)) [
    | none ↦ true
    | some ip ↦
        has_text (valid_ip_string env (at wire wire_addr)) ip
        && (elim (map_port_from_generic pt port) [
          | none ↦ true
          | some p ↦ not (ltb 0 p) || has_number (map_port_from_generic wire wire_port) p
        ])
  ]

  unfoldable pub plaintext_endpoints_compatible : GenericMap → GenericMap → Bool
  unfolding side_compatible
  plaintext_endpoints_compatible wire pt =
      if is_read pt
      then side_compatible wire pt "SrcAddr" "SrcPort" "DstAddr" "DstPort"
        && side_compatible wire pt "DstAddr" "DstPort" "SrcAddr" "SrcPort"
      else (side_compatible wire pt "SrcAddr" "SrcPort" "SrcAddr" "SrcPort"
          && side_compatible wire pt "DstAddr" "DstPort" "DstAddr" "DstPort")

  unfoldable pub score_strict_tuple_match : GenericMap → GenericMap → Option ℕ
  score_strict_tuple_match wire pt = do
    pt_tuple ← flow_tuple_from_map env pt
    wire_tuple ← flow_tuple_from_map env wire
    guard_some (tuples_equal wire_tuple pt_tuple || tuples_reverse_equal wire_tuple pt_tuple) (
        some (
          strict_match_base
          + direction_bonus pt (tuples_equal wire_tuple pt_tuple)
              (tuples_reverse_equal wire_tuple pt_tuple)))

  unfoldable pub score_remote_endpoint_match : GenericMap → GenericMap → Option ℕ
  score_remote_endpoint_match wire pt = do
    pod ← plaintext_pod_endpoint env pt
    peer ← plaintext_peer_ip env pt
    guard_some
        (not (str_eq peer pod.0)
          && wire_packet_has_ip_port env wire pod.0 pod.1
          && wire_packet_has_ip env wire peer)
        (some (
          remote_match_base
          + direction_bonus pt
              (wire_egress_from env wire pod.0 pod.1 && wire_packet_has_ip env wire peer)
              (wire_ingress_to env wire pod.0 pod.1 && wire_packet_has_ip env wire peer)))

  unfoldable pub score_loose_endpoint_match : GenericMap → GenericMap → Option ℕ
  score_loose_endpoint_match wire pt = do
    pod ← plaintext_pod_endpoint env pt
    guard_some (wire_packet_has_ip_port env wire pod.0 pod.1) (
        some (
          loose_match_base
          + direction_bonus pt (wire_egress_from env wire pod.0 pod.1)
              (wire_ingress_to env wire pod.0 pod.1)))

  unfoldable pub score_capture_filter_wire_match : GenericMap → CaptureFilters → Option ℕ
  score_capture_filter_wire_match wire filters =
      guard_some (active filters && wire_packet_matches_capture_filters env wire filters) (
        some (
          filter_match_base
          + one_if (is_nonempty filters.ports)
          + one_if (is_nonempty filters.peer_ips || is_nonempty filters.peer_nets)))

  -- The base score: a record with a whole tuple is matched by it alone.
  unfoldable pub match_base : GenericMap → GenericMap → CaptureFilters → Option ℕ
  match_base wire pt filters =
      if plaintext_has_tuple env pt
      then score_strict_tuple_match wire pt
      else or_else (score_strict_tuple_match wire pt) (
          or_else (score_remote_endpoint_match wire pt) (
            or_else (score_loose_endpoint_match wire pt)
              (score_capture_filter_wire_match wire filters)))

  -- The switch on the direction, for the local endpoint that the record keeps first.
  unfoldable pub direction_compatible : GenericMap → GenericMap → Bool
  direction_compatible wire pt = elim (plaintext_pod_endpoint env pt) [
    | none ↦ true
    | some pod ↦
        if is_write pt
        then wire_egress_from env wire pod.0 pod.1
        else if is_read pt
        then wire_ingress_to env wire pod.0 pod.1
        else true
  ]

  -- The four guards in front of the scoring.
  unfoldable pub match_guards : BufferedWirePacket → PendingPlaintext → Bool
  match_guards pkt pt =
      times_correlated pkt pt
      && plaintext_wire_pod_compatible env pkt pt.fields
      && plaintext_endpoints_compatible pkt.generic_map pt.fields
      && direction_compatible pkt.generic_map pt.fields

  module _ (show : Display) where
    unfoldable pub score_plaintext_wire_match :
        BufferedWirePacket → PendingPlaintext → CaptureFilters → Option ℕ
    score_plaintext_wire_match pkt pt filters = guard_some (match_guards pkt pt) (
        match_base pkt.generic_map pt.fields filters >>= λ base.
        apply_wire_payload_score_adjustments env show pkt pt (base + time_correlation_bonus pkt pt))
