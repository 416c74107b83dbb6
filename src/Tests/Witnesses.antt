-- ===== src/Tests/Witnesses.antt =====
-- The theorems on the correlation and the buffer at concrete inputs.
use network_observability_cl.Base.{
  get_elem?, ℕ, is_some, ◌+◌, ◌<◌, true, false, some, [], ◌∷◌, ◌++◌, map, ◌≡◌, ◌≢◌, refl, arith,
  set, All,
}
use network_observability_cl.Base.Permutations.{Perm}
use network_observability_cl.Record.{Value, lookup, truncate_ratio}
use network_observability_cl.Endpoint.{
  plaintext_has_tuple, flow_tuple_from_map, valid_ip_string, tuples_equal, tuples_reverse_equal,
  plaintext_pod_endpoint, plaintext_peer_ip, wire_packet_has_ip_port,
}
use network_observability_cl.Endpoint.Port.{port_of_value}
use network_observability_cl.Plaintext.{
  prepare_unmatched_plaintext, plaintext_tuple_verified, other_side,
}
use network_observability_cl.Plaintext.Unmatched.{lookup-prepare_unmatched}
use network_observability_cl.Correlation.Guards.{
  try_annotate-ClearWinner, try_annotate_waits, connection_ambiguous_stays,
}
use network_observability_cl.Packet.{BufferedWirePacket}
use network_observability_cl.Timing.{times_correlated, time_correlation_bonus, agent_bonus}
use network_observability_cl.Timing.Bounds.{Near}
use network_observability_cl.Correlation.Near.{try_annotate-Near}
use network_observability_cl.Buffer.{new_wire_packet_buffer, close, flush_expired}
use network_observability_cl.Buffer.Capacity.{HasRoom}
use network_observability_cl.Buffer.Fresh.{flush_expired-fresh}
use network_observability_cl.Correlation.{try_annotate, match_round}
use network_observability_cl.Correlation.Rounds.{bare, export_id, pending_id, match_round-ids}
use network_observability_cl.History.{run}
use network_observability_cl.History.Complete.{close-writes_all, close-exports_all, arrivals}
use network_observability_cl.History.Room.{run-HasRoom}
use network_observability_cl.Correlation.{
  matched_record, annotate_selected, annotate_at, annotate_packet, may_annotate, annotate,
}
use network_observability_cl.Filters.{enrich_plaintext_from_capture_filters}
use network_observability_cl.Workload.{
  plaintext_wire_pod_compatible, apply_wire_payload_score_adjustments,
}
use network_observability_cl.Endpoint.{wire_egress_from, wire_ingress_to, wire_packet_has_ip}
use network_observability_cl.Selection.{
  scan, conclude, note_connection, rank, min_annotation_score, best_wire_match_with_ambiguity,
  prepare_plaintext_for_match,
}
use network_observability_cl.Selection.Winner.{ClearWinner}
use network_observability_cl.Score.{
  score_loose_endpoint_match, score_remote_endpoint_match, score_strict_tuple_match,
  score_plaintext_wire_match,
}
use network_observability_cl.Score.{
  match_guards, match_base, plaintext_endpoints_compatible, direction_compatible,
}
use network_observability_cl.Score.Bounds.{time_bonus-keeps-tiers}
use network_observability_cl.Score.Connection.{score-same_connection, travelling}
use network_observability_cl.Endpoint.Laws.{plaintext_has_tuple_iff}
use network_observability_cl.Endpoint.{FlowTuple}
use network_observability_cl.Tests.{
  local_record, pod_record, reply_map, reply_packet, annotated_packets, small, plain, no_filters,
  wire_map, write_record, read_record, bare_record, packet_at, pending_at, short_capture,
}

close-writes_all_example :
    Perm
      (map bare
        (close small plain 9
          (run small plain short_capture (new_wire_packet_buffer 0 no_filters))).written)
      (arrivals small short_capture)
close-writes_all_example = close-writes_all small plain 9 0 no_filters short_capture

close-exports_all_example :
    Perm
      (map export_id
        (close small plain 9
          (run small plain short_capture (new_wire_packet_buffer 0 no_filters))).exported)
      (7 ∷ 8 ∷ [])
close-exports_all_example = close-exports_all small plain 9 0 no_filters short_capture

run-HasRoom_example : HasRoom (run small plain short_capture (new_wire_packet_buffer 0 no_filters))
run-HasRoom_example = run-HasRoom small plain 0 no_filters short_capture

match_round-ids_example :
    Perm
      (map export_id
          (match_round small plain no_filters 30 9 false
            (pending_at 6 write_record false ∷ [])
            (packet_at 5 ∷ [])).exported
        ++ map pending_id
            (match_round small plain no_filters 30 9 false
              (pending_at 6 write_record false ∷ [])
              (packet_at 5 ∷ [])).remaining)
      (7 ∷ [])
match_round-ids_example =
    match_round-ids small plain no_filters 30 9 false (pending_at 6 write_record false ∷ [])
      (packet_at 5 ∷ [])

lookup-prepare_unmatched_example :
    lookup "SrcAddr" (prepare_unmatched_plaintext small read_record) ≡ some (Value.text "10.0.0.2")
unfolding lookup plaintext_tuple_verified plaintext_has_tuple valid_ip_string other_side
    port_of_value truncate_ratio
lookup-prepare_unmatched_example = lookup-prepare_unmatched small read_record "SrcAddr"

try_annotate_waits_example :
    (try_annotate small plain no_filters 30 9 false
      (packet_at 5 ∷ [])
      (pending_at 6 bare_record false)).matched
    ≢ some []
unfolding plaintext_has_tuple valid_ip_string lookup
try_annotate_waits_example =
    try_annotate_waits small plain no_filters 30 9 false (packet_at 5 ∷ []) []
      (pending_at 6 bare_record false) refl refl (omega arith) (omega arith, tt)

connection_ambiguous_stays_example :
    ((try_annotate small plain no_filters 30 9 true
        (packet_at 5 ∷ [])
        (pending_at 6 write_record true)).matched
      ≢ some [])
    × ((try_annotate small plain no_filters 30 9 true
          (packet_at 5 ∷ [])
          (pending_at 6 write_record true)).tried.connection_ambiguous
        ≡ true)
connection_ambiguous_stays_example =
    connection_ambiguous_stays small plain no_filters 30 9 true (packet_at 5 ∷ []) []
      (pending_at 6 write_record true) refl

flush_expired-fresh_example :
    All
      (λ pkt.
        40_000_000_000
        < pkt.received_at
          + (run small plain short_capture (new_wire_packet_buffer 0 no_filters)).window)
      (flush_expired small plain 40_000_000_000 9
        (run small plain short_capture (new_wire_packet_buffer 0 no_filters))).packets
    × All
        (λ pt.
          40_000_000_000
          < pt.received_at
            + (run small plain short_capture (new_wire_packet_buffer 0 no_filters)).window)
        (flush_expired small plain 40_000_000_000 9
          (run small plain short_capture (new_wire_packet_buffer 0 no_filters))).pending
flush_expired-fresh_example =
    flush_expired-fresh small plain 40_000_000_000 9
      (run small plain short_capture (new_wire_packet_buffer 0 no_filters))

time_bonus-keeps-tiers_example :
    (50 + time_correlation_bonus (packet_at 5) (pending_at 6 write_record false) < 75)
    × (75 + time_correlation_bonus (packet_at 5) (pending_at 6 write_record false) < 105)
unfolding score_loose_endpoint_match score_remote_endpoint_match score_strict_tuple_match
    plaintext_pod_endpoint valid_ip_string lookup port_of_value truncate_ratio
    wire_packet_has_ip_port plaintext_peer_ip wire_packet_has_ip flow_tuple_from_map tuples_equal
time_bonus-keeps-tiers_example =
    time_bonus-keeps-tiers small wire_map wire_map wire_map local_record pod_record write_record
      (packet_at 5) (pending_at 6 write_record false) refl refl refl

plaintext_has_tuple_iff_example :
    plaintext_has_tuple small read_record ≡ is_some (flow_tuple_from_map small read_record)
plaintext_has_tuple_iff_example = plaintext_has_tuple_iff small read_record

read_has_tuple : plaintext_has_tuple small read_record ≡ true
unfolding plaintext_has_tuple valid_ip_string lookup port_of_value truncate_ratio
read_has_tuple = refl

reply_scores :
    score_plaintext_wire_match small plain reply_packet (pending_at 6 read_record false) no_filters
    ≡ some 140
unfolding score_plaintext_wire_match match_guards match_base plaintext_has_tuple valid_ip_string
    lookup port_of_value truncate_ratio times_correlated plaintext_wire_pod_compatible
    plaintext_endpoints_compatible direction_compatible plaintext_pod_endpoint wire_ingress_to
    score_strict_tuple_match flow_tuple_from_map tuples_equal tuples_reverse_equal
    time_correlation_bonus apply_wire_payload_score_adjustments agent_bonus
reply_scores = refl

score-same_connection_example :
    (t : FlowTuple) × (flow_tuple_from_map small read_record ≡ some t)
    × (flow_tuple_from_map small reply_map ≡ some (travelling read_record t))
score-same_connection_example =
    score-same_connection small plain no_filters reply_packet (pending_at 6 read_record false)
      read_has_tuple reply_scores

try_annotate-ClearWinner_example :
    (i : ℕ) × (w : ClearWinner small plain no_filters
      (prepare_plaintext_for_match small plain no_filters (pending_at 6 write_record false))
      (packet_at 5 ∷ [])
      i)
    × (marked : BufferedWirePacket) × (annotated_packets ≡ set (packet_at 5 ∷ []) i marked)
    × (marked.packet_id ≡ some 7)
    × (marked.annotated ≡ true)
unfolding try_annotate annotate_selected annotate_at annotate_packet may_annotate
    best_wire_match_with_ambiguity scan conclude note_connection rank
    enrich_plaintext_from_capture_filters min_annotation_score score_plaintext_wire_match
    match_guards match_base annotate plaintext_has_tuple valid_ip_string lookup port_of_value
    truncate_ratio times_correlated plaintext_wire_pod_compatible plaintext_endpoints_compatible
    direction_compatible plaintext_pod_endpoint wire_egress_from score_strict_tuple_match
    flow_tuple_from_map tuples_equal tuples_reverse_equal time_correlation_bonus
    apply_wire_payload_score_adjustments agent_bonus matched_record
try_annotate-ClearWinner_example =
    try_annotate-ClearWinner small plain no_filters 30 9 false (packet_at 5 ∷ []) annotated_packets
      (pending_at 6 write_record false) refl

try_annotate-Near_example :
    (i : ℕ) × (pkt : BufferedWirePacket) × (marked : BufferedWirePacket) × (get_elem?
        (packet_at 5 ∷ [])
        i
      ≡ some pkt)
    × (annotated_packets ≡ set (packet_at 5 ∷ []) i marked)
    × (marked.packet_id ≡ some 7)
    × Near pkt (pending_at 6 write_record false)
unfolding try_annotate annotate_selected annotate_at annotate_packet may_annotate
    best_wire_match_with_ambiguity scan conclude note_connection rank
    enrich_plaintext_from_capture_filters min_annotation_score score_plaintext_wire_match
    match_guards match_base annotate plaintext_has_tuple valid_ip_string lookup port_of_value
    truncate_ratio times_correlated plaintext_wire_pod_compatible plaintext_endpoints_compatible
    direction_compatible plaintext_pod_endpoint wire_egress_from score_strict_tuple_match
    flow_tuple_from_map tuples_equal tuples_reverse_equal time_correlation_bonus
    apply_wire_payload_score_adjustments agent_bonus matched_record
try_annotate-Near_example =
    try_annotate-Near small plain no_filters 30 9 false (packet_at 5 ∷ []) annotated_packets
      (pending_at 6 write_record false) refl
