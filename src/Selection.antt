-- ===== src/Selection.antt =====
-- The choice of a wire packet for a plaintext record: bestWireMatchWithAmbiguityLocked,
-- minAnnotationScore and preparePlaintextForMatchLocked of cmd/packet_capture_wire_buffer.go.
pub mod Ranking
pub mod Scan
pub mod Winner
use network_observability_cl.Base.{
  ℕ, suc, ◌+◌, String, Bool, true, false, ◌&&◌, ◌||◌, not, Option, none, some, List, [], ◌∷◌, ltb,
  leb, str_eq, if◌then◌else◌, is_some,
}
use network_observability_cl.Record.{GenericMap}
use network_observability_cl.Platform.{Platform}
use network_observability_cl.Endpoint.{
  FlowTuple, flow_tuple_from_map, tuples_equal, tuples_reverse_equal, plaintext_has_tuple,
  plaintext_pod_endpoint, plaintext_peer_ip,
}
use network_observability_cl.Filters.{CaptureFilters, active, enrich_plaintext_from_capture_filters}
use network_observability_cl.Plaintext.{Display}
use network_observability_cl.Packet.{
  BufferedWirePacket, PendingPlaintext, ambiguity_margin, strict_match_base, remote_match_base,
  loose_match_base, filter_match_base,
}
use network_observability_cl.Score.{score_plaintext_wire_match}

-- The variables of the loop. A score or an index of -1 is none.
pub record Best : Type 0 where
  pub index : Option ℕ
  pub score : Option ℕ
  pub second : Option ℕ
  pub connection : Option FlowTuple
  pub multiple : Bool

abbrev pub no_match : Best
no_match = record { index = none; score = none; second = none; connection = none; multiple = false }

-- a > b, where none is -1.
abbrev pub above : Option ℕ → Option ℕ → Bool
above none b = false
above (some a) none = true
above (some a) (some b) = ltb b a

-- hasConnection && !tuplesEqual(connection, tuple) && !tuplesReverseEqual(connection, tuple).
unfoldable pub other_connection : Option FlowTuple → FlowTuple → Bool
other_connection none t = false
other_connection (some c) t = not (tuples_equal c t) && not (tuples_reverse_equal c t)

-- The connection of a packet that scores is noted, also if the packet is taken already.
unfoldable pub note_connection : Option ℕ → Option FlowTuple → Best → Best
unfolding other_connection
note_connection none t best = best
note_connection (some s) none best = best
note_connection (some s) (some t) best = record best {
  connection = some t;
  multiple = best.multiple || other_connection best.connection t;
}

unfoldable pub rank : ℕ → Option ℕ → Best → Best
rank i score best =
    if above score best.score
    then record best { index = some i; score = score; second = best.score }
    else if above score best.second
    then record best { second = score }
    else best

-- One round of the loop.
unfoldable pub consider : ℕ → Bool → Option ℕ → Option FlowTuple → Best → Best
consider i annotated score tuple best =
    if annotated
    then note_connection score tuple best
    else rank i score (note_connection score tuple best)

-- What the selection says: bestIdx and bestScore where there is a best packet, and `ambiguous`.
pub record Selected : Type 0 where
  pub record_after : PendingPlaintext
  pub index : Option ℕ
  pub score : Option ℕ
  pub ambiguous : Bool

abbrev pub within_margin : Option ℕ → Option ℕ → Bool
within_margin none b = false
within_margin (some a) none = false
within_margin (some a) (some b) = leb a (b + ambiguity_margin)

-- bestIdx >= 0 && secondBest >= 0 && bestScore-secondBest <= scoreAmbiguityMargin.
unfoldable pub close_call : Best → Bool
close_call best = is_some best.index && within_margin best.score best.second

-- peerOK && peer != podIP.
abbrev pub other_peer : Option String → String → Bool
other_peer none pod = false
other_peer (some peer) pod = not (str_eq peer pod)

module _ (env : Platform) (show : Display) (filters : CaptureFilters) where
  unfoldable pub scan : PendingPlaintext → ℕ → List BufferedWirePacket → Best → Best
  scan pt i [] best = best
  scan pt i (pkt ∷ pkts) best = scan pt (suc i) pkts (
      consider i pkt.annotated (score_plaintext_wire_match env show pkt pt filters)
        (flow_tuple_from_map env pkt.generic_map) best)

  abbrev pub prepare_plaintext_for_match : PendingPlaintext → PendingPlaintext
  prepare_plaintext_for_match pt = record pt {
    fields = enrich_plaintext_from_capture_filters env pt.fields filters;
  }

  -- What is left to do after the loop.
  unfoldable pub conclude : PendingPlaintext → Best → Selected
  unfolding close_call
  conclude pt best =
      let unclear =
        pt.connection_ambiguous || (not (plaintext_has_tuple env pt.original) && best.multiple) in
      record {
        record_after = record pt { connection_ambiguous = unclear };
        index = best.index;
        score = best.score;
        ambiguous = close_call best || unclear;
      }

  unfoldable pub best_wire_match_with_ambiguity :
      PendingPlaintext → List BufferedWirePacket → Selected
  unfolding scan conclude consider
  best_wire_match_with_ambiguity pt packets =
      let prepared = prepare_plaintext_for_match pt in
      conclude prepared (scan prepared 0 packets no_match)

  abbrev pub filter_or_loose_base : ℕ
  filter_or_loose_base = if active filters then filter_match_base else loose_match_base

  unfoldable pub min_annotation_score : GenericMap → ℕ
  min_annotation_score m =
      if plaintext_has_tuple env m then strict_match_base else elim (plaintext_pod_endpoint env m) [
        | none ↦ filter_or_loose_base
        | some pod ↦
            if not (str_eq pod.0 "") && ltb 0 pod.1
            then (if other_peer (plaintext_peer_ip env m) pod.0
                then remote_match_base
                else loose_match_base)
            else filter_or_loose_base
      ]
