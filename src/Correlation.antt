-- ===== src/Correlation.antt =====
-- Matching pending records against the buffered packets: tryAnnotateLocked and the loop of
-- matchPendingAgainstWireLocked, of cmd/packet_capture_wire_buffer.go.
--
-- The clock is the reading by which waiting times are measured. An exported record stands beside the
-- id that it was handled under.
pub mod Guards
pub mod Near
pub mod Rounds
use network_observability_cl.Base.{
  ℕ, ◌+◌, Bool, true, false, ◌&&◌, ◌||◌, not, Option, none, some, List, [], ◌∷◌, ltb, leb,
  if◌then◌else◌, get_elem?, set,
}
use network_observability_cl.Record.{GenericMap, Value, put}
use network_observability_cl.Platform.{Platform}
use network_observability_cl.Endpoint.{plaintext_has_tuple}
use network_observability_cl.Filters.{CaptureFilters}
use network_observability_cl.Plaintext.{
  Display, enrich_plaintext_for_export, overlay_correlated_wire,
}
use network_observability_cl.Packet.{BufferedWirePacket, PendingPlaintext}
use network_observability_cl.Selection.{
  Selected, best_wire_match_with_ambiguity, min_annotation_score,
}

abbrev pub mark_annotated : Bool → GenericMap → GenericMap
mark_annotated b m = put "PcapAnnotated" (Value.bool b) m

-- now.Sub(at) >= window, for a window above 0.
abbrev pub expired : ℕ → ℕ → ℕ → Bool
expired window now at = leb (at + window) now

-- score < bound, where none is -1.
abbrev pub below : Option ℕ → ℕ → Bool
below none bound = true
below (some s) bound = ltb s bound

-- What an attempt to annotate leaves: the record, and the packets where it succeeded.
pub record Attempt : Type 0 where
  pub tried : PendingPlaintext
  pub matched : Option (List BufferedWirePacket)

-- What one pass over the pending records leaves.
pub record Round : Type 0 where
  pub packets : List BufferedWirePacket
  pub remaining : List PendingPlaintext
  pub exported : List (ℕ × GenericMap)

module _ (env : Platform) (show : Display) where
  -- The record once it is matched with a packet.
  unfoldable pub matched_record : PendingPlaintext → BufferedWirePacket → PendingPlaintext
  matched_record pt pkt = record pt {
    fields =
        enrich_plaintext_for_export show (overlay_correlated_wire env pt.fields pkt.generic_map);
  }

  unfoldable pub annotate : PendingPlaintext → BufferedWirePacket → BufferedWirePacket
  annotate pt pkt = record pkt {
    packet_id = some pt.id;
    annotated = true;
    annotations = show.comment pt.fields pt.id ∷ [];
  }

  -- The guards of tryAnnotateLocked behind the selection: the packet is free, and a record without
  -- its own tuple waits for the window unless the capture ends.
  unfoldable pub may_annotate : ℕ → ℕ → Bool → PendingPlaintext → BufferedWirePacket → Bool
  may_annotate window clock final pt pkt =
      not pkt.annotated
      && (final
          || plaintext_has_tuple env pt.original
          || expired window clock pt.received_at
          || expired window clock pkt.received_at)

  unfoldable pub annotate_packet :
      ℕ → ℕ → Bool → List BufferedWirePacket → PendingPlaintext → ℕ → BufferedWirePacket → Attempt
  annotate_packet window clock final packets pt i pkt =
      if may_annotate window clock final pt pkt
      then (let after = matched_record pt pkt in
          record {
            tried = record after { fields = mark_annotated true after.fields };
            matched = some (set packets i (annotate after pkt));
          })
      else record { tried = pt; matched = none }

  -- The packet at the selected index is annotated; none is the result false.
  unfoldable pub annotate_at :
      ℕ → ℕ → Bool → List BufferedWirePacket → PendingPlaintext → ℕ → Attempt
  annotate_at window clock final packets pt i = elim (get_elem? packets i) [
    | none ↦ record { tried = pt; matched = none }
    | some pkt ↦ annotate_packet window clock final packets pt i pkt
  ]

  -- What follows the selection, for the selected index.
  unfoldable pub annotate_selected :
      CaptureFilters → ℕ → ℕ → Bool → List BufferedWirePacket → Selected → Option ℕ → Attempt
  annotate_selected filters window clock final packets s none = record {
    tried = s.record_after;
    matched = none;
  }
  annotate_selected filters window clock final packets s (some i) =
      if s.ambiguous || below s.score (min_annotation_score env show filters s.record_after.fields)
      then record { tried = s.record_after; matched = none }
      else annotate_at window clock final packets s.record_after i

  unfoldable pub try_annotate :
      CaptureFilters → ℕ → ℕ → Bool → List BufferedWirePacket → PendingPlaintext → Attempt
  try_annotate filters window clock final packets pt =
      let s = best_wire_match_with_ambiguity env show filters pt packets in
      annotate_selected filters window clock final packets s s.index

  -- The loop of matchPendingAgainstWireLocked: finalizePlaintextLocked exports what is matched.
  unfoldable pub match_round :
      CaptureFilters → ℕ → ℕ → Bool → List PendingPlaintext → List BufferedWirePacket → Round
  match_round filters window clock final [] packets = record {
    packets = packets;
    remaining = [];
    exported = [];
  }
  match_round filters window clock final (pt ∷ pts) packets =
      let a = try_annotate filters window clock final packets pt in
      elim a.matched [
        | none ↦
            let r = match_round filters window clock final pts packets in
            record r { remaining = a.tried ∷ r.remaining }
        | some packets' ↦
            let r = match_round filters window clock final pts packets' in
            record r { exported = (a.tried.id, a.tried.fields) ∷ r.exported }
      ]
