-- ===== src/Buffer.antt =====
-- The wire packet buffer: wirePacketBuffer and its methods, of cmd/packet_capture_wire_buffer.go.
--
-- The mutex makes every operation one step. The clock is an argument: `now` is what the operation hands
-- to flushExpiredLocked, `clock` the later reading by which tryAnnotateLocked measures waiting times.
-- What the buffer hands out is part of the state: the packets written to the pcapng writer, and the
-- records given to the finalize callback, each beside the id it was handled under. The writer and the
-- callback are there, as in startPacketCollector.
pub mod Packets
pub mod Records
pub mod Capacity
pub mod Fresh
use network_observability_cl.Base.{
  ℕ, String, Bool, true, false, not, Option, none, some, List, [], ◌∷◌, ◌++◌, ltb, ◌==◌,
  if◌then◌else◌, length, keep, map,
}
use network_observability_cl.Record.{GenericMap, at, is_text}
use network_observability_cl.Platform.{Platform}
use network_observability_cl.Filters.{CaptureFilters}
use network_observability_cl.Plaintext.{Display, plaintext_timestamp, prepare_unmatched_plaintext}
use network_observability_cl.Packet.{BufferedWirePacket, PendingPlaintext, correlation_window}
use network_observability_cl.Correlation.{mark_annotated, expired, try_annotate, match_round}

pub record WirePacketBuffer : Type 0 where
  pub window : ℕ
  pub filters : CaptureFilters
  pub packets : List BufferedWirePacket
  pub pending : List PendingPlaintext
  pub written : List BufferedWirePacket
  pub exported : List (ℕ × GenericMap)

abbrev pub max_buffered_wire_packets : ℕ
max_buffered_wire_packets = 20000

unfoldable pub new_wire_packet_buffer : ℕ → CaptureFilters → WirePacketBuffer
new_wire_packet_buffer window filters = record {
  window = if window == 0 then correlation_window else window;
  filters = filters;
  packets = [];
  pending = [];
  written = [];
  exported = [];
}

abbrev pub packet_expired : ℕ → ℕ → BufferedWirePacket → Bool
packet_expired window now pkt = expired window now pkt.received_at

abbrev pub record_expired : ℕ → ℕ → PendingPlaintext → Bool
record_expired window now pt = expired window now pt.received_at

-- The packet as Enqueue stores it.
abbrev pub new_packet : ℕ → GenericMap → List ℕ → BufferedWirePacket
new_packet now m frame = record {
  received_at = now;
  packet_time = plaintext_timestamp m;
  generic_map = m;
  frame = frame;
  annotations = [];
  packet_id = none;
  annotated = false;
}

abbrev pub drop_oldest : List BufferedWirePacket → List BufferedWirePacket
drop_oldest [] = []
drop_oldest (pkt ∷ pkts) = pkts

abbrev pub oldest : List BufferedWirePacket → List BufferedWirePacket
oldest [] = []
oldest (pkt ∷ pkts) = pkt ∷ []

-- One packet behind the others; the oldest is written where there are too many.
unfoldable pub append_packet : BufferedWirePacket → WirePacketBuffer → WirePacketBuffer
append_packet pkt b =
    let packets = b.packets ++ pkt ∷ [] in
    if ltb max_buffered_wire_packets (length packets)
    then record b { packets = drop_oldest packets; written = b.written ++ oldest packets }
    else record b { packets = packets }

-- The record as HandlePlaintext stores it.
abbrev pub new_pending : ℕ → GenericMap → ℕ → PendingPlaintext
new_pending now m id = record {
  received_at = now;
  event_time = plaintext_timestamp m;
  fields = m;
  original = m;
  id = id;
  connection_ambiguous = false;
}

-- A packet that does not decode is logged, and the buffer stays as it is.
abbrev pub or_unchanged : WirePacketBuffer → Option WirePacketBuffer → WirePacketBuffer
or_unchanged b none = b
or_unchanged b (some b') = b'

module _ (env : Platform) (show : Display) where
  unfoldable pub match_pending_against_wire : ℕ → Bool → WirePacketBuffer → WirePacketBuffer
  unfolding match_round
  match_pending_against_wire clock final b =
      let r = match_round env show b.filters b.window clock final b.pending b.packets in
      record b { packets = r.packets; pending = r.remaining; exported = b.exported ++ r.exported }

  -- The record of finalizeUnmatchedLocked.
  unfoldable pub unmatched_record : PendingPlaintext → GenericMap
  unmatched_record pt = mark_annotated false (
      if is_text "kernel" (at pt.original "TupleSource")
      then prepare_unmatched_plaintext env pt.original
      else pt.original)

  abbrev pub export_unmatched : PendingPlaintext → ℕ × GenericMap
  export_unmatched pt = (pt.id, unmatched_record pt)

  -- The first half of flushExpiredLocked, which does nothing where no packet is buffered.
  unfoldable pub flush_packets :
      ℕ → ℕ → List BufferedWirePacket → WirePacketBuffer → WirePacketBuffer
  flush_packets now clock [] b = b
  flush_packets now clock (_ ∷ _) b =
      let m = match_pending_against_wire clock false b in
      record m {
        packets = keep (λ pkt. not (packet_expired m.window now pkt)) m.packets;
        written = m.written ++ keep (packet_expired m.window now) m.packets;
      }

  -- The second half.
  unfoldable pub flush_records : ℕ → WirePacketBuffer → WirePacketBuffer
  flush_records now b = record b {
    pending = keep (λ pt. not (record_expired b.window now pt)) b.pending;
    exported = b.exported ++ map export_unmatched (keep (record_expired b.window now) b.pending);
  }

  unfoldable pub flush_expired : ℕ → ℕ → WirePacketBuffer → WirePacketBuffer
  flush_expired now clock b = flush_records now (flush_packets now clock b.packets b)

  -- flushAll, which Close calls once the flush loop is stopped.
  unfoldable pub close : ℕ → WirePacketBuffer → WirePacketBuffer
  close clock b =
      let m = match_pending_against_wire clock true b in
      record m {
        packets = [];
        pending = [];
        written = m.written ++ m.packets;
        exported = m.exported ++ map export_unmatched m.pending;
      }

  -- Enqueue: none where the data does not decode, which the caller logs; the buffer is as it was.
  unfoldable pub enqueue : ℕ → ℕ → GenericMap → String → WirePacketBuffer → Option WirePacketBuffer
  enqueue now clock m data_b64 b = elim (env.decode_base64 data_b64) [
    | none ↦ none
    | some frame ↦ some (
        match_pending_against_wire clock false
          (append_packet (new_packet now m frame) (flush_expired now clock b)))
  ]

  -- The end of HandlePlaintext: the record is exported at once, or waits behind the others.
  unfoldable pub accept_record : ℕ → PendingPlaintext → WirePacketBuffer → WirePacketBuffer
  accept_record clock pt b =
      let a = try_annotate env show b.filters b.window clock false b.packets pt in
      elim a.matched [
        | none ↦ record b { pending = b.pending ++ a.tried ∷ [] }
        | some packets' ↦ record b {
          packets = packets';
          exported = b.exported ++ (a.tried.id, a.tried.fields) ∷ [];
        }
      ]

  unfoldable pub handle_plaintext : ℕ → ℕ → GenericMap → ℕ → WirePacketBuffer → WirePacketBuffer
  handle_plaintext now clock m id b =
      accept_record clock (new_pending now m id) (flush_expired now clock b)
