-- ===== src/Correlation/Near.antt =====
-- How far apart in time a record and the packet that it annotates can be
-- (cmd/packet_capture_wire_buffer.go).
use network_observability_cl.Base.{ℕ, Bool, true, some, List, ◌≡◌, get_elem?, set, arith}
use network_observability_cl.Platform.{Platform}
use network_observability_cl.Plaintext.{Display}
use network_observability_cl.Filters.{CaptureFilters}
use network_observability_cl.Packet.{BufferedWirePacket, PendingPlaintext}
use network_observability_cl.Timing.{times_correlated}
use network_observability_cl.Timing.Bounds.{Near, times_correlated-Near}
use network_observability_cl.Score.{match_guards}
use network_observability_cl.Score.Connection.{score-parts}
use network_observability_cl.Selection.{prepare_plaintext_for_match}
use network_observability_cl.Correlation.{try_annotate}
use network_observability_cl.Correlation.Guards.{try_annotate-ClearWinner}

module _ (env : Platform) (show : Display) (filters : CaptureFilters) where
  guards-correlated :
      (pkt : BufferedWirePacket) (pt : PendingPlaintext)
      → match_guards env pkt pt ≡ true
      → times_correlated pkt pt ≡ true
  unfolding match_guards
  guards-correlated pkt pt h = ground arith

  -- A record only ever annotates a packet that is near it in time. Where the packet has a capture time
  -- and the record an event time, the event is at most two seconds before the packet and at most five
  -- seconds after it; else the two were received within thirty seconds of each other.
  pub try_annotate-Near :
      (window clock : ℕ) (final : Bool) (pkts after : List BufferedWirePacket)
      (pt : PendingPlaintext)
      → (try_annotate env show filters window clock final pkts pt).matched ≡ some after
      → (i : ℕ) × (pkt : BufferedWirePacket) × (marked : BufferedWirePacket) × (get_elem? pkts i
          ≡ some pkt)
        × (after ≡ set pkts i marked)
        × (marked.packet_id ≡ some pt.id)
        × Near pkt pt
  try_annotate-Near window clock final pkts after pt h =
      let (i, w, marked, changed, id, _) =
        try_annotate-ClearWinner env show filters window clock final pkts after pt h in
      let prepared = prepare_plaintext_for_match env show filters pt in
      let parts = score-parts env show filters w.packet prepared w.scores in
      let near : Near w.packet prepared =
        times_correlated-Near w.packet prepared (guards-correlated w.packet prepared parts.1) in
      (i, w.packet, marked, w.found, changed, id, near)
