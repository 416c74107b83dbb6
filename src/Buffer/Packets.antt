-- ===== src/Buffer/Packets.antt =====
-- No operation of the buffer loses a packet or makes one up.
use mathlib.Core.List.{map-append, append_assoc, append-nil}
use mathlib.Core.List.Perm
use network_observability_cl.Base.{
  ℕ, String, Bool, true, false, Option, none, some, List, [], ◌∷◌, ◌++◌, map, ◌≡◌, inl, inr, refl,
  sym, ◌∙◌, ap, subst, keep, Bytes, ltb, length, Bool-cases, Option-cases,
}
use network_observability_cl.Base.Permutations.{Perm, keep-perm, behind}
use network_observability_cl.Record.{GenericMap}
use network_observability_cl.Platform.{Platform}
use network_observability_cl.Plaintext.{Display}
use network_observability_cl.Packet.{BufferedWirePacket, PendingPlaintext}
use network_observability_cl.Correlation.{try_annotate}
use network_observability_cl.Correlation.Rounds.{bare, match_round-bare, try_annotate-bare}
use network_observability_cl.Buffer.{
  WirePacketBuffer, or_unchanged, match_pending_against_wire, flush_packets, flush_records,
  flush_expired, close, append_packet, enqueue, accept_record, handle_plaintext, packet_expired,
  drop_oldest, oldest, max_buffered_wire_packets, new_packet,
}

-- Every packet that was accepted, without the notes on it: written ones first.
abbrev pub accepted : WirePacketBuffer → List BufferedWirePacket
accepted b = map bare (b.written ++ b.packets)

oldest-drop_oldest : (pkts : List BufferedWirePacket) → oldest pkts ++ drop_oldest pkts ≡ pkts
oldest-drop_oldest [] = refl
oldest-drop_oldest (x ∷ xs) = refl

accepted-append_packet :
    (pkt : BufferedWirePacket) (b : WirePacketBuffer)
    → accepted (append_packet pkt b) ≡ accepted b ++ bare pkt ∷ []
unfolding append_packet
accepted-append_packet pkt b =
    elim (Bool-cases (ltb max_buffered_wire_packets (length (b.packets ++ pkt ∷ [])))) [
      | inl full ↦ rw full (
          ap (map bare) (
            append_assoc b.written (oldest (b.packets ++ pkt ∷ [])) _
            ∙ ap (◌++◌ b.written) (oldest-drop_oldest (b.packets ++ pkt ∷ []))
            ∙ sym (append_assoc b.written b.packets (pkt ∷ [])))
          ∙ map-append bare (b.written ++ b.packets) (pkt ∷ []))
      | inr room ↦ rw room (
          ap (map bare) (sym (append_assoc b.written b.packets (pkt ∷ [])))
          ∙ map-append bare (b.written ++ b.packets) (pkt ∷ []))
    ]

-- The packet that an Enqueue adds, where its data decodes.
abbrev pub arrived : ℕ → GenericMap → Option Bytes → List BufferedWirePacket
arrived now m none = []
arrived now m (some frame) = new_packet now m frame ∷ []

module _ (env : Platform) (show : Display) where
  accepted-match_pending :
      (clock : ℕ) (final : Bool) (b : WirePacketBuffer)
      → accepted (match_pending_against_wire env show clock final b) ≡ accepted b
  unfolding match_pending_against_wire
  accepted-match_pending clock final b =
      map-append bare b.written _
      ∙ ap (◌++◌ (map bare b.written))
          (match_round-bare env show b.filters b.window clock final b.pending b.packets)
      ∙ sym (map-append bare b.written b.packets)

  -- Writing the expired packets moves them.
  accepted-flush_packets :
      (now clock : ℕ) (pkts : List BufferedWirePacket) (b : WirePacketBuffer)
      → Perm (accepted (flush_packets env show now clock pkts b)) (accepted b)
  unfolding flush_packets
  accepted-flush_packets now clock [] b = Perm.refl (accepted b)
  accepted-flush_packets now clock (_ ∷ _) b =
      let m = match_pending_against_wire env show clock false b in
      subst (Perm _) (accepted-match_pending clock false b) (
        Perm.map bare (
          behind m.written (keep (packet_expired m.window now) m.packets) _ m.packets
            (keep-perm (packet_expired m.window now) m.packets)))

  pub accepted-flush_expired :
      (now clock : ℕ) (b : WirePacketBuffer)
      → Perm (accepted (flush_expired env show now clock b)) (accepted b)
  unfolding flush_expired flush_records
  accepted-flush_expired now clock b = accepted-flush_packets now clock b.packets b

  accepted-accept_record :
      (clock : ℕ) (pt : PendingPlaintext) (b : WirePacketBuffer)
      → accepted (accept_record env show clock pt b) ≡ accepted b
  unfolding accept_record
  accepted-accept_record clock pt b =
      elim (Option-cases
        (try_annotate env show b.filters b.window clock false b.packets pt).matched) [
          | inl e ↦ rw (e, accept_record)
          | inr (after, e) ↦
              rw (e, accept_record)
                (map-append bare b.written after
                  ∙ ap (◌++◌ (map bare b.written)) (
                      try_annotate-bare env show b.filters b.window clock false b.packets after pt
                        e)
                  ∙ sym (map-append bare b.written b.packets))
        ]

  pub accepted-enqueue :
      (now clock : ℕ) (m : GenericMap) (data_b64 : String) (b : WirePacketBuffer)
      → Perm
          (accepted (or_unchanged b (enqueue env show now clock m data_b64 b)))
          (accepted b ++ arrived now m (env.decode_base64 data_b64))
  unfolding enqueue
  accepted-enqueue now clock m data_b64 b = elim (Option-cases (env.decode_base64 data_b64)) [
    | inl e ↦ rw (e, enqueue) (rw append-nil (Perm.refl (accepted b)))
    | inr (frame, e) ↦
        let pkt = new_packet now m frame in
        let flushed = flush_expired env show now clock b in
        rw (e, enqueue)
          (subst (λ l. Perm l (accepted b ++ pkt ∷ []))
            (sym (
              accepted-match_pending clock false (append_packet pkt flushed)
              ∙ accepted-append_packet pkt flushed))
            (Perm.append_right (pkt ∷ []) (accepted-flush_expired now clock b)))
  ]

  pub accepted-handle_plaintext :
      (now clock : ℕ) (m : GenericMap) (id : ℕ) (b : WirePacketBuffer)
      → Perm (accepted (handle_plaintext env show now clock m id b)) (accepted b)
  unfolding handle_plaintext
  accepted-handle_plaintext now clock m id b =
      subst (λ l. Perm l (accepted b)) (sym (accepted-accept_record clock _ _))
        (accepted-flush_expired now clock b)

  pub accepted-close :
      (clock : ℕ) (b : WirePacketBuffer) → accepted (close env show clock b) ≡ accepted b
  unfolding close
  accepted-close clock b = ap (map bare) (append-nil _) ∙ accepted-match_pending clock true b
