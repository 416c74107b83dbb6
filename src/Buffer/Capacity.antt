-- ===== src/Buffer/Capacity.antt =====
-- The buffer holds at most maxBufferedWirePackets packets.
use network_observability_cl.Base.{
  ℕ, ◌≤◌, String, Bool, false, not, List, [], ◌∷◌, ◌++◌, map, ◌≡◌, inl, inr, refl, sym, ◌∙◌, ap,
  arith, ltb, length, length-append, length-map, length-keep-le, Bool-cases, Option-cases,
}
use network_observability_cl.Record.{GenericMap}
use network_observability_cl.Platform.{Platform}
use network_observability_cl.Plaintext.{Display}
use network_observability_cl.Packet.{BufferedWirePacket, PendingPlaintext}
use network_observability_cl.Correlation.{try_annotate}
use network_observability_cl.Correlation.Rounds.{bare, match_round-bare, try_annotate-bare}
use network_observability_cl.Buffer.{
  WirePacketBuffer, or_unchanged, match_pending_against_wire, flush_packets, flush_records,
  flush_expired, append_packet, enqueue, accept_record, handle_plaintext, packet_expired,
  drop_oldest, max_buffered_wire_packets, new_packet, new_pending,
}

abbrev pub HasRoom : WirePacketBuffer → Type 0
HasRoom b = length b.packets ≤ max_buffered_wire_packets

length-of-bare :
    (xs ys : List BufferedWirePacket) → map bare xs ≡ map bare ys → length xs ≡ length ys
length-of-bare xs ys e = sym (length-map bare xs) ∙ ap length e ∙ length-map bare ys

-- One packet too many drives the oldest out.
dropped :
    (pkts : List BufferedWirePacket) (pkt : BufferedWirePacket)
    → length (drop_oldest (pkts ++ pkt ∷ [])) ≡ length pkts
dropped [] pkt = refl
dropped (x ∷ xs) pkt = omega (arith, length-append xs (pkt ∷ []))

append_packet-HasRoom :
    (pkt : BufferedWirePacket) (b : WirePacketBuffer) → HasRoom b → HasRoom (append_packet pkt b)
unfolding append_packet
append_packet-HasRoom pkt b h =
    elim (Bool-cases (ltb max_buffered_wire_packets (length (b.packets ++ pkt ∷ [])))) [
      | inl full ↦ rw full (omega (arith, dropped b.packets pkt))
      | inr room ↦ rw room (ground arith)
    ]

module _ (env : Platform) (show : Display) where
  match_pending-HasRoom :
      (clock : ℕ) (final : Bool) (b : WirePacketBuffer)
      → HasRoom b
      → HasRoom (match_pending_against_wire env show clock final b)
  unfolding match_pending_against_wire
  match_pending-HasRoom clock final b h = omega (
    arith,
    length-of-bare _ _
        (match_round-bare env show b.filters b.window clock final b.pending b.packets),
  )

  flush_packets-HasRoom :
      (now clock : ℕ) (pkts : List BufferedWirePacket) (b : WirePacketBuffer)
      → HasRoom b
      → HasRoom (flush_packets env show now clock pkts b)
  unfolding flush_packets
  flush_packets-HasRoom now clock [] b h = h
  flush_packets-HasRoom now clock (_ ∷ _) b h =
      let m = match_pending_against_wire env show clock false b in
      omega (
        arith,
        match_pending-HasRoom clock false b h,
        length-keep-le (λ pkt. not (packet_expired m.window now pkt)) m.packets,
      )

  pub flush_expired-HasRoom :
      (now clock : ℕ) (b : WirePacketBuffer)
      → HasRoom b
      → HasRoom (flush_expired env show now clock b)
  unfolding flush_expired flush_records
  flush_expired-HasRoom now clock b h = flush_packets-HasRoom now clock b.packets b h

  pub enqueue-HasRoom :
      (now clock : ℕ) (m : GenericMap) (data_b64 : String) (b : WirePacketBuffer)
      → HasRoom b
      → HasRoom (or_unchanged b (enqueue env show now clock m data_b64 b))
  unfolding enqueue
  enqueue-HasRoom now clock m data_b64 b h = elim (Option-cases (env.decode_base64 data_b64)) [
    | inl e ↦ rw (e, enqueue) h
    | inr (frame, e) ↦
        rw (e, enqueue)
          (match_pending-HasRoom clock false _ (
            append_packet-HasRoom (new_packet now m frame) _ (flush_expired-HasRoom now clock b h)))
  ]

  accept_record-HasRoom :
      (clock : ℕ) (pt : PendingPlaintext) (b : WirePacketBuffer)
      → HasRoom b
      → HasRoom (accept_record env show clock pt b)
  unfolding accept_record
  accept_record-HasRoom clock pt b h =
      elim (Option-cases
        (try_annotate env show b.filters b.window clock false b.packets pt).matched) [
          | inl e ↦ rw (e, accept_record) h
          | inr (after, e) ↦
              rw (e, accept_record)
                (omega (
                  arith,
                  length-of-bare _ _ (
                      try_annotate-bare env show b.filters b.window clock false b.packets after pt
                        e),
                ))
        ]

  pub handle_plaintext-HasRoom :
      (now clock : ℕ) (m : GenericMap) (id : ℕ) (b : WirePacketBuffer)
      → HasRoom b
      → HasRoom (handle_plaintext env show now clock m id b)
  unfolding handle_plaintext
  handle_plaintext-HasRoom now clock m id b h =
      accept_record-HasRoom clock (new_pending now m id) _ (flush_expired-HasRoom now clock b h)
