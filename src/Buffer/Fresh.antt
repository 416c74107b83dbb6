-- ===== src/Buffer/Fresh.antt =====
-- What stays behind after a flush is younger than the window.
use network_observability_cl.Base.{
  ℕ, ◌+◌, ◌<◌, true, false, not, leb, List, [], ◌∷◌, ◌≡◌, refl, subst, All, All-keep, arith,
}
use network_observability_cl.Platform.{Platform}
use network_observability_cl.Plaintext.{Display}
use network_observability_cl.Packet.{BufferedWirePacket}
use network_observability_cl.Buffer.{
  WirePacketBuffer, match_pending_against_wire, flush_packets, flush_records, flush_expired,
  packet_expired, record_expired,
}

All-map {ℓ κ ι} :
    {A : Type ℓ} (P : A → Type κ) (Q : A → Type ι) (xs : List A)
    → ((x : A) → P x → Q x)
    → All P xs
    → All Q xs
All-map P Q [] f h = tt
All-map P Q (x ∷ xs) f h = (f x h.0, All-map P Q xs f h.1)

younger : (window now at : ℕ) → not (leb (at + window) now) ≡ true → now < at + window
younger window now at h = ground arith

module _ (env : Platform) (show : Display) where
  flush_packets-fresh :
      (now clock : ℕ) (pkts : List BufferedWirePacket) (b : WirePacketBuffer)
      → b.packets ≡ pkts
      → (All
          (λ pkt. now < pkt.received_at + b.window)
          (flush_packets env show now clock pkts b).packets)
        × ((flush_packets env show now clock pkts b).window ≡ b.window)
  unfolding flush_packets match_pending_against_wire
  flush_packets-fresh now clock [] b e = (rw e tt, refl)
  flush_packets-fresh now clock (_ ∷ _) b e =
      let m = match_pending_against_wire env show clock false b in
      (
        All-map _ _ _ (λ pkt. younger b.window now pkt.received_at)
            (All-keep (λ pkt. not (packet_expired b.window now pkt)) m.packets),
        refl,
      )

  -- After a flush at `now` every packet and every record still in the buffer arrived less than the
  -- window ago: whatever is older has been written or exported.
  pub flush_expired-fresh :
      (now clock : ℕ) (b : WirePacketBuffer)
      → All (λ pkt. now < pkt.received_at + b.window) (flush_expired env show now clock b).packets
        × All (λ pt. now < pt.received_at + b.window) (flush_expired env show now clock b).pending
  unfolding flush_expired flush_records
  flush_expired-fresh now clock b =
      let p = flush_packets-fresh now clock b.packets b refl in
      let f = flush_packets env show now clock b.packets b in
      (
        p.0,
        subst (λ w. All (λ pt. now < pt.received_at + w) (flush_records env show now f).pending) p.1
            (All-map _ _ _ (λ pt. younger f.window now pt.received_at)
              (All-keep (λ pt. not (record_expired f.window now pt)) f.pending)),
      )
