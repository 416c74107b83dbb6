-- ===== src/Timing/Bounds.antt =====
-- The time bonus, and how near in time a pair is that timesCorrelated lets through
-- (cmd/packet_capture_wire_buffer.go).
use network_observability_cl.Base.{
  ℕ, ◌+◌, ◌≤◌, ◌≡◌, ◌⊎◌, refl, Option-cases, inl, inr, true, none, some, ℤ, pos, negsuc, arith,
}
use network_observability_cl.Packet.{
  BufferedWirePacket, PendingPlaintext, time_bonus_max, correlation_window,
}
use network_observability_cl.Timing.{
  times_correlated, time_correlation_bonus, proximity, agent_bonus, receive_time_delta, agent_delta,
}

proximity_window : (d : ℕ) → proximity d correlation_window ≤ time_bonus_max
unfolding proximity
proximity_window d = ground arith

agent_bonus-le : (d : ℤ) → agent_bonus d ≤ time_bonus_max
unfolding agent_bonus
agent_bonus-le (pos d) = ground arith
agent_bonus-le (negsuc n) = ground arith

-- The bonus is ten points at most, whatever the two times are.
pub time_correlation_bonus-le :
    (pkt : BufferedWirePacket) (pt : PendingPlaintext)
    → time_correlation_bonus pkt pt ≤ time_bonus_max
unfolding time_correlation_bonus
time_correlation_bonus-le pkt pt = elim (Option-cases (agent_delta pkt pt)) [
  | inl e ↦ rw (e, time_correlation_bonus) (proximity_window (receive_time_delta pkt pt))
  | inr (d, e) ↦ rw (e, time_correlation_bonus) (agent_bonus-le d)
]

-- Of two events on the same side of the packet, the nearer one has at least the bonus of the other.
pub agent_bonus_antitone :
    (d e : ℕ)
    → d ≤ e
    → (agent_bonus (pos e) ≤ agent_bonus (pos d))
      × (agent_bonus (negsuc e) ≤ agent_bonus (negsuc d))
unfolding agent_bonus proximity
agent_bonus_antitone d e h = (ground arith, ground arith)

-- A packet and an event near each other. With both capture times known, the event is at most two
-- seconds before the packet and at most five seconds after it; else the two were received within
-- thirty seconds of each other.
abbrev pub Near : BufferedWirePacket → PendingPlaintext → Type 0
Near pkt pt =
    ((captured : ℕ) × (event : ℕ) × (pkt.packet_time ≡ some captured)
      × (pt.event_time ≡ some event)
      × (captured ≤ event + 2_000_000_000)
      × (event ≤ captured + 5_000_000_000))
    ⊎ (((pkt.packet_time ≡ none) ⊎ (pt.event_time ≡ none))
        × (pkt.received_at ≤ pt.received_at + 30_000_000_000)
        × (pt.received_at ≤ pkt.received_at + 30_000_000_000))

times_correlated-received :
    (pkt : BufferedWirePacket) (pt : PendingPlaintext)
    → agent_delta pkt pt ≡ none
    → times_correlated pkt pt ≡ true
    → (pkt.received_at ≤ pt.received_at + 30_000_000_000)
      × (pt.received_at ≤ pkt.received_at + 30_000_000_000)
unfolding times_correlated receive_time_delta
times_correlated-received pkt pt unknown h = (ground arith, ground arith)

pub times_correlated-Near :
    (pkt : BufferedWirePacket) (pt : PendingPlaintext)
    → times_correlated pkt pt ≡ true
    → Near pkt pt
unfolding times_correlated
times_correlated-Near pkt pt h = elim (Option-cases pkt.packet_time) [
  | inl p ↦
      let (later, sooner) = times_correlated-received pkt pt (rw p refl) h in
      inr (inl p, later, sooner)
  | inr (captured, p) ↦ elim (Option-cases pt.event_time) [
    | inl q ↦
        let (later, sooner) = times_correlated-received pkt pt (rw (p, q) refl) h in
        inr (inr q, later, sooner)
    | inr (event, q) ↦ inl (captured, event, p, q, ground arith, ground arith)
  ]
]
