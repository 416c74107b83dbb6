-- ===== src/Timing.antt =====
-- Whether a packet and an event are near enough in time, and the bonus for being near:
-- receiveTimeDelta, timesCorrelated and timeCorrelationBonus of cmd/packet_capture_wire_buffer.go.
pub mod Bounds
use network_observability_cl.Base.{
  ℕ, ◌-◌, ◌*◌, ◌/◌, Bool, ◌&&◌, Option, none, some, ℤ, pos, negsuc, sub_ℕ, leb_ℤ, suc, leb,
  if◌then◌else◌,
}
use network_observability_cl.Endpoint.{◌>>=◌}
use network_observability_cl.Packet.{
  BufferedWirePacket, PendingPlaintext, millisecond, correlation_window, match_max_skew,
  match_min_lag, time_bonus_max,
}

-- |pt.receivedAt - pkt.receivedAt|.
unfoldable pub receive_time_delta : BufferedWirePacket → PendingPlaintext → ℕ
receive_time_delta pkt pt =
    if leb pkt.received_at pt.received_at
    then pt.received_at - pkt.received_at
    else pkt.received_at - pt.received_at

-- pt.eventTime.Sub(pkt.packetTime), where both are known.
abbrev pub agent_delta : BufferedWirePacket → PendingPlaintext → Option ℤ
agent_delta pkt pt = do
  captured ← pkt.packet_time
  event ← pt.event_time
  some (sub_ℕ event captured)

unfoldable pub times_correlated : BufferedWirePacket → PendingPlaintext → Bool
unfolding receive_time_delta
times_correlated pkt pt = elim (agent_delta pkt pt) [
  | none ↦ leb (receive_time_delta pkt pt) correlation_window
  | some delta ↦ leb_ℤ (negsuc (match_min_lag - 1)) delta && leb_ℤ delta (pos match_max_skew)
]

-- scoreTimeBonusMax * (limit - delta).Milliseconds() / limit.Milliseconds(), 0 beyond the limit.
unfoldable pub proximity : ℕ → ℕ → ℕ
proximity delta limit =
    if leb delta limit
    then time_bonus_max * ((limit - delta) / millisecond) / (limit / millisecond)
    else 0

-- The distance and its limit depend on the sign of the difference.
unfoldable pub agent_bonus : ℤ → ℕ
unfolding proximity
agent_bonus (pos delta) = proximity delta match_max_skew
agent_bonus (negsuc n) = proximity (suc n) match_min_lag

unfoldable pub time_correlation_bonus : BufferedWirePacket → PendingPlaintext → ℕ
time_correlation_bonus pkt pt = elim (agent_delta pkt pt) [
  | none ↦ proximity (receive_time_delta pkt pt) correlation_window
  | some delta ↦ agent_bonus delta
]
