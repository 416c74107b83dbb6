-- ===== src/History.antt =====
-- A capture as the sequence of what reaches the buffer: the calls of Enqueue and HandlePlaintext that
-- the collector makes (cmd/packet_capture.go), and the ticks of flushLoop
-- (cmd/packet_capture_wire_buffer.go). The mutex orders them; every sequence is possible.
pub mod Complete
pub mod Room
use network_observability_cl.Base.{ℕ, String, List, [], ◌∷◌}
use network_observability_cl.Record.{GenericMap}
use network_observability_cl.Platform.{Platform}
use network_observability_cl.Plaintext.{Display}
use network_observability_cl.Buffer.{
  WirePacketBuffer, or_unchanged, enqueue, handle_plaintext, flush_expired,
}

-- Each event carries the two clock readings of its operation.
pub data Event : Type 0 where
  wire : ℕ → ℕ → GenericMap → String → Event
  plaintext : ℕ → ℕ → GenericMap → ℕ → Event
  tick : ℕ → ℕ → Event

module _ (env : Platform) (show : Display) where
  unfoldable pub step : Event → WirePacketBuffer → WirePacketBuffer
  step (wire now clock m data_b64) b = or_unchanged b (enqueue env show now clock m data_b64 b)
  step (plaintext now clock m id) b = handle_plaintext env show now clock m id b
  step (tick now clock) b = flush_expired env show now clock b

  unfoldable pub run : List Event → WirePacketBuffer → WirePacketBuffer
  unfolding step
  run [] b = b
  run (e ∷ es) b = run es (step e b)
