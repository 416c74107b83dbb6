-- ===== src/History/Room.antt =====
-- The buffer stays within its bound through a whole capture.
use network_observability_cl.Base.{ℕ, List, [], ◌∷◌, arith}
use network_observability_cl.Platform.{Platform}
use network_observability_cl.Plaintext.{Display}
use network_observability_cl.Filters.{CaptureFilters}
use network_observability_cl.Buffer.{WirePacketBuffer, new_wire_packet_buffer}
use network_observability_cl.Buffer.Capacity.{
  HasRoom, enqueue-HasRoom, handle_plaintext-HasRoom, flush_expired-HasRoom,
}
use network_observability_cl.History.{Event, wire, plaintext, tick, step, run}

module _ (env : Platform) (show : Display) where
  step-HasRoom : (e : Event) (b : WirePacketBuffer) → HasRoom b → HasRoom (step env show e b)
  unfolding step
  step-HasRoom (wire now clock m data_b64) b h = enqueue-HasRoom env show now clock m data_b64 b h
  step-HasRoom (plaintext now clock m id) b h = handle_plaintext-HasRoom env show now clock m id b h
  step-HasRoom (tick now clock) b h = flush_expired-HasRoom env show now clock b h

  after_run-HasRoom :
      (es : List Event) (b : WirePacketBuffer) → HasRoom b → HasRoom (run env show es b)
  unfolding run
  after_run-HasRoom [] b h = h
  after_run-HasRoom (e ∷ es) b h = after_run-HasRoom es (step env show e b) (step-HasRoom e b h)

  -- After any sequence of calls and ticks the new buffer holds at most 20000 packets.
  pub run-HasRoom :
      (window : ℕ) (filters : CaptureFilters) (es : List Event)
      → HasRoom (run env show es (new_wire_packet_buffer window filters))
  unfolding new_wire_packet_buffer
  run-HasRoom window filters es = after_run-HasRoom es _ (omega arith)
