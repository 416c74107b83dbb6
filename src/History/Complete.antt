-- ===== src/History/Complete.antt =====
-- A whole capture: what comes in goes out, once.
use mathlib.Core.List.{append_assoc, append-nil}
use mathlib.Core.List.Perm
use network_observability_cl.Base.{ℕ, List, [], ◌∷◌, ◌++◌, map, sym, subst}
use network_observability_cl.Base.Permutations.{Perm}
use network_observability_cl.Platform.{Platform}
use network_observability_cl.Plaintext.{Display}
use network_observability_cl.Filters.{CaptureFilters}
use network_observability_cl.Packet.{BufferedWirePacket}
use network_observability_cl.Correlation.Rounds.{bare, export_id}
use network_observability_cl.Buffer.{WirePacketBuffer, new_wire_packet_buffer, close}
use network_observability_cl.Buffer.Packets.{
  accepted, arrived, accepted-enqueue, accepted-handle_plaintext, accepted-flush_expired,
  accepted-close,
}
use network_observability_cl.Buffer.Records.{
  handled, handled-enqueue, handled-handle_plaintext, handled-flush_expired, handled-close,
}
use network_observability_cl.History.{Event, wire, plaintext, tick, step, run}

-- The packets of a history that decode, as they arrive, and the ids of its records.
abbrev pub arrivals_of : Platform → Event → List BufferedWirePacket
arrivals_of env (wire now clock m data_b64) = arrived now m (env.decode_base64 data_b64)
arrivals_of env (plaintext now clock m id) = []
arrivals_of env (tick now clock) = []

abbrev pub arrivals : Platform → List Event → List BufferedWirePacket
arrivals env [] = []
arrivals env (e ∷ es) = arrivals_of env e ++ arrivals env es

abbrev pub ids_of : Event → List ℕ
ids_of (wire now clock m data_b64) = []
ids_of (plaintext now clock m id) = id ∷ []
ids_of (tick now clock) = []

abbrev pub ids : List Event → List ℕ
ids [] = []
ids (e ∷ es) = ids_of e ++ ids es

module _ (env : Platform) (show : Display) where
  accepted-step :
      (e : Event) (b : WirePacketBuffer)
      → Perm (accepted (step env show e b)) (accepted b ++ arrivals_of env e)
  unfolding step
  accepted-step (wire now clock m data_b64) b = accepted-enqueue env show now clock m data_b64 b
  accepted-step (plaintext now clock m id) b =
      rw append-nil (accepted-handle_plaintext env show now clock m id b)
  accepted-step (tick now clock) b = rw append-nil (accepted-flush_expired env show now clock b)

  handled-step :
      (e : Event) (b : WirePacketBuffer)
      → Perm (handled (step env show e b)) (handled b ++ ids_of e)
  unfolding step
  handled-step (wire now clock m data_b64) b =
      rw append-nil (handled-enqueue env show now clock m data_b64 b)
  handled-step (plaintext now clock m id) b = handled-handle_plaintext env show now clock m id b
  handled-step (tick now clock) b = rw append-nil (handled-flush_expired env show now clock b)

  accepted-run :
      (es : List Event) (b : WirePacketBuffer)
      → Perm (accepted (run env show es b)) (accepted b ++ arrivals env es)
  unfolding run
  accepted-run [] b = rw append-nil (Perm.refl (accepted b))
  accepted-run (e ∷ es) b = Perm.trans (accepted-run es (step env show e b)) (
      subst (Perm _) (append_assoc (accepted b) (arrivals_of env e) (arrivals env es))
        (Perm.append_right (arrivals env es) (accepted-step e b)))

  handled-run :
      (es : List Event) (b : WirePacketBuffer)
      → Perm (handled (run env show es b)) (handled b ++ ids es)
  unfolding run
  handled-run [] b = rw append-nil (Perm.refl (handled b))
  handled-run (e ∷ es) b = Perm.trans (handled-run es (step env show e b)) (
      subst (Perm _) (append_assoc (handled b) (ids_of e) (ids es))
        (Perm.append_right (ids es) (handled-step e b)))

  -- After any capture, when the buffer is closed, the packets written are exactly those that arrived
  -- and decoded, each once, with nothing changed but the notes of an annotation.
  pub close-writes_all :
      (clock window : ℕ) (filters : CaptureFilters) (es : List Event)
      → Perm
          (map bare
            (close env show clock
              (run env show es (new_wire_packet_buffer window filters))).written)
          (arrivals env es)
  unfolding new_wire_packet_buffer close
  close-writes_all clock window filters es =
      let b = run env show es (new_wire_packet_buffer window filters) in
      let closed = close env show clock b in
      Perm.trans
        (subst (λ l. Perm (map bare l) (accepted b)) (append-nil closed.written)
          (subst (λ l. Perm l (accepted b)) (sym (accepted-close env show clock b))
            (Perm.refl (accepted b))))
        (accepted-run es (new_wire_packet_buffer window filters))

  -- And every plaintext record that was handled is exported exactly once, matched or not.
  pub close-exports_all :
      (clock window : ℕ) (filters : CaptureFilters) (es : List Event)
      → Perm
          (map export_id
            (close env show clock
              (run env show es (new_wire_packet_buffer window filters))).exported)
          (ids es)
  unfolding new_wire_packet_buffer close
  close-exports_all clock window filters es =
      let b = run env show es (new_wire_packet_buffer window filters) in
      let closed = close env show clock b in
      Perm.trans
        (subst (λ l. Perm l (handled b)) (append-nil (map export_id closed.exported))
          (handled-close env show clock b))
        (handled-run es (new_wire_packet_buffer window filters))
