-- ===== src/Shutdown.antt =====
-- The end of a packet capture: the deferred calls of startPacketCollector, the writer that a SIGTERM
-- finds (setActivePacketWriter, clearActivePacketWriter, stopActivePacketCapture and
-- flushActivePacketWriter of cmd/packet_capture.go) and the handler of the signal (cmd/root.go).
--
-- Blocks stand for what is written to the pcapng file, lines for what is written to the plaintext log,
-- which is not buffered. The pcapng writer has a buffer of a fixed size, so that a write can put bytes
-- on disk ahead of any flush; how many is a parameter. A write and a flush reach the file only while
-- that is open, and their errors are not modelled.
pub mod Quiet
pub mod Saved
use network_observability_cl.Base.{
  ℕ, Bool, true, false, ◌&&◌, List, [], ◌∷◌, ◌++◌, take, drop, if◌then◌else◌, Bytes,
}
use mathlib.Core.List.{reverse}

-- Where the blocks and lines are, and the globals that the handler reads.
pub record Output : Type 0 where
  pub pending : List Bytes
  pub buffered : Bytes
  pub disk : Bytes
  pub pending_lines : List Bytes
  pub log_lines : List Bytes
  pub file_open : Bool
  pub log_open : Bool
  pub writer_active : Bool
  pub stop_active : Bool
  pub announced : Bool
  pub done : Bool

-- The deferred calls.
pub data Deferred : Type 0 where
  cancel : Deferred
  close_done : Deferred
  announce : Deferred
  close_file : Deferred
  close_log : Deferred
  flush_writer : Deferred
  clear_active_packet_writer : Deferred
  close_wire_buffer : Deferred
  close_collector : Deferred
  stop_deadline : Deferred

-- How far the set-up of a capture comes, and whether its loop completed.
pub record Setup : Type 0 where
  pub file_created : Bool
  pub plaintext_enabled : Bool
  pub log_created : Bool
  pub writer_created : Bool
  pub collector_started : Bool
  pub completed : Bool

abbrev pub when_set : Bool → List Deferred → List Deferred
when_set true calls = calls
when_set false calls = []

-- The calls in the order of their defer statements, up to the return of a failed set-up.
unfoldable pub deferred_calls : Setup → List Deferred
deferred_calls s =
    cancel
    ∷ close_done
    ∷ announce
    ∷ when_set s.file_created (
        close_file
        ∷ (when_set (s.plaintext_enabled && s.log_created) (close_log ∷ [])
            ++ when_set s.writer_created (
                flush_writer
                ∷ clear_active_packet_writer
                ∷ (when_set s.plaintext_enabled (close_wire_buffer ∷ [])
                    ++ when_set s.collector_started (close_collector ∷ stop_deadline ∷ [])))))

abbrev pub flush : Output → Output
flush o = if o.file_open then record o { disk = o.disk ++ o.buffered; buffered = [] } else o

-- A write to pcapgo's NgWriter, on what its bufio.Writer holds and the bytes of a block: the bytes that
-- go on to the file at once, and what is held afterwards.
abbrev pub BufferedWrite : Type 0
BufferedWrite = Bytes → Bytes → Bytes × Bytes

abbrev pub write_blocks : BufferedWrite → List Bytes → Bytes → Bytes × Bytes
write_blocks write [] held = ([], held)
write_blocks write (block ∷ blocks) held =
    let (out, left) = write held block in
    let (more, last) = write_blocks write blocks left in (out ++ more, last)

-- Go runs the calls in the reverse order.
abbrev pub shut_down_calls : Setup → List Deferred
shut_down_calls s = reverse (deferred_calls s)

-- flushActivePacketWriter.
unfoldable pub flush_active_packet_writer : Output → Output
flush_active_packet_writer o = if o.writer_active then flush o else o

module _ (write : BufferedWrite) where
  -- wireBuf.Close writes the pending packets and exports the pending records.
  abbrev pub write_pending : Output → Output
  write_pending o =
      let written = write_blocks write o.pending o.buffered in
      record o {
        disk = if o.file_open then o.disk ++ written.0 else o.disk;
        buffered = written.1;
        pending = [];
        log_lines = if o.log_open then o.log_lines ++ o.pending_lines else o.log_lines;
        pending_lines = [];
      }

  unfoldable pub perform : Setup → Deferred → Output → Output
  perform s cancel o = o
  perform s close_done o = record o { done = true }
  perform s announce o = record o { announced = s.completed }
  perform s close_file o = record o { file_open = false }
  perform s close_log o = record o { log_open = false }
  perform s flush_writer o = flush o
  perform s clear_active_packet_writer o = record o { writer_active = false; stop_active = false }
  perform s close_wire_buffer o = write_pending o
  perform s close_collector o = o
  perform s stop_deadline o = o

  unfoldable pub perform_all : Setup → List Deferred → Output → Output
  perform_all s [] o = o
  perform_all s (call ∷ calls) o = perform_all s calls (perform s call o)

  -- The handler of SIGTERM up to os.Exit, while these calls are left: stopActivePacketCapture waits for
  -- them, where it finds a function to call.
  unfoldable pub on_sigterm : Setup → List Deferred → Output → Output
  on_sigterm s left o =
      let waited = perform_all s left o in
      if o.stop_active then waited else flush_active_packet_writer o

  -- A signal after the first n of the calls.
  unfoldable pub sigterm_after : Setup → ℕ → Output → Output
  sigterm_after s n o =
      on_sigterm s (drop n (shut_down_calls s)) (perform_all s (take n (shut_down_calls s)) o)
