-- ===== src/Shutdown/Saved.antt =====
-- What is on disk when a packet capture ends (cmd/packet_capture.go), also by a SIGTERM (cmd/root.go).
use network_observability_cl.Base.{
  ◌≡◌, refl, sym, ◌∙◌, ap, if◌then◌else◌, ◌&&◌, ℕ, zero, suc, Bool, true, false, List, [], ◌∷◌,
  ◌++◌, take, Bytes, ◌⊎◌, inl, inr,
}
use mathlib.Core.List.{append-nil, append_assoc}
use network_observability_cl.Shutdown.{
  BufferedWrite, write_blocks, Output, Deferred, cancel, close_done, announce, close_file,
  close_log, clear_active_packet_writer, close_wire_buffer, close_collector, stop_deadline, Setup,
  deferred_calls, perform, perform_all, shut_down_calls, flush_active_packet_writer, on_sigterm,
  sigterm_after,
}
use network_observability_cl.Shutdown.Quiet.{sigterm-IsQuiet}

-- A capture whose set-up came to its end.
abbrev pub started : Bool → Bool → Bool → Setup
started plaintext_enabled log_created completed = record {
  file_created = true;
  plaintext_enabled = plaintext_enabled;
  log_created = log_created;
  writer_created = true;
  collector_started = true;
  completed = completed;
}

-- A capture at the end of its loop.
abbrev pub running : List Bytes → Bytes → Bytes → List Bytes → Bool → Output
running pending buffered disk lines log_created = record {
  pending = pending;
  buffered = buffered;
  disk = disk;
  pending_lines = lines;
  log_lines = [];
  file_open = true;
  log_open = log_created;
  writer_active = true;
  stop_active = true;
  announced = false;
  done = false;
}

-- What the wire buffer holds, where there is one.
abbrev pub pending_in : Bool → List Bytes → List Bytes
pending_in true pending = pending
pending_in false pending = []

-- The calls so far end with clearActivePacketWriter, so that the flush comes next.
abbrev pub UpToClear : List Deferred → Type 0
UpToClear calls = (before : List Deferred) × (calls ≡ before ++ clear_active_packet_writer ∷ [])

abbrev pub joined : List Bytes → Bytes
joined [] = []
joined (block ∷ blocks) = block ++ joined blocks

-- bufio.Writer passes bytes on in the order in which they are written, and drops none.
abbrev pub KeepsBytes : BufferedWrite → Type 0
KeepsBytes write =
    (held block : Bytes) → (write held block).0 ++ (write held block).1 ≡ held ++ block

write_blocks-KeepsBytes :
    (write : BufferedWrite) (blocks : List Bytes) (held : Bytes)
    → KeepsBytes write
    → (write_blocks write blocks held).0 ++ (write_blocks write blocks held).1
      ≡ held ++ joined blocks
write_blocks-KeepsBytes write [] held keeps = sym (append-nil held)
write_blocks-KeepsBytes write (block ∷ blocks) held keeps =
    let (out, left) = write held block in
    let rest = write_blocks write blocks left in
    append_assoc out rest.0 rest.1
    ∙ ap (λ bytes. out ++ bytes) (write_blocks-KeepsBytes write blocks left keeps)
    ∙ sym (append_assoc out left (joined blocks))
    ∙ ap (λ bytes. bytes ++ joined blocks) (keeps held block)
    ∙ append_assoc held block (joined blocks)

module _ (write : BufferedWrite) where
  -- The signal finds all bytes on disk in the end, or it comes between the clearing of the globals and
  -- the flush, and then what the writer still holds, and no more, is missing at the end of the file.
  abbrev pub SavedAfter : Setup → ℕ → List Bytes → Bytes → Bytes → Output → Type 0
  SavedAfter s n pending buffered disk o =
      ((sigterm_after write s n o).disk ≡ disk ++ (buffered ++ joined pending))
      ⊎ (UpToClear (take n (shut_down_calls s))
          × ((sigterm_after write s n o).disk ++ (write_blocks write pending buffered).1
              ≡ disk ++ (buffered ++ joined pending)))

module _ (completed : Bool) (pending : List Bytes) (buffered disk : Bytes)
    (lines : List Bytes) where
  abbrev pub at_end : Bool → Bool → Output
  at_end plaintext_enabled log_created =
      running (pending_in plaintext_enabled pending) buffered disk lines log_created

  -- All calls in a row.
  abbrev pub AllWritten : Bool → Bool → Output → Type 0
  AllWritten plaintext_enabled log_created o =
      (o.disk ≡ disk ++ (buffered ++ joined (pending_in plaintext_enabled pending)))
      × (o.pending ≡ [])
      × (o.buffered ≡ [])
      × (o.log_lines ≡ (if plaintext_enabled && log_created then lines else []))
      × (o.announced ≡ completed)
      × (o.done ≡ true)

  module _ (write : BufferedWrite) (keeps : KeepsBytes write) where
    flushed :
        (disk ++ (write_blocks write pending buffered).0) ++ (write_blocks write pending buffered).1
        ≡ disk ++ (buffered ++ joined pending)
    flushed =
        let written = write_blocks write pending buffered in
        append_assoc disk written.0 written.1
        ∙ ap (λ bytes. disk ++ bytes) (write_blocks-KeepsBytes write pending buffered keeps)

    -- The calls up to the flush one by one, and then the others: with a wire buffer and the log.
    saved_with_log :
        (n : ℕ)
        → SavedAfter write (started true true completed) n pending buffered disk (at_end true true)
    unfolding sigterm_after on_sigterm flush_active_packet_writer deferred_calls perform_all perform
    saved_with_log zero = inl flushed
    saved_with_log (suc zero) = inl flushed
    saved_with_log (suc (suc zero)) = inl flushed
    saved_with_log (suc (suc (suc zero))) = inl flushed
    saved_with_log (suc (suc (suc (suc zero)))) =
        inr ((stop_deadline ∷ close_collector ∷ close_wire_buffer ∷ [], refl), flushed)
    saved_with_log (suc (suc (suc (suc (suc n))))) =
        let s = started true true completed in
        inl (
          sigterm-IsQuiet write s n (close_log ∷ close_file ∷ announce ∷ close_done ∷ cancel ∷ [])
            (perform_all write s (take 5 (shut_down_calls s)) (at_end true true))
            (tt, (tt, (tt, (tt, (tt, tt))))) refl refl
          ∙ flushed)

    -- With a wire buffer whose log could not be created.
    saved_without_log :
        (n : ℕ)
        → SavedAfter write
            (started true false completed)
            n
            pending
            buffered
            disk
            (at_end true false)
    unfolding sigterm_after on_sigterm flush_active_packet_writer deferred_calls perform_all perform
    saved_without_log zero = inl flushed
    saved_without_log (suc zero) = inl flushed
    saved_without_log (suc (suc zero)) = inl flushed
    saved_without_log (suc (suc (suc zero))) = inl flushed
    saved_without_log (suc (suc (suc (suc zero)))) =
        inr ((stop_deadline ∷ close_collector ∷ close_wire_buffer ∷ [], refl), flushed)
    saved_without_log (suc (suc (suc (suc (suc n))))) =
        let s = started true false completed in
        inl (
          sigterm-IsQuiet write s n (close_file ∷ announce ∷ close_done ∷ cancel ∷ [])
            (perform_all write s (take 5 (shut_down_calls s)) (at_end true false))
            (tt, (tt, (tt, (tt, tt)))) refl refl
          ∙ flushed)

    -- Without a wire buffer.
    held_only : disk ++ buffered ≡ disk ++ (buffered ++ [])
    held_only = ap (λ bytes. disk ++ bytes) (sym (append-nil buffered))

    saved_without_buffer :
        (log_created : Bool) (n : ℕ)
        → SavedAfter write
            (started false log_created completed)
            n
            []
            buffered
            disk
            (at_end false log_created)
    unfolding sigterm_after on_sigterm flush_active_packet_writer deferred_calls perform_all perform
    saved_without_buffer log_created zero = inl held_only
    saved_without_buffer log_created (suc zero) = inl held_only
    saved_without_buffer log_created (suc (suc zero)) = inl held_only
    saved_without_buffer log_created (suc (suc (suc zero))) =
        inr ((stop_deadline ∷ close_collector ∷ [], refl), held_only)
    saved_without_buffer log_created (suc (suc (suc (suc n)))) =
        let s = started false log_created completed in
        inl (
          sigterm-IsQuiet write s n (close_file ∷ announce ∷ close_done ∷ cancel ∷ [])
            (perform_all write s (take 4 (shut_down_calls s)) (at_end false log_created))
            (tt, (tt, (tt, (tt, tt)))) refl refl
          ∙ held_only)

    saved_at :
        (plaintext_enabled log_created : Bool) (n : ℕ)
        → SavedAfter write
            (started plaintext_enabled log_created completed)
            n
            (pending_in plaintext_enabled pending)
            buffered
            disk
            (at_end plaintext_enabled log_created)
    saved_at true true n = saved_with_log n
    saved_at true false n = saved_without_log n
    saved_at false log_created n = saved_without_buffer log_created n

    all_written :
        (plaintext_enabled log_created : Bool)
        → AllWritten plaintext_enabled log_created (
            perform_all write
              (started plaintext_enabled log_created completed)
              (shut_down_calls (started plaintext_enabled log_created completed))
              (at_end plaintext_enabled log_created))
    unfolding deferred_calls perform_all perform
    all_written true true = (flushed, refl, refl, refl, refl, refl)
    all_written true false = (flushed, refl, refl, refl, refl, refl)
    all_written false log_created = (held_only, refl, refl, refl, refl, refl)

    -- The deferred calls of a capture that was set up leave the blocks of the wire buffer and the bytes
    -- that the writer holds on disk, the pending lines in the log that was created, and tell that the
    -- capture is over, if it completed, provided that the writer keeps the bytes written to it in order.
    -- A SIGTERM at any time between them ends with all bytes on disk too, unless it comes between
    -- clearActivePacketWriter and the flush: then the file lacks, at its end, what the writer still
    -- holds after the blocks of the buffer, and nothing else.
    pub shut_down-Saved :
        (plaintext_enabled log_created : Bool) (n : ℕ)
        → AllWritten plaintext_enabled log_created (
            perform_all write
              (started plaintext_enabled log_created completed)
              (shut_down_calls (started plaintext_enabled log_created completed))
              (at_end plaintext_enabled log_created))
          × SavedAfter write
              (started plaintext_enabled log_created completed)
              n
              (pending_in plaintext_enabled pending)
              buffered
              disk
              (at_end plaintext_enabled log_created)
    shut_down-Saved plaintext_enabled log_created n =
        (all_written plaintext_enabled log_created, saved_at plaintext_enabled log_created n)
