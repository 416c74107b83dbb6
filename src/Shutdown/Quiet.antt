-- ===== src/Shutdown/Quiet.antt =====
-- The deferred calls of startPacketCollector (cmd/packet_capture.go) that leave the disk alone.
use network_observability_cl.Base.{
  ◌≡◌, refl, ◌∙◌, ℕ, zero, suc, false, List, [], ◌∷◌, take, drop, All,
}
use network_observability_cl.Shutdown.{
  BufferedWrite, Output, Deferred, cancel, flush_writer, clear_active_packet_writer,
  close_wire_buffer, Setup, perform, perform_all, flush_active_packet_writer, on_sigterm,
}

-- Calls that leave the disk and the globals alone.
abbrev pub IsQuiet : Deferred → Type 0
IsQuiet flush_writer = ⊥
IsQuiet clear_active_packet_writer = ⊥
IsQuiet close_wire_buffer = ⊥
IsQuiet _ = Unit

All-take {ℓ κ} : {A : Type ℓ} (P : A → Type κ) (n : ℕ) (xs : List A) → All P xs → All P (take n xs)
All-take P zero xs h = tt
All-take P (suc n) [] h = tt
All-take P (suc n) (x ∷ xs) h = (h.0, All-take P n xs h.1)

module _ (write : BufferedWrite) (s : Setup) where
  perform-IsQuiet :
      (call : Deferred) (o : Output)
      → IsQuiet call
      → ((perform write s call o).disk ≡ o.disk)
        × ((perform write s call o).stop_active ≡ o.stop_active)
        × ((perform write s call o).writer_active ≡ o.writer_active)
  unfolding perform
  perform-IsQuiet cancel o h = (refl, refl, refl)
  perform-IsQuiet flush_writer o h = absurd h
  perform-IsQuiet clear_active_packet_writer o h = absurd h
  perform-IsQuiet close_wire_buffer o h = absurd h
  perform-IsQuiet _ o h = (refl, refl, refl)

  perform_all-IsQuiet :
      (calls : List Deferred) (o : Output)
      → All IsQuiet calls
      → ((perform_all write s calls o).disk ≡ o.disk)
        × ((perform_all write s calls o).stop_active ≡ o.stop_active)
        × ((perform_all write s calls o).writer_active ≡ o.writer_active)
  unfolding perform_all
  perform_all-IsQuiet [] o h = (refl, refl, refl)
  perform_all-IsQuiet (call ∷ calls) o h =
      let one = perform-IsQuiet call o h.0 in
      let more = perform_all-IsQuiet calls (perform write s call o) h.1 in
      (more.0 ∙ one.0, more.1 ∙ one.1, more.2 ∙ one.2)

  -- Once the globals are cleared, a signal ends the program with the disk as it is.
  on_sigterm_cleared :
      (left : List Deferred) (o : Output)
      → o.stop_active ≡ false
      → o.writer_active ≡ false
      → (on_sigterm write s left o).disk ≡ o.disk
  unfolding on_sigterm flush_active_packet_writer
  on_sigterm_cleared left o stopped inactive = simp (stopped, inactive)

  pub sigterm-IsQuiet :
      (n : ℕ) (calls : List Deferred) (o : Output)
      → All IsQuiet calls
      → o.stop_active ≡ false
      → o.writer_active ≡ false
      → (on_sigterm write s (drop n calls) (perform_all write s (take n calls) o)).disk ≡ o.disk
  sigterm-IsQuiet n calls o quiet stopped inactive =
      let (same, stop, writer) =
        perform_all-IsQuiet (take n calls) o (All-take IsQuiet n calls quiet) in
      on_sigterm_cleared (drop n calls) (perform_all write s (take n calls) o) (stop ∙ stopped)
        (writer ∙ inactive)
      ∙ same
