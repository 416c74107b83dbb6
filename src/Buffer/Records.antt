-- ===== src/Buffer/Records.antt =====
-- No operation of the buffer loses a plaintext record or exports one twice.
use mathlib.Core.List.{map-append, append_assoc, append-nil}
use mathlib.Core.List.Perm
use network_observability_cl.Base.{
  ℕ, String, Bool, true, false, List, [], ◌∷◌, ◌++◌, map, ◌≡◌, inl, inr, refl, sym, ◌∙◌, ap, subst,
  keep, ltb, length, Bool-cases, Option-cases,
}
use network_observability_cl.Base.Permutations.{Perm, keep-perm, behind, join_front}
use network_observability_cl.Record.{GenericMap}
use network_observability_cl.Platform.{Platform}
use network_observability_cl.Plaintext.{Display}
use network_observability_cl.Packet.{BufferedWirePacket, PendingPlaintext}
use network_observability_cl.Correlation.{match_round, try_annotate}
use network_observability_cl.Correlation.Rounds.{
  export_id, pending_id, match_round-ids, try_annotate-SameRecord,
}
use network_observability_cl.Buffer.{
  WirePacketBuffer, or_unchanged, match_pending_against_wire, flush_packets, flush_records,
  flush_expired, close, append_packet, enqueue, accept_record, handle_plaintext, record_expired,
  max_buffered_wire_packets, new_packet, new_pending, export_unmatched,
}

-- The id of every record that was handled: the exported ones first.
abbrev pub handled : WirePacketBuffer → List ℕ
handled b = map export_id b.exported ++ map pending_id b.pending

module _ (env : Platform) (show : Display) where
  map-export_unmatched :
      (pts : List PendingPlaintext)
      → map export_id (map (export_unmatched env show) pts) ≡ map pending_id pts
  map-export_unmatched [] = refl
  map-export_unmatched (pt ∷ pts) = ap (◌∷◌ pt.id) (map-export_unmatched pts)

  handled-match_pending :
      (clock : ℕ) (final : Bool) (b : WirePacketBuffer)
      → Perm (handled (match_pending_against_wire env show clock final b)) (handled b)
  unfolding match_pending_against_wire
  handled-match_pending clock final b =
      let r = match_round env show b.filters b.window clock final b.pending b.packets in
      subst (λ l. Perm (l ++ map pending_id r.remaining) (handled b))
        (sym (map-append export_id b.exported r.exported))
        (behind (map export_id b.exported) (map export_id r.exported) _ _
          (match_round-ids env show b.filters b.window clock final b.pending b.packets))

  handled-flush_packets :
      (now clock : ℕ) (pkts : List BufferedWirePacket) (b : WirePacketBuffer)
      → Perm (handled (flush_packets env show now clock pkts b)) (handled b)
  unfolding flush_packets
  handled-flush_packets now clock [] b = Perm.refl (handled b)
  handled-flush_packets now clock (_ ∷ _) b = handled-match_pending clock false b

  -- Records that are exported without a match leave the pending ones.
  handled-unmatched :
      (done : List (ℕ × GenericMap)) (out left : List PendingPlaintext) (all : List ℕ)
      → Perm (map pending_id out ++ map pending_id left) all
      → Perm
          (map export_id (done ++ map (export_unmatched env show) out) ++ map pending_id left)
          (map export_id done ++ all)
  handled-unmatched done out left all p =
      subst (λ l. Perm (l ++ map pending_id left) (map export_id done ++ all))
        (sym
          (map-append export_id done _ ∙ ap (◌++◌ (map export_id done)) (map-export_unmatched out)))
        (behind (map export_id done) (map pending_id out) (map pending_id left) all p)

  handled-flush_records :
      (now : ℕ) (b : WirePacketBuffer) → Perm (handled (flush_records env show now b)) (handled b)
  unfolding flush_records
  handled-flush_records now b =
      handled-unmatched b.exported (keep (record_expired b.window now) b.pending) _
        (map pending_id b.pending)
        (subst (λ l. Perm l (map pending_id b.pending)) (map-append pending_id _ _)
          (Perm.map pending_id (keep-perm (record_expired b.window now) b.pending)))

  pub handled-flush_expired :
      (now clock : ℕ) (b : WirePacketBuffer)
      → Perm (handled (flush_expired env show now clock b)) (handled b)
  unfolding flush_expired
  handled-flush_expired now clock b =
      Perm.trans (handled-flush_records now (flush_packets env show now clock b.packets b))
        (handled-flush_packets now clock b.packets b)

  handled-append_packet :
      (pkt : BufferedWirePacket) (b : WirePacketBuffer) → handled (append_packet pkt b) ≡ handled b
  unfolding append_packet
  handled-append_packet pkt b =
      elim (Bool-cases (ltb max_buffered_wire_packets (length (b.packets ++ pkt ∷ [])))) [
        | inl full ↦ rw full
        | inr room ↦ rw room
      ]

  pub handled-enqueue :
      (now clock : ℕ) (m : GenericMap) (data_b64 : String) (b : WirePacketBuffer)
      → Perm (handled (or_unchanged b (enqueue env show now clock m data_b64 b))) (handled b)
  unfolding enqueue
  handled-enqueue now clock m data_b64 b = elim (Option-cases (env.decode_base64 data_b64)) [
    | inl e ↦ rw (e, enqueue) (Perm.refl (handled b))
    | inr (frame, e) ↦
        let pkt = new_packet now m frame in
        let flushed = flush_expired env show now clock b in
        rw (e, enqueue)
          (Perm.trans (handled-match_pending clock false (append_packet pkt flushed)) (
            subst (λ l. Perm l (handled b)) (sym (handled-append_packet pkt flushed))
              (handled-flush_expired now clock b)))
  ]

  handled-accept_record :
      (clock : ℕ) (pt : PendingPlaintext) (b : WirePacketBuffer)
      → Perm (handled (accept_record env show clock pt b)) (handled b ++ pt.id ∷ [])
  unfolding accept_record
  handled-accept_record clock pt b =
      let a = try_annotate env show b.filters b.window clock false b.packets pt in
      let same = try_annotate-SameRecord env show b.filters b.window clock false b.packets pt in
      let done = map export_id b.exported in
      let waiting = map pending_id b.pending in
      elim (Option-cases a.matched) [
        | inl e ↦
            rw (e, accept_record)
              (subst (Perm _)
                (ap (◌++◌ done) (map-append pending_id b.pending (a.tried ∷ []))
                  ∙ sym (append_assoc done waiting (a.tried.id ∷ []))
                  ∙ ap (λ k. (done ++ waiting) ++ k ∷ []) same.same_id)
                (Perm.refl _))
        | inr (after, e) ↦
            rw (e, accept_record)
              (subst (λ l. Perm (l ++ waiting) ((done ++ waiting) ++ pt.id ∷ []))
                (sym (map-append export_id b.exported ((a.tried.id, a.tried.fields) ∷ [])))
                (subst (λ k. Perm ((done ++ k ∷ []) ++ waiting) ((done ++ waiting) ++ pt.id ∷ []))
                  (sym same.same_id) (join_front done waiting pt.id)))
      ]

  pub handled-handle_plaintext :
      (now clock : ℕ) (m : GenericMap) (id : ℕ) (b : WirePacketBuffer)
      → Perm (handled (handle_plaintext env show now clock m id b)) (handled b ++ id ∷ [])
  unfolding handle_plaintext
  handled-handle_plaintext now clock m id b =
      Perm.trans (handled-accept_record clock (new_pending now m id) _)
        (Perm.append_right (id ∷ []) (handled-flush_expired now clock b))

  pub handled-close :
      (clock : ℕ) (b : WirePacketBuffer) → Perm (handled (close env show clock b)) (handled b)
  unfolding close
  handled-close clock b =
      let m = match_pending_against_wire env show clock true b in
      Perm.trans
        (handled-unmatched m.exported m.pending [] (map pending_id m.pending)
          (subst (λ l. Perm l (map pending_id m.pending)) (sym (append-nil _)) (Perm.refl _)))
        (handled-match_pending clock true b)
