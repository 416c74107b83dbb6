-- ===== src/Correlation/Guards.antt =====
-- When a record is annotated, and with which packet.
use network_observability_cl.Base.{
  ℕ, ◌+◌, ◌<◌, Bool, true, false, ◌||◌, Option, none, some, List, ◌≡◌, inl, inr, refl, arith,
  get_elem?, set, Bool-cases, Option-cases, or-false, ◌∙◌, ap, All, All-get, ◌≢◌,
}
use network_observability_cl.Platform.{Platform}
use network_observability_cl.Plaintext.{Display}
use network_observability_cl.Endpoint.{plaintext_has_tuple}
use network_observability_cl.Filters.{CaptureFilters}
use network_observability_cl.Packet.{BufferedWirePacket, PendingPlaintext}
use network_observability_cl.Selection.{
  Selected, best_wire_match_with_ambiguity, conclude, min_annotation_score,
  prepare_plaintext_for_match,
}
use network_observability_cl.Selection.Winner.{ClearWinner, best_match-ClearWinner}
use network_observability_cl.Correlation.{
  Attempt, try_annotate, annotate_selected, annotate_packet, annotate_at, may_annotate,
  matched_record, annotate, mark_annotated, below,
}

module _ (env : Platform) (show : Display) where
  -- All that a successful attempt has checked and done, for the selection `s`.
  pub record Annotation (filters : CaptureFilters) (window clock : ℕ) (final : Bool)
      (pkts : List BufferedWirePacket) (s : Selected) (a : Attempt) : Type 0 where
    pub index : ℕ
    pub packet : BufferedWirePacket
    pub found : get_elem? pkts index ≡ some packet
    pub clear : s.ambiguous ≡ false
    pub index_is : s.index ≡ some index
    pub enough : below s.score (min_annotation_score env show filters s.record_after.fields) ≡ false
    pub allowed : may_annotate env show window clock final s.record_after packet ≡ true
    pub packets_are :
        a.matched
        ≡ some (
            set pkts index
              (annotate env show (matched_record env show s.record_after packet) packet))
    pub fields_are :
        a.tried.fields ≡ mark_annotated true (matched_record env show s.record_after packet).fields

  -- The selection keeps what identifies the record.
  pub selected_identity :
      (filters : CaptureFilters) (pt : PendingPlaintext) (pkts : List BufferedWirePacket)
      → ((best_wire_match_with_ambiguity env show filters pt pkts).record_after.id ≡ pt.id)
        × ((best_wire_match_with_ambiguity env show filters pt pkts).record_after.original
            ≡ pt.original)
        × ((best_wire_match_with_ambiguity env show filters pt pkts).record_after.received_at
            ≡ pt.received_at)
  unfolding best_wire_match_with_ambiguity conclude
  selected_identity filters pt pkts = (refl, refl, refl)

  not_allowed :
      (window clock : ℕ) (final : Bool) (pt : PendingPlaintext) (pkt : BufferedWirePacket)
      → final ≡ false
      → plaintext_has_tuple env pt.original ≡ false
      → clock < pt.received_at + window
      → clock < pkt.received_at + window
      → may_annotate env show window clock final pt pkt ≡ true
      → ⊥
  unfolding may_annotate
  not_allowed window clock final pt pkt f t h k allowed = ground arith

  module _ (filters : CaptureFilters) (window clock : ℕ) (final : Bool)
      (pkts after : List BufferedWirePacket) where
    annotate_packet-Annotation :
        (s : Selected) (i : ℕ) (pkt : BufferedWirePacket)
        → s.index ≡ some i
        → (s.ambiguous
            || below s.score (min_annotation_score env show filters s.record_after.fields))
          ≡ false
        → get_elem? pkts i ≡ some pkt
        → (annotate_packet env show window clock final pkts s.record_after i pkt).matched
          ≡ some after
        → Annotation filters window clock final pkts s
            (annotate_packet env show window clock final pkts s.record_after i pkt)
    unfolding annotate_packet
    annotate_packet-Annotation s i pkt e sure found h =
        elim (Bool-cases (may_annotate env show window clock final s.record_after pkt)) [
          | inl ok ↦
              let (clear, enough) =
                or-false s.ambiguous
                  (below s.score (min_annotation_score env show filters s.record_after.fields))
                  sure in
              rw ok (record {
                index = i;
                packet = pkt;
                found = found;
                clear = clear;
                index_is = e;
                enough = enough;
                allowed = ok;
                packets_are = refl;
                fields_are = refl;
              })
          | inr not_yet ↦ cc (rw not_yet at h)
        ]

    annotate_at-Annotation :
        (s : Selected) (i : ℕ)
        → s.index ≡ some i
        → (s.ambiguous
            || below s.score (min_annotation_score env show filters s.record_after.fields))
          ≡ false
        → (annotate_at env show window clock final pkts s.record_after i).matched ≡ some after
        → Annotation filters window clock final pkts s
            (annotate_at env show window clock final pkts s.record_after i)
    unfolding annotate_at
    annotate_at-Annotation s i e sure h = elim (Option-cases (get_elem? pkts i)) [
      | inl gone ↦ cc (rw (gone, annotate_at) at h)
      | inr (pkt, found) ↦
          rw (found, annotate_at)
            (annotate_packet-Annotation s i pkt e sure found (rw (found, annotate_at) at h))
    ]

    annotate_selected-Annotation :
        (s : Selected) (o : Option ℕ)
        → s.index ≡ o
        → (annotate_selected env show filters window clock final pkts s o).matched ≡ some after
        → Annotation filters window clock final pkts s
            (annotate_selected env show filters window clock final pkts s o)
    unfolding annotate_selected
    annotate_selected-Annotation s none e h = cc
    annotate_selected-Annotation s (some i) e h =
        elim (Bool-cases (
          s.ambiguous
          || below s.score (min_annotation_score env show filters s.record_after.fields))) [
            | inl unsure ↦ cc (rw unsure at h)
            | inr sure ↦ rw sure (annotate_at-Annotation s i e sure (rw sure at h))
          ]

    pub try_annotate-Annotation :
        (pt : PendingPlaintext)
        → (try_annotate env show filters window clock final pkts pt).matched ≡ some after
        → Annotation filters window clock final pkts
            (best_wire_match_with_ambiguity env show filters pt pkts)
            (try_annotate env show filters window clock final pkts pt)
    unfolding try_annotate
    try_annotate-Annotation pt h = annotate_selected-Annotation _ _ refl h

    -- A record is annotated with a clear winner only: the packet was free, and every other free packet
    -- scored more than the margin of five points less than it, or did not match. That packet alone
    -- changes, and takes the record's id.
    pub try_annotate-ClearWinner :
        (pt : PendingPlaintext)
        → (try_annotate env show filters window clock final pkts pt).matched ≡ some after
        → (i : ℕ) × (w : ClearWinner env show filters
            (prepare_plaintext_for_match env show filters pt)
            pkts
            i)
          × (marked : BufferedWirePacket) × (after ≡ set pkts i marked)
          × (marked.packet_id ≡ some pt.id)
          × (marked.annotated ≡ true)
    unfolding annotate matched_record
    try_annotate-ClearWinner pt h =
        let a = try_annotate-Annotation pt h in
        let s = best_wire_match_with_ambiguity env show filters pt pkts in
        (
          a.index,
          best_match-ClearWinner env show filters pt pkts a.index a.index_is a.clear,
          annotate env show (matched_record env show s.record_after a.packet) a.packet,
          cc (h, a.packets_are),
          ap some (selected_identity filters pt pkts).0,
          refl,
        )

    -- A record without its own tuple waits: as long as the capture goes on, and neither the record nor
    -- any buffered packet has been there for the window, no packet is annotated for it.
    pub try_annotate_waits :
        (pt : PendingPlaintext)
        → final ≡ false
        → plaintext_has_tuple env pt.original ≡ false
        → clock < pt.received_at + window
        → All (λ pkt. clock < pkt.received_at + window) pkts
        → (try_annotate env show filters window clock final pkts pt).matched ≢ some after
    unfolding may_annotate
    try_annotate_waits pt going no_tuple young fresh h =
        let a = try_annotate-Annotation pt h in
        let same = selected_identity filters pt pkts in
        let packet_young =
          All-get (λ pkt. clock < pkt.received_at + window) pkts a.index fresh a.found in
        let s = best_wire_match_with_ambiguity env show filters pt pkts in
        not_allowed window clock final s.record_after a.packet going
          (ap (plaintext_has_tuple env) same.1 ∙ no_tuple) (rw same.2 young) packet_young a.allowed

    -- The mark that several connections could be meant stays on the record, whatever the attempt does.
    annotate_selected-mark :
        (s : Selected) (o : Option ℕ)
        → (annotate_selected env show filters window clock final pkts s
            o).tried.connection_ambiguous
          ≡ s.record_after.connection_ambiguous
    unfolding annotate_selected annotate_at annotate_packet matched_record
    annotate_selected-mark s none = refl
    annotate_selected-mark s (some i) =
        elim (Bool-cases (
          s.ambiguous
          || below s.score (min_annotation_score env show filters s.record_after.fields))) [
            | inl unsure ↦ rw unsure refl
            | inr sure ↦ rw sure (elim (Option-cases (get_elem? pkts i)) [
              | inl gone ↦ rw (gone, annotate_at) refl
              | inr (pkt, found) ↦
                  elim (Bool-cases (may_annotate env show window clock final s.record_after pkt)) [
                    | inl ok ↦ rw (found, annotate_at, ok) refl
                    | inr not_yet ↦ rw (found, annotate_at, not_yet) refl
                  ]
            ])
          ]

    -- Once several connections could be meant, the record is never annotated, however few candidates
    -- are left later: no attempt matches it, and the record that an attempt leaves has the mark still.
    pub connection_ambiguous_stays :
        (pt : PendingPlaintext)
        → pt.connection_ambiguous ≡ true
        → ((try_annotate env show filters window clock final pkts pt).matched ≢ some after)
          × ((try_annotate env show filters window clock final pkts pt).tried.connection_ambiguous
              ≡ true)
    unfolding try_annotate best_wire_match_with_ambiguity conclude
    connection_ambiguous_stays pt amb =
        let s = best_wire_match_with_ambiguity env show filters pt pkts in
        let marked : s.record_after.connection_ambiguous ≡ true = ground arith in
        (
          λ h. let a = try_annotate-Annotation pt h in ground (arith, a.clear),
          annotate_selected-mark s s.index ∙ marked,
        )
