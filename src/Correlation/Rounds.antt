-- ===== src/Correlation/Rounds.antt =====
-- What a round of matching keeps: every packet in its place, and every record once.
use mathlib.Core.List.{perm_middle}
use mathlib.Core.List.Perm
use network_observability_cl.Base.{
  ℕ, zero, suc, Bool, ◌||◌, false, Option, none, some, List, [], ◌∷◌, ◌++◌, map, ◌≡◌, inl, inr,
  refl, ◌∙◌, ap, get_elem?, set, Bool-cases, Option-cases,
}
use network_observability_cl.Base.Permutations.{Perm}
use network_observability_cl.Record.{GenericMap}
use network_observability_cl.Platform.{Platform}
use network_observability_cl.Plaintext.{Display}
use network_observability_cl.Filters.{CaptureFilters}
use network_observability_cl.Packet.{BufferedWirePacket, PendingPlaintext}
use network_observability_cl.Selection.{
  Selected, best_wire_match_with_ambiguity, min_annotation_score,
}
use network_observability_cl.Correlation.{
  try_annotate, annotate_selected, annotate_at, annotate_packet, annotate, match_round,
  matched_record, may_annotate, below,
}
use network_observability_cl.Correlation.Guards.{try_annotate-Annotation, selected_identity}

-- The packet as it arrived, without what the buffer notes on it.
abbrev pub bare : BufferedWirePacket → BufferedWirePacket
bare pkt = record pkt { annotations = []; packet_id = none; annotated = false }

map-bare-set :
    (pkts : List BufferedWirePacket) (i : ℕ) (pkt marked : BufferedWirePacket)
    → get_elem? pkts i ≡ some pkt
    → bare marked ≡ bare pkt
    → map bare (set pkts i marked) ≡ map bare pkts
map-bare-set [] i pkt marked e h = refl
map-bare-set (x ∷ xs) zero pkt marked e h = cc
map-bare-set (x ∷ xs) (suc i) pkt marked e h = ap (◌∷◌ (bare x)) (map-bare-set xs i pkt marked e h)

abbrev pub pending_id : PendingPlaintext → ℕ
pending_id pt = pt.id

abbrev pub export_id : ℕ × GenericMap → ℕ
export_id e = e.0

-- What identifies a record, and does not change while it waits.
pub record SameRecord (a b : PendingPlaintext) : Type 0 where
  pub same_id : b.id ≡ a.id
  pub same_original : b.original ≡ a.original
  pub same_arrival : b.received_at ≡ a.received_at

module _ (env : Platform) (show : Display) (filters : CaptureFilters) (window clock : ℕ)
    (final : Bool) where
  pub try_annotate-bare :
      (pkts after : List BufferedWirePacket) (pt : PendingPlaintext)
      → (try_annotate env show filters window clock final pkts pt).matched ≡ some after
      → map bare after ≡ map bare pkts
  unfolding annotate
  try_annotate-bare pkts after pt h =
      let a = try_annotate-Annotation env show filters window clock final pkts after pt h in
      let s = best_wire_match_with_ambiguity env show filters pt pkts in
      let marked = annotate env show (matched_record env show s.record_after a.packet) a.packet in
      let moved : after ≡ set pkts a.index marked = cc (h, a.packets_are) in
      ap (map bare) moved ∙ map-bare-set pkts a.index a.packet marked a.found refl

  annotate_packet-SameRecord :
      (pkts : List BufferedWirePacket) (pt : PendingPlaintext) (i : ℕ) (pkt : BufferedWirePacket)
      → SameRecord pt (annotate_packet env show window clock final pkts pt i pkt).tried
  unfolding annotate_packet matched_record
  annotate_packet-SameRecord pkts pt i pkt =
      elim (Bool-cases (may_annotate env show window clock final pt pkt)) [
        | inl ok ↦ rw ok (record { same_id = refl; same_original = refl; same_arrival = refl })
        | inr no_way ↦
            rw no_way (record { same_id = refl; same_original = refl; same_arrival = refl })
      ]

  annotate_at-SameRecord :
      (pkts : List BufferedWirePacket) (pt : PendingPlaintext) (i : ℕ)
      → SameRecord pt (annotate_at env show window clock final pkts pt i).tried
  unfolding annotate_at
  annotate_at-SameRecord pkts pt i = elim (Option-cases (get_elem? pkts i)) [
    | inl e ↦
        rw (e, annotate_at) (record { same_id = refl; same_original = refl; same_arrival = refl })
    | inr (pkt, e) ↦ rw (e, annotate_at) (annotate_packet-SameRecord pkts pt i pkt)
  ]

  annotate_selected-SameRecord :
      (pkts : List BufferedWirePacket) (s : Selected) (o : Option ℕ)
      → SameRecord s.record_after
          (annotate_selected env show filters window clock final pkts s o).tried
  unfolding annotate_selected
  annotate_selected-SameRecord pkts s none = record {
    same_id = refl;
    same_original = refl;
    same_arrival = refl;
  }
  annotate_selected-SameRecord pkts s (some i) =
      elim (Bool-cases (
        s.ambiguous
        || below s.score (min_annotation_score env show filters s.record_after.fields))) [
          | inl e ↦ rw e (record { same_id = refl; same_original = refl; same_arrival = refl })
          | inr e ↦ rw e (annotate_at-SameRecord pkts s.record_after i)
        ]

  -- A record keeps its id, its original and its arrival, matched or not.
  pub try_annotate-SameRecord :
      (pkts : List BufferedWirePacket) (pt : PendingPlaintext)
      → SameRecord pt (try_annotate env show filters window clock final pkts pt).tried
  unfolding try_annotate
  try_annotate-SameRecord pkts pt =
      let s = best_wire_match_with_ambiguity env show filters pt pkts in
      let same = selected_identity env show filters pt pkts in
      let next = annotate_selected-SameRecord pkts s s.index in
      record {
        same_id = next.same_id ∙ same.0;
        same_original = next.same_original ∙ same.1;
        same_arrival = next.same_arrival ∙ same.2;
      }

  -- A round keeps the packets, in their order, and only notes annotations on them.
  pub match_round-bare :
      (pts : List PendingPlaintext) (pkts : List BufferedWirePacket)
      → map bare (match_round env show filters window clock final pts pkts).packets ≡ map bare pkts
  unfolding match_round
  match_round-bare [] pkts = refl
  match_round-bare (pt ∷ pts) pkts =
      elim (Option-cases (try_annotate env show filters window clock final pkts pt).matched) [
        | inl e ↦ rw (e, match_round) (match_round-bare pts pkts)
        | inr (after, e) ↦
            rw (e, match_round) (match_round-bare pts after ∙ try_annotate-bare pkts after pt e)
      ]

  -- A round exports a record or leaves it pending, and never both.
  pub match_round-ids :
      (pts : List PendingPlaintext) (pkts : List BufferedWirePacket)
      → let r = match_round env show filters window clock final pts pkts in
        Perm (map export_id r.exported ++ map pending_id r.remaining) (map pending_id pts)
  unfolding match_round
  match_round-ids [] pkts = Perm.nil
  match_round-ids (pt ∷ pts) pkts =
      let same = try_annotate-SameRecord pkts pt in
      elim (Option-cases (try_annotate env show filters window clock final pkts pt).matched) [
        | inl e ↦
            rw (e, match_round)
              (Perm.trans (perm_middle _ _) (Perm.cons' same.same_id (match_round-ids pts pkts)))
        | inr (after, e) ↦ rw (e, match_round) (Perm.cons' same.same_id (match_round-ids pts after))
      ]
