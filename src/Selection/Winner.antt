-- ===== src/Selection/Winner.antt =====
-- The packet that is chosen without ambiguity is a clear winner.
use network_observability_cl.Base.{
  ℕ, ◌+◌, ◌<◌, true, false, Option, none, some, List, ◌≡◌, ◌≢◌, inl, inr, refl, ◌∙◌, arith,
  get_elem?, is_some, sym, subst, or-false,
}
use network_observability_cl.Platform.{Platform}
use network_observability_cl.Plaintext.{Display}
use network_observability_cl.Filters.{CaptureFilters}
use network_observability_cl.Packet.{BufferedWirePacket, PendingPlaintext, ambiguity_margin}
use network_observability_cl.Selection.{
  Best, no_match, scan, conclude, close_call, within_margin, best_wire_match_with_ambiguity,
  prepare_plaintext_for_match,
}
use network_observability_cl.Selection.Ranking.{LeScore}
use network_observability_cl.Selection.Scan.{score_of, Scanned, Chosen, scan-Scanned}

margin_gap :
    (best other : ℕ) (second : Option ℕ)
    → within_margin (some best) second ≡ false
    → LeScore (some other) second
    → other + ambiguity_margin < best
margin_gap best other none far le = absurd le
margin_gap best other (some t) far le = ground arith

some_eq : {a b : ℕ} → Path (Option ℕ) (some a) (some b) → a ≡ b
some_eq e = cc

is_some-value : (o : Option ℕ) → is_some o ≡ true → (n : ℕ) × (o ≡ some n)
is_some-value none h = cc
is_some-value (some n) h = (n, refl)

module _ (env : Platform) (show : Display) (filters : CaptureFilters) where
  -- The packet at a place is free, scores `best`, and every other free packet scores more than the
  -- margin less, or does not match at all.
  pub record ClearWinner (pt : PendingPlaintext) (pkts : List BufferedWirePacket) (i : ℕ)
      : Type 0 where
    pub packet : BufferedWirePacket
    pub best : ℕ
    pub found : get_elem? pkts i ≡ some packet
    pub free : packet.annotated ≡ false
    pub scores : score_of env show filters pt packet ≡ some best
    pub clear :
        (j other : ℕ) (pkt : BufferedWirePacket)
        → j ≢ i
        → get_elem? pkts j ≡ some pkt
        → pkt.annotated ≡ false
        → score_of env show filters pt pkt ≡ some other
        → other + ambiguity_margin < best

  Chosen-ClearWinner :
      (pt : PendingPlaintext) (pkts : List BufferedWirePacket) (last : Best) (i best : ℕ)
      → Scanned env show filters pt 0 pkts no_match last
      → (c : Chosen env show filters pt 0 pkts last) → c.place ≡ i
      → last.index ≡ some i
      → last.score ≡ some best
      → within_margin last.score last.second ≡ false
      → ClearWinner pt pkts i
  Chosen-ClearWinner pt pkts last i best s c at_i e scored far = record {
    packet = c.packet;
    best = best;
    found = subst (λ k. get_elem? pkts k ≡ some c.packet) at_i c.found;
    free = c.free;
    scores = sym c.score_is ∙ scored;
    clear = λ j other pkt ne found free score. elim (s.dominated j pkt found free) [
      | inl x ↦ absurd (ne (omega (arith, some_eq (sym x ∙ e))))
      | inr le ↦
          margin_gap best other last.second (rw scored at far)
            (subst (λ o. LeScore o last.second) score le)
    ];
  }

  scan-ClearWinner :
      (pt : PendingPlaintext) (pkts : List BufferedWirePacket) (last : Best) (i : ℕ)
      → Scanned env show filters pt 0 pkts no_match last
      → last.index ≡ some i
      → close_call last ≡ false
      → ClearWinner pt pkts i
  unfolding close_call
  scan-ClearWinner pt pkts last i s e far = elim s.choice [
    | inl (c, _) ↦
        let (best, scored) = is_some-value last.score c.scores in
        let at_i : c.place ≡ i = omega (arith, some_eq (sym c.index_is ∙ e)) in
        Chosen-ClearWinner pt pkts last i best s c at_i e scored (ground arith)
    | inr (x, _) ↦ cc
  ]

  -- Whenever the selection names a packet without ambiguity, that packet is a clear winner for the
  -- record as it was prepared for the match.
  pub best_match-ClearWinner :
      (pt : PendingPlaintext) (pkts : List BufferedWirePacket) (i : ℕ)
      → (best_wire_match_with_ambiguity env show filters pt pkts).index ≡ some i
      → (best_wire_match_with_ambiguity env show filters pt pkts).ambiguous ≡ false
      → ClearWinner (prepare_plaintext_for_match env show filters pt) pkts i
  unfolding best_wire_match_with_ambiguity conclude
  best_match-ClearWinner pt pkts i e clear =
      let prepared = prepare_plaintext_for_match env show filters pt in
      let s = scan-Scanned env show filters prepared 0 pkts no_match tt in
      let last = scan env show filters prepared 0 pkts no_match in
      scan-ClearWinner prepared pkts last i s e (or-false (close_call last) _ clear).0
