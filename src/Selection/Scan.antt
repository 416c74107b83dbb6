-- ===== src/Selection/Scan.antt =====
-- One pass over the packets (bestWireMatchWithAmbiguityLocked of cmd/packet_capture_wire_buffer.go)
-- finds the best of the free ones and bounds all the others.
use network_observability_cl.Base.{
  ℕ, zero, suc, ◌+◌, Bool, true, false, Option, some, List, [], ◌∷◌, ◌≡◌, ◌⊎◌, inl, inr, refl, ◌∙◌,
  arith, get_elem?, is_some, ap, sym, subst,
}
use network_observability_cl.Platform.{Platform}
use network_observability_cl.Plaintext.{Display}
use network_observability_cl.Endpoint.{FlowTuple, flow_tuple_from_map}
use network_observability_cl.Filters.{CaptureFilters}
use network_observability_cl.Packet.{BufferedWirePacket, PendingPlaintext}
use network_observability_cl.Score.{score_plaintext_wire_match}
use network_observability_cl.Selection.{Best, consider, scan}
use network_observability_cl.Selection.Ranking.{
  LeScore, LeScore-trans, LeScore-refl, IsOrdered, IsOrdered-SameRanking, consider_taken,
  consider_free,
}

-- What the whole loop says of the packets behind the i-th place: the choice is one of the free ones
-- with its score, or still the old one; and every free packet that is not chosen scores at most the
-- second.
module _ (env : Platform) (show : Display) (filters : CaptureFilters) (pt : PendingPlaintext) where
  abbrev pub score_of : BufferedWirePacket → Option ℕ
  score_of pkt = score_plaintext_wire_match env show pkt pt filters

  pub record Chosen (i : ℕ) (pkts : List BufferedWirePacket) (last : Best) : Type 0 where
    pub place : ℕ
    pub packet : BufferedWirePacket
    pub found : get_elem? pkts place ≡ some packet
    pub free : packet.annotated ≡ false
    pub index_is : last.index ≡ some (i + place)
    pub score_is : last.score ≡ score_of packet
    pub scores : is_some last.score ≡ true

  pub record Scanned (i : ℕ) (pkts : List BufferedWirePacket) (best last : Best) : Type 0 where
    pub choice :
        (Chosen i pkts last × LeScore best.score last.second)
        ⊎ ((last.index ≡ best.index) × (last.score ≡ best.score))
    pub grows : LeScore best.second last.second
    pub ordered : IsOrdered last
    pub dominated :
        (place : ℕ) (pkt : BufferedWirePacket)
        → get_elem? pkts place ≡ some pkt
        → pkt.annotated ≡ false
        → (last.index ≡ some (i + place)) ⊎ LeScore (score_of pkt) last.second

  -- One round, for a packet that is free or taken.
  record Considered (i : ℕ) (p : BufferedWirePacket) (best after : Best) : Type 0 where
    choice :
        ((p.annotated ≡ false)
          × (after.index ≡ some i)
          × (after.score ≡ score_of p)
          × (is_some (score_of p) ≡ true)
          × LeScore best.score after.second)
        ⊎ ((after.index ≡ best.index)
            × (after.score ≡ best.score)
            × (p.annotated ≡ false → LeScore (score_of p) after.second))
    grows : LeScore best.second after.second
    ordered : IsOrdered after

  considered :
      (i : ℕ) (p : BufferedWirePacket) (t : Option FlowTuple) (best : Best) (taken : Bool)
      → p.annotated ≡ taken
      → IsOrdered best
      → Considered i p best (consider i taken (score_of p) t best)
  considered i p t best true e o =
      let same = consider_taken i (score_of p) t best in
      record {
        choice = inr (same.same_index, same.same_score, λ f. cc (e, f));
        grows = rw same.same_second (LeScore-refl best.second);
        ordered = IsOrdered-SameRanking best _ same o;
      }
  considered i p t best false e o =
      let r = consider_free i (score_of p) t best o in
      record {
        choice = elim r.choice [
          | inl (x, y, z, w) ↦ inl (e, x, y, z, w)
          | inr (x, y, z) ↦ inr (x, y, λ _. z)
        ];
        grows = r.grows;
        ordered = r.ordered;
      }

  here_Chosen :
      (i : ℕ) (p : BufferedWirePacket) (ps : List BufferedWirePacket) (last : Best)
      → p.annotated ≡ false
      → last.index ≡ some i
      → last.score ≡ score_of p
      → is_some (score_of p) ≡ true
      → Chosen i (p ∷ ps) last
  here_Chosen i p ps last f x y z = record {
    place = 0;
    packet = p;
    found = refl;
    free = f;
    index_is = x ∙ ap some (omega arith);
    score_is = y;
    scores = rw y z;
  }

  there_Chosen :
      (i : ℕ) (p : BufferedWirePacket) (ps : List BufferedWirePacket) (last : Best)
      → Chosen (suc i) ps last
      → Chosen i (p ∷ ps) last
  there_Chosen i p ps last c = record {
    place = suc c.place;
    packet = c.packet;
    found = c.found;
    free = c.free;
    index_is = c.index_is ∙ ap some (omega arith);
    score_is = c.score_is;
    scores = c.scores;
  }

  -- A round in front of the rest of the loop: the packet considered is the choice, or bounded.
  cons-dominated :
      (i : ℕ) (p : BufferedWirePacket) (ps : List BufferedWirePacket) (best mid last : Best)
      → Considered i p best mid
      → Scanned (suc i) ps mid last
      → p.annotated ≡ false
      → (last.index ≡ some (i + 0)) ⊎ LeScore (score_of p) last.second
  cons-dominated i p ps best mid last c s free = elim c.choice [
    | inl (_, x, y, _, _) ↦ elim s.choice [
      | inl (_, le) ↦ inr (subst (λ o. LeScore o last.second) y le)
      | inr (u, _) ↦ inl (u ∙ x ∙ ap some (omega arith))
    ]
    | inr (_, _, le) ↦ inr (LeScore-trans (score_of p) mid.second last.second (le free) s.grows)
  ]

  cons-choice :
      (i : ℕ) (p : BufferedWirePacket) (ps : List BufferedWirePacket) (best mid last : Best)
      → Considered i p best mid
      → Scanned (suc i) ps mid last
      → (Chosen i (p ∷ ps) last × LeScore best.score last.second)
        ⊎ ((last.index ≡ best.index) × (last.score ≡ best.score))
  cons-choice i p ps best mid last c s = elim s.choice [
    | inl (chosen, le) ↦ inl (
      there_Chosen i p ps last chosen,
      elim c.choice [
        | inl (_, _, _, _, under) ↦ LeScore-trans best.score mid.second last.second under s.grows
        | inr (_, y, _) ↦ subst (λ o. LeScore o last.second) y le
      ],
    )
    | inr (u, v) ↦ elim c.choice [
      | inl (free, x, y, z, under) ↦ inl (
        here_Chosen i p ps last free (u ∙ x) (v ∙ y) z,
        LeScore-trans best.score mid.second last.second under s.grows,
      )
      | inr (x, y, _) ↦ inr (u ∙ x, v ∙ y)
    ]
  ]

  Scanned-cons :
      (i : ℕ) (p : BufferedWirePacket) (ps : List BufferedWirePacket) (best mid last : Best)
      → Considered i p best mid
      → Scanned (suc i) ps mid last
      → Scanned i (p ∷ ps) best last
  Scanned-cons i p ps best mid last c s = record {
    choice = cons-choice i p ps best mid last c s;
    grows = LeScore-trans best.second mid.second last.second c.grows s.grows;
    ordered = s.ordered;
    dominated = dominated;
  }
    where
      dominated :
          (place : ℕ) (pkt : BufferedWirePacket)
          → get_elem? (p ∷ ps) place ≡ some pkt
          → pkt.annotated ≡ false
          → (last.index ≡ some (i + place)) ⊎ LeScore (score_of pkt) last.second
      dominated zero pkt e free =
          let eq : p ≡ pkt = cc in
          subst (λ q. (last.index ≡ some (i + 0)) ⊎ LeScore (score_of q) last.second) eq
            (cons-dominated i p ps best mid last c s
              (subst (λ q. q.annotated ≡ false) (sym eq) free))
      dominated (suc place) pkt e free = elim (s.dominated place pkt e free) [
        | inl x ↦ inl (x ∙ ap some (omega arith))
        | inr le ↦ inr le
      ]

  pub scan-Scanned :
      (i : ℕ) (pkts : List BufferedWirePacket) (best : Best)
      → IsOrdered best
      → Scanned i pkts best (scan env show filters pt i pkts best)
  unfolding scan
  scan-Scanned i [] best o = record {
    choice = inr (refl, refl);
    grows = LeScore-refl best.second;
    ordered = o;
    dominated = λ place pkt e. cc;
  }
  scan-Scanned i (p ∷ ps) best o =
      let t = flow_tuple_from_map env p.generic_map in
      let mid = consider i p.annotated (score_of p) t best in
      let c = considered i p t best p.annotated refl o in
      Scanned-cons i p ps best mid _ c (scan-Scanned (suc i) ps mid c.ordered)
