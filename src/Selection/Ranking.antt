-- ===== src/Selection/Ranking.antt =====
-- One round of the loop of bestWireMatchWithAmbiguityLocked (cmd/packet_capture_wire_buffer.go): what
-- a packet does to the best and the second score.
use network_observability_cl.Base.{
  ℕ, ◌≤◌, true, false, Option, none, some, ◌≡◌, ◌⊎◌, inl, inr, refl, ◌∙◌, arith, is_some,
  Bool-cases, subst,
}
use network_observability_cl.Endpoint.{FlowTuple}
use network_observability_cl.Selection.{Best, above, note_connection, rank, consider}

-- a ≤ b, where none is -1.
abbrev pub LeScore : Option ℕ → Option ℕ → Type 0
LeScore none b = Unit
LeScore (some a) none = ⊥
LeScore (some a) (some b) = a ≤ b

pub LeScore-trans : (a b c : Option ℕ) → LeScore a b → LeScore b c → LeScore a c
LeScore-trans none b c h k = tt
LeScore-trans (some a) none c h k = absurd h
LeScore-trans (some a) (some b) none h k = absurd k
LeScore-trans (some a) (some b) (some c) h k = omega arith

-- The second never exceeds the best.
abbrev pub IsOrdered : Best → Type 0
IsOrdered best = LeScore best.second best.score

-- One packet against the best so far: it becomes the best, and the old best is bounded by the second;
-- or it is bounded by the second itself.
pub record Ranked (i : ℕ) (score : Option ℕ) (best after : Best) : Type 0 where
  pub choice :
      ((after.index ≡ some i)
        × (after.score ≡ score)
        × (is_some score ≡ true)
        × LeScore best.score after.second)
      ⊎ ((after.index ≡ best.index) × (after.score ≡ best.score) × LeScore score after.second)
  pub grows : LeScore best.second after.second
  pub ordered : IsOrdered after

above-LeScore : (a b : Option ℕ) → above a b ≡ true → LeScore b a
above-LeScore none b h = cc
above-LeScore (some a) none h = tt
above-LeScore (some a) (some b) h = ground arith

above-is_some : (a b : Option ℕ) → above a b ≡ true → is_some a ≡ true
above-is_some none b h = h
above-is_some (some a) b h = refl

not_above-LeScore : (a b : Option ℕ) → above a b ≡ false → LeScore a b
not_above-LeScore none b h = tt
not_above-LeScore (some a) none h = cc
not_above-LeScore (some a) (some b) h = ground arith

pub LeScore-refl : (a : Option ℕ) → LeScore a a
LeScore-refl none = tt
LeScore-refl (some a) = omega arith

rank-Ranked :
    (i : ℕ) (score : Option ℕ) (best : Best)
    → IsOrdered best
    → Ranked i score best (rank i score best)
unfolding rank
rank-Ranked i score best o = elim (Bool-cases (above score best.score)) [
  | inl up ↦ rw up (record {
    choice = inl (refl, refl, above-is_some score best.score up, LeScore-refl best.score);
    grows = o;
    ordered = above-LeScore score best.score up;
  })
  | inr down ↦ rw down (elim (Bool-cases (above score best.second)) [
    | inl up ↦ rw up (record {
      choice = inr (refl, refl, LeScore-refl score);
      grows = above-LeScore score best.second up;
      ordered = not_above-LeScore score best.score down;
    })
    | inr low ↦ rw low (record {
      choice = inr (refl, refl, not_above-LeScore score best.second low);
      grows = LeScore-refl best.second;
      ordered = o;
    })
  ])
]

-- Noting a connection leaves the ranking alone.
pub record SameRanking (a b : Best) : Type 0 where
  pub same_index : b.index ≡ a.index
  pub same_score : b.score ≡ a.score
  pub same_second : b.second ≡ a.second

note_connection-SameRanking :
    (score : Option ℕ) (t : Option FlowTuple) (best : Best)
    → SameRanking best (note_connection score t best)
unfolding note_connection
note_connection-SameRanking none t best = record {
  same_index = refl;
  same_score = refl;
  same_second = refl;
}
note_connection-SameRanking (some s) none best = record {
  same_index = refl;
  same_score = refl;
  same_second = refl;
}
note_connection-SameRanking (some s) (some t) best = record {
  same_index = refl;
  same_score = refl;
  same_second = refl;
}

-- A round of the loop ranks a free packet, and only notes the connection of a taken one.
pub consider_taken :
    (i : ℕ) (score : Option ℕ) (t : Option FlowTuple) (best : Best)
    → SameRanking best (consider i true score t best)
unfolding consider
consider_taken i score t best = note_connection-SameRanking score t best

Ranked-SameRanking :
    (i : ℕ) (score : Option ℕ) (a b after : Best)
    → SameRanking a b
    → Ranked i score b after
    → Ranked i score a after
Ranked-SameRanking i score a b after same r = record {
  choice = elim r.choice [
    | inl (x, y, z, w) ↦ inl (x, y, z, subst (λ o. LeScore o after.second) same.same_score w)
    | inr (x, y, z) ↦ inr (x ∙ same.same_index, y ∙ same.same_score, z)
  ];
  grows = subst (λ o. LeScore o after.second) same.same_second r.grows;
  ordered = r.ordered;
}

pub IsOrdered-SameRanking : (a b : Best) → SameRanking a b → IsOrdered a → IsOrdered b
IsOrdered-SameRanking a b same o = rw (same.same_score, same.same_second) o

pub consider_free :
    (i : ℕ) (score : Option ℕ) (t : Option FlowTuple) (best : Best)
    → IsOrdered best
    → Ranked i score best (consider i false score t best)
unfolding consider
consider_free i score t best o =
    let same = note_connection-SameRanking score t best in
    let noted = note_connection score t best in
    Ranked-SameRanking i score best noted _ same
      (rank-Ranked i score noted (IsOrdered-SameRanking best noted same o))
