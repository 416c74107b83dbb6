-- ===== src/Table/Shown.antt =====
-- What getFlows of cmd/flow_display.go puts on the screen.
use network_observability_cl.Base.{
  ◌≡◌, refl, arith, last_of_all, leb→le, ==_iff, ℕ, ◌-◌, ◌≤◌, Bool, some, List, [], ◌∷◌, ◌++◌, leb,
  ◌==◌, length, drop, last_of, count, keep, subst, inl, inr, Bool-cases, zero, suc, All,
}
use mathlib.Core.List.Perm
use mathlib.Core.List.{perm_middle, append-nil}
use network_observability_cl.Base.Latest.{Latest, Ascending}
use network_observability_cl.Base.Permutations.{Perm, length-perm}
use network_observability_cl.Record.{GenericMap}
use network_observability_cl.Table.Order.{
  Capture, packet, Host, HostLaws, sort_entries, comes_before, untimed,
}
use network_observability_cl.Table.Order.Strict.{comes_before-StrictOrder}
use network_observability_cl.Table.Rows.{trim_flows_to_show_count}

module _ {ℓ} {A : Type ℓ} (less : A → A → Bool) where
  pub count-keep-none : (p q : A → Bool) (xs : List A) → count p xs ≡ 0 → count p (keep q xs) ≡ 0
  count-keep-none p q [] h = refl
  count-keep-none p q (x ∷ xs) h = elim (Bool-cases (q x)) [
    | inl hit ↦ rw (hit, keep) (ground (arith, h, count-keep-none p q xs))
    | inr miss ↦ rw (miss, keep) (count-keep-none p q xs (omega (arith, h)))
  ]

  -- A filter keeps the order.
  pub Ascending-keep : (q : A → Bool) (xs : List A) → Ascending less xs → Ascending less (keep q xs)
  Ascending-keep q [] h = tt
  Ascending-keep q (x ∷ xs) h = elim (Bool-cases (q x)) [
    | inl hit ↦ rw (hit, keep) (count-keep-none (λ y. less y x) q xs h.0, Ascending-keep q xs h.1)
    | inr miss ↦ rw (miss, keep) (Ascending-keep q xs h.1)
  ]

  count-drop-none : (p : A → Bool) (n : ℕ) (xs : List A) → count p xs ≡ 0 → count p (drop n xs) ≡ 0
  count-drop-none p zero xs h = h
  count-drop-none p (suc n) [] h = refl
  count-drop-none p (suc n) (x ∷ xs) h = count-drop-none p n xs (omega (arith, h))

  -- What is cut off in front of an ascending list.
  record Front (n : ℕ) (xs : List A) : Type ℓ where
    cut : List A
    whole : Perm (drop n xs ++ cut) xs
    ascending : Ascending less (drop n xs)
    left : length (drop n xs) ≡ length xs - n
    older : All (λ e. count (λ b. less b e) (drop n xs) ≡ 0) cut
    none_cut : (n ≡ 0) → cut ≡ []

  front : (n : ℕ) (xs : List A) → Ascending less xs → n ≤ length xs → Front n xs
  front zero xs h le = record {
    cut = [];
    whole = rw (append-nil xs) (Perm.refl xs);
    ascending = h;
    left = omega arith;
    older = tt;
    none_cut = λ e. refl;
  }
  front (suc n) [] h le = ground (arith, le)
  front (suc n) (x ∷ xs) h le =
      let f = front n xs h.1 (omega (arith, le)) in
      record {
        cut = x ∷ f.cut;
        whole = Perm.trans (perm_middle (drop n xs) f.cut) (Perm.cons x f.whole);
        ascending = f.ascending;
        left = omega (arith, f.left, le);
        older = (count-drop-none (λ b. less b x) n xs h.0, f.older);
        none_cut = λ e. ground (arith, e);
      }

  -- The last entries of an ascending list are the latest of it.
  pub last_of-Latest :
      (max : ℕ) (xs : List A) → Ascending less xs → Latest less max xs (last_of max xs)
  last_of-Latest max xs h =
      let f = front (length xs - max) xs h (omega arith) in
      record {
        evicted = f.cut;
        whole = f.whole;
        sorted = f.ascending;
        older = f.older;
        room = omega (arith, f.left);
        full = elim (Bool-cases (leb (length xs) max)) [
          | inl fits ↦ inl (f.none_cut (ground arith))
          | inr over ↦ inr (ground (arith, f.left))
        ];
      }

  pub Latest-perm :
      (max : ℕ) (xs ys kept : List A)
      → Perm xs ys
      → Latest less max xs kept
      → Latest less max ys kept
  Latest-perm max xs ys kept p h = record {
    evicted = h.evicted;
    whole = Perm.trans h.whole p;
    sorted = h.sorted;
    older = h.older;
    room = h.room;
    full = h.full;
  }

module _ {ℓ} {A : Type ℓ} (less : A → A → Bool) where
  Latest-nothing :
      (max : ℕ) (xs kept : List A) → max ≡ 0 → Latest less max xs kept → Latest less max xs []
  Latest-nothing max xs [] e h = h
  Latest-nothing max xs (x ∷ kept) e h = ground (arith, h.room, e)

-- The entries of a capture of packets, in the order of their arrival at the screen.
module _ (host : Host) (laws : HostLaws host) where
  pub sorts :
      (kind : Capture) (xs : List GenericMap)
      → count (untimed host kind) xs ≡ 0
      → sort_entries host kind xs ≡ some (host.sort (comes_before host kind) xs)
  unfolding sort_entries
  sorts kind xs h = rw h refl

  -- Entries that are in order are cut to the latest.
  pub trim-Latest :
      (xs : List GenericMap) (limit : ℕ)
      → count (untimed host packet) xs ≡ 0
      → Ascending (comes_before host packet) xs
      → (rows : List GenericMap) × (trim_flows_to_show_count host packet xs limit ≡ some rows)
        × Latest (comes_before host packet) limit xs rows
  unfolding trim_flows_to_show_count
  trim-Latest xs limit timed up =
      let less = comes_before host packet in
      let sorted : List GenericMap = host.sort less xs in
      elim (Bool-cases (limit == 0)) [
        | inl none_shown ↦ (
          [],
          rw none_shown refl,
          Latest-nothing less limit xs (last_of limit xs) ((==_iff limit 0).0 none_shown)
              (last_of-Latest less limit xs up),
        )
        | inr some_shown ↦ elim (Bool-cases (leb (length xs) limit)) [
          | inl fits ↦ (
            xs,
            rw (some_shown, fits) refl,
            subst (Latest less limit xs) (last_of_all limit xs (leb→le (length xs) limit fits))
                (last_of-Latest less limit xs up),
          )
          | inr over ↦ (
            drop (length xs - limit) sorted,
            rw (some_shown, over, sorts packet xs timed) refl,
            subst (λ n. Latest less limit xs (drop (n - limit) sorted))
                (length-perm (laws.sort-perm less xs))
                (Latest-perm less limit sorted xs (last_of limit sorted) (laws.sort-perm less xs) (
                  last_of-Latest less limit sorted
                    (laws.sort-ascending less xs (comes_before-StrictOrder host packet)))),
          )
        ]
      ]
