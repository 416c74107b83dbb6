-- ===== src/Base/Latest.antt =====
-- What a bounded buffer keeps that is sorted and then cut to its last entries, whatever sorts it.
use network_observability_cl.Base.Tests.{leb, Bool-cases, if◌then◌else◌}
use network_observability_cl.Base.Lists.{length, count, drop, last_of, All}
use network_observability_cl.Base.Permutations.{Perm, length-perm, count-perm}
use mathlib.Core.List.{List, [], ◌∷◌, ◌++◌, perm_middle}
use mathlib.Core.List.Perm
use mathlib.Core.Path.{◌≡◌, refl, sym, subst}
use mathlib.Core.Logic.{◌⊎◌, inl, inr}
use mathlib.Core.Bool.{Bool, true, false}
use Prim.Native.Nat.{ℕ, suc, ◌+◌, ◌-◌, ◌≤◌}
use native.Mathlib.Omega.{arith}

-- The orders that package sort asks for: strict weak orderings.
pub record StrictOrder {ℓ} (A : Type ℓ) (less : A → A → Bool) : Type ℓ where
  pub asym : (a b : A) → less a b ≡ true → less b a ≡ false
  pub negative : (a b c : A) → less a b ≡ false → less b c ≡ false → less a c ≡ false

module _ {ℓ} {A : Type ℓ} (less : A → A → Bool) where
  -- No entry is before one in front of it.
  abbrev pub Ascending : List A → Type 0
  Ascending [] = Unit
  Ascending (x ∷ xs) = (count (λ y. less y x) xs ≡ 0) × Ascending xs

  -- A buffer holds the latest of all: it is all but for what was evicted, and no entry that it
  -- holds is before an evicted one.
  pub record Latest (max : ℕ) (all kept : List A) : Type ℓ where
    pub evicted : List A
    pub whole : Perm (kept ++ evicted) all
    pub sorted : Ascending kept
    pub room : length kept ≤ max
    pub full : (evicted ≡ []) ⊎ (length kept ≡ max)
    pub older : All (λ e. count (λ b. less b e) kept ≡ 0) evicted

  irreflexive : StrictOrder A less → (a : A) → less a a ≡ false
  irreflexive o a = elim (Bool-cases (less a a)) [ inl h ↦ o.asym a a h | inr h ↦ h ]

  module _ (o : StrictOrder A less) where
    -- What leaves at the front of the sorted entries takes nothing older with it.
    still_older :
        (m d e : A) (kept rest : List A)
        → Perm (d ∷ rest) (m ∷ kept)
        → Ascending (d ∷ rest)
        → count (λ b. less b e) kept ≡ 0
        → count (λ b. less b e) rest ≡ 0
    still_older m d e kept rest p up below =
        let before_e : (if less d e then 1 else 0) + count (λ b. less b e) rest
            ≡ (if less m e then 1 else 0) + count (λ b. less b e) kept =
          count-perm (λ b. less b e) p in
        let before_d : (if less d d then 1 else 0) + count (λ b. less b d) rest
            ≡ (if less m d then 1 else 0) + count (λ b. less b d) kept =
          count-perm (λ b. less b d) p in
        elim (Bool-cases (less d e)) [
          | inl front ↦ ground (arith, front, before_e, below)
          | inr behind ↦ elim (Bool-cases (less m d)) [
            | inl hit ↦ ground (arith, hit, before_d, up.0, irreflexive o d)
            | inr miss ↦ ground (arith, o.negative m d e miss behind, behind, before_e, below)
          ]
        ]

    All-older :
        (m d : A) (kept rest evicted : List A)
        → Perm (d ∷ rest) (m ∷ kept)
        → Ascending (d ∷ rest)
        → All (λ e. count (λ b. less b e) kept ≡ 0) evicted
        → All (λ e. count (λ b. less b e) rest ≡ 0) evicted
    All-older m d kept rest [] p up h = tt
    All-older m d kept rest (e ∷ evicted) p up h =
        (still_older m d e kept rest p up h.0, All-older m d kept rest evicted p up h.1)

    evict :
        (max : ℕ) (all kept s : List A) (m : A)
        → length s ≡ suc max
        → (evicted : List A) → Perm (kept ++ evicted) all
        → All (λ e. count (λ b. less b e) kept ≡ 0) evicted
        → Perm s (m ∷ kept)
        → Ascending s
        → Latest max (m ∷ all) (drop 1 s)
    evict max all kept [] m long evicted whole older p up = ground (arith, long)
    evict max all kept (d ∷ rest) m long evicted whole older p up = record {
      evicted = d ∷ evicted;
      whole =
          Perm.trans (perm_middle rest evicted)
            (Perm.trans (Perm.append_right evicted p) (Perm.cons m whole));
      sorted = up.1;
      room = omega (arith, long);
      full = inr (omega (arith, long));
      older = (up.0, All-older m d kept rest evicted p up older);
    }

    -- One more entry, sorted in and cut to the last max.
    pub Latest-cons :
        (max : ℕ) (all kept s : List A) (m : A)
        → Latest max all kept
        → Perm s (m ∷ kept)
        → Ascending s
        → Latest max (m ∷ all) (last_of max s)
    Latest-cons max all kept s m h p up = elim (Bool-cases (leb (length s) max)) [
      | inl fits ↦
          let still_full : (h.evicted ≡ []) ⊎ (length s ≡ max) = elim h.full [
            | inl e ↦ inl e
            | inr e ↦ ground (arith, length-perm p)
          ] in
          let still : All (λ e. count (λ b. less b e) s ≡ 0) h.evicted = elim h.full [
            | inl e ↦ subst (All (λ x. count (λ b. less b x) s ≡ 0)) (sym e) tt
            | inr e ↦ ground (arith, length-perm p)
          ] in
          let none_out : length s - max ≡ 0 = ground arith in
          rw none_out (record {
            evicted = h.evicted;
            whole = Perm.trans (Perm.append_right h.evicted p) (Perm.cons m h.whole);
            sorted = up;
            room = ground arith;
            full = still_full;
            older = still;
          })
      | inr over ↦
          let long : length s ≡ suc max = ground (arith, length-perm p, h.room) in
          let one_out : length s - max ≡ 1 = omega (arith, long) in
          rw one_out (evict max all kept s m long h.evicted h.whole h.older p up)
    ]

    pub Latest-nil : (max : ℕ) → Latest max [] []
    Latest-nil max = record {
      evicted = [];
      whole = Perm.refl [];
      sorted = tt;
      room = omega arith;
      full = inl refl;
      older = tt;
    }
