-- ===== src/Tests/Sorting.antt =====
-- Insertion sort, as a concrete sort.Slice for the tests of the table.
use network_observability_cl.Base.{
  ◌≡◌, refl, arith, Bool, false, List, [], ◌∷◌, if◌then◌else◌, Bool-cases, inl, inr, count,
}
use mathlib.Core.List.Perm
use network_observability_cl.Base.Latest.{StrictOrder, Ascending}
use network_observability_cl.Base.Permutations.{Perm, count-perm}

module _ {ℓ} {A : Type ℓ} where
  unfoldable pub insert_by : (A → A → Bool) → A → List A → List A
  insert_by less x [] = x ∷ []
  insert_by less x (y ∷ ys) =
      let later = insert_by less x ys in if less y x then y ∷ later else x ∷ y ∷ ys

  unfoldable pub insertion_sort : (A → A → Bool) → List A → List A
  unfolding insert_by
  insertion_sort less [] = []
  insertion_sort less (x ∷ xs) = insert_by less x (insertion_sort less xs)

  insert_by-perm : (less : A → A → Bool) (x : A) (xs : List A) → Perm (insert_by less x xs) (x ∷ xs)
  unfolding insert_by
  insert_by-perm less x [] = Perm.refl (x ∷ [])
  insert_by-perm less x (y ∷ ys) = elim (Bool-cases (less y x)) [
    | inl hit ↦ rw hit (Perm.trans (Perm.cons y (insert_by-perm less x ys)) (Perm.swap x y ys))
    | inr miss ↦ rw miss (Perm.refl (x ∷ y ∷ ys))
  ]

  pub insertion_sort-perm : (less : A → A → Bool) (xs : List A) → Perm (insertion_sort less xs) xs
  unfolding insertion_sort
  insertion_sort-perm less [] = Perm.refl []
  insertion_sort-perm less (x ∷ xs) =
      Perm.trans (insert_by-perm less x (insertion_sort less xs))
        (Perm.cons x (insertion_sort-perm less xs))

  module _ (less : A → A → Bool) (o : StrictOrder A less) where
    none_before :
        (x y : A) (zs : List A)
        → less y x ≡ false
        → count (λ z. less z y) zs ≡ 0
        → count (λ z. less z x) zs ≡ 0
    none_before x y [] h c = refl
    none_before x y (z ∷ zs) h c = elim (Bool-cases (less z y)) [
      | inl hit ↦ ground (arith, hit, c)
      | inr miss ↦ ground (arith, o.negative z y x miss h, miss, c, none_before x y zs h)
    ]

    insert_by-Ascending :
        (x : A) (xs : List A) → Ascending less xs → Ascending less (insert_by less x xs)
    unfolding insert_by
    insert_by-Ascending x [] h = (refl, tt)
    insert_by-Ascending x (y ∷ ys) h = elim (Bool-cases (less y x)) [
      | inl hit ↦ rw hit (
        ground (arith, count-perm (λ z. less z y) (insert_by-perm less x ys), h.0, o.asym y x hit),
        insert_by-Ascending x ys h.1,
      )
      | inr miss ↦ rw miss (none_before x y (y ∷ ys) miss (ground (arith, o.asym y y, h.0)), h)
    ]

    pub insertion_sort-Ascending : (xs : List A) → Ascending less (insertion_sort less xs)
    unfolding insertion_sort
    insertion_sort-Ascending [] = tt
    insertion_sort-Ascending (x ∷ xs) =
        insert_by-Ascending x (insertion_sort less xs) (insertion_sort-Ascending xs)
