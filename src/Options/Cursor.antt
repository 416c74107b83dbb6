-- ===== src/Options/Cursor.antt =====
-- The cursor stays on an item, and the two moves undo each other.
use native.Mathlib.Nat.{mod-lt, mod-eq_of_lt, mod-add-mod, add-mod_right}
use network_observability_cl.Base.{
  ◌∙◌, ℕ, zero, suc, ◌+◌, ◌-◌, ◌%◌, ◌<◌, some, List, [], ◌∷◌, ◌≡◌, refl, ap, arith, length,
  get_elem?, Bool-cases, inl, inr, ◌==◌,
}
use network_observability_cl.Options.{
  OptionItem, OptionList, get_current_item, moved_to, prev, next,
}

-- The cursor stands on one of the items.
abbrev pub OnItem : OptionList → Type 0
OnItem opt = opt.current < length opt.all

get_elem?-in {ℓ} :
    {A : Type ℓ} (xs : List A) (i : ℕ) → i < length xs → (x : A) × (get_elem? xs i ≡ some x)
get_elem?-in [] i h = absurd (omega (arith, h))
get_elem?-in (x ∷ xs) zero h = (x, refl)
get_elem?-in (x ∷ xs) (suc i) h = get_elem?-in xs i (omega (arith, h))

-- One step on and n - 1 steps on, in either order, are n steps on.
around : (i n : ℕ) → i < n → (i + 1 + (n - 1)) % n ≡ i
around i n h =
    let all_round : i + 1 + (n - 1) ≡ i + n = omega (arith, h) in
    ap (λ k. k % n) all_round ∙ add-mod_right i n ∙ mod-eq_of_lt h

next_prev : (i n : ℕ) → i < n → ((i + 1) % n + (n - 1)) % n ≡ i
next_prev i n h = mod-add-mod (i + 1) n (n - 1) ∙ around i n h

prev_next : (i n : ℕ) → i < n → ((i + (n - 1)) % n + 1) % n ≡ i
prev_next i n h =
    let swapped : i + (n - 1) + 1 ≡ i + 1 + (n - 1) = omega (arith, h) in
    mod-add-mod (i + (n - 1)) n 1 ∙ ap (λ k. k % n) swapped ∙ around i n h

abbrev pub at_item : List OptionItem → ℕ → OptionList
at_item items i = record { all = items; current = i }

moved_to-some :
    (items : List OptionItem) (i j : ℕ)
    → 0 < length items
    → moved_to j (at_item items i) ≡ some (at_item items (j % length items))
moved_to-some items i j h = elim (Bool-cases (length items == 0)) [
  | inl empty ↦ absurd (ground (arith, h))
  | inr other ↦ rw other refl
]

-- A cursor that stands on an item has a current item; both moves succeed and leave it on an item of the
-- same list; and each of them undoes the other.
pub moves_undo :
    (items : List OptionItem) (i : ℕ)
    → let opt = at_item items i in
      OnItem opt
      → ((item : OptionItem) × (get_current_item opt ≡ some item))
        × ((after : OptionList) × (next opt ≡ some after) × OnItem after × (prev after ≡ some opt))
        × ((before : OptionList) × (prev opt ≡ some before)
            × OnItem before
            × (next before ≡ some opt))
unfolding get_current_item next prev
moves_undo items i h =
    let n = length items in
    let some_items : 0 < n = omega (arith, h) in
    (
      get_elem?-in items i h,
      (
        at_item items ((i + 1) % n),
        moved_to-some items i (i + 1) some_items,
        mod-lt (i + 1) some_items,
        moved_to-some items ((i + 1) % n) ((i + 1) % n + (n - 1)) some_items
            ∙ ap (λ k. some (at_item items k)) (next_prev i n h),
      ),
      (
        at_item items ((i + (n - 1)) % n),
        moved_to-some items i (i + (n - 1)) some_items,
        mod-lt (i + (n - 1)) some_items,
        moved_to-some items ((i + (n - 1)) % n) ((i + (n - 1)) % n + 1) some_items
            ∙ ap (λ k. some (at_item items k)) (prev_next i n h),
      ),
    )
