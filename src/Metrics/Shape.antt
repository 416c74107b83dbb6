-- ===== src/Metrics/Shape.antt =====
-- What updateData of cmd/metric_display.go makes of a matrix.
use network_observability_cl.Base.{
  ◌≡◌, refl, sym, ap, subst, ◌∙◌, arith, ℕ, ◌≤◌, ◌<◌, zero, suc, String, Option, some, List, [],
  ◌∷◌, map, length, length-set, length-map, set, ltb, ◌==◌, All, ◌⊎◌, inl, inr, Bool-cases, if_both,
  if_true, if_false,
}
use network_observability_cl.Metrics.{
  Sample, Series, Bases, Graph, gather, no_bases, zeros, place_samples, placed, left_out, in_front,
  start_of, shorter, shorter_row, align, series_data, update_data, color_count, take,
}

module _ {V : Type 0} (zero_value : V) where
  length-zeros : (n : ℕ) → length (zeros zero_value n) ≡ n
  unfolding zeros
  length-zeros zero = refl
  length-zeros (suc n) = omega (arith, length-zeros n)

  length-place_samples :
      (start : ℕ) (values : List (Sample V)) (row : List V)
      → length (place_samples zero_value start values row) ≡ length row
  unfolding place_samples
  length-place_samples start [] row = refl
  length-place_samples start (v ∷ values) row =
      length-place_samples (suc start) values (set row start v.value) ∙ length-set row start v.value

  -- One row for each series, each without data or as long as the longest series.
  pub record Shape (max : ℕ) (matrix : List (Series V)) (rows : List (List V)) : Type 0 where
    pub one_each : length rows ≡ length matrix
    pub widths : All (λ row. (length row ≡ 0) ⊎ (length row ≡ max)) rows

  pub Shape-left_out : (max : ℕ) (matrix : List (Series V)) → Shape max matrix (left_out matrix)
  Shape-left_out max [] = record { one_each = refl; widths = tt }
  Shape-left_out max (s ∷ matrix) =
      let rest = Shape-left_out max matrix in
      record { one_each = ap suc rest.one_each; widths = (inl refl, rest.widths) }

  -- A series with at least one sample.
  abbrev pub HasSamples : Series V → Type 0
  HasSamples s = 0 < length s.values

  start_of-total :
      (b : Bases) (values : List (Sample V))
      → 0 < length values
      → (start : ℕ) × (start_of b values ≡ some start)
  start_of-total b [] h = absurd (omega (arith, h))
  start_of-total b (v ∷ values) h = (_, refl)

  Shaped : Bases → List (Series V) → Option (List (List V)) → Type 0
  Shaped b matrix found =
      (rows : List (List V)) × (found ≡ some rows) × Shape b.max_values_len matrix rows

  Shaped-in_front :
      (b : Bases) (start : ℕ) (s : Series V) (matrix : List (Series V))
      (found : Option (List (List V)))
      → Shaped b matrix found
      → Shaped b (s ∷ matrix) (in_front (placed zero_value b.max_values_len start s) found)
  unfolding Shaped
  Shaped-in_front b start s matrix found h =
      let row : List V = placed zero_value b.max_values_len start s in
      (
        row ∷ h.0,
        rw h.1 refl,
        record {
          one_each = ap suc h.2.one_each;
          widths = (
            inr (
                length-place_samples start s.values (zeros zero_value b.max_values_len)
                ∙ length-zeros b.max_values_len),
            h.2.widths,
          );
        },
      )

  Shaped-shorter_row :
      (b : Bases) (s : Series V) (matrix : List (Series V)) (found : Option (List (List V)))
      (start : ℕ)
      → Shaped b matrix found
      → Shaped b (s ∷ matrix) (shorter_row zero_value b s matrix found start)
  unfolding Shaped
  Shaped-shorter_row b s matrix found start h =
      let out : List (List V) = left_out (s ∷ matrix) in
      let full = in_front (placed zero_value b.max_values_len start s) found in
      if_both (Shaped b (s ∷ matrix)) (start == 0) (some out) full
        (out, refl, Shape-left_out b.max_values_len (s ∷ matrix))
        (Shaped-in_front b start s matrix found h)

  Shaped-align :
      (b : Bases) (matrix : List (Series V))
      → All HasSamples matrix
      → Shaped b matrix (align zero_value b matrix)
  unfolding Shaped align
  Shaped-align b [] h = ([], refl, record { one_each = refl; widths = tt })
  Shaped-align b (s ∷ matrix) h =
      let rest = Shaped-align b matrix h.1 in
      let found = align zero_value b matrix in
      let full = in_front (placed zero_value b.max_values_len 0 s) found in
      elim (Bool-cases (ltb (length s.values) b.max_values_len)) [
        | inl short ↦
            let start = start_of-total b s.values h.0 in
            subst (Shaped b (s ∷ matrix))
              (sym (if_true (shorter zero_value b s matrix found) full short))
              (rw start.1 (Shaped-shorter_row b s matrix found start.0 rest))
        | inr long ↦
            subst (Shaped b (s ∷ matrix))
              (sym (if_false (shorter zero_value b s matrix found) full long))
              (Shaped-in_front b 0 s matrix found rest)
      ]

  Shaped-series_data :
      (b : Bases) (matrix : List (Series V))
      → All HasSamples matrix
      → Shaped b matrix (series_data zero_value b matrix)
  unfolding Shaped series_data
  Shaped-series_data b matrix h =
      let out : List (List V) = left_out matrix in
      if_both (Shaped b matrix) (ltb 0 b.max_values_len) (align zero_value b matrix) (some out)
        (Shaped-align b matrix h) (out, refl, Shape-left_out b.max_values_len matrix)

length-take {ℓ} : {A : Type ℓ} (n : ℕ) (xs : List A) → length (take n xs) ≤ n
length-take zero xs = omega arith
length-take (suc n) [] = omega arith
length-take (suc n) (x ∷ xs) = omega (arith, length-take n xs)

All-take {ℓ κ} : {A : Type ℓ} (P : A → Type κ) (n : ℕ) (xs : List A) → All P xs → All P (take n xs)
All-take P zero xs h = tt
All-take P (suc n) [] h = tt
All-take P (suc n) (x ∷ xs) h = (h.0, All-take P n xs h.1)

-- A matrix that is not empty, whose series each have a sample, is shown without a panic: there is a
-- legend and a row of data for each series, for at most as many as there are colors, and each row
-- is without data or as long as the longest series.
pub update_data-Shape :
    {A : Type 0} (zero_value : A) (sort_strings : List String → List String) (s : Series A)
    (matrix : List (Series A)) (g : Graph A)
    → All (HasSamples zero_value) (s ∷ matrix)
    → let shown = take color_count (s ∷ matrix) in
      (after : Graph A) × (update_data zero_value sort_strings (s ∷ matrix) g ≡ some after)
      × Shape zero_value (gather shown no_bases).max_values_len shown after.graph_data
      × (length after.legends ≡ length after.graph_data)
      × (length after.legends ≤ 25)
unfolding update_data Shaped
update_data-Shape {A = A} zero_value sort_strings s matrix g h =
    let shown = take color_count (s ∷ matrix) in
    let b = gather shown no_bases in
    let rows =
      Shaped-series_data zero_value b shown
        (All-take (HasSamples zero_value) color_count (s ∷ matrix) h) in
    let one_legend : length (map (λ x. x.metric) shown) ≡ length shown =
      length-map (λ x. x.metric) shown in
    let after : Graph A = record g {
      labels = sort_strings b.labels;
      legends = map (λ x. x.metric) shown;
      graph_data = rows.0;
    } in
    (
      after,
      rw rows.1 refl,
      rows.2,
      one_legend ∙ sym rows.2.one_each,
      subst (λ n. n ≤ 25) (sym one_legend) (length-take color_count (s ∷ matrix)),
    )
