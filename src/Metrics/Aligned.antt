-- ===== src/Metrics/Aligned.antt =====
-- Where updateData of cmd/metric_display.go puts the samples.
use network_observability_cl.Base.{
  ◌≡◌, refl, sym, ap, subst, ◌∙◌, arith, ℕ, ◌<◌, zero, suc, none, some, List, [], ◌∷◌, ◌++◌, map,
  length, length-append, set, All, if_true, if_false, true, ℤ, leb_ℤ, ltb_ℤ, ◌⊎◌, inl, inr,
}
use mathlib.Core.List.{append_assoc}
use network_observability_cl.Endpoint.{◌>>=◌}
use network_observability_cl.Metrics.{
  Sample, Series, Bases, gather, note_series, no_bases, zeros, place_samples, placed, left_out,
  in_front, start_of, start_index, first_from, shorter, shorter_row, align, series_data,
}

module _ {V : Type 0} (zero_value : V) where
  abbrev pub values_of : Series V → List V
  values_of s = map (λ v. v.value) s.values

  set-append :
      (front : List V) (x : V) (back : List V) (v : V)
      → set (front ++ x ∷ back) (length front) v ≡ front ++ v ∷ back
  set-append [] x back v = refl
  set-append (y ∷ front) x back v = ap (◌∷◌ y) (set-append front x back v)

  -- Samples behind a front, where there is room for them.
  place_samples-append :
      (front : List V) (values : List (Sample V)) (start n : ℕ)
      → start ≡ length front
      → length values ≡ n
      → place_samples zero_value start values (front ++ zeros zero_value n)
        ≡ front ++ map (λ v. v.value) values
  unfolding place_samples zeros
  place_samples-append front [] start zero at_end e = refl
  place_samples-append front [] start (suc n) at_end e = absurd (omega (arith, e))
  place_samples-append front (v ∷ values) start zero at_end e = absurd (omega (arith, e))
  place_samples-append front (v ∷ values) start (suc n) at_end e =
      let back : List V = zeros zero_value n in
      let rest : List V = map (λ x. x.value) values in
      let longer : List V = front ++ v.value ∷ [] in
      let at_next : suc start ≡ length longer =
        omega (arith, at_end, length-append front (v.value ∷ [])) in
      let set_here : set (front ++ zero_value ∷ back) start v.value ≡ longer ++ back =
        ap (λ i. set (front ++ zero_value ∷ back) i v.value) at_end
        ∙ set-append front zero_value back v.value
        ∙ sym (append_assoc front (v.value ∷ []) back) in
      ap (place_samples zero_value (suc start) values) set_here
      ∙ place_samples-append longer values (suc start) n at_next (omega (arith, e))
      ∙ append_assoc front (v.value ∷ []) rest

  -- Series of one length.
  abbrev pub Long : ℕ → Series V → Type 0
  Long n s = length s.values ≡ n

  align-Long :
      (b : Bases) (matrix : List (Series V))
      → All (Long b.max_values_len) matrix
      → align zero_value b matrix ≡ some (map values_of matrix)
  unfolding align
  align-Long b [] h = refl
  align-Long b (s ∷ matrix) h =
      let n = b.max_values_len in
      let found = align zero_value b matrix in
      if_false (shorter zero_value b s matrix found) (in_front (placed zero_value n 0 s) found)
        (ground (arith, h.0))
      ∙ ap (in_front (placed zero_value n 0 s)) (align-Long b matrix h.1)
      ∙ ap (λ row. some (row ∷ map values_of matrix))
          (place_samples-append [] s.values 0 n refl h.0)

  gather-Long :
      (n : ℕ) (matrix : List (Series V)) (b : Bases)
      → All (Long n) matrix
      → b.max_values_len ≡ n
      → (gather matrix b).max_values_len ≡ n
  unfolding gather
  gather-Long n [] b h e = e
  gather-Long n (s ∷ matrix) b h e =
      gather-Long n matrix (note_series s b) h.1 (ground (arith, h.0, e))

  -- A matrix of series that all have the same positive number of samples is shown as it is: the
  -- rows of data are the values of the series.
  pub series_data-Long :
      (n : ℕ) (s : Series V) (matrix : List (Series V))
      → 0 < n
      → All (Long n) (s ∷ matrix)
      → series_data zero_value (gather (s ∷ matrix) no_bases) (s ∷ matrix)
        ≡ some (map values_of (s ∷ matrix))
  unfolding series_data gather
  series_data-Long n s matrix some_samples h =
      let b = gather (s ∷ matrix) no_bases in
      let widest : b.max_values_len ≡ n =
        gather-Long n matrix (note_series s no_bases) h.1 (ground (arith, h.0, some_samples)) in
      if_true (align zero_value b (s ∷ matrix)) (some (left_out (s ∷ matrix)))
        (ground (arith, widest, some_samples))
      ∙ align-Long b (s ∷ matrix) (subst (λ m. All (Long m) (s ∷ matrix)) (sym widest) h)

  align-break :
      (b : Bases) (front : List (Series V)) (s : Series V) (v : Sample V) (values : List (Sample V))
      (back : List (Series V))
      → All (Long b.max_values_len) front
      → s.values ≡ v ∷ values
      → length s.values < b.max_values_len
      → start_index (first_from v.timestamp b.timestamps) ≡ 0
      → align zero_value b (front ++ s ∷ back) ≡ some (map values_of front ++ left_out (s ∷ back))
  unfolding align
  align-break b [] s v values back h first short at_zero =
      let n = b.max_values_len in
      let found = align zero_value b back in
      if_true (shorter zero_value b s back found) (in_front (placed zero_value n 0 s) found)
        (ground (arith, short))
      ∙ ap (λ vs. start_of b vs >>= (λ start. shorter_row zero_value b s back found start)) first
      ∙ ap (shorter_row zero_value b s back found) at_zero
  align-break b (x ∷ front) s v values back h first short at_zero =
      let n = b.max_values_len in
      let rest = front ++ s ∷ back in
      let found = align zero_value b rest in
      if_false (shorter zero_value b x rest found) (in_front (placed zero_value n 0 x) found)
        (ground (arith, h.0))
      ∙ ap (in_front (placed zero_value n 0 x))
          (align-break b front s v values back h.1 first short at_zero)
      ∙ ap (λ row. some (row ∷ map values_of front ++ left_out (s ∷ back)))
          (place_samples-append [] x.values 0 n refl h.0)

  -- The time is not after the first of the timestamps, or is after all of them.
  abbrev pub AtAnEnd : ℤ → List ℤ → Type 0
  AtAnEnd time times =
      ((first : ℤ) × (later : List ℤ) × (times ≡ first ∷ later) × (leb_ℤ time first ≡ true))
      ⊎ All (λ t. ltb_ℤ t time ≡ true) times

  first_from-past_end :
      (time : ℤ) (times : List ℤ)
      → All (λ t. ltb_ℤ t time ≡ true) times
      → first_from time times ≡ none
  unfolding first_from
  first_from-past_end time [] h = refl
  first_from-past_end time (t ∷ times) h =
      if_false (some 0) (elim (first_from time times) [ none ↦ none | some j ↦ some (suc j) ])
        (ground (arith, h.0))
      ∙ ap (λ o. elim o [ none ↦ none | some j ↦ some (suc j) ])
          (first_from-past_end time times h.1)

  start_index-AtAnEnd :
      (time : ℤ) (times : List ℤ) → AtAnEnd time times → start_index (first_from time times) ≡ 0
  unfolding first_from
  start_index-AtAnEnd time times (inl (first, later, e, h)) = rw (e, h) refl
  start_index-AtAnEnd time times (inr h) = ap start_index (first_from-past_end time times h)

  -- In a matrix of series of the greatest length, then a shorter series whose first sample is not
  -- after the first timestamp, or is after all of them, then any further series: the shorter series
  -- and every series after it are left without data, whatever samples they have.
  pub series_data-break :
      (front : List (Series V)) (s : Series V) (v : Sample V) (values : List (Sample V))
      (back : List (Series V))
      → let matrix = front ++ s ∷ back in
        let b = gather matrix no_bases in
        All (Long b.max_values_len) front
        → s.values ≡ v ∷ values
        → length s.values < b.max_values_len
        → AtAnEnd v.timestamp b.timestamps
        → series_data zero_value b matrix ≡ some (map values_of front ++ left_out (s ∷ back))
  unfolding series_data
  series_data-break front s v values back h first short at_end =
      let matrix = front ++ s ∷ back in
      let b = gather matrix no_bases in
      if_true (align zero_value b matrix) (some (left_out matrix)) (ground (arith, short))
      ∙ align-break b front s v values back h first short
          (start_index-AtAnEnd v.timestamp b.timestamps at_end)
