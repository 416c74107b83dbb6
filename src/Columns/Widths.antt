-- ===== src/Columns/Widths.antt =====
-- How wide ellipsizeAndPad of cmd/map_format.go makes a cell.
use network_observability_cl.Base.{
  take, ◌≡◌, refl, sym, ap, subst, ◌∙◌, arith, ℕ, ◌+◌, ◌-◌, ◌≤◌, ◌<◌, zero, suc, ◌||◌, Option, none,
  some, some_eq, List, [], ◌∷◌, ◌++◌, Bytes, length, length-append, ltb, ◌==◌, All, All-append,
  if◌then◌else◌, if_both, if_cases,
}
use mathlib.Core.List.{append-nil}
use network_observability_cl.Base.Strings.{is_space}
use network_observability_cl.Columns.Names.{
  Runes, RunesLaws, spaces, encode_all, cut_offset, truncated, padded, ellipsize_and_pad,
}

abbrev pub Ascii : List ℕ → Type 0
Ascii text = All (λ r. r < 128) text

length-spaces : (n : ℕ) → length (spaces n) ≡ n
length-spaces zero = refl
length-spaces (suc n) = omega (arith, length-spaces n)

Ascii-spaces : (n : ℕ) → Ascii (spaces n)
Ascii-spaces zero = tt
Ascii-spaces (suc n) = (omega arith, Ascii-spaces n)

Ascii-take : (n : ℕ) (text : Bytes) → Ascii text → Ascii (take n text)
Ascii-take zero text h = tt
Ascii-take (suc n) [] h = tt
Ascii-take (suc n) (b ∷ text) h = (h.0, Ascii-take n text h.1)

length-take : (n : ℕ) (text : Bytes) → length (take n text) ≤ n
length-take zero text = omega arith
length-take (suc n) [] = omega arith
length-take (suc n) (b ∷ text) = omega (arith, length-take n text)

-- What a cell of a given width is for a text of one-byte runes.
abbrev pub Shown : Runes → List ℕ → ℕ → Bytes → Type 0
Shown runes text limit shown =
    (length text ≤ limit
      → (runes.rune_count shown ≡ limit) × ((back : Bytes) × (shown ≡ text ++ back)))
    × (limit < length text
        → (limit ≤ runes.rune_count shown) × (runes.rune_count shown ≤ limit + 1))

module _ (runes : Runes) (laws : RunesLaws runes) where
  encode_all-Ascii : (text : List ℕ) → Ascii text → encode_all runes text ≡ text
  encode_all-Ascii [] h = refl
  encode_all-Ascii (r ∷ text) h =
      rw (laws.encode_ascii r h.0) (ap (◌∷◌ r) (encode_all-Ascii text h.1))

  -- The loop on a text of one-byte runes: where the text is cut, and that it fits otherwise.
  pub Cut : ℕ → ℕ → Option ℕ → Type 0
  Cut limit size found =
      ((cut : ℕ) → found ≡ some cut → (cut ≤ limit) × (limit < size))
      × (found ≡ none → size ≤ limit)

  Cut-cut_offset :
      (limit : ℕ) (text : List ℕ) (i last : ℕ)
      → Ascii text
      → i ≤ limit
      → last ≤ limit
      → Cut limit (i + length text) (cut_offset runes limit text i i last)
  unfolding cut_offset Cut
  Cut-cut_offset limit [] i last h at_most le = ((λ cut e. cc), λ e. omega (arith, at_most))
  Cut-cut_offset limit (r ∷ text) i last h at_most le =
      let last_part : ℕ = if is_space r || r == b'_' then i else last in
      let later = cut_offset runes limit text (i + length (runes.encode r)) (suc i) last_part in
      let one_byte : i + length (runes.encode r) ≡ suc i =
        ap (λ bytes. i + length bytes) (laws.encode_ascii r h.0) ∙ omega arith in
      if_cases (Cut limit (i + suc (length text))) (ltb limit (suc i)) (some last) later
        (λ over. ((λ cut e. (subst (λ c. c ≤ limit) (some_eq e) le, ground arith)), λ e. cc))
        (λ fits.
          let rest =
            Cut-cut_offset limit text (suc i) last_part h.1 (ground arith)
              (if_both (λ n. n ≤ limit) (is_space r || r == b'_') i last at_most le) in
          subst
            (λ k.
              Cut limit (i + suc (length text)) (cut_offset runes limit text k (suc i) last_part))
            (sym one_byte)
            (subst (λ n. Cut limit n (cut_offset runes limit text (suc i) (suc i) last_part))
              (omega arith) rest))

  -- A text in front of its padding.
  padded-count :
      (limit : ℕ) (text : Bytes)
      → Ascii text
      → length text ≤ limit
      → runes.rune_count (padded runes limit text) ≡ limit
  padded-count limit text h le =
      let gap = limit - runes.rune_count text in
      laws.count_ascii (text ++ spaces gap)
        (All-append (λ b. b < 128) text (spaces gap) h (Ascii-spaces gap))
      ∙ length-append text (spaces gap)
      ∙ ap (λ n. length text + n) (length-spaces gap)
      ∙ ap (λ n. length text + (limit - n)) (laws.count_ascii text h)
      ∙ omega (arith, le)

  padded-ellipsis-count :
      (limit : ℕ) (text : Bytes)
      → Ascii text
      → length text ≤ limit
      → let shown = padded runes limit (text ++ runes.encode 0x2026) in
        (limit ≤ runes.rune_count shown) × (runes.rune_count shown ≤ limit + 1)
  padded-ellipsis-count limit text h le =
      let body = text ++ runes.encode 0x2026 in
      let gap = limit - runes.rune_count body in
      let whole : runes.rune_count (body ++ spaces gap) ≡ length text + suc (length (spaces gap)) =
        laws.count_around text (spaces gap) 0x2026 h (Ascii-spaces gap) in
      let alone : runes.rune_count body ≡ length text + 1 =
        ap runes.rune_count (sym (append-nil body)) ∙ laws.count_around text [] 0x2026 h tt in
      (
        omega (arith, whole, alone, length-spaces gap, le),
        omega (arith, whole, alone, length-spaces gap, le),
      )

  Shown-truncated :
      (text : List ℕ) (limit : ℕ) (found : Option ℕ)
      → Ascii text
      → Cut limit (0 + length text) found
      → Shown runes text limit (padded runes limit (truncated runes text found))
  unfolding Cut
  Shown-truncated text limit none h cut =
      subst (λ bytes. Shown runes text limit (padded runes limit bytes))
        (sym (encode_all-Ascii text h))
        (
          (λ le. (padded-count limit text h le, (spaces (limit - runes.rune_count text), refl))),
          λ over. ground (arith, cut.1 refl, over),
        )
  Shown-truncated text limit (some at_byte) h cut =
      let within = cut.0 at_byte refl in
      let front = take at_byte text in
      subst
        (λ bytes.
          Shown runes text limit (padded runes limit (take at_byte bytes ++ runes.encode 0x2026)))
        (sym (encode_all-Ascii text h))
        (
          (λ le. absurd (omega (arith, within.1, le))),
          λ over.
              padded-ellipsis-count limit front (Ascii-take at_byte text h)
                (omega (arith, length-take at_byte text, within.0)),
        )

  -- With what package utf8 documents of runes, for a text of one-byte runes and a positive width: a
  -- text of at most that many runes is shown whole at the front and fills the width exactly; a longer
  -- one is shown with as many runes as the width or one more.
  pub ellipsize-width :
      (text : List ℕ) (n : ℕ)
      → Ascii text
      → Shown runes text (suc n) (ellipsize_and_pad runes text (suc n))
  unfolding ellipsize_and_pad
  ellipsize-width text n h =
      Shown-truncated text (suc n) (cut_offset runes (suc n) text 0 0 (suc n)) h
        (Cut-cut_offset (suc n) text 0 (suc n) h (omega arith) (omega arith))
