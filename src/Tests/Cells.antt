-- ===== src/Tests/Cells.antt =====
-- The width of a cell at a concrete input.
use network_observability_cl.Base.{
  ◌≡◌, refl, arith, ℕ, Bool, ◌||◌, [], ◌∷◌, ◌++◌, Bytes, codes, length, count, count-append, ltb,
  if◌then◌else◌, Bool-cases, inl, inr,
}
use network_observability_cl.Columns.Names.{Runes, RunesLaws, ellipsize_and_pad}
use network_observability_cl.Columns.Widths.{Ascii, Shown, ellipsize-width}

-- A rune begins at every byte but a continuation byte.
abbrev begins_rune : ℕ → Bool
begins_rune b = ltb b 128 || ltb 191 b

abbrev small_runes : Runes
small_runes = record {
  encode = λ r. if ltb r 128 then r ∷ [] else 226 ∷ 128 ∷ 166 ∷ [];
  rune_count = count begins_rune;
}

count-Ascii : (text : Bytes) → Ascii text → count begins_rune text ≡ length text
count-Ascii [] h = refl
count-Ascii (b ∷ text) h = ground (arith, h.0, count-Ascii text h.1)

one_rune : (r : ℕ) → count begins_rune (small_runes.encode r) ≡ 1
one_rune r = elim (Bool-cases (ltb r 128)) [
  | inl ascii ↦ rw ascii (ground arith)
  | inr other ↦ rw other refl
]

small_runes_laws : RunesLaws small_runes
small_runes_laws = record {
  encode_ascii = λ r h. ground (arith, h);
  count_ascii = count-Ascii;
  count_around = λ front back r hf hb. omega (
    arith,
    count-append begins_rune (front ++ small_runes.encode r) back,
    count-append begins_rune front (small_runes.encode r),
    one_rune r,
    count-Ascii front hf,
    count-Ascii back hb,
  );
}

ellipsize-width_example :
    Shown small_runes (codes "Src Kind") 4 (ellipsize_and_pad small_runes (codes "Src Kind") 4)
ellipsize-width_example = ellipsize-width small_runes small_runes_laws (codes "Src Kind") 3 (
  omega arith,
  (
    omega arith,
    (omega arith, (omega arith, (omega arith, (omega arith, (omega arith, (omega arith, tt)))))),
  ),
)
