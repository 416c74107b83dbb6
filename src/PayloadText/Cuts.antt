-- ===== src/PayloadText/Cuts.antt =====
-- What the cuts of a payload keep.
use network_observability_cl.Base.{
  some_eq, ℕ, zero, suc, ◌≤◌, true, some, [], ◌∷◌, ◌++◌, ◌≡◌, refl, ap, subst, inl, inr, ◌⊎◌, arith,
  length, Bytes, Bool-cases, Option-cases,
}
use network_observability_cl.PayloadText.{
  is_application_text_start, text_within, max_skip, strip_leading_application_prefix,
}

text_within-suffix :
    (limit : ℕ) (xs rest : Bytes)
    → text_within limit xs ≡ some rest
    → (front : Bytes) × (xs ≡ front ++ rest)
      × (length front ≤ limit)
      × (is_application_text_start rest ≡ true)
unfolding text_within
text_within-suffix zero xs rest h = cc
text_within-suffix (suc limit) [] rest h = cc
text_within-suffix (suc limit) (x ∷ xs) rest h = elim (Bool-cases (is_application_text_start xs)) [
  | inl starts ↦
      let same : xs ≡ rest = some_eq (rw starts at h) in
      (
        x ∷ [],
        ap (◌∷◌ x) same,
        omega arith,
        subst (λ r. is_application_text_start r ≡ true) same starts,
      )
  | inr other ↦
      let (front, e, short, starts) = text_within-suffix limit xs rest (rw other at h) in
      (x ∷ front, ap (◌∷◌ x) e, omega (arith, short), starts)
]

-- The text that is left once a prefix is stripped: all of the payload but at most eight leading bytes,
-- and the whole of it unless what is left starts a text. Stripping once more changes nothing.
pub strip_leading-suffix :
    (xs : Bytes)
    → ((front : Bytes) × (xs ≡ front ++ strip_leading_application_prefix xs)
        × (length front ≤ max_skip))
      × ((strip_leading_application_prefix xs ≡ xs)
          ⊎ (is_application_text_start (strip_leading_application_prefix xs) ≡ true))
      × (strip_leading_application_prefix (strip_leading_application_prefix xs)
          ≡ strip_leading_application_prefix xs)
unfolding strip_leading_application_prefix
strip_leading-suffix xs = elim (Bool-cases (is_application_text_start xs)) [
  | inl starts ↦ rw (starts, starts) (([], refl, omega arith), inl refl, refl)
  | inr other ↦ elim (Option-cases (text_within max_skip xs)) [
    | inl nothing ↦ rw (other, nothing, other, nothing) (([], refl, omega arith), inl refl, refl)
    | inr (rest, e) ↦
        let (front, cut, short, starts) = text_within-suffix max_skip xs rest e in
        rw (other, e, starts) ((front, cut, short), inr refl, refl)
  ]
]
