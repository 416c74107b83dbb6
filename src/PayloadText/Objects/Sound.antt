-- ===== src/PayloadText/Objects/Sound.antt =====
-- What sliceJSONObject (cmd/plaintext_format.go) cuts out is an object of the grammar.
use network_observability_cl.Base.{
  ◌==◌, ℕ, zero, suc, false, some, [], ◌∷◌, ◌++◌, ◌≡◌, ◌↔◌, refl, sym, ◌∙◌, ap, subst, inl, inr,
  Bytes, Bool-cases,
}
use network_observability_cl.PayloadText.Objects.Split.{
  Levels, InString, Split-byte, Split-string, Split-nested, Split-end,
}
use network_observability_cl.PayloadText.{Scan, scan_step, closes, object_end, slice_json_object}
use network_observability_cl.PayloadText.Objects.{end_quote, escaped_byte, string_byte, IsObject}
use network_observability_cl.PayloadText.Objects.Steps.{
  outside, in_quotes, behind_backslash, state_of, are_equal, differ, step_outer, step_string,
  step_open, step_close, deeper_stays, string_going, object_end-here, object_end-behind,
}
use network_observability_cl.PayloadText.Objects.Complete.{object-scan}

-- A brace that closes: the last one ends the object, any other one a level.
closed_here :
    (d c : ℕ) (xs object : Bytes)
    → ((e : ℕ) (rest : Bytes)
        → object_end (state_of e outside) xs ≡ some rest
        → Levels (suc e) rest)
    → c ≡ b'}'
    → object_end (state_of d outside) (c ∷ xs) ≡ some object
    → Levels (suc d) object
unfolding closes
closed_here zero c xs object behind now h =
    let last = object_end-here (state_of 0 outside) c xs object (rw now refl) h in
    Split-end (Levels 0) [] object (last ∙ ap (λ b. b ∷ []) now) refl
closed_here (suc d) c xs object behind now h =
    let (rest, e, cut) =
      object_end-behind (state_of (suc d) outside) (state_of d outside) c xs object
        (rw now (deeper_stays d)) (rw now (step_close d)) h in
    Split-end (Levels (suc d)) rest object (cut ∙ ap (λ b. b ∷ rest) now) (behind d rest e)

mutual
  unfolding object_end scan_step closes

  found_outside :
      (d : ℕ) (xs object : Bytes)
      → object_end (state_of d outside) xs ≡ some object
      → Levels (suc d) object
  found_outside d [] object h = cc
  found_outside d (c ∷ xs) object h = elim (Bool-cases (c == b'"')) [
    | inl quote ↦
        let now = are_equal c b'"' quote in
        let (rest, e, cut) =
          object_end-behind (state_of d outside) (state_of d in_quotes) c xs object (rw now refl)
            (rw quote refl) h in
        let (q, later, parts, k, levels) = found_string d xs rest e in
        Split-string (Levels d) q later object k
          (cut ∙ ap (λ b. b ∷ rest) now ∙ ap (◌∷◌ b'"') parts) levels
    | inr no_quote ↦ elim (Bool-cases (c == b'{')) [
      | inl opens ↦
          let now = are_equal c b'{' opens in
          let (rest, e, cut) =
            object_end-behind (state_of d outside) (state_of (suc d) outside) c xs object
              (rw now refl) (rw now (step_open d)) h in
          Split-nested (Levels d) rest object (cut ∙ ap (λ b. b ∷ rest) now)
            (found_outside (suc d) xs rest e)
      | inr no_brace ↦ elim (Bool-cases (c == b'}')) [
        | inl ends ↦
            closed_here d c xs object (λ e rest k. found_outside e xs rest k)
              (are_equal c b'}' ends) h
        | inr no_end ↦
            let (same, going) =
              step_outer d c (differ c b'"' no_quote) (differ c b'{' no_brace)
                (differ c b'}' no_end) in
            let (rest, e, cut) =
              object_end-behind (state_of d outside) (state_of d outside) c xs object going same
                h in
            Split-byte (Levels d) c rest object (differ c b'"' no_quote) (differ c b'{' no_brace)
              (differ c b'}' no_end) cut (found_outside d xs rest e)
      ]
    ]
  ]

  found_string :
      (d : ℕ) (xs object : Bytes)
      → object_end (state_of d in_quotes) xs ≡ some object
      → InString d object
  found_string d [] object h = cc
  found_string d (c ∷ xs) object h = elim (Bool-cases (c == b'\\')) [
    | inl slash ↦
        let now = are_equal c b'\\' slash in
        let (rest, e, cut) =
          object_end-behind (state_of d in_quotes) (state_of d behind_backslash) c xs object
            (string_going d c) (rw slash refl) h in
        let (x, more, again, (q, later, parts, k, levels)) = found_escaped d xs rest e in
        (
          b'\\' ∷ x ∷ q,
          later,
          cut ∙ ap (λ b. b ∷ rest) now ∙ ap (◌∷◌ b'\\') again ∙ ap (λ r. b'\\' ∷ x ∷ r) parts,
          escaped_byte x q k,
          levels,
        )
    | inr no_slash ↦ elim (Bool-cases (c == b'"')) [
      | inl quote ↦
          let now = are_equal c b'"' quote in
          let (rest, e, cut) =
            object_end-behind (state_of d in_quotes) (state_of d outside) c xs object
              (string_going d c) (rw (no_slash, quote) refl) h in
          (b'"' ∷ [], rest, cut ∙ ap (λ b. b ∷ rest) now, end_quote, found_outside d xs rest e)
      | inr no_quote ↦
          let (rest, e, cut) =
            object_end-behind (state_of d in_quotes) (state_of d in_quotes) c xs object
              (string_going d c)
              (step_string d c (differ c b'"' no_quote) (differ c b'\\' no_slash)) h in
          let (q, later, parts, k, levels) = found_string d xs rest e in
          (
            c ∷ q,
            later,
            cut ∙ ap (◌∷◌ c) parts,
            string_byte c q (differ c b'"' no_quote) (differ c b'\\' no_slash) k,
            levels,
          )
    ]
  ]

  found_escaped :
      (d : ℕ) (xs object : Bytes)
      → object_end (state_of d behind_backslash) xs ≡ some object
      → (c : ℕ) × (rest : Bytes) × (object ≡ c ∷ rest) × InString d rest
  found_escaped d [] object h = cc
  found_escaped d (c ∷ xs) object h =
      let (rest, e, cut) =
        object_end-behind (state_of d behind_backslash) (state_of d in_quotes) c xs object refl refl
          h in
      (c, rest, cut, found_string d xs rest e)

object_end-prefix :
    (s : Scan) (xs object : Bytes)
    → object_end s xs ≡ some object
    → (rest : Bytes) × (xs ≡ object ++ rest)
unfolding object_end
object_end-prefix s [] object h = cc
object_end-prefix s (c ∷ xs) object h = elim (Bool-cases (closes c s)) [
  | inl now ↦ (xs, ap (λ o. o ++ xs) (sym (object_end-here s c xs object now h)))
  | inr going ↦
      let (inner, e, cut) = object_end-behind s (scan_step c s) c xs object going refl h in
      let (rest, whole) = object_end-prefix (scan_step c s) xs inner e in
      (rest, ap (◌∷◌ c) whole ∙ ap (λ o. o ++ rest) (sym cut))
]

slice-IsObject : (xs object : Bytes) → slice_json_object xs ≡ some object → IsObject object
unfolding slice_json_object closes scan_step
slice-IsObject [] object h = cc
slice-IsObject (c ∷ xs) object h = elim (Bool-cases (c == b'{')) [
  | inl brace ↦
      let start : Scan = record { depth = 0; in_string = false; escape = false } in
      let now = are_equal c b'{' brace in
      let (rest, e, cut) =
        object_end-behind start (state_of 0 outside) c xs object (rw now refl) (rw now refl)
          (rw brace at h) in
      let s = found_outside 0 xs rest e in
      (
        s.inner,
        cut
            ∙ ap (λ b. b ∷ rest) now
            ∙ ap (◌∷◌ b'{') s.cut
            ∙ ap (λ r. b'{' ∷ s.inner ++ b'}' ∷ r) s.after,
        s.well,
      )
  | inr other ↦ cc (rw other at h)
]

slice-prefix :
    (xs object : Bytes)
    → slice_json_object xs ≡ some object
    → (rest : Bytes) × (xs ≡ object ++ rest)
unfolding slice_json_object
slice-prefix [] object h = cc
slice-prefix (c ∷ xs) object h = elim (Bool-cases (c == b'{')) [
  | inl brace ↦ object_end-prefix _ (c ∷ xs) object (rw brace at h)
  | inr other ↦ cc (rw other at h)
]

-- sliceJSONObject cuts an object out of the data exactly if the data begins with that object: an
-- opening brace, then strings, in which a backslash takes the next byte with it, braces in pairs and
-- other bytes, then the brace that closes the first one.
pub slice_json_object_iff :
    (xs object : Bytes)
    → (slice_json_object xs ≡ some object)
      ↔ (IsObject object × ((rest : Bytes) × (xs ≡ object ++ rest)))
slice_json_object_iff xs object = (
  λ h. (slice-IsObject xs object h, slice-prefix xs object h),
  λ (k, (rest, e)).
      subst (λ bytes. slice_json_object bytes ≡ some object) (sym e) (object-scan object rest k),
)
