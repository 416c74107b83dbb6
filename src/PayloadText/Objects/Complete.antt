-- ===== src/PayloadText/Objects/Complete.antt =====
-- Every object of the grammar is what sliceJSONObject (cmd/plaintext_format.go) cuts out.
use network_observability_cl.Base.{
  ℕ, suc, false, some, [], ◌∷◌, ◌++◌, ◌≡◌, refl, sym, ◌∙◌, ap, subst, Bytes,
}
use mathlib.Core.List.{append_assoc}
use network_observability_cl.PayloadText.{Scan, scan_step, closes, object_end, slice_json_object}
use network_observability_cl.PayloadText.Objects.{
  Quoted, end_quote, escaped_byte, string_byte, Inner, no_more, outer_byte, quoted, nested,
  IsObject,
}
use network_observability_cl.PayloadText.Objects.Steps.{
  outside, in_quotes, behind_backslash, state_of, step_outer, step_string, step_open, step_close,
  deeper_stays, object_end-later,
}

Quoted-scan :
    (d : ℕ) (q xs object : Bytes)
    → Quoted q
    → object_end (state_of d outside) xs ≡ some object
    → object_end (state_of d in_quotes) (q ++ xs) ≡ some (q ++ object)
unfolding scan_step closes
Quoted-scan d _ xs object end_quote h =
    object_end-later (state_of d in_quotes) (state_of d outside) b'"' xs object refl refl h
Quoted-scan d _ xs object (escaped_byte c q k) h =
    object_end-later (state_of d in_quotes) (state_of d behind_backslash) b'\\' (c ∷ q ++ xs)
      (c ∷ q ++ object) refl refl
      (object_end-later (state_of d behind_backslash) (state_of d in_quotes) c (q ++ xs)
        (q ++ object) refl refl (Quoted-scan d q xs object k h))
Quoted-scan d _ xs object (string_byte c q quote slash k) h =
    object_end-later (state_of d in_quotes) (state_of d in_quotes) c (q ++ xs) (q ++ object) refl
      (step_string d c quote slash) (Quoted-scan d q xs object k h)

Inner-scan :
    (d : ℕ) (inner xs object : Bytes)
    → Inner inner
    → object_end (state_of d outside) xs ≡ some object
    → object_end (state_of d outside) (inner ++ xs) ≡ some (inner ++ object)
unfolding scan_step closes
Inner-scan d _ xs object no_more h = h
Inner-scan d _ xs object (outer_byte c inner quote opens ends k) h =
    let (same, going) = step_outer d c quote opens ends in
    object_end-later (state_of d outside) (state_of d outside) c (inner ++ xs) (inner ++ object)
      going same (Inner-scan d inner xs object k h)
Inner-scan d _ xs object (quoted q inner k rest) h =
    object_end-later (state_of d outside) (state_of d in_quotes) b'"' ((q ++ inner) ++ xs)
      ((q ++ inner) ++ object) refl refl
      (ap (object_end (state_of d in_quotes)) (append_assoc q inner xs)
        ∙ Quoted-scan d q (inner ++ xs) (inner ++ object) k (Inner-scan d inner xs object rest h)
        ∙ ap some (sym (append_assoc q inner object)))
Inner-scan d _ xs object (nested left right k rest) h =
    let behind : object_end (state_of (suc d) outside) (b'}' ∷ right ++ xs)
        ≡ some (b'}' ∷ right ++ object) =
      object_end-later (state_of (suc d) outside) (state_of d outside) b'}' (right ++ xs)
        (right ++ object) (deeper_stays d) (step_close d) (Inner-scan d right xs object rest h) in
    object_end-later (state_of d outside) (state_of (suc d) outside) b'{'
      ((left ++ b'}' ∷ right) ++ xs) ((left ++ b'}' ∷ right) ++ object) refl (step_open d)
      (ap (object_end (state_of (suc d) outside)) (append_assoc left (b'}' ∷ right) xs)
        ∙ Inner-scan (suc d) left (b'}' ∷ right ++ xs) (b'}' ∷ right ++ object) k behind
        ∙ ap some (sym (append_assoc left (b'}' ∷ right) object)))

object_end-last : (xs : Bytes) → object_end (state_of 0 outside) (b'}' ∷ xs) ≡ some (b'}' ∷ [])
unfolding object_end closes
object_end-last xs = refl

-- What the grammar takes for an object is cut out, whatever follows it.
pub object-scan :
    (object rest : Bytes) → IsObject object → slice_json_object (object ++ rest) ≡ some object
unfolding slice_json_object scan_step closes
object-scan object rest (inner, e, k) =
    let start : Scan = record { depth = 0; in_string = false; escape = false } in
    let brace : object_end (state_of 0 outside) (b'}' ∷ rest) ≡ some (b'}' ∷ []) =
      object_end-last rest in
    let whole : slice_json_object ((b'{' ∷ inner ++ b'}' ∷ []) ++ rest)
        ≡ some (b'{' ∷ inner ++ b'}' ∷ []) =
      object_end-later start (state_of 0 outside) b'{' ((inner ++ b'}' ∷ []) ++ rest)
        (inner ++ b'}' ∷ []) refl refl
        (ap (object_end (state_of 0 outside)) (append_assoc inner (b'}' ∷ []) rest)
          ∙ Inner-scan 0 inner (b'}' ∷ rest) (b'}' ∷ []) k brace) in
    subst (λ o. slice_json_object (o ++ rest) ≡ some o) (sym e) whole
