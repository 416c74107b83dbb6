-- ===== src/Plaintext/Unmatched.antt =====
-- What a record that found no wire packet is exported as (prepareUnmatchedPlaintext of
-- cmd/packet_capture_plaintext.go).
use Prim.Native.Char.{code}
use mathlib.Core.Path.{ap₂}
use text.Mathlib.TextEquality.{Char-path}
use network_observability_cl.Base.{
  some_eq, String, Option, none, some, [], ◌∷◌, ◌≡◌, refl, sym, ◌∙◌, ap, arith, str_eq, str_eq_iff,
  if◌then◌else◌, inl, inr, Bool-cases, Option-cases, ◌==◌, ==_iff, is_some,
}
use network_observability_cl.Base.Strings.{after_prefix, has_prefix, concat}
use network_observability_cl.Record.{GenericMap, Value, lookup, at, is_text}
use network_observability_cl.Record.Laws.{lookup-put, lookup-delete_where}
use network_observability_cl.Endpoint.{or_else}
use network_observability_cl.Platform.{Platform}
use network_observability_cl.Plaintext.{
  other_side, put_other_sides, swap_sides, is_side_field, is_endpoint_field,
  plaintext_tuple_verified, prepare_unmatched_plaintext,
}

after_prefix-eq : (p s rest : String) → after_prefix p s ≡ some rest → s ≡ concat p rest
unfolding after_prefix concat
after_prefix-eq String.[] s rest h = some_eq h
after_prefix-eq (String.◌∷◌ c p) String.[] rest h = cc
after_prefix-eq (String.◌∷◌ c p) (String.◌∷◌ d s) rest h = elim (Bool-cases (code c == code d)) [
  | inl same ↦
      ap₂ String.◌∷◌ (sym (Char-path c d ((==_iff (code c) (code d)).0 same)))
        (after_prefix-eq p s rest (rw same at h))
  | inr differ ↦ cc (rw differ at h)
]

other_side_src : (rest : String) → other_side (concat "Src" rest) ≡ some (concat "Dst" rest)
unfolding other_side
other_side_src rest = refl

other_side_dst : (rest : String) → other_side (concat "Dst" rest) ≡ some (concat "Src" rest)
unfolding other_side
other_side_dst rest = refl

-- The other side of the other side is the key itself.
other_side-other_side : (k j : String) → other_side k ≡ some j → other_side j ≡ some k
unfolding other_side
other_side-other_side k j h = elim (Option-cases (after_prefix "Src" k)) [
  | inr (rest, e) ↦
      ap other_side (sym (some_eq (rw (e, other_side) at h)))
      ∙ other_side_dst rest
      ∙ ap some (sym (after_prefix-eq "Src" k rest e))
  | inl n ↦ elim (Option-cases (after_prefix "Dst" k)) [
    | inr (rest, e) ↦
        ap other_side (sym (some_eq (rw (n, e, other_side) at h)))
        ∙ other_side_src rest
        ∙ ap some (sym (after_prefix-eq "Dst" k rest e))
    | inl m ↦ cc (rw (n, m, other_side) at h)
  ]
]

-- A key has another side exactly when its name begins with Src or Dst.
is_side_field-other_side : (k : String) → is_side_field k ≡ is_some (other_side k)
unfolding other_side has_prefix
is_side_field-other_side k = ground arith

lookup-cons :
    (i k : String) (v : Value) (o : GenericMap)
    → lookup i ((k, v) ∷ o) ≡ (if str_eq k i then some v else lookup i o)
unfolding lookup
lookup-cons i k v o = refl

-- The entry that the second loop leaves under a key is the other side's, if there is one.
lookup-put_other_sides :
    (j i : String) (o m : GenericMap)
    → other_side j ≡ some i
    → lookup j (put_other_sides o m) ≡ or_else (lookup i o) (lookup j m)
unfolding put_other_sides
lookup-put_other_sides j i [] m e = unfold lookup in refl
lookup-put_other_sides j i ((k, v) ∷ o) m e =
    let ih = lookup-put_other_sides j i o m e in
    let back = other_side-other_side j i e in
    elim (Option-cases (other_side k)) [
      | inl n ↦ rw n (ground (arith, lookup-cons i k v o, str_eq_iff k i, ih))
      | inr (k', s) ↦ rw s (
          ground (
            arith,
            lookup-cons i k v o,
            lookup-put j k' v (put_other_sides o m),
            str_eq_iff k i,
            str_eq_iff k' j,
            other_side-other_side k k' s,
            ih,
          ))
    ]

-- A key with no other side is left alone.
lookup-put_other_sides-none :
    (j : String) (o m : GenericMap)
    → other_side j ≡ none
    → lookup j (put_other_sides o m) ≡ lookup j m
unfolding put_other_sides
lookup-put_other_sides-none j [] m e = refl
lookup-put_other_sides-none j ((k, v) ∷ o) m e =
    let ih = lookup-put_other_sides-none j o m e in
    elim (Option-cases (other_side k)) [
      | inl n ↦ rw n ih
      | inr (k', s) ↦ rw s (
          ground (
            arith,
            lookup-put j k' v (put_other_sides o m),
            str_eq_iff k' j,
            other_side-other_side k k' s,
            ih,
          ))
    ]

-- Which entry a key has once the sides are swapped.
abbrev pub swapped : GenericMap → String → Option String → Option Value
swapped m j none = lookup j m
swapped m j (some i) = lookup i m

or_else-none : (o : Option Value) → or_else o none ≡ o
or_else-none none = refl
or_else-none (some v) = refl

lookup-swap_sides_of :
    (j : String) (m : GenericMap) (o : Option String)
    → other_side j ≡ o
    → lookup j (swap_sides m) ≡ swapped m j o
unfolding swap_sides
lookup-swap_sides_of j m none e =
    lookup-put_other_sides-none j m _ e
    ∙ lookup-delete_where j is_side_field m
    ∙ rw (is_side_field-other_side j, e)
lookup-swap_sides_of j m (some i) e =
    lookup-put_other_sides j i m _ e
    ∙ ap (or_else (lookup i m))
        (lookup-delete_where j is_side_field m ∙ rw (is_side_field-other_side j, e))
    ∙ or_else-none (lookup i m)

-- The swap of the two sides: the entry of every key with another side is that side's entry, also where
-- that one is missing, and every other entry stays.
pub lookup-swap_sides :
    (j : String) (m : GenericMap) → lookup j (swap_sides m) ≡ swapped m j (other_side j)
lookup-swap_sides j m = lookup-swap_sides_of j m (other_side j) refl

module _ (env : Platform) where
  -- The export of a record without a match, key by key: an unverified record has lost its addresses,
  -- its ports and the Kubernetes fields of both sides, and nothing else; a verified read has its sides
  -- swapped; any other verified record is unchanged.
  pub lookup-prepare_unmatched :
      (m : GenericMap) (j : String)
      → lookup j (prepare_unmatched_plaintext env m) ≡ (
          if plaintext_tuple_verified env m
          then (if is_text "read" (at m "Direction")
              then swapped m j (other_side j)
              else lookup j m)
          else if is_endpoint_field j
          then none
          else lookup j m)
  unfolding prepare_unmatched_plaintext
  lookup-prepare_unmatched m j = elim (Bool-cases (plaintext_tuple_verified env m)) [
    | inr bad ↦ rw bad (lookup-delete_where j is_endpoint_field m)
    | inl good ↦ elim (Bool-cases (is_text "read" (at m "Direction"))) [
      | inl read ↦ rw (good, read) (lookup-swap_sides j m)
      | inr other ↦ rw (good, other) refl
    ]
  ]
