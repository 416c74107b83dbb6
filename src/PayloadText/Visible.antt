-- ===== src/PayloadText/Visible.antt =====
-- What the text shown of a payload is made of (cmd/plaintext_format.go, cmd/wire_payload.go).
use network_observability_cl.Base.{
  ◌≡◌, ◌≢◌, refl, arith, ℕ, zero, suc, ◌≤◌, ◌<◌, ◌-◌, Bool, true, false, ◌&&◌, ◌||◌, not, Option,
  none, some, List, [], ◌∷◌, ◌++◌, ltb, leb, ltb→lt, leb→le, ◌⊎◌, inl, inr, if_cases, if_both,
  Bool-cases, Option-cases, and-true, Bytes, codes, All, All-append,
}
use network_observability_cl.Record.{GenericMap}
use network_observability_cl.Platform.{Platform}
use network_observability_cl.PayloadText.{
  bytes_after, bytes_after_first, bytes_contains, back_to_rune, reversed_onto, cut_at, rune_start,
  ellipsize_plaintext_display,
}
use network_observability_cl.PayloadText.Layers.{Decoders, is_full, plaintext_payload_bytes}
use network_observability_cl.PayloadText.Runes.{
  Rune, ascii, wide, between, tail_length, is_second, put_front, continuation, wide_rune,
  decode_wide, decode_at, runes_from, valid_runes, is_layout_byte, hex_escape, display_rune,
  display_runes, plaintext_display_string,
}
use network_observability_cl.PayloadText.Noise.{is_garbage_display}
use network_observability_cl.PayloadText.Preview.{
  unless_garbage, format_plaintext_payload, preview_limit, plaintext_preview_for_display,
  http_bytes, format_wire_http_payload,
}

-- A tab, a line break, or a byte that is no ASCII control character.
abbrev pub Visible : ℕ → Type 0
Visible b = (b ≡ 9) ⊎ (b ≡ 10) ⊎ (b ≡ 13) ⊎ ((32 ≤ b) × (b ≢ 127))

abbrev IsHigh : ℕ → Type 0
IsHigh b = 128 ≤ b

abbrev IsRune : Rune → Type 0
IsRune (ascii r) = r < 128
IsRune (wide bytes) = All IsHigh bytes

abbrev OnSome {ℓ κ} : {A : Type ℓ} → (A → Type κ) → Option A → Type κ
OnSome P none = Unit
OnSome P (some a) = P a

put_front-IsHigh :
    (b : ℕ) (bs : Option Bytes)
    → IsHigh b
    → OnSome (All IsHigh) bs
    → OnSome (All IsHigh) (put_front b bs)
put_front-IsHigh b none h hs = tt
put_front-IsHigh b (some bs) h hs = (h, hs)

continuation-IsHigh : (n : ℕ) (bs : Bytes) → OnSome (All IsHigh) (continuation n bs)
unfolding continuation
continuation-IsHigh zero bs = tt
continuation-IsHigh (suc n) [] = tt
continuation-IsHigh (suc n) (b ∷ bs) =
    if_cases (OnSome (All IsHigh)) (between 0x80 0xbf b) (put_front b (continuation n bs)) none
      (λ inside.
        put_front-IsHigh b (continuation n bs) (leb→le 0x80 b (and-true _ _ inside).0)
          (continuation-IsHigh n bs))
      (λ outside. tt)

leads-IsHigh : (lead : ℕ) → ltb 0 (tail_length lead) ≡ true → IsHigh lead
leads-IsHigh lead h = ground arith

is_second-IsHigh : (lead b : ℕ) → is_second lead b ≡ true → IsHigh b
is_second-IsHigh lead b h = ground arith

wide_rune-IsHigh : (lead : ℕ) (bs : Bytes) → OnSome (All IsHigh) (wide_rune lead bs)
unfolding wide_rune
wide_rune-IsHigh lead [] = tt
wide_rune-IsHigh lead (b ∷ bs) =
    let tail = continuation (tail_length lead - 1) bs in
    if_cases (OnSome (All IsHigh)) (ltb 0 (tail_length lead) && is_second lead b)
      (put_front lead (put_front b tail)) none
      (λ begins.
        let (leads, seconds) = and-true _ _ begins in
        put_front-IsHigh lead (put_front b tail) (leads-IsHigh lead leads) (
          put_front-IsHigh b tail (is_second-IsHigh lead b seconds)
            (continuation-IsHigh (tail_length lead - 1) bs)))
      (λ none_begins. tt)

decode_wide-IsRune :
    (invalid : Bool) (w : Option Bytes)
    → OnSome (All IsHigh) w
    → All IsRune (decode_wide invalid w).runes
decode_wide-IsRune invalid (some bytes) h = (h, tt)
decode_wide-IsRune true none h = tt
decode_wide-IsRune false none h = ((omega arith, (omega arith, (omega arith, tt))), tt)

decode_at-IsRune : (invalid : Bool) (b : ℕ) (bs : Bytes) → All IsRune (decode_at invalid b bs).runes
unfolding decode_at
decode_at-IsRune invalid b bs = elim (Bool-cases (ltb b 0x80)) [
  | inl low ↦ rw low (ltb→lt b 0x80 low, tt)
  | inr high ↦ rw high (decode_wide-IsRune invalid (wide_rune b bs) (wide_rune-IsHigh b bs))
]

runes_from-IsRune :
    (skip : ℕ) (invalid : Bool) (bs : Bytes) → All IsRune (runes_from skip invalid bs)
unfolding runes_from
runes_from-IsRune skip invalid [] = tt
runes_from-IsRune (suc skip) invalid (b ∷ bs) = runes_from-IsRune skip invalid bs
runes_from-IsRune zero invalid (b ∷ bs) =
    let at_byte = decode_at invalid b bs in
    All-append IsRune at_byte.runes (runes_from at_byte.skip at_byte.invalid bs)
      (decode_at-IsRune invalid b bs) (runes_from-IsRune at_byte.skip at_byte.invalid bs)

-- A part stays a part behind more bytes.
contains-cons :
    (x : ℕ) (xs sep : Bytes) → bytes_contains (x ∷ xs) sep ≡ false → bytes_contains xs sep ≡ false
unfolding bytes_after_first
contains-cons x xs sep h = elim (Option-cases (bytes_after sep (x ∷ xs))) [
  | inl elsewhere ↦ rw (elsewhere, bytes_after_first) at h
  | inr (rest, here) ↦ cc (rw (here, bytes_after_first) at h)
]

contains-append :
    (front xs sep : Bytes)
    → bytes_contains (front ++ xs) sep ≡ false
    → bytes_contains xs sep ≡ false
contains-append [] xs sep h = h
contains-append (x ∷ front) xs sep h =
    contains-append front xs sep (contains-cons x (front ++ xs) sep h)

hex_escape-contains :
    (r : ℕ) (rest : Bytes) → bytes_contains (hex_escape r ++ rest) (codes "\\x") ≡ true
unfolding bytes_after_first bytes_after
hex_escape-contains r rest = refl

IsHigh-Visible : (bs : Bytes) → All IsHigh bs → All Visible bs
IsHigh-Visible [] h = tt
IsHigh-Visible (b ∷ bs) h =
    (inr (inr (inr (omega (arith, h.0), omega (arith, h.0)))), IsHigh-Visible bs h.1)

layout-Visible : (r : ℕ) → is_layout_byte r ≡ true → Visible r
layout-Visible r h = ground arith

plain-Visible : (r : ℕ) → (leb 32 r && ltb r 127) ≡ true → Visible r
plain-Visible r h =
    let (low, high) = and-true _ _ h in
    inr (inr (inr (leb→le 32 r low, omega (arith, ltb→lt r 127 high))))

display_rune-Visible :
    (r : Rune) (rest : Bytes)
    → IsRune r
    → bytes_contains (display_rune r ++ rest) (codes "\\x") ≡ false
    → All Visible (display_rune r)
unfolding display_rune
display_rune-Visible (wide bytes) rest h none_inside = IsHigh-Visible bytes h
display_rune-Visible (ascii r) rest h none_inside = elim (Bool-cases (is_layout_byte r)) [
  | inl layout ↦ rw layout (layout-Visible r layout, tt)
  | inr other ↦ elim (Bool-cases (leb 32 r && ltb r 127)) [
    | inl plain ↦ rw (other, plain) (plain-Visible r plain, tt)
    | inr control ↦ cc (hex_escape-contains r rest, rw (other, control) at none_inside)
  ]
]

display_runes-Visible :
    (rs : List Rune)
    → All IsRune rs
    → bytes_contains (display_runes rs) (codes "\\x") ≡ false
    → All Visible (display_runes rs)
unfolding display_runes
display_runes-Visible [] h none_inside = tt
display_runes-Visible (r ∷ rs) h none_inside =
    All-append Visible (display_rune r) (display_runes rs)
      (display_rune-Visible r (display_runes rs) h.0 none_inside)
      (display_runes-Visible rs h.1
        (contains-append (display_rune r) (display_runes rs) (codes "\\x") none_inside))

back_to_rune-All :
    (P : ℕ → Type 0) (front : Bytes) (next : ℕ) → All P front → All P (back_to_rune front next)
unfolding back_to_rune
back_to_rune-All P [] next h = tt
back_to_rune-All P (b ∷ bs) next h =
    if_both (All P) (rune_start next) (b ∷ bs) (back_to_rune bs b) h (back_to_rune-All P bs b h.1)

reversed_onto-All :
    (P : ℕ → Type 0) (bs acc : Bytes) → All P bs → All P acc → All P (reversed_onto bs acc)
unfolding reversed_onto
reversed_onto-All P [] acc h k = k
reversed_onto-All P (b ∷ bs) acc h k = reversed_onto-All P bs (b ∷ acc) h.1 (h.0, k)

cut_at-All :
    (P : ℕ → Type 0) (cut : ℕ) (front bs : Bytes)
    → All P front
    → All P bs
    → OnSome (All P) (cut_at cut front bs)
unfolding cut_at
cut_at-All P cut front [] h k = tt
cut_at-All P zero front (b ∷ bs) h k =
    reversed_onto-All P (back_to_rune front b) [] (back_to_rune-All P front b h) tt
cut_at-All P (suc cut) front (b ∷ bs) h k = cut_at-All P cut (b ∷ front) bs (k.0, h) k.1

dot-Visible : Visible b'.'
dot-Visible = inr (inr (inr (omega arith, omega arith)))

ellipsis-Visible : All Visible (codes "...")
ellipsis-Visible = (dot-Visible, (dot-Visible, (dot-Visible, tt)))

with_ellipsis-Visible :
    (whole : Bytes) (cut : Option Bytes)
    → All Visible whole
    → OnSome (All Visible) cut
    → All Visible (elim cut [ none ↦ whole | some front ↦ front ++ codes "..." ])
with_ellipsis-Visible whole none h k = h
with_ellipsis-Visible whole (some front) h k =
    All-append Visible front (codes "...") k ellipsis-Visible

ellipsize-Visible :
    (text : Bytes) (limit : ℕ)
    → All Visible text
    → All Visible (ellipsize_plaintext_display text limit)
unfolding ellipsize_plaintext_display
ellipsize-Visible text zero h = h
ellipsize-Visible text (suc limit) h =
    with_ellipsis-Visible text (cut_at (suc limit) [] text) h
      (cut_at-All Visible (suc limit) [] text tt h)

second_test : (a b c d e f g : Bool) → (a || b || c || d || e || f || g) ≡ false → b ≡ false
second_test false false c d e f g h = refl
second_test false true c d e f g h = ground arith
second_test true b c d e f g h = ground arith

module _ (decoders : Decoders) where
  garbage-escape :
      (text : Bytes)
      → is_garbage_display decoders text ≡ false
      → bytes_contains text (codes "\\x") ≡ false
  unfolding is_garbage_display
  garbage-escape text h =
      second_test (not (is_full text)) (bytes_contains text (codes "\\x")) _ _ _ _ _ h

  unless_garbage-Visible :
      (bytes : Bytes) → All Visible (unless_garbage decoders (plaintext_display_string bytes))
  unfolding unless_garbage
  unless_garbage-Visible bytes =
      let text = plaintext_display_string bytes in
      if_cases (All Visible) (is_garbage_display decoders text) [] text (λ garbage. tt)
        (λ shown.
          display_runes-Visible (valid_runes bytes) (runes_from-IsRune 0 false bytes)
            (garbage-escape text shown))

  format-Visible : (bytes : Bytes) → All Visible (format_plaintext_payload decoders bytes)
  unfolding format_plaintext_payload
  format-Visible bytes = if_both (All Visible) _ [] _ tt (unless_garbage-Visible _)

  preview-Visible :
      (m : GenericMap) (max_len : Option ℕ)
      → All Visible (plaintext_preview_for_display decoders m max_len)
  unfolding plaintext_preview_for_display
  preview-Visible m max_len =
      let payload = plaintext_payload_bytes decoders m in
      if_both (All Visible) _ _ []
        (ellipsize-Visible (format_plaintext_payload decoders payload)
          (preview_limit decoders max_len) (format-Visible payload))
        tt

  wire_http-Visible :
      (env : Platform) (frame : Bytes) → All Visible (format_wire_http_payload decoders env frame)
  unfolding format_wire_http_payload
  wire_http-Visible env frame =
      let payload = http_bytes decoders env frame in
      if_both (All Visible) _ [] _ tt (
        ellipsize-Visible (unless_garbage decoders (plaintext_display_string payload)) 4096
          (unless_garbage-Visible payload))

  -- The preview of a record, at every width, and the text shown of a wire packet hold no byte of an
  -- ASCII control character but tabs and line breaks.
  pub shown_text-Visible :
      (env : Platform) (m : GenericMap) (max_len : Option ℕ) (frame : Bytes)
      → All Visible (plaintext_preview_for_display decoders m max_len)
        × All Visible (format_wire_http_payload decoders env frame)
  shown_text-Visible env m max_len frame = (preview-Visible m max_len, wire_http-Visible env frame)
