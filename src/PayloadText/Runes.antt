-- ===== src/PayloadText/Runes.antt =====
-- The runes of a text and plaintextDisplayString of cmd/plaintext_format.go.
use network_observability_cl.Base.{
  ℕ, zero, suc, ◌-◌, ◌/◌, ◌%◌, ◌+◌, Bool, true, false, ◌&&◌, ◌||◌, Option, none, some, List, [],
  ◌∷◌, ◌++◌, ltb, leb, ◌==◌, if◌then◌else◌, Bytes, length,
}

-- A rune below U+0080, or the bytes of a longer one.
pub data Rune : Type 0 where
  ascii : ℕ → Rune
  wide : Bytes → Rune

abbrev pub between : ℕ → ℕ → ℕ → Bool
between low high b = leb low b && leb b high

-- How many bytes follow the first one of a longer rune; 0 where no rune begins.
abbrev pub tail_length : ℕ → ℕ
tail_length lead =
    if between 0xc2 0xdf lead
    then 1
    else if between 0xe0 0xef lead
    then 2
    else if between 0xf0 0xf4 lead
    then 3
    else 0

-- The second byte leaves out the overlong forms, the surrogates and what is beyond U+10FFFF.
abbrev pub is_second : ℕ → ℕ → Bool
is_second lead =
    between (if lead == 0xe0 then 0xa0 else if lead == 0xf0 then 0x90 else 0x80)
      (if lead == 0xed then 0x9f else if lead == 0xf4 then 0x8f else 0xbf)

abbrev pub put_front : ℕ → Option Bytes → Option Bytes
put_front b none = none
put_front b (some bs) = some (b ∷ bs)

unfoldable pub continuation : ℕ → Bytes → Option Bytes
continuation zero bs = some []
continuation (suc n) [] = none
continuation (suc n) (b ∷ bs) =
    let rest = continuation n bs in if between 0x80 0xbf b then put_front b rest else none

-- The bytes of the longer rune that begins with a byte, none where they are no valid UTF-8.
unfoldable pub wide_rune : ℕ → Bytes → Option Bytes
wide_rune lead [] = none
wide_rune lead (b ∷ bs) =
    if ltb 0 (tail_length lead) && is_second lead b
    then put_front lead (put_front b (continuation (tail_length lead - 1) bs))
    else none

-- U+FFFD.
abbrev pub replacement : Bytes
replacement = 0xef ∷ 0xbf ∷ 0xbd ∷ []

-- What the byte at a rune's place gives: the runes, how many of the next bytes belong to them, and
-- whether it stands in a run of invalid bytes.
pub record Decoded : Type 0 where
  pub runes : List Rune
  pub skip : ℕ
  pub invalid : Bool

abbrev pub decode_wide : Bool → Option Bytes → Decoded
decode_wide invalid (some bytes) = record {
  runes = wide bytes ∷ [];
  skip = length bytes - 1;
  invalid = false;
}
decode_wide invalid none = record {
  runes = if invalid then [] else wide replacement ∷ [];
  skip = 0;
  invalid = true;
}

unfoldable pub decode_at : Bool → ℕ → Bytes → Decoded
decode_at invalid b bs =
    if ltb b 0x80
    then (record { runes = ascii b ∷ []; skip = 0; invalid = false })
    else decode_wide invalid (wide_rune b bs)

unfoldable pub runes_from : ℕ → Bool → Bytes → List Rune
runes_from skip invalid [] = []
runes_from (suc skip) invalid (b ∷ bs) = runes_from skip invalid bs
runes_from zero invalid (b ∷ bs) =
    let at_byte = decode_at invalid b bs in
    at_byte.runes ++ runes_from at_byte.skip at_byte.invalid bs

-- The runes of strings.ToValidUTF8: a run of invalid bytes is one replacement.
abbrev pub valid_runes : Bytes → List Rune
valid_runes bytes = runes_from 0 false bytes

abbrev pub hex_digit : ℕ → ℕ
hex_digit n = if ltb n 10 then b'0' + n else b'a' + (n - 10)

-- \x%02x.
abbrev pub hex_escape : ℕ → Bytes
hex_escape r = b'\\' ∷ b'x' ∷ hex_digit (r / 16) ∷ hex_digit (r % 16) ∷ []

abbrev pub is_layout_byte : ℕ → Bool
is_layout_byte r = r == 10 || r == 13 || r == 9

-- One round of the loop of plaintextDisplayString.
unfoldable pub display_rune : Rune → Bytes
display_rune (ascii r) =
    if is_layout_byte r then r ∷ [] else if leb 32 r && ltb r 127 then r ∷ [] else hex_escape r
display_rune (wide bytes) = bytes

unfoldable pub display_runes : List Rune → Bytes
display_runes [] = []
display_runes (r ∷ rs) = display_rune r ++ display_runes rs

abbrev pub plaintext_display_string : Bytes → Bytes
plaintext_display_string bytes = display_runes (valid_runes bytes)
