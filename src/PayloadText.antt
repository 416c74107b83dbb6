-- ===== src/PayloadText.antt =====
-- The byte tests and cuts of cmd/plaintext_format.go that find the text in a captured payload.
pub mod Cuts
pub mod Objects
pub mod Layers
pub mod Peeled
pub mod Runes
pub mod Noise
pub mod JsonText
pub mod Preview
pub mod Visible
pub mod Summary
use network_observability_cl.Base.{
  ℕ, zero, suc, ◌+◌, ◌-◌, ◌*◌, String, Bool, true, false, ◌&&◌, ◌||◌, not, Option, none, some, List,
  [], ◌∷◌, ◌++◌, ltb, leb, ◌==◌, if◌then◌else◌, is_some, Bytes, codes, length,
}

-- What follows a prefix: bytes.HasPrefix and a slice.
unfoldable pub bytes_after : Bytes → Bytes → Option Bytes
bytes_after [] xs = some xs
bytes_after (p ∷ ps) [] = none
bytes_after (p ∷ ps) (x ∷ xs) = let rest = bytes_after ps xs in if p == x then rest else none

abbrev pub bytes_has_prefix : Bytes → Bytes → Bool
bytes_has_prefix p xs = is_some (bytes_after p xs)

-- What follows the first occurrence: bytes.Index and a slice.
unfoldable pub bytes_after_first : Bytes → Bytes → Option Bytes
bytes_after_first sep [] = bytes_after sep []
bytes_after_first sep (x ∷ xs) =
    let later = bytes_after_first sep xs in
    elim (bytes_after sep (x ∷ xs)) [ some rest ↦ some rest | none ↦ later ]

abbrev pub bytes_contains : Bytes → Bytes → Bool
bytes_contains xs sep = is_some (bytes_after_first sep xs)

abbrev pub application_text_markers : List String
application_text_markers =
    "GET " ∷ "POST " ∷ "PUT " ∷ "HEAD " ∷ "HTTP/" ∷ "DELETE " ∷ "OPTIONS " ∷ "PATCH " ∷ "CONNECT "
    ∷ "TRACE " ∷ "NETOBSERV-" ∷ "{" ∷ []

unfoldable pub has_any_prefix : List String → Bytes → Bool
has_any_prefix [] xs = false
has_any_prefix (marker ∷ markers) xs =
    bytes_has_prefix (codes marker) xs || has_any_prefix markers xs

unfoldable pub is_application_text_start : Bytes → Bool
is_application_text_start [] = false
is_application_text_start (x ∷ xs) = has_any_prefix application_text_markers (x ∷ xs)

-- The loop over `skip`: the first of the next `limit` suffixes that starts a text. The loop ends in
-- front of the last byte at the latest.
unfoldable pub text_within : ℕ → Bytes → Option Bytes
text_within zero xs = none
text_within (suc limit) [] = none
text_within (suc limit) (x ∷ xs) =
    let later = text_within limit xs in if is_application_text_start xs then some xs else later

abbrev pub max_skip : ℕ
max_skip = 8

abbrev pub or_whole : Option Bytes → Bytes → Bytes
or_whole none xs = xs
or_whole (some rest) xs = rest

unfoldable pub strip_leading_application_prefix : Bytes → Bytes
strip_leading_application_prefix xs =
    if is_application_text_start xs then xs else or_whole (text_within max_skip xs) xs

-- The variables of the scan of sliceJSONObject.
pub record Scan : Type 0 where
  pub depth : ℕ
  pub in_string : Bool
  pub escape : Bool

-- One byte inside a string.
abbrev pub string_step : ℕ → Scan → Scan
string_step c s =
    if s.escape
    then record s { escape = false }
    else if c == b'\\'
    then record s { escape = true }
    else if c == b'"'
    then record s { in_string = false }
    else s

-- One byte outside of strings.
abbrev pub open_step : ℕ → Scan → Scan
open_step c s =
    if c == b'"'
    then record s { in_string = true }
    else if c == b'{'
    then record s { depth = s.depth + 1 }
    else if c == b'}'
    then record s { depth = s.depth - 1 }
    else s

unfoldable pub scan_step : ℕ → Scan → Scan
scan_step c s = if s.in_string then string_step c s else open_step c s

-- The byte closes the object: depth-- gives 0.
unfoldable pub closes : ℕ → Scan → Bool
closes c s = not s.in_string && c == b'}' && s.depth == 1

-- The loop: the bytes up to the one that closes the object. The depth is above 0 from the first byte
-- on, so depth-- never goes below 0.
unfoldable pub object_end : Scan → Bytes → Option Bytes
object_end s [] = none
object_end s (c ∷ xs) =
    let rest = object_end (scan_step c s) xs in
    if closes c s then some (c ∷ []) else elim rest [ none ↦ none | some body ↦ some (c ∷ body) ]

-- sliceJSONObject, on data[start:].
unfoldable pub slice_json_object : Bytes → Option Bytes
slice_json_object [] = none
slice_json_object (c ∷ xs) =
    if c == b'{'
    then object_end (record { depth = 0; in_string = false; escape = false }) (c ∷ xs)
    else none

unfoldable pub extract_http_body : Bytes → Bytes
extract_http_body xs =
    if bytes_has_prefix (codes "HTTP/") xs
    then (elim (bytes_after_first (13 ∷ 10 ∷ 13 ∷ 10 ∷ []) xs) [
      | some body ↦ body
      | none ↦ or_whole (bytes_after_first (10 ∷ 10 ∷ []) xs) xs
    ])
    else xs

unfoldable pub is_tls_record : Bytes → Bool
is_tls_record (kind ∷ major ∷ minor ∷ xs) =
    major == 0x03
    && leb 0x14 kind
    && leb kind 0x17
    && (minor == 0x01 || minor == 0x03 || minor == 0x04)
is_tls_record _ = false

unfoldable pub contains_agent_export_leak : Bytes → Bool
contains_agent_export_leak xs =
    bytes_contains xs (codes "\"RecordType\":\"plaintext\"")
    || (bytes_contains xs (codes "\"Plaintext\"") && bytes_contains xs (codes "\"Direction\""))
    || (bytes_contains xs (codes "\"Bytes\"") && bytes_contains xs (codes "\"Data\""))

-- A letter, a digit or one of / . - _, byte by byte: a byte of a longer rune is none of them.
abbrev pub is_identifier_byte : ℕ → Bool
is_identifier_byte r =
    (leb b'A' r && leb r b'Z')
    || (leb b'a' r && leb r b'z')
    || (leb b'0' r && leb r b'9')
    || r == b'/'
    || r == b'.'
    || r == b'-'
    || r == b'_'

unfoldable pub is_plain_identifier_text : Bytes → Bool
is_plain_identifier_text [] = true
is_plain_identifier_text (r ∷ rs) = is_identifier_byte r && is_plain_identifier_text rs

-- utf8.RuneStart: not a continuation byte 10xxxxxx.
abbrev pub rune_start : ℕ → Bool
rune_start b = not (leb 0x80 b && leb b 0xbf)

-- The first `cut` bytes, without those of a rune that is cut: the byte behind them decides. The bytes
-- in front of the cut stand in reverse.
unfoldable pub back_to_rune : Bytes → ℕ → Bytes
back_to_rune [] next = []
back_to_rune (b ∷ bs) next =
    let rest = back_to_rune bs b in if rune_start next then b ∷ bs else rest

unfoldable pub reversed_onto : Bytes → Bytes → Bytes
reversed_onto [] acc = acc
reversed_onto (b ∷ bs) acc = reversed_onto bs (b ∷ acc)

-- The cut at `cut`, with the bytes in front of it in reverse; none where the text is no longer.
unfoldable pub cut_at : ℕ → Bytes → Bytes → Option Bytes
cut_at cut front [] = none
cut_at zero front (b ∷ bs) = some (reversed_onto (back_to_rune front b) [])
cut_at (suc cut) front (b ∷ bs) = cut_at cut (b ∷ front) bs

unfoldable pub ellipsize_plaintext_display : Bytes → ℕ → Bytes
ellipsize_plaintext_display xs zero = xs
ellipsize_plaintext_display xs (suc n) = elim (cut_at (suc n) [] xs) [
  | none ↦ xs
  | some front ↦ front ++ codes "..."
]
