-- ===== src/PayloadText/JsonText.antt =====
-- The text inside a payload: extractHTTPRequestLine and extractJSONTextBody of
-- cmd/plaintext_format.go. The fields of a JSON object are visited in the order of the list.
use network_observability_cl.Base.{
  ℕ, ◌*◌, ◌+◌, String, Bool, true, false, ◌&&◌, ◌||◌, not, Option, none, some, is_some, List, [],
  ◌∷◌, ltb, ◌==◌, if◌then◌else◌, Bytes, codes, length, str_eq, ℤ, negsuc, sub_ℕ, ltb_ℤ,
}
use network_observability_cl.PayloadText.{bytes_has_prefix}
use network_observability_cl.PayloadText.Layers.{
  Decoders, raw_at, is_export_record_object, json_raw_string, is_full,
}
use network_observability_cl.PayloadText.Runes.{
  Rune, ascii, wide, between, is_layout_byte, put_front, valid_runes,
}

-- What stands in front of the first occurrence: bytes.Index and a slice.
unfoldable pub bytes_before_first : Bytes → Bytes → Option Bytes
bytes_before_first sep [] = if is_full sep then none else some []
bytes_before_first sep (x ∷ xs) =
    let later = bytes_before_first sep xs in
    if bytes_has_prefix sep (x ∷ xs) then some [] else put_front x later

-- An index above 0.
abbrev pub stands_later : Option Bytes → Bool
stands_later none = false
stands_later (some front) = is_full front

-- The first letters of HTTP methods and of HTTP itself.
abbrev pub is_method_letter : ℕ → Bool
is_method_letter b =
    b == b'G' || b == b'P' || b == b'H' || b == b'D' || b == b'C' || b == b'O' || b == b'T'

abbrev pub plaintext_json_text_keys : List String
plaintext_json_text_keys =
    "text" ∷ "message" ∷ "msg" ∷ "body" ∷ "content" ∷ "data" ∷ "response" ∷ "result" ∷ "error" ∷ []

abbrev pub plaintext_json_skip_keys : List String
plaintext_json_skip_keys =
    "RecordType" ∷ "Direction" ∷ "TLSSource" ∷ "Protocol" ∷ "SSLType" ∷ "Time" ∷ "TimeFlowStartMs"
    ∷ "Pid" ∷ "Tgid" ∷ "SrcAddr" ∷ "DstAddr" ∷ "SrcPort" ∷ "DstPort" ∷ "PlaintextLen" ∷ "PacketID"
    ∷ "PcapAnnotated" ∷ []

unfoldable pub is_one_of : List String → String → Bool
is_one_of [] key = false
is_one_of (k ∷ ks) key = str_eq k key || is_one_of ks key

abbrev pub is_base64_byte : ℕ → Bool
is_base64_byte b =
    between b'A' b'Z' b
    || between b'a' b'z' b
    || between b'0' b'9' b
    || b == b'+'
    || b == b'/'
    || b == b'='

-- Byte by byte: a byte of a longer rune is none of them.
unfoldable pub all_base64_bytes : Bytes → Bool
all_base64_bytes [] = true
all_base64_bytes (b ∷ bs) = is_base64_byte b && all_base64_bytes bs

module _ (decoders : Decoders) where
  -- The lines of extractHTTPRequestLine, cut at the first \n or else the first \r\n.
  abbrev pub line_within : Option Bytes → Option Bytes
  line_within none = none
  line_within (some front) =
      let line = decoders.trim_bytes front in
      if is_full front && is_full line && stands_later (bytes_before_first (32 ∷ []) line)
      then some line
      else none

  abbrev pub trimmed_front : Option Bytes → Bytes → Bytes
  trimmed_front none bytes = bytes
  trimmed_front (some front) bytes = if is_full front then decoders.trim_bytes front else bytes

  abbrev pub request_line : Bytes → Bytes
  request_line bytes = elim (line_within (bytes_before_first (10 ∷ []) bytes)) [
    | some line ↦ line
    | none ↦ trimmed_front (bytes_before_first (13 ∷ 10 ∷ []) bytes) bytes
  ]

  unfoldable pub extract_http_request_line : Bytes → Bytes
  extract_http_request_line [] = []
  extract_http_request_line (b ∷ bs) = if is_method_letter b then request_line (b ∷ bs) else b ∷ bs

  unfoldable pub looks_like_structured_json : Bytes → Bool
  looks_like_structured_json text =
      let trimmed = decoders.trim_bytes text in
      bytes_has_prefix (codes "{") trimmed || bytes_has_prefix (codes "[") trimmed

  unfoldable pub looks_like_base64_blob : Bytes → Bool
  looks_like_base64_blob text =
      not (ltb (length text) 32) && all_base64_bytes text && is_some (decoders.base64 text)

  -- A rune that costs four points.
  abbrev pub is_unprintable : Rune → Bool
  is_unprintable (ascii r) = not (is_layout_byte r) && (ltb r 32 || r == 127)
  is_unprintable (wide bytes) = not (decoders.is_print bytes)

  unfoldable pub unprintable_runes : List Rune → ℕ
  unprintable_runes [] = 0
  unprintable_runes (r ∷ rs) = (if is_unprintable r then 1 else 0) + unprintable_runes rs

  -- -1 for the empty text. A text from the JSON decoder is valid UTF-8.
  unfoldable pub printable_text_score : Bytes → ℤ
  printable_text_score [] = negsuc 0
  printable_text_score (b ∷ bs) =
      sub_ℕ (length (b ∷ bs)) (4 * unprintable_runes (valid_runes (b ∷ bs)))

  -- The loop over the usual keys of a text.
  unfoldable pub text_under : List String → List (String × Bytes) → Option Bytes
  text_under [] object = none
  text_under (key ∷ keys) object =
      let text = json_raw_string decoders (raw_at key object) in
      let rest = text_under keys object in
      if is_full text && not (looks_like_structured_json text) then some text else rest

  -- A field that the loop over the object passes over.
  unfoldable pub is_passed_over : String → Bytes → Bool
  is_passed_over key text =
      is_one_of plaintext_json_skip_keys key
      || not (is_full text)
      || looks_like_structured_json text
      || looks_like_base64_blob text

  -- The loop over the object, with the best text and its score.
  unfoldable pub best_text : Bytes → ℤ → List (String × Bytes) → Bytes
  best_text best score [] = best
  best_text best score ((key, raw) ∷ object) =
      let text = json_raw_string decoders (some raw) in
      let better = not (is_passed_over key text) && ltb_ℤ score (printable_text_score text) in
      best_text (if better then text else best)
        (if better then printable_text_score text else score) object

  abbrev pub text_in_object : Bytes → Option (List (String × Bytes)) → Bytes
  text_in_object bytes none = bytes
  text_in_object bytes (some object) =
      let best = best_text [] (negsuc 0) object in
      if is_export_record_object decoders object
      then bytes
      else (elim (text_under plaintext_json_text_keys object) [
        | some text ↦ text
        | none ↦ if is_full best then best else bytes
      ])

  abbrev pub or_bytes : Bytes → Option Bytes → Bytes
  or_bytes bytes none = bytes
  or_bytes bytes (some text) = text

  unfoldable pub extract_json_text_body : Bytes → Bytes
  extract_json_text_body bytes =
      let trimmed = decoders.trim_bytes bytes in
      if bytes_has_prefix (codes "\"") trimmed
      then or_bytes bytes (decoders.string_of trimmed)
      else if bytes_has_prefix (codes "{") trimmed
      then text_in_object bytes (decoders.object_of trimmed)
      else bytes
