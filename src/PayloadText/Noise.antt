-- ===== src/PayloadText/Noise.antt =====
-- Which payloads and texts cmd/plaintext_format.go leaves out: isNoisePayload, isGarbageDisplay and
-- what they call. A printableRatio stands as its two numbers: p / n < a / b is p * b < a * n, which is
-- what Go's float64 quotients say below 2 ^ 46 bytes, since the quotient is rounded monotonically.
use network_observability_cl.Base.{
  ℕ, ◌*◌, ◌+◌, String, Bool, true, false, ◌&&◌, ◌||◌, not, Option, none, some, is_some, List, [],
  ◌∷◌, ltb, leb, if◌then◌else◌, Bytes, codes, length,
}
use network_observability_cl.PayloadText.{
  bytes_has_prefix, bytes_contains, has_any_prefix, is_tls_record, contains_agent_export_leak,
  is_plain_identifier_text,
}
use network_observability_cl.PayloadText.Layers.{Decoders, raw_at, is_export_record_object, is_full}
use network_observability_cl.PayloadText.Runes.{is_layout_byte}

unfoldable pub printable_bytes : Bytes → ℕ
printable_bytes [] = 0
printable_bytes (b ∷ bs) =
    (if is_layout_byte b || (leb 32 b && ltb b 127) then 1 else 0) + printable_bytes bs

-- printableRatio(data) < part / whole, for a limit above 0.
unfoldable pub printable_below : ℕ → ℕ → Bytes → Bool
printable_below part whole [] = true
printable_below part whole (b ∷ bs) =
    ltb (printable_bytes (b ∷ bs) * whole) (part * length (b ∷ bs))

unfoldable pub is_packet_export_object : List (String × Bytes) → Bool
is_packet_export_object object = is_some (raw_at "Bytes" object) && is_some (raw_at "Data" object)

-- ESC [, which begins a command to a terminal.
abbrev pub escape_sequence : Bytes
escape_sequence = 0x1b ∷ b'[' ∷ []

abbrev pub short_plaintext_http_prefixes : List String
short_plaintext_http_prefixes =
    "HTTP/" ∷ "GET " ∷ "POST " ∷ "PUT " ∷ "DELETE " ∷ "HEAD " ∷ "OPTIONS " ∷ "PATCH " ∷ []

module _ (decoders : Decoders) where
  abbrev pub is_export_object : Option (List (String × Bytes)) → Bool
  is_export_object none = false
  is_export_object (some object) =
      is_export_record_object decoders object || is_packet_export_object object

  -- The last test of isNoisePayload.
  unfoldable pub holds_export_object : Bytes → Bool
  holds_export_object bytes =
      let trimmed = decoders.trim_bytes bytes in
      bytes_has_prefix (codes "{") trimmed && is_export_object (decoders.object_of trimmed)

  unfoldable pub is_noise_payload : Bytes → Bool
  is_noise_payload bytes =
      not (is_full bytes)
      || is_tls_record bytes
      || bytes_has_prefix (codes "PRI * HTTP/2") bytes
      || bytes_contains bytes escape_sequence
      || contains_agent_export_leak bytes
      || (leb (length bytes) 8 && printable_below 1 2 bytes)
      || (bytes_has_prefix (0 ∷ 0 ∷ []) bytes && printable_below 18 25 bytes)
      || (printable_below 7 20 bytes && ltb 16 (length bytes))
      || holds_export_object bytes

  unfoldable pub looks_like_short_plaintext : Bytes → Bool
  looks_like_short_plaintext text =
      let trimmed = decoders.trim_bytes text in
      is_full trimmed
      && (has_any_prefix short_plaintext_http_prefixes trimmed
          || bytes_has_prefix (codes "{") trimmed
          || bytes_has_prefix (codes "[") trimmed
          || (is_plain_identifier_text trimmed && leb 2 (length trimmed)))

  unfoldable pub is_garbage_display : Bytes → Bool
  is_garbage_display text =
      not (is_full text)
      || bytes_contains text (codes "\\x")
      || bytes_contains text (codes "{\"Bytes\":")
      || bytes_contains text (codes "{\"Direction\":")
      || bytes_contains text escape_sequence
      || (printable_below 18 25 text && ltb 24 (length text))
      || (ltb (length (decoders.trim_bytes text)) 6 && not (looks_like_short_plaintext text))
