-- ===== src/PayloadText/Layers.antt =====
-- The wrappers around a payload: unwrapPayloadLayers and what it calls in cmd/plaintext_format.go,
-- with the payload bytes of a record. A text is its bytes; nil and the empty slice are [].
use network_observability_cl.Base.{
  ℕ, zero, suc, String, Bool, true, false, ◌&&◌, ◌||◌, not, Option, none, some, is_some, List, [],
  ◌∷◌, Bytes, codes, str_eq, ◌==◌, if◌then◌else◌,
}
use network_observability_cl.Record.{GenericMap, at, text_or_empty}
use network_observability_cl.PayloadText.{
  bytes_has_prefix, slice_json_object, strip_leading_application_prefix,
}

-- bytes.Equal.
unfoldable pub bytes_equal : Bytes → Bytes → Bool
bytes_equal [] [] = true
bytes_equal (x ∷ xs) (y ∷ ys) = x == y && bytes_equal xs ys
bytes_equal [] (y ∷ ys) = false
bytes_equal (x ∷ xs) [] = false

abbrev pub is_full : Bytes → Bool
is_full [] = false
is_full (x ∷ xs) = true

-- bytes.TrimSpace, json.Unmarshal into an object of raw values and into a string, and
-- base64.StdEncoding.DecodeString; and unicode.IsPrint, on the bytes of a rune beyond U+007F.
pub record Decoders : Type 0 where
  pub trim_bytes : Bytes → Bytes
  pub object_of : Bytes → Option (List (String × Bytes))
  pub string_of : Bytes → Option Bytes
  pub base64 : Bytes → Option Bytes
  pub is_print : Bytes → Bool

unfoldable pub raw_at : String → List (String × Bytes) → Option Bytes
raw_at key [] = none
raw_at key ((k, raw) ∷ object) = if str_eq k key then some raw else raw_at key object

abbrev pub embedded_export_json_markers : List String
embedded_export_json_markers =
    "{\"RecordType\":\"plaintext\"" ∷ "{\"Direction\":\"write\"" ∷ "{\"Direction\":\"read\"" ∷ []

abbrev pub max_plaintext_unwrap_depth : ℕ
max_plaintext_unwrap_depth = 6

abbrev pub or_no_bytes : Option Bytes → Bytes
or_no_bytes none = []
or_no_bytes (some bytes) = bytes

module _ (decoders : Decoders) where
  -- "" also where the value is missing or is no string.
  abbrev pub json_raw_string : Option Bytes → Bytes
  json_raw_string none = []
  json_raw_string (some raw) = or_no_bytes (decoders.string_of raw)

  unfoldable pub is_export_record_object : List (String × Bytes) → Bool
  is_export_record_object object =
      bytes_equal (json_raw_string (raw_at "RecordType" object)) (codes "plaintext")
      || (is_some (raw_at "Plaintext" object) && is_some (raw_at "Direction" object))

  -- The decoded plaintext, or the preview where there is none.
  abbrev pub decoded_or : Bytes → Bytes → Bytes
  decoded_or encoded preview =
      let decoded = or_no_bytes (decoders.base64 encoded) in
      if is_full encoded && is_full decoded then decoded else preview

  abbrev pub unwrap_object : Option (List (String × Bytes)) → Bytes
  unwrap_object none = []
  unwrap_object (some object) =
      if is_export_record_object object
      then decoded_or (json_raw_string (raw_at "Plaintext" object))
          (json_raw_string (raw_at "PlaintextPreview" object))
      else []

  unfoldable pub unwrap_export_json_object : Bytes → Bytes
  unwrap_export_json_object object_bytes = unwrap_object (decoders.object_of object_bytes)

  abbrev pub inner_of : Option Bytes → Bytes
  inner_of none = []
  inner_of (some object_bytes) =
      let inner = unwrap_export_json_object object_bytes in
      if is_full inner && not (bytes_equal inner object_bytes) then inner else []

  abbrev pub or_else_bytes : Bytes → Bytes → Bytes
  or_else_bytes [] other = other
  or_else_bytes (x ∷ xs) other = x ∷ xs

  -- The loop over the places of one marker.
  unfoldable pub extract_from : Bytes → Bytes → Bytes
  extract_from marker [] = []
  extract_from marker (x ∷ xs) =
      let later = extract_from marker xs in
      if bytes_has_prefix marker (x ∷ xs)
      then or_else_bytes (inner_of (slice_json_object (x ∷ xs))) later
      else later

  unfoldable pub extract_markers : List String → Bytes → Bytes
  extract_markers [] bytes = []
  extract_markers (marker ∷ markers) bytes =
      or_else_bytes (extract_from (codes marker) bytes) (extract_markers markers bytes)

  abbrev pub extract_embedded_export_json : Bytes → Bytes
  extract_embedded_export_json bytes = extract_markers embedded_export_json_markers bytes

  -- A top-level export record; what is no such record stays.
  unfoldable pub unwrap_embedded_export_record : Bytes → Bytes
  unwrap_embedded_export_record bytes =
      let trimmed = decoders.trim_bytes bytes in
      if bytes_has_prefix (codes "{") trimmed
      then or_else_bytes (unwrap_export_json_object trimmed) bytes
      else bytes

  unfoldable pub unwrap_payload_layer : Bytes → Bytes
  unwrap_payload_layer bytes =
      let record_inside = unwrap_embedded_export_record bytes in
      if bytes_equal record_inside bytes
      then or_else_bytes (extract_embedded_export_json bytes)
          (strip_leading_application_prefix bytes)
      else record_inside

  unfoldable pub unwrap_up_to : ℕ → Bytes → Bytes
  unwrap_up_to zero bytes = bytes
  unwrap_up_to (suc depth) bytes =
      let next = unwrap_payload_layer bytes in
      let rest = unwrap_up_to depth next in if bytes_equal next bytes then bytes else rest

  unfoldable pub unwrap_payload_layers : Bytes → Bytes
  unwrap_payload_layers bytes = unwrap_up_to max_plaintext_unwrap_depth bytes

  -- The text fields of a record.
  abbrev pub plaintext_field_string : GenericMap → Bytes
  plaintext_field_string m = codes (text_or_empty (at m "Plaintext"))

  unfoldable pub plaintext_raw_bytes : GenericMap → Bytes
  plaintext_raw_bytes m =
      decoded_or (plaintext_field_string m) (codes (text_or_empty (at m "PlaintextPreview")))

  unfoldable pub plaintext_payload_bytes : GenericMap → Bytes
  plaintext_payload_bytes m =
      let raw = plaintext_raw_bytes m in if is_full raw then unwrap_payload_layers raw else []
