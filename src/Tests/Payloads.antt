-- ===== src/Tests/Payloads.antt =====
-- What is shown of concrete payloads, and the theorem on it at one record and one frame.
use network_observability_cl.Base.{◌≡◌, refl, [], ◌∷◌, ◌++◌, some, Bytes, codes, All}
use network_observability_cl.Record.{GenericMap, Value, lookup}
use network_observability_cl.PayloadText.{
  bytes_after, bytes_after_first, has_any_prefix, is_application_text_start,
  strip_leading_application_prefix, slice_json_object, extract_http_body, is_tls_record,
  contains_agent_export_leak,
}
use network_observability_cl.PayloadText.Layers.{
  bytes_equal, extract_from, extract_markers, unwrap_embedded_export_record, unwrap_payload_layer,
  unwrap_up_to, unwrap_payload_layers,
}
use network_observability_cl.PayloadText.Runes.{
  continuation, wide_rune, decode_at, runes_from, display_rune, display_runes,
  plaintext_display_string,
}
use network_observability_cl.PayloadText.Noise.{
  printable_bytes, printable_below, holds_export_object, is_noise_payload, is_garbage_display,
}
use network_observability_cl.PayloadText.JsonText.{
  bytes_before_first, extract_http_request_line, extract_json_text_body,
}
use network_observability_cl.PayloadText.Preview.{
  extract_text, extract_up_to, unless_garbage, format_plaintext_payload,
  plaintext_preview_for_display, format_wire_http_payload,
}
use network_observability_cl.PayloadText.Visible.{Visible, shown_text-Visible}
use network_observability_cl.Plaintext.Comment.{plaintext_five_tuple_line}
use network_observability_cl.Endpoint.Port.{port_of_value}
use network_observability_cl.Tests.{small, small_decoders}

-- é, an invalid byte and a control character.
shown_bytes :
    plaintext_display_string (0xc3 ∷ 0xa9 ∷ 0xff ∷ 0xfe ∷ 7 ∷ 10 ∷ [])
    ≡ 0xc3 ∷ 0xa9 ∷ 0xef ∷ 0xbf ∷ 0xbd ∷ b'\\' ∷ b'x' ∷ b'0' ∷ b'7' ∷ 10 ∷ []
unfolding runes_from decode_at wide_rune continuation display_runes display_rune
shown_bytes = refl

abbrev request : Bytes
request = codes "GET /index HTTP/1.1\r\nHost: a\r\n"

shown_request : format_plaintext_payload small_decoders request ≡ codes "GET /index HTTP/1.1\r"
unfolding format_plaintext_payload unwrap_payload_layers unwrap_up_to unwrap_payload_layer
    unwrap_embedded_export_record extract_markers extract_from strip_leading_application_prefix
    is_application_text_start has_any_prefix bytes_after bytes_after_first bytes_equal extract_up_to
    extract_text extract_http_body extract_http_request_line bytes_before_first
    extract_json_text_body is_noise_payload is_tls_record contains_agent_export_leak printable_below
    printable_bytes holds_export_object runes_from decode_at display_runes display_rune
    unless_garbage is_garbage_display slice_json_object
shown_request = refl

-- A command to the terminal is noise.
hidden_escape : format_plaintext_payload small_decoders (codes "GET /" ++ 27 ∷ codes "[2J") ≡ []
unfolding format_plaintext_payload unwrap_payload_layers unwrap_up_to unwrap_payload_layer
    unwrap_embedded_export_record extract_markers extract_from strip_leading_application_prefix
    is_application_text_start has_any_prefix bytes_after bytes_after_first bytes_equal extract_up_to
    extract_text extract_http_body extract_http_request_line bytes_before_first
    extract_json_text_body is_noise_payload is_tls_record
hidden_escape = refl

abbrev shown_record : GenericMap
shown_record =
    ("PlaintextPreview", Value.text "GET /index HTTP/1.1")
    ∷ ("SrcAddr", Value.text "10.0.0.1")
    ∷ ("Direction", Value.text "write")
    ∷ []

-- Without ports the line has the addresses only.
tuple_line : plaintext_five_tuple_line shown_record ≡ codes "10.0.0.1 -> "
unfolding plaintext_five_tuple_line lookup port_of_value
tuple_line = refl

shown_text-Visible_example :
    All Visible (plaintext_preview_for_display small_decoders shown_record (some 10))
    × All Visible (format_wire_http_payload small_decoders small request)
shown_text-Visible_example = shown_text-Visible small_decoders small shown_record (some 10) request
