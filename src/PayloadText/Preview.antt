-- ===== src/PayloadText/Preview.antt =====
-- The text that the screen and the exports show of a payload: formatPlaintextPayload and
-- plaintextPreviewForDisplay of cmd/plaintext_format.go, and formatWireHTTPPayload of
-- cmd/wire_payload.go.
use network_observability_cl.Base.{
  ℕ, zero, suc, Bool, ◌&&◌, ◌||◌, not, Option, none, some, String, List, [], ◌∷◌, ltb,
  if◌then◌else◌, Bytes, length,
}
use network_observability_cl.Record.{GenericMap}
use network_observability_cl.Platform.{
  Platform, LayerType, ethernet, linux_sll, ipv4, ipv6, no_packet, no_tcp, other_layer, tcp,
}
use network_observability_cl.Workload.{wire_tcp_payload_info}
use network_observability_cl.PayloadText.{
  has_any_prefix, extract_http_body, ellipsize_plaintext_display,
}
use network_observability_cl.PayloadText.Layers.{
  Decoders, bytes_equal, is_full, unwrap_payload_layers, plaintext_payload_bytes,
}
use network_observability_cl.PayloadText.Runes.{plaintext_display_string}
use network_observability_cl.PayloadText.Noise.{is_noise_payload, is_garbage_display}
use network_observability_cl.PayloadText.JsonText.{
  extract_http_request_line, extract_json_text_body,
}

-- The loop of extractTCPPayloadFromFrame over the first layers.
unfoldable pub extract_tcp_from : Platform → Bytes → List LayerType → Bytes
extract_tcp_from env frame [] = []
extract_tcp_from env frame (t ∷ ts) =
    let next = extract_tcp_from env frame ts in
    elim (env.decode_tcp t frame) [
      | no_packet ↦ next
      | no_tcp ↦ next
      | other_layer ↦ []
      | tcp payload ↦ payload
    ]

abbrev pub extract_where_tcp : Platform → Bytes → Option ℕ → Bytes
extract_where_tcp env frame none = []
extract_where_tcp env frame (some zero) = []
extract_where_tcp env frame (some (suc n)) =
    extract_tcp_from env frame (ethernet ∷ linux_sll ∷ ipv4 ∷ ipv6 ∷ [])

unfoldable pub extract_tcp_payload_from_frame : Platform → Bytes → Bytes
extract_tcp_payload_from_frame env frame =
    extract_where_tcp env frame (wire_tcp_payload_info env frame)

abbrev pub cleartext_http_prefixes : List String
cleartext_http_prefixes =
    "HTTP/1." ∷ "GET " ∷ "POST " ∷ "PUT " ∷ "HEAD " ∷ "DELETE " ∷ "PATCH " ∷ "OPTIONS " ∷ "CONNECT "
    ∷ "TRACE " ∷ []

module _ (decoders : Decoders) where
  -- One round of the loop of formatPlaintextPayload.
  unfoldable pub extract_text : Bytes → Bytes
  extract_text bytes =
      extract_json_text_body decoders (extract_http_request_line decoders (extract_http_body bytes))

  unfoldable pub extract_up_to : ℕ → Bytes → Bytes
  extract_up_to zero bytes = bytes
  extract_up_to (suc rounds) bytes =
      let next = extract_text bytes in
      let rest = extract_up_to rounds next in if bytes_equal next bytes then bytes else rest

  -- The text of a display, "" where it is garbage.
  unfoldable pub unless_garbage : Bytes → Bytes
  unless_garbage text = if is_garbage_display decoders text then [] else text

  unfoldable pub format_plaintext_payload : Bytes → Bytes
  format_plaintext_payload bytes =
      let text = extract_up_to 3 (unwrap_payload_layers decoders bytes) in
      if is_noise_payload decoders text then [] else unless_garbage (plaintext_display_string text)

  -- The limit of the preview: 120 where the variadic maxLen is missing or 0.
  abbrev pub preview_limit : Option ℕ → ℕ
  preview_limit none = 120
  preview_limit (some zero) = 120
  preview_limit (some (suc n)) = suc n

  unfoldable pub plaintext_preview_for_display : GenericMap → Option ℕ → Bytes
  plaintext_preview_for_display m max_len =
      let payload = plaintext_payload_bytes decoders m in
      let display = format_plaintext_payload payload in
      if is_full payload && is_full display
      then ellipsize_plaintext_display display (preview_limit max_len)
      else []

  unfoldable pub is_meaningful_plaintext_record : GenericMap → Bool
  is_meaningful_plaintext_record m = is_full (plaintext_preview_for_display m none)

  unfoldable pub looks_like_cleartext_http : Bytes → Bool
  looks_like_cleartext_http bytes =
      let trimmed = decoders.trim_bytes bytes in
      not (ltb (length trimmed) 9) && has_any_prefix cleartext_http_prefixes trimmed

  module _ (env : Platform) where
    -- The application bytes of a frame, or the frame itself where it is cleartext HTTP.
    abbrev pub http_bytes : Bytes → Bytes
    http_bytes frame =
        let payload = extract_tcp_payload_from_frame env frame in
        if not (is_full payload) && looks_like_cleartext_http frame then frame else payload

    unfoldable pub format_wire_http_payload : Bytes → Bytes
    format_wire_http_payload frame =
        let payload = http_bytes frame in
        if not (is_full payload) || not (looks_like_cleartext_http payload)
        then []
        else ellipsize_plaintext_display (unless_garbage (plaintext_display_string payload)) 4096

    unfoldable pub wire_payload_panel_title : Bytes → String
    wire_payload_panel_title frame =
        if is_full (format_wire_http_payload frame) then "Wire HTTP (cleartext)" else "Wire payload"
