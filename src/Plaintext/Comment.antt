-- ===== src/Plaintext/Comment.antt =====
-- The comment of an annotated packet: plaintextFiveTupleLine and plaintextAnnotationComment of
-- cmd/packet_capture_plaintext.go.
use network_observability_cl.Base.{
  ℕ, String, ◌&&◌, Option, none, some, [], ◌∷◌, ◌++◌, not, if◌then◌else◌, Bytes, codes, length,
}
use network_observability_cl.Record.{Value, GenericMap, at, lookup, text_or_empty}
use network_observability_cl.Endpoint.Port.{map_port_from_generic}
use network_observability_cl.PayloadText.Layers.{Decoders, is_full, plaintext_payload_bytes}
use network_observability_cl.PayloadText.Preview.{
  format_plaintext_payload, plaintext_preview_for_display,
}
use network_observability_cl.Plaintext.{Display}
use network_observability_cl.PayloadText.Summary.{decimal}

abbrev pub field_bytes : GenericMap → String → Bytes
field_bytes m key = codes (text_or_empty (at m key))

abbrev pub tuple_text : Bytes → Bytes → Option ℕ → Option ℕ → Bytes
tuple_text src dst (some src_port) (some dst_port) =
    src ++ codes ":" ++ decimal src_port ++ codes " -> " ++ dst ++ codes ":" ++ decimal dst_port
tuple_text src dst _ _ = src ++ codes " -> " ++ dst

unfoldable pub plaintext_five_tuple_line : GenericMap → Bytes
plaintext_five_tuple_line m =
    let src = field_bytes m "SrcAddr" in
    let dst = field_bytes m "DstAddr" in
    if not (is_full src) && not (is_full dst)
    then []
    else tuple_text src dst (map_port_from_generic m "SrcPort") (map_port_from_generic m "DstPort")

-- A line of the comment, left out where its text is empty.
abbrev pub comment_line : String → Bytes → Bytes
comment_line name [] = []
comment_line name (b ∷ bs) = codes name ++ (b ∷ bs) ++ codes "\n"

module _ (decoders : Decoders) (print : Value → Bytes) where
  abbrev pub pid_line : Option Value → Bytes
  pid_line none = []
  pid_line (some pid) = codes "Pid: " ++ print pid ++ codes "\n"

  abbrev pub payload_part : GenericMap → Bytes → Bytes
  payload_part m preview =
      let payload = plaintext_payload_bytes decoders m in
      if is_full preview
      then codes "---\n"
        ++ (if is_full payload then format_plaintext_payload decoders payload else preview)
      else []

  unfoldable pub plaintext_annotation_comment : GenericMap → ℕ → Bytes
  plaintext_annotation_comment m id =
      codes "TLS Plaintext (PacketID: "
      ++ decimal id
      ++ codes ")\n"
      ++ comment_line "Direction: " (field_bytes m "Direction")
      ++ comment_line "TLSSource: " (field_bytes m "TLSSource")
      ++ comment_line "5-tuple: " (plaintext_five_tuple_line m)
      ++ pid_line (lookup "Pid" m)
      ++ payload_part m (field_bytes m "PlaintextPreview")

  -- The parameter of the buffer and the collector, with a text for its bytes.
  abbrev pub display_of : (Bytes → String) → Display
  display_of text_of = record {
    payload_len = λ m. length (plaintext_payload_bytes decoders m);
    preview = λ m. text_of (plaintext_preview_for_display decoders m none);
    comment = λ m id. text_of (plaintext_annotation_comment m id);
  }
