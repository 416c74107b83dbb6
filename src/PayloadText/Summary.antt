-- ===== src/PayloadText/Summary.antt =====
-- The cell of a plaintext row: plaintextLen, plaintextBinarySummary and plaintextTablePreview of
-- cmd/plaintext_format.go. An int has at most nineteen digits.
use network_observability_cl.Base.{
  ℕ, suc, some, ◌∷◌, ◌++◌, ℤ, pos, negsuc, if◌then◌else◌, str_eq, String, Bytes, codes, length,
}
use network_observability_cl.Base.Strings.{digits_before}
use network_observability_cl.Record.{Value, GenericMap, at, text_or_empty, truncate_float}
use network_observability_cl.PayloadText.Layers.{Decoders, is_full, plaintext_payload_bytes}
use network_observability_cl.PayloadText.Preview.{plaintext_preview_for_display}

-- %d of a number that is not negative, and of an int.
unfoldable pub decimal : ℕ → Bytes
unfolding digits_before
decimal n = codes (digits_before 20 n String.[])

unfoldable pub decimal_int : ℤ → Bytes
unfolding decimal
decimal_int (pos n) = decimal n
decimal_int (negsuc n) = b'-' ∷ decimal (suc n)

abbrev pub or_tls : String → String
or_tls source = if str_eq source "" then "tls" else source

module _ (decoders : Decoders) where
  abbrev pub len_of : Bytes → Value → ℤ
  len_of payload (Value.float v) = truncate_float v
  len_of payload (Value.int v) = v
  len_of payload (Value.int64 v) = v
  len_of payload _ = pos (length payload)

  unfoldable pub plaintext_len : GenericMap → ℤ
  plaintext_len m = len_of (plaintext_payload_bytes decoders m) (at m "PlaintextLen")

  unfoldable pub plaintext_binary_summary : GenericMap → Bytes
  plaintext_binary_summary m =
      let source = codes (or_tls (text_or_empty (at m "TLSSource"))) in
      let direction = codes (text_or_empty (at m "Direction")) in
      let size = decimal_int (plaintext_len m) in
      if is_full direction
      then codes "<" ++ source ++ codes " " ++ direction ++ codes " " ++ size ++ codes "B binary>"
      else codes "<" ++ source ++ codes " " ++ size ++ codes "B binary>"

  unfoldable pub plaintext_table_preview : GenericMap → ℕ → Bytes
  plaintext_table_preview m max_len =
      let preview = plaintext_preview_for_display decoders m (some max_len) in
      if is_full preview then preview else plaintext_binary_summary m
