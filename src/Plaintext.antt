-- ===== src/Plaintext.antt =====
-- Plaintext records: their timestamp, the trust in their tuple, and the export of a record that no
-- wire packet was found for (cmd/packet_capture_plaintext.go), with the overlay of a matched packet
-- (overlayCorrelatedWireToPlaintext of cmd/packet_capture_wire_buffer.go).
pub mod Unmatched
pub mod Overlay
pub mod Comment
use network_observability_cl.Base.{
  ℕ, ◌*◌, String, Bool, true, false, ◌&&◌, ◌||◌, not, Option, none, some, [], ◌∷◌, ℤ, pos_part,
  str_eq, if◌then◌else◌,
}
use network_observability_cl.Base.Strings.{after_prefix, has_prefix, concat}
use network_observability_cl.Record.{
  Value, GenericMap, at, put, delete_where, integer, is_text, is_positive, is_nonzero,
  truncate_float,
}
use network_observability_cl.Platform.{Platform}
use network_observability_cl.Endpoint.{
  FlowTuple, flow_tuple_from_map, plaintext_has_tuple, valid_ip_string, or_else,
}

-- What plaintext_format.go and packet_capture_plaintext.go give for a record: the application bytes
-- (plaintextPayloadBytes), the preview of enrichPlaintextForExport, "" where there is none
-- (plaintextPreviewForDisplay), and the packet comment (plaintextAnnotationComment).
pub record Display : Type 0 where
  pub payload_len : GenericMap → ℕ
  pub preview : GenericMap → String
  pub comment : GenericMap → ℕ → String

-- One of the two timestamps, in nanoseconds: t, ok := v.(float64); ok && t > 0.
unfoldable pub stamp : ℕ → Value → Option ℕ
stamp unit (Value.float t) =
    if is_positive t.num then some (pos_part (truncate_float t) * unit) else none
stamp unit _ = none

-- plaintextTimestamp; none is time.Time{}.
unfoldable pub plaintext_timestamp : GenericMap → Option ℕ
unfolding stamp
plaintext_timestamp m =
    or_else (stamp 1_000_000 (at m "TimeFlowStartMs")) (stamp 1_000_000_000 (at m "Time"))

unfoldable pub enrich_plaintext_for_export : Display → GenericMap → GenericMap
enrich_plaintext_for_export show m =
    if str_eq (show.preview m) "" then m else put "PlaintextDisplay" (Value.text (show.preview m)) m

abbrev pub is_k8s_side_field : String → Bool
is_k8s_side_field key = has_prefix key "SrcK8S_" || has_prefix key "DstK8S_"

-- The keys that an unverified record loses.
abbrev pub is_endpoint_field : String → Bool
is_endpoint_field key =
    str_eq key "SrcAddr"
    || str_eq key "DstAddr"
    || str_eq key "SrcPort"
    || str_eq key "DstPort"
    || is_k8s_side_field key

abbrev pub is_side_field : String → Bool
is_side_field key = has_prefix key "Src" || has_prefix key "Dst"

-- The other side's name for a key: "Dst" + key[3:] for a Src key, and the other way round.
unfoldable pub other_side : String → Option String
unfolding after_prefix concat
other_side key = elim (after_prefix "Src" key) [
  | some rest ↦ some (concat "Dst" rest)
  | none ↦ elim (after_prefix "Dst" key) [ some rest ↦ some (concat "Src" rest) | none ↦ none ]
]

abbrev put_if : Option String → Value → GenericMap → GenericMap
put_if none v m = m
put_if (some k) v m = put k v m

-- The second loop of prepareUnmatchedPlaintext. The loop may visit the keys in any order: here the
-- last entry of the list is visited first.
unfoldable pub put_other_sides : GenericMap → GenericMap → GenericMap
put_other_sides [] m = m
put_other_sides ((k, v) ∷ original) m = put_if (other_side k) v (put_other_sides original m)

unfoldable pub swap_sides : GenericMap → GenericMap
unfolding put_other_sides
swap_sides m = put_other_sides m (delete_where is_side_field m)

-- hasMeaningfulGenericValue.
unfoldable pub has_meaningful_value : Value → Bool
has_meaningful_value Value.null = false
has_meaningful_value (Value.text t) = not (str_eq t "")
has_meaningful_value (Value.float t) = is_nonzero t.num
has_meaningful_value (Value.int t) = is_nonzero t
has_meaningful_value (Value.int64 t) = is_nonzero t
has_meaningful_value _ = true

abbrev pub is_wire_k8s_enrichment_field : String → Bool
is_wire_k8s_enrichment_field key = is_k8s_side_field key || has_prefix key "K8S_"

unfoldable pub copy_wire_k8s_fields : GenericMap → GenericMap → GenericMap
unfolding has_meaningful_value
copy_wire_k8s_fields pt [] = pt
copy_wire_k8s_fields pt ((k, v) ∷ wire) =
    copy_wire_k8s_fields
      (if not (is_wire_k8s_enrichment_field k)
        then pt
        else if has_meaningful_value (at pt k)
        then pt
        else put k v pt)
      wire

unfoldable pub set_plaintext_tuple : GenericMap → FlowTuple → GenericMap
set_plaintext_tuple m t = put "Proto" (integer 6) (
    put "DstPort" (Value.uint16 t.dst_port) (
      put "SrcPort" (Value.uint16 t.src_port)
        (put "DstAddr" (Value.text t.dst_ip) (put "SrcAddr" (Value.text t.src_ip) m))))

module _ (env : Platform) where
  unfoldable pub plaintext_tuple_verified : GenericMap → Bool
  plaintext_tuple_verified m = is_text "kernel" (at m "TupleSource") && plaintext_has_tuple env m

  unfoldable pub prepare_unmatched_plaintext : GenericMap → GenericMap
  prepare_unmatched_plaintext m =
      if not (plaintext_tuple_verified m)
      then delete_where is_endpoint_field m
      else if not (is_text "read" (at m "Direction"))
      then m
      else swap_sides m

  unfoldable pub overlay_wire_tuple : GenericMap → GenericMap → GenericMap
  unfolding set_plaintext_tuple
  overlay_wire_tuple pt wire = elim (flow_tuple_from_map env wire) [
    | none ↦ pt
    | some t ↦ set_plaintext_tuple pt t
  ]

  unfoldable pub overlay_correlated_wire : GenericMap → GenericMap → GenericMap
  unfolding overlay_wire_tuple copy_wire_k8s_fields
  overlay_correlated_wire pt wire =
      copy_wire_k8s_fields (delete_where is_k8s_side_field (overlay_wire_tuple pt wire)) wire
