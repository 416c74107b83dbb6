-- ===== src/Workload.antt =====
-- What the wire packet says of the process behind a record: its payload size and its pod.
-- wireTCPPayloadInfo of cmd/wire_payload.go, and applyWirePayloadScoreAdjustments,
-- plaintextWirePayloadLen, plaintextWirePodCompatible and wirePodIdentity of
-- cmd/packet_capture_wire_buffer.go.
use Prim.Native.String.{◌++◌}
use network_observability_cl.Base.{
  ℕ, ◌+◌, String, Bool, true, ◌&&◌, ◌||◌, not, Option, none, some, List, [], ◌∷◌, pos_part, ltb,
  leb, ◌==◌, str_eq, if◌then◌else◌, Bytes, length,
}
use network_observability_cl.Base.Strings.{contains}
use network_observability_cl.Record.{
  Value, GenericMap, at, is_text, text_or_empty, is_positive, truncate_float,
}
use network_observability_cl.Platform.{Platform, LayerType, TcpLayer}
use network_observability_cl.Plaintext.{Display}
use network_observability_cl.Packet.{
  BufferedWirePacket, PendingPlaintext, payload_bonus, payload_size_bonus,
}

-- The loop of wireTCPPayloadInfo over the layer types; some n is (n, true), none is (0, false).
unfoldable pub tcp_payload_from : Platform → Bytes → List LayerType → Option ℕ
tcp_payload_from env frame [] = none
tcp_payload_from env frame (t ∷ ts) =
    let next = tcp_payload_from env frame ts in
    elim (env.decode_tcp t frame) [
      | TcpLayer.no_packet ↦ next
      | TcpLayer.no_tcp ↦ next
      | TcpLayer.other_layer ↦ some 0
      | TcpLayer.tcp payload ↦ some (length payload)
    ]

unfoldable pub wire_tcp_payload_info : Platform → Bytes → Option ℕ
unfolding tcp_payload_from
wire_tcp_payload_info env [] = none
wire_tcp_payload_info env (b ∷ bs) =
    tcp_payload_from env (b ∷ bs)
      (LayerType.ethernet ∷ LayerType.linux_sll ∷ LayerType.ipv4 ∷ LayerType.ipv6 ∷ [])

abbrev pub positive_float : Value → Option ℕ
positive_float (Value.float f) =
    if is_positive f.num then some (pos_part (truncate_float f)) else none
positive_float _ = none

unfoldable pub plaintext_wire_payload_len : Display → PendingPlaintext → ℕ
plaintext_wire_payload_len show pt = elim (positive_float (at pt.fields "PlaintextLen")) [
  | some n ↦ n
  | none ↦ show.payload_len pt.fields
]

unfoldable pub apply_wire_payload_score_adjustments :
    Platform → Display → BufferedWirePacket → PendingPlaintext → ℕ → Option ℕ
unfolding wire_tcp_payload_info plaintext_wire_payload_len
apply_wire_payload_score_adjustments env show pkt pt score =
    elim (wire_tcp_payload_info env pkt.frame) [
      | none ↦ some score
      | some tcp_len ↦
          if tcp_len == 0
          then none
          else (let plain_len = plaintext_wire_payload_len show pt in
              some (
                score
                + payload_bonus
                + (if ltb 0 plain_len && leb plain_len tcp_len then payload_size_bonus else 0)))
    ]

-- The name and the owner of a pod on one side of a wire packet, "" where unknown.
abbrev pub pod_side : GenericMap → String → String → String → String × String
pod_side m kind name owner =
    if is_text "Pod" (at m kind)
    then (text_or_empty (at m name), text_or_empty (at m owner))
    else ("", "")

unfoldable pub wire_pod_identity : GenericMap → String × String
wire_pod_identity m =
    let (name, owner) = pod_side m "DstK8S_Type" "DstK8S_Name" "DstK8S_OwnerName" in
    if not (str_eq name "") || not (str_eq owner "")
    then (name, owner)
    else pod_side m "SrcK8S_Type" "SrcK8S_Name" "SrcK8S_OwnerName"

-- The switch of plaintextWirePodCompatible on the pod's identity.
unfoldable pub source_fits : String → String → Bool
unfolding contains
source_fits tls_source identity =
    if contains identity "openssl"
    then str_eq tls_source "openssl" || str_eq tls_source "ktls"
    else if contains identity "gotls"
    then str_eq tls_source "gotls"
    else if contains identity "ktls"
    then str_eq tls_source "ktls" || str_eq tls_source "openssl"
    else true

unfoldable pub plaintext_wire_pod_compatible : Platform → BufferedWirePacket → GenericMap → Bool
unfolding wire_pod_identity source_fits
plaintext_wire_pod_compatible env pkt pt =
    let tls_source = text_or_empty (at pt "TLSSource") in
    let (name, owner) = wire_pod_identity pkt.generic_map in
    if str_eq tls_source ""
    then true
    else if str_eq name "" && str_eq owner ""
    then true
    else source_fits tls_source (env.to_lower (name ++ " " ++ owner))
