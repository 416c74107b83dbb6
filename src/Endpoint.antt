-- ===== src/Endpoint.antt =====
-- Addresses, five-tuples and the local endpoint of a record: validIPString, flowTupleFromMap,
-- plaintextHasTuple, plaintextPodEndpoint, plaintextPeerIP and the wire tests of
-- cmd/packet_capture_wire_buffer.go.
pub mod Port
pub mod Laws
use network_observability_cl.Base.{
  ℕ, String, Bool, true, false, ◌&&◌, ◌||◌, not, Option, none, some, List, [], ◌∷◌, ltb, ◌==◌,
  str_eq, if◌then◌else◌, is_some, Bytes,
}
use network_observability_cl.Record.{Value, GenericMap, at}
use network_observability_cl.Platform.{Platform, Ip, ipv4_zero, ipv6_unspecified}
use Port.{map_port_from_generic}

infixl 5 ◌>>=◌
abbrev pub ◌>>=◌ {ℓ κ} : {A : Type ℓ} {B : Type κ} → Option A → (A → Option B) → Option B
none >>= f = none
some a >>= f = f a

pub record FlowTuple : Type 0 where
  pub src_ip : String
  pub dst_ip : String
  pub src_port : ℕ
  pub dst_port : ℕ

abbrev pub bytes_eq : Bytes → Bytes → Bool
bytes_eq [] [] = true
bytes_eq (x ∷ xs) (y ∷ ys) = x == y && bytes_eq xs ys
bytes_eq _ _ = false

-- net.IP.IsUnspecified.
unfoldable pub is_unspecified : Ip → Bool
is_unspecified ip = bytes_eq ip ipv4_zero || bytes_eq ip ipv6_unspecified

-- o && v == x, for (v, o) from a lookup.
abbrev pub has_text : Option String → String → Bool
has_text none s = false
has_text (some t) s = str_eq t s

abbrev pub has_number : Option ℕ → ℕ → Bool
has_number none n = false
has_number (some k) n = k == n

abbrev pub or_else {ℓ} : {A : Type ℓ} → Option A → Option A → Option A
or_else (some a) o = some a
or_else none o = o

unfoldable pub tuples_equal : FlowTuple → FlowTuple → Bool
tuples_equal a b =
    str_eq a.src_ip b.src_ip
    && str_eq a.dst_ip b.dst_ip
    && a.src_port == b.src_port
    && a.dst_port == b.dst_port

unfoldable pub tuples_reverse_equal : FlowTuple → FlowTuple → Bool
tuples_reverse_equal a b =
    str_eq a.src_ip b.dst_ip
    && str_eq a.dst_ip b.src_ip
    && a.src_port == b.dst_port
    && a.dst_port == b.src_port

module _ (env : Platform) where
  -- The text that an address is compared by, where it is a specified one.
  unfoldable pub specified : Option Ip → Option String
  unfolding is_unspecified
  specified none = none
  specified (some ip) = if is_unspecified ip then none else some (env.ip_string ip)

  unfoldable pub valid_ip_string : Value → Option String
  unfolding specified
  valid_ip_string (Value.text s) =
      if str_eq s "" || str_eq s "0.0.0.0" || str_eq s "::"
      then none
      else specified (env.parse_ip s)
  valid_ip_string _ = none

  unfoldable pub flow_tuple_from_map : GenericMap → Option FlowTuple
  flow_tuple_from_map m = do
    src ← valid_ip_string (at m "SrcAddr")
    dst ← valid_ip_string (at m "DstAddr")
    src_port ← map_port_from_generic m "SrcPort"
    dst_port ← map_port_from_generic m "DstPort"
    some (record { src_ip = src; dst_ip = dst; src_port = src_port; dst_port = dst_port })

  unfoldable pub plaintext_has_tuple : GenericMap → Bool
  plaintext_has_tuple m =
      is_some (valid_ip_string (at m "SrcAddr"))
      && is_some (valid_ip_string (at m "DstAddr"))
      && is_some (map_port_from_generic m "SrcPort")
      && is_some (map_port_from_generic m "DstPort")

  -- One side of a record that has a usable address and a port other than 0.
  unfoldable pub endpoint_at : GenericMap → String → String → Option (String × ℕ)
  endpoint_at m addr port = do
    ip ← valid_ip_string (at m addr)
    p ← map_port_from_generic m port
    if ltb 0 p then some (ip, p) else none

  unfoldable pub plaintext_pod_endpoint : GenericMap → Option (String × ℕ)
  unfolding endpoint_at
  plaintext_pod_endpoint m =
      or_else (endpoint_at m "SrcAddr" "SrcPort") (endpoint_at m "DstAddr" "DstPort")

  unfoldable pub peer_at : GenericMap → String → String → Option String
  peer_at m key pod = do ip ← valid_ip_string (at m key); if str_eq ip pod then none else some ip

  unfoldable pub plaintext_peer_ip : GenericMap → Option String
  unfolding peer_at
  plaintext_peer_ip m = do
    pod ← plaintext_pod_endpoint m
    or_else (peer_at m "DstAddr" pod.0) (peer_at m "SrcAddr" pod.0)

  unfoldable pub wire_egress_from : GenericMap → String → ℕ → Bool
  wire_egress_from m ip port =
      has_text (valid_ip_string (at m "SrcAddr")) ip
      && has_number (map_port_from_generic m "SrcPort") port

  unfoldable pub wire_ingress_to : GenericMap → String → ℕ → Bool
  wire_ingress_to m ip port =
      has_text (valid_ip_string (at m "DstAddr")) ip
      && has_number (map_port_from_generic m "DstPort") port

  unfoldable pub wire_packet_has_ip : GenericMap → String → Bool
  wire_packet_has_ip m ip =
      has_text (valid_ip_string (at m "SrcAddr")) ip
      || has_text (valid_ip_string (at m "DstAddr")) ip

  unfoldable pub wire_packet_has_ip_port : GenericMap → String → ℕ → Bool
  unfolding wire_egress_from wire_ingress_to
  wire_packet_has_ip_port m ip port = wire_egress_from m ip port || wire_ingress_to m ip port
