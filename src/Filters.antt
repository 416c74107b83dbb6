-- ===== src/Filters.antt =====
-- The capture filters of the command line, and what they say of a plaintext record or a wire packet:
-- cmd/packet_capture_filters.go.
use Prim.Native.Nat.{bit_and}
use Prim.Native.String.{◌++◌}
use mathlib.Core.List
use network_observability_cl.Base.{
  ℕ, String, Bool, true, false, ◌&&◌, ◌||◌, not, Option, none, some, List, [], ◌∷◌, ltb, ◌==◌,
  str_eq, if◌then◌else◌, is_some, Bytes,
}
use network_observability_cl.Base.Strings.{split, trim_space, trim_prefix, after_prefix}
use network_observability_cl.Record.{Value, GenericMap, at, put, integer}
use network_observability_cl.Platform.{Platform, Ip, IpNet}
use network_observability_cl.Endpoint.Port.{parse_port_string, map_port_from_generic}
use network_observability_cl.Endpoint.{
  plaintext_has_tuple, valid_ip_string, wire_packet_has_ip, has_text, has_number, bytes_eq,
}

pub record CaptureFilters : Type 0 where
  pub ports : List ℕ
  pub peer_ips : List Ip
  pub peer_nets : List IpNet

abbrev pub is_nonempty {ℓ} : {A : Type ℓ} → List A → Bool
is_nonempty [] = false
is_nonempty (x ∷ xs) = true

unfoldable pub active : CaptureFilters → Bool
active f = is_nonempty f.ports || is_nonempty f.peer_ips || is_nonempty f.peer_nets

unfoldable pub has_port : List ℕ → ℕ → Bool
has_port [] p = false
has_port (existing ∷ ports) p = existing == p || has_port ports p

unfoldable pub append_unique_port : List ℕ → ℕ → List ℕ
unfolding has_port
append_unique_port ports p = if has_port ports p then ports else List.◌++◌ ports (p ∷ [])

-- The parts of the --options text in turn: the value of the first that is name=value.
unfoldable pub option_in : String → List String → String
option_in name [] = ""
option_in name (part ∷ parts) =
    let rest = option_in name parts in
    elim (after_prefix (name ++ "=") (trim_prefix "--" (trim_space part))) [
      | none ↦ rest
      | some value ↦ value
    ]

-- optionValue, over the global `options`.
unfoldable pub option_value : String → String → String
unfolding option_in split trim_space trim_prefix after_prefix
option_value options name = option_in name (split b'|' options)

-- One key of the loop over "port", "dport" and "sport". The empty value is no port either.
unfoldable pub add_port_option : String → List ℕ → String → List ℕ
unfolding option_value parse_port_string append_unique_port
add_port_option options ports key =
    if str_eq (option_value options key) ""
    then ports
    else elim (parse_port_string (option_value options key)) [
      | none ↦ ports
      | some p ↦ append_unique_port ports p
    ]

abbrev pub to_list {ℓ} : {A : Type ℓ} → Option A → List A
to_list none = []
to_list (some a) = a ∷ []

-- if v := optionValue(key); v != "" { … parse(v) … }
abbrev parsed_option {ℓ} : {A : Type ℓ} → (String → Option A) → String → List A
parsed_option parse v = if str_eq v "" then [] else to_list (parse v)

unfoldable pub parse_capture_filters : Platform → String → CaptureFilters
unfolding add_port_option option_value
parse_capture_filters env options = record {
  ports =
      add_port_option options (add_port_option options (add_port_option options [] "port") "dport")
        "sport";
  peer_ips = parsed_option env.parse_ip (option_value options "peer_ip");
  peer_nets = parsed_option env.parse_cidr (option_value options "peer_cidr");
}

abbrev pub single_ip : List Ip → Option Ip
single_ip [] = none
single_ip (ip ∷ []) = some ip
single_ip (ip ∷ jp ∷ ips) = none

abbrev pub single_capture_peer_ip : CaptureFilters → Option Ip
single_capture_peer_ip f = single_ip f.peer_ips

abbrev pub single_port : List ℕ → ℕ
single_port [] = 0
single_port (p ∷ []) = p
single_port (p ∷ q ∷ ps) = 0

abbrev pub single_capture_port : CaptureFilters → ℕ
single_capture_port f = single_port f.ports

-- !ok || p == 0, for the port under a key.
abbrev pub port_missing : Option ℕ → Bool
port_missing none = true
port_missing (some p) = p == 0

-- net.IP.To4 for a 16-byte address: its last four bytes under the IPv4-in-IPv6 prefix.
unfoldable pub to4 : Ip → Option Ip
to4 (a ∷ b ∷ c ∷ d ∷ e ∷ f ∷ g ∷ h ∷ i ∷ j ∷ k ∷ l ∷ tail) =
    if bytes_eq (a ∷ b ∷ c ∷ d ∷ e ∷ f ∷ g ∷ h ∷ i ∷ j ∷ k ∷ l ∷ [])
      (0 ∷ 0 ∷ 0 ∷ 0 ∷ 0 ∷ 0 ∷ 0 ∷ 0 ∷ 0 ∷ 0 ∷ 255 ∷ 255 ∷ [])
    then some tail
    else none
to4 _ = none

-- nn[i] & m[i] == ip[i] & m[i] at every i, on texts of one length.
unfoldable pub masked_eq : Ip → Bytes → Ip → Bool
masked_eq (n ∷ ns) (m ∷ ms) (b ∷ bs) = bit_and n m == bit_and b m && masked_eq ns ms bs
masked_eq [] [] [] = true
masked_eq _ _ _ = false

-- net.IPNet.Contains.
unfoldable pub net_contains : IpNet → Ip → Bool
unfolding to4 masked_eq
net_contains n ip = elim (to4 ip) [
  | none ↦ masked_eq n.number n.mask ip
  | some short ↦ masked_eq n.number n.mask short
]

module _ (env : Platform) where
  unfoldable pub apply_workload_plaintext_tuple : GenericMap → Ip → ℕ → GenericMap
  apply_workload_plaintext_tuple m peer port =
      let own = valid_ip_string env (at m "SrcAddr") in
      if is_some own && not (has_text own (env.ip_string peer))
      then m
      else (let addressed =
            put "SrcAddr" (Value.text (env.ip_string peer)) (put "Proto" (integer 6) m) in
          if ltb 0 port && port_missing (map_port_from_generic addressed "SrcPort")
          then put "SrcPort" (Value.uint16 port) addressed
          else addressed)

  -- The branch of enrichPlaintextFromCaptureFilters with no single peer address.
  unfoldable pub apply_capture_port : GenericMap → ℕ → GenericMap
  apply_capture_port m port =
      if ltb 0 port
      then (if port_missing (map_port_from_generic m "SrcPort")
          then put "SrcPort" (Value.uint16 port) (put "Proto" (integer 6) m)
          else m)
      else m

  unfoldable pub enrich_plaintext_from_capture_filters : GenericMap → CaptureFilters → GenericMap
  unfolding apply_workload_plaintext_tuple apply_capture_port
  enrich_plaintext_from_capture_filters m f =
      if plaintext_has_tuple env m then m else elim (single_capture_peer_ip f) [
        | none ↦ apply_capture_port m (single_capture_port f)
        | some peer ↦ apply_workload_plaintext_tuple m peer (single_capture_port f)
      ]

  unfoldable pub any_port : GenericMap → List ℕ → Bool
  any_port m [] = false
  any_port m (p ∷ ps) =
      has_number (map_port_from_generic m "SrcPort") p
      || has_number (map_port_from_generic m "DstPort") p
      || any_port m ps

  unfoldable pub any_peer_ip : GenericMap → List Ip → Bool
  any_peer_ip m [] = false
  any_peer_ip m (ip ∷ ips) = wire_packet_has_ip env m (env.ip_string ip) || any_peer_ip m ips

  -- ipInCaptureNet, where an address that is not valid is the empty text.
  unfoldable pub ip_in_capture_net : Option String → IpNet → Bool
  ip_in_capture_net none n = false
  ip_in_capture_net (some ip) n =
      if str_eq ip ""
      then false
      else elim (env.parse_ip ip) [ none ↦ false | some parsed ↦ net_contains n parsed ]

  unfoldable pub any_peer_net : GenericMap → List IpNet → Bool
  unfolding ip_in_capture_net
  any_peer_net m [] = false
  any_peer_net m (n ∷ ns) =
      ip_in_capture_net (valid_ip_string env (at m "SrcAddr")) n
      || ip_in_capture_net (valid_ip_string env (at m "DstAddr")) n
      || any_peer_net m ns

  unfoldable pub wire_packet_matches_capture_filters : GenericMap → CaptureFilters → Bool
  unfolding active any_port any_peer_ip any_peer_net
  wire_packet_matches_capture_filters m f =
      active f
      && (not (is_nonempty f.ports) || any_port m f.ports)
      && (not (is_nonempty f.peer_ips) || any_peer_ip m f.peer_ips)
      && (not (is_nonempty f.peer_nets) || any_peer_net m f.peer_nets)
