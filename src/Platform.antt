-- ===== src/Platform.antt =====
-- What cmd/packet_capture*.go takes from elsewhere: the address and network parsers and the address
-- printer of package net, the base64 decoder, and the frame decoder of gopacket. They are parameters
-- of the model; what a theorem relies on is stated as `PlatformLaws`.
use network_observability_cl.Base.{String, Option, none, some, Bytes, ◌∷◌, [], ◌≡◌}

-- net.IP in its 16-byte form, which net.ParseIP returns.
abbrev pub Ip : Type 0
Ip = Bytes

-- net.IPNet, the network number and its mask, of one length.
pub record IpNet : Type 0 where
  pub number : Ip
  pub mask : Bytes

-- The first layer that gopacket is asked to decode, in the order of wireTCPPayloadInfo.
pub data LayerType : Type 0 where
  ethernet linux_sll ipv4 ipv6 : LayerType

-- gopacket.NewPacket(frame, layerType, …) with packet.Layer(layers.LayerTypeTCP): no packet, no TCP
-- layer, a layer of another Go type, or a TCP layer with its payload.
pub data TcpLayer : Type 0 where
  no_packet no_tcp other_layer : TcpLayer
  tcp : Bytes → TcpLayer

pub record Platform : Type 0 where
  -- net.ParseIP, none for nil.
  pub parse_ip : String → Option Ip
  -- net.IP.String.
  pub ip_string : Ip → String
  -- net.ParseCIDR, its second result; none for an error.
  pub parse_cidr : String → Option IpNet
  -- base64.StdEncoding.DecodeString, none for an error.
  pub decode_base64 : String → Option Bytes
  -- strings.ToLower.
  pub to_lower : String → String
  pub decode_tcp : LayerType → Bytes → TcpLayer

-- net.IPv4zero and net.IPv6unspecified.
abbrev pub ipv4_zero : Ip
ipv4_zero = 0 ∷ 0 ∷ 0 ∷ 0 ∷ 0 ∷ 0 ∷ 0 ∷ 0 ∷ 0 ∷ 0 ∷ 255 ∷ 255 ∷ 0 ∷ 0 ∷ 0 ∷ 0 ∷ []

abbrev pub ipv6_unspecified : Ip
ipv6_unspecified = 0 ∷ 0 ∷ 0 ∷ 0 ∷ 0 ∷ 0 ∷ 0 ∷ 0 ∷ 0 ∷ 0 ∷ 0 ∷ 0 ∷ 0 ∷ 0 ∷ 0 ∷ 0 ∷ []

-- What package net documents: the text that it prints for an address reads back as that address, the
-- empty text is no address, and the two unspecified addresses have their usual texts.
pub record PlatformLaws (env : Platform) : Type 0 where
  pub reparse :
      (s : String) (ip : Ip) → env.parse_ip s ≡ some ip → env.parse_ip (env.ip_string ip) ≡ some ip
  pub empty_text : env.parse_ip "" ≡ none
  pub any_ipv4 : env.parse_ip "0.0.0.0" ≡ some ipv4_zero
  pub any_ipv6 : env.parse_ip "::" ≡ some ipv6_unspecified
