-- ===== src/Endpoint/Port.antt =====
-- Ports: parsePortString, portInRange and mapPortFromGeneric of cmd/packet_capture_wire_buffer.go.
use Prim.Native.Char.{code}
use network_observability_cl.Base.{
  ℕ, ◌+◌, ◌-◌, ◌*◌, String, Bool, ◌&&◌, Option, none, some, ℤ, pos, negsuc, ltb, leb, if◌then◌else◌,
}
use network_observability_cl.Base.Strings.{trim_space, cut_before}
use network_observability_cl.Record.{Value, GenericMap, at, truncate_float}

abbrev pub is_digit : ℕ → Bool
is_digit c = leb b'0' c && leb c b'9'

-- The loop of strconv.ParseUint(s, 10, 16), with the number read so far.
unfoldable pub parse_digits : ℕ → String → Option ℕ
parse_digits n String.[] = some n
parse_digits n (String.◌∷◌ c s) =
    let rest = parse_digits (n * 10 + (code c - b'0')) s in
    if is_digit (code c) && leb (n * 10 + (code c - b'0')) 65535 then rest else none

-- strconv.ParseUint(s, 10, 16): the empty text is an error.
unfoldable pub parse_uint16 : String → Option ℕ
unfolding parse_digits
parse_uint16 String.[] = none
parse_uint16 (String.◌∷◌ c s) = parse_digits 0 (String.◌∷◌ c s)

-- parsePortString: "443" and "443(https)".
unfoldable pub parse_port_string : String → Option ℕ
unfolding parse_uint16 trim_space cut_before
parse_port_string s = parse_uint16 (trim_space (cut_before b'(' s))

unfoldable pub port_in_range : ℤ → Option ℕ
port_in_range (pos n) = if ltb 65535 n then none else some n
port_in_range (negsuc n) = none

unfoldable pub port_of_value : Value → Option ℕ
unfolding parse_port_string port_in_range
port_of_value (Value.text s) = parse_port_string s
port_of_value (Value.float v) = port_in_range (truncate_float v)
port_of_value (Value.uint16 p) = some p
port_of_value (Value.int v) = port_in_range v
port_of_value (Value.int64 v) = port_in_range v
port_of_value _ = none

abbrev pub map_port_from_generic : GenericMap → String → Option ℕ
map_port_from_generic m key = port_of_value (at m key)
