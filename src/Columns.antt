-- ===== src/Columns.antt =====
-- Cells of the flow table: toDirection, toProto and toDSCP of cmd/map_format.go.
--
-- none is the panic of an assertion v.(float64). What fmt prints for a value is a parameter, `print`.
pub mod Protocols
pub mod Names
pub mod Widths
pub mod CellTexts
pub mod Printed
pub mod Comments
pub mod Rows
use network_observability_cl.Base.{
  ℕ, ◌*◌, ◌^◌, String, Bool, true, false, Option, none, some, List, [], ◌∷◌, ◌++◌, ℤ, pos, negsuc,
  ◌==◌, if◌then◌else◌,
}
use network_observability_cl.Base.Strings.{concat}
use network_observability_cl.Record.{Float64, Value, Values, GenericMap, lookup}
use Protocols.{low_protocol_names, high_protocol_names}
use network_observability_cl.Endpoint.{◌>>=◌}

abbrev pub empty_text : String
empty_text = "n/a"

-- v == n, for a case of a switch over a float64.
abbrev pub is_number : ℕ → Float64 → Bool
is_number n v = elim v.num [ pos m ↦ m == n * 2 ^ v.scale | negsuc m ↦ false ]

-- A switch that gives a name to some numbers.
unfoldable pub name_of : (Value → String) → List (ℕ × String) → Float64 → String
name_of print [] v = print (Value.float v)
name_of print ((n, name) ∷ names) v =
    let rest = name_of print names v in if is_number n v then name else rest

abbrev pub direction_names : List (ℕ × String)
direction_names = (0, "Ingress") ∷ (1, "Egress") ∷ (2, "Inner") ∷ []

unfoldable pub direction_value : (Value → String) → Float64 → String
unfolding name_of
direction_value print v = name_of print direction_names v

abbrev pub as_float : Value → Option Float64
as_float (Value.float v) = some v
as_float _ = none

-- The loop over a slice; the values are joined by commas.
unfoldable pub join_directions : (Value → String) → Values → Option String
unfolding concat
join_directions print Values.nil = some ""
join_directions print (Values.cons v Values.nil) =
    as_float v >>= λ f. some (direction_value print f)
join_directions print (Values.cons v (Values.cons w vs)) = as_float v >>= λ f.
    join_directions print (Values.cons w vs) >>= λ rest.
    some (concat (direction_value print f) (concat "," rest))

unfoldable pub direction_cell : (Value → String) → Option Value → Option String
direction_cell print none = some empty_text
direction_cell print (some (Value.arr vs)) = join_directions print vs
direction_cell print (some (Value.float v)) = some (direction_value print v)
direction_cell print (some _) = none

unfoldable pub to_direction : (Value → String) → GenericMap → String → Option String
to_direction print m field = direction_cell print (lookup field m)

-- A switch over the float64 under a field.
unfoldable pub named_cell : (Value → String) → List (ℕ × String) → Option Value → Option String
named_cell print names none = some empty_text
named_cell print names (some v) = as_float v >>= λ f. some (name_of print names f)

unfoldable pub to_proto : (Value → String) → GenericMap → String → Option String
unfolding named_cell
to_proto print m field =
    named_cell print (low_protocol_names ++ high_protocol_names) (lookup field m)

abbrev pub dscp_names : List (ℕ × String)
dscp_names =
    (8, "Low-Priority Data")
    ∷ (0, "Standard")
    ∷ (10, "High-Throughput Data")
    ∷ (16, "OAM")
    ∷ (18, "Low-Latency Data")
    ∷ (24, "Broadcast Video")
    ∷ (26, "Multimedia Streaming")
    ∷ (32, "Real-Time Interactive")
    ∷ (34, "Multimedia Conferencing")
    ∷ (40, "Signaling")
    ∷ (46, "Telephony")
    ∷ (48, "Network Control")
    ∷ []

unfoldable pub to_dscp : (Value → String) → GenericMap → String → Option String
unfolding named_cell
to_dscp print m field = named_cell print dscp_names (lookup field m)
