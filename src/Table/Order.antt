-- ===== src/Table/Order.antt =====
-- The order of the table's entries: comparePacketFlows and the comparators of AppendFlow in
-- cmd/flow_display.go, with toFloat64 of cmd/map_format.go.
pub mod Strict
use network_observability_cl.Base.{
  ℕ, zero, suc, ◌+◌, ◌*◌, ◌^◌, ◌≤◌, ◌<◌, String, Bool, true, false, ◌||◌, Option, none, some, List,
  ◌∷◌, ℤ, pos, pos_part, neg_part, ltb, leb, ltb_ℤ, ◌==◌, not, length, count, is_some, List,
  if◌then◌else◌, ◌≡◌, refl, arith, Bool-cases, inl, inr,
}
use native.Mathlib.Nat.{mul-le-mul_right, le_of_mul-le-mul_right}
use network_observability_cl.Endpoint.{◌>>=◌}
use network_observability_cl.Base.Latest.{StrictOrder, Ascending}
use network_observability_cl.Base.Permutations.{Perm}
use network_observability_cl.Record.{
  Float64, Value, float, int, GenericMap, lookup, at, is_positive,
}

-- a < b and a != b on floats: both sides times both denominators, on natural numbers.
abbrev pub less_float : Float64 → Float64 → Bool
less_float a b =
    ltb (pos_part a.num * 2 ^ b.scale + neg_part b.num * 2 ^ a.scale)
      (pos_part b.num * 2 ^ a.scale + neg_part a.num * 2 ^ b.scale)

abbrev pub differs : Float64 → Float64 → Bool
differs a b = less_float a b || less_float b a

-- What the capture collects: Flow, Packet or Metric.
pub data Capture : Type 0 where
  flow : Capture
  packet : Capture
  metric : Capture

-- What the table uses of the platform: the rounded product of a float64 by 1000, and sort.Slice,
-- which sorts by a strict weak ordering.
pub record Host : Type 0 where
  pub times_thousand : Float64 → Float64
  pub sort : (GenericMap → GenericMap → Bool) → List GenericMap → List GenericMap

pub record HostLaws (host : Host) : Type 0 where
  pub sort-perm :
      (less : GenericMap → GenericMap → Bool) (xs : List GenericMap) → Perm (host.sort less xs) xs
  pub sort-ascending :
      (less : GenericMap → GenericMap → Bool) (xs : List GenericMap)
      → StrictOrder GenericMap less
      → Ascending less (host.sort less xs)

abbrev pub zero_float : Float64
zero_float = record { num = pos 0; scale = 0 }

-- v.(float64); none is the panic on another type.
abbrev pub asserted_float : Value → Option Float64
asserted_float (float f) = some f
asserted_float _ = none

abbrev pub float_field : Option Value → Option Float64
float_field none = some zero_float
float_field (some v) = asserted_float v

-- 0 where the field is missing.
unfoldable pub to_float64 : GenericMap → String → Option Float64
to_float64 m name = float_field (lookup name m)

abbrev pub int_or_zero : Value → ℤ
int_or_zero (int i) = i
int_or_zero _ = pos 0

unfoldable pub packet_flow_index : GenericMap → ℤ
packet_flow_index m = int_or_zero (at m "Index")

abbrev pub or_zero : Option Float64 → Float64
or_zero none = zero_float
or_zero (some f) = f

module _ (host : Host) where
  abbrev pub seconds_in_ms : GenericMap → Option Float64
  seconds_in_ms m = do t ← to_float64 m "Time"; some (host.times_thousand t)

  unfoldable pub packet_flow_time_ms : GenericMap → Option Float64
  packet_flow_time_ms m = do
    t ← to_float64 m "TimeFlowStartMs"
    if is_positive t.num then some t else seconds_in_ms m

  -- Only on entries whose time does not panic.
  unfoldable pub compare_packet_flows : GenericMap → GenericMap → Bool
  compare_packet_flows a b =
      let ti = or_zero (packet_flow_time_ms a) in
      let tj = or_zero (packet_flow_time_ms b) in
      if differs ti tj then less_float ti tj else ltb_ℤ (packet_flow_index a) (packet_flow_index b)

  -- The field that the comparator of AppendFlow reads.
  abbrev pub order_time : Capture → GenericMap → Option Float64
  order_time flow m = to_float64 m "TimeFlowEndMs"
  order_time packet m = packet_flow_time_ms m
  order_time metric m = to_float64 m "Time"

  abbrev pub untimed : Capture → GenericMap → Bool
  untimed kind m = not (is_some (order_time kind m))

  unfoldable pub comes_before : Capture → GenericMap → GenericMap → Bool
  comes_before packet a b = compare_packet_flows a b
  comes_before kind a b = less_float (or_zero (order_time kind a)) (or_zero (order_time kind b))

  -- sort.Slice compares each of two or more entries, so one whose time panics stops it: none.
  unfoldable pub sort_entries : Capture → List GenericMap → Option (List GenericMap)
  sort_entries kind xs =
      if count (untimed kind) xs == 0 || leb (length xs) 1
      then some (host.sort (comes_before kind) xs)
      else none
