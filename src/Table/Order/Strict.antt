-- ===== src/Table/Order/Strict.antt =====
-- The comparators of AppendFlow in cmd/flow_display.go are strict weak orderings.
use network_observability_cl.Base.{
  ℕ, zero, suc, ◌+◌, ◌*◌, ◌^◌, ◌≤◌, ◌<◌, Bool, true, false, ◌||◌, ℤ, pos_part, neg_part, ltb, ltb_ℤ,
  if◌then◌else◌, ◌≡◌, refl, arith,
}
use native.Mathlib.Nat.{mul-le-mul_right, le_of_mul-le-mul_right}
use network_observability_cl.Base.Latest.{StrictOrder}
use network_observability_cl.Record.{Float64, GenericMap}
use network_observability_cl.Table.Order.{
  less_float, Capture, flow, packet, metric, Host, packet_flow_time_ms, packet_flow_index,
  compare_packet_flows, order_time, comes_before, or_zero,
}

-- The cross products compare transitively.
below_trans :
    (pa na pb nb pc nc a b c : ℕ)
    → 0 < b
    → ltb (pa * b + nb * a) (pb * a + na * b) ≡ false
    → ltb (pb * c + nc * b) (pc * b + nb * c) ≡ false
    → ltb (pa * c + nc * a) (pc * a + na * c) ≡ false
below_trans pa na pb nb pc nc a b c hb h k =
    let first : (pb * a + na * b) * c ≤ (pa * b + nb * a) * c = mul-le-mul_right c (ground arith) in
    let second : (pc * b + nb * c) * a ≤ (pb * c + nc * b) * a =
      mul-le-mul_right a (ground arith) in
    let scaled : (pc * a + na * c) * b ≤ (pa * c + nc * a) * b = omega (arith, first, second) in
    let cancelled : pc * a + na * c ≤ pa * c + nc * a = le_of_mul-le-mul_right scaled hb in
    ground (arith, cancelled)

two_pow_pos : (n : ℕ) → 0 < 2 ^ n
two_pow_pos zero = omega arith
two_pow_pos (suc n) = omega (arith, two_pow_pos n)

pub less_float-StrictOrder : StrictOrder Float64 less_float
less_float-StrictOrder = record {
  asym = λ a b h. ground arith;
  negative = λ a b c h k.
      below_trans (pos_part a.num) (neg_part a.num) (pos_part b.num) (neg_part b.num)
        (pos_part c.num) (neg_part c.num) (2 ^ a.scale) (2 ^ b.scale) (2 ^ c.scale)
        (two_pow_pos b.scale) h k;
}

int_less-StrictOrder : StrictOrder ℤ ltb_ℤ
int_less-StrictOrder = record { asym = λ a b h. ground arith; negative = λ a b c h k. ground arith }

-- A comparison by a first key, then by a second: what it takes from those of the keys.
abbrev first_then : Bool → Bool → Bool → Bool
first_then before after second = if before || after then before else second

first_then-asym :
    (tu ut ij ji : Bool)
    → (tu ≡ true → ut ≡ false)
    → (ij ≡ true → ji ≡ false)
    → first_then tu ut ij ≡ true
    → first_then ut tu ji ≡ false
first_then-asym true ut ij ji f g h = rw (f refl) refl
first_then-asym false true ij ji f g h = cc
first_then-asym false false ij ji f g h = g h

first_then-negative :
    (tu ut uv vu tv vt ij jk ik : Bool)
    → (tu ≡ false → uv ≡ false → tv ≡ false)
    → (uv ≡ false → vt ≡ false → ut ≡ false)
    → (vt ≡ false → tu ≡ false → vu ≡ false)
    → (ij ≡ false → jk ≡ false → ik ≡ false)
    → first_then tu ut ij ≡ false
    → first_then uv vu jk ≡ false
    → first_then tv vt ik ≡ false
first_then-negative tu ut uv vu tv vt ij jk ik a b c d g h = grind arith

module _ (host : Host) where
  packet-StrictOrder : StrictOrder GenericMap (compare_packet_flows host)
  unfolding compare_packet_flows
  packet-StrictOrder =
      let o = less_float-StrictOrder in
      let time : GenericMap → Float64 = λ m. or_zero (packet_flow_time_ms host m) in
      record {
        asym = λ a b.
            first_then-asym (less_float (time a) (time b)) (less_float (time b) (time a))
              (ltb_ℤ (packet_flow_index a) (packet_flow_index b))
              (ltb_ℤ (packet_flow_index b) (packet_flow_index a)) (o.asym (time a) (time b))
              (int_less-StrictOrder.asym (packet_flow_index a) (packet_flow_index b));
        negative = λ a b c.
            first_then-negative (less_float (time a) (time b)) (less_float (time b) (time a))
              (less_float (time b) (time c)) (less_float (time c) (time b))
              (less_float (time a) (time c)) (less_float (time c) (time a))
              (ltb_ℤ (packet_flow_index a) (packet_flow_index b))
              (ltb_ℤ (packet_flow_index b) (packet_flow_index c))
              (ltb_ℤ (packet_flow_index a) (packet_flow_index c))
              (o.negative (time a) (time b) (time c)) (o.negative (time b) (time c) (time a))
              (o.negative (time c) (time a) (time b))
              (int_less-StrictOrder.negative (packet_flow_index a) (packet_flow_index b)
                (packet_flow_index c));
      }

  time-StrictOrder :
      (time : GenericMap → Float64) → StrictOrder GenericMap (λ a b. less_float (time a) (time b))
  time-StrictOrder time = record {
    asym = λ a b. less_float-StrictOrder.asym (time a) (time b);
    negative = λ a b c. less_float-StrictOrder.negative (time a) (time b) (time c);
  }

  -- The comparator of AppendFlow is one that sort.Slice may be given.
  pub comes_before-StrictOrder : (kind : Capture) → StrictOrder GenericMap (comes_before host kind)
  unfolding comes_before
  comes_before-StrictOrder flow = time-StrictOrder (λ m. or_zero (order_time host flow m))
  comes_before-StrictOrder packet = packet-StrictOrder
  comes_before-StrictOrder metric = time-StrictOrder (λ m. or_zero (order_time host metric m))
