-- ===== src/Score/Connection.antt =====
-- A record with a complete tuple is only ever matched with a packet of its own connection.
use network_observability_cl.Base.{
  ℕ, ◌+◌, ◌<◌, String, Bool, true, false, ◌||◌, Option, none, some, ◌≡◌, ◌⊎◌, ◌∙◌, ap, arith,
  Bool-cases, refl, and-true, inl, inr, if◌then◌else◌,
}
use network_observability_cl.Record.{GenericMap, at}
use network_observability_cl.Platform.{Platform}
use network_observability_cl.Endpoint.Port.{map_port_from_generic}
use network_observability_cl.Endpoint.{
  FlowTuple, flow_tuple_from_map, plaintext_has_tuple, valid_ip_string, tuples_equal,
  tuples_reverse_equal, ◌>>=◌,
}
use network_observability_cl.Endpoint.Laws.{
  reverse_tuple, tuples_equal_iff, tuples_reverse_equal_iff, has_text_iff, has_number_iff,
  flow_tuple-parts,
}
use network_observability_cl.Filters.{CaptureFilters}
use network_observability_cl.Plaintext.{Display}
use network_observability_cl.Packet.{BufferedWirePacket, PendingPlaintext}
use network_observability_cl.Score.{
  is_read, guard_some, side_compatible, plaintext_endpoints_compatible, score_strict_tuple_match,
  match_guards, match_base, score_plaintext_wire_match,
}
use network_observability_cl.Timing.{time_correlation_bonus}
use network_observability_cl.Workload.{apply_wire_payload_score_adjustments}

pub guard_some-eq-some {ℓ} :
    {A : Type ℓ} (b : Bool) (o : Option A) {a : A}
    → guard_some b o ≡ some a
    → (b ≡ true) × (o ≡ some a)
guard_some-eq-some true o h = (refl, h)
guard_some-eq-some false o h = cc

pub bind-eq-some {ℓ κ} :
    {A : Type ℓ} {B : Type κ} (o : Option A) (f : A → Option B) {b : B}
    → (o >>= f) ≡ some b
    → (a : A) × (o ≡ some a) × (f a ≡ some b)
bind-eq-some none f h = cc
bind-eq-some (some a) f h = (a, refl, h)

-- What a packet and a record with a complete tuple have in common once they are matched.
pub record SameConnection (env : Platform) (wire pt : GenericMap) : Type 0 where
  pub record_tuple : FlowTuple
  pub wire_tuple : FlowTuple
  pub record_has : flow_tuple_from_map env pt ≡ some record_tuple
  pub wire_has : flow_tuple_from_map env wire ≡ some wire_tuple
  pub one_connection : (wire_tuple ≡ record_tuple) ⊎ (wire_tuple ≡ reverse_tuple record_tuple)

module _ (env : Platform) (wire pt : GenericMap) where
  strict-SameConnection :
      {n : ℕ} → score_strict_tuple_match env wire pt ≡ some n → SameConnection env wire pt
  unfolding score_strict_tuple_match
  strict-SameConnection h =
      let (t, p, h1) = bind-eq-some (flow_tuple_from_map env pt) _ h in
      let (w, q, h2) = bind-eq-some (flow_tuple_from_map env wire) _ h1 in
      let (e, _) = guard_some-eq-some (tuples_equal w t || tuples_reverse_equal w t) _ h2 in
      record {
        record_tuple = t;
        wire_tuple = w;
        record_has = p;
        wire_has = q;
        one_connection = ground (arith, tuples_equal_iff w t, tuples_reverse_equal_iff w t);
      }

  side_compatible-ip :
      (addr port wire_addr wire_port ip : String)
      → side_compatible env wire pt addr port wire_addr wire_port ≡ true
      → valid_ip_string env (at pt addr) ≡ some ip
      → valid_ip_string env (at wire wire_addr) ≡ some ip
  unfolding side_compatible
  side_compatible-ip addr port wire_addr wire_port ip h k =
      ground (arith, has_text_iff (valid_ip_string env (at wire wire_addr)) ip)

  side_compatible-port :
      (addr port wire_addr wire_port ip : String) (p : ℕ)
      → side_compatible env wire pt addr port wire_addr wire_port ≡ true
      → valid_ip_string env (at pt addr) ≡ some ip
      → map_port_from_generic pt port ≡ some p
      → 0 < p
      → map_port_from_generic wire wire_port ≡ some p
  unfolding side_compatible
  side_compatible-port addr port wire_addr wire_port ip p h k e pos =
      ground (arith, has_number_iff (map_port_from_generic wire wire_port) p)

-- A packet of the same connection that has the record's addresses on the record's sides, and its ports
-- where they are not 0, runs in the record's own direction.
tuple_pinned :
    (t w : FlowTuple)
    → w.src_ip ≡ t.src_ip
    → w.dst_ip ≡ t.dst_ip
    → (0 < t.src_port → w.src_port ≡ t.src_port)
    → (0 < t.dst_port → w.dst_port ≡ t.dst_port)
    → (w ≡ t) ⊎ (w ≡ reverse_tuple t)
    → w ≡ t
tuple_pinned t w s d sp dp (inl e) = e
tuple_pinned t w s d sp dp (inr e) = ground arith

flip_connection :
    (t w : FlowTuple)
    → (w ≡ t) ⊎ (w ≡ reverse_tuple t)
    → (w ≡ reverse_tuple t) ⊎ (w ≡ reverse_tuple (reverse_tuple t))
flip_connection t w (inl e) = inr e
flip_connection t w (inr e) = inl e

module _ (env : Platform) (wire pt : GenericMap) (c : SameConnection env wire pt) where
  open c use {record_tuple as t, wire_tuple as w}

  -- A side that is compatible pins the packet's address and its port there.
  side_pins :
      (addr port wire_addr wire_port : String) {ip wire_ip : String} {p wire_p : ℕ}
      → side_compatible env wire pt addr port wire_addr wire_port ≡ true
      → valid_ip_string env (at pt addr) ≡ some ip
      → map_port_from_generic pt port ≡ some p
      → valid_ip_string env (at wire wire_addr) ≡ some wire_ip
      → map_port_from_generic wire wire_port ≡ some wire_p
      → (wire_ip ≡ ip) × (0 < p → wire_p ≡ p)
  side_pins addr port wire_addr wire_port h a b d e = (
    cc (side_compatible-ip env wire pt addr port wire_addr wire_port _ h a),
    λ pos. cc (side_compatible-port env wire pt addr port wire_addr wire_port _ _ h a b pos),
  )

  compatible-forward :
      is_read pt ≡ false → plaintext_endpoints_compatible env wire pt ≡ true → w ≡ t
  unfolding plaintext_endpoints_compatible
  compatible-forward dir h =
      let own = flow_tuple-parts env pt t c.record_has in
      let seen = flow_tuple-parts env wire w c.wire_has in
      let (left, right) =
        and-true (side_compatible env wire pt "SrcAddr" "SrcPort" "SrcAddr" "SrcPort")
          (side_compatible env wire pt "DstAddr" "DstPort" "DstAddr" "DstPort") (rw dir at h) in
      let a = side_pins "SrcAddr" "SrcPort" "SrcAddr" "SrcPort" left own.0 own.2 seen.0 seen.2 in
      let b = side_pins "DstAddr" "DstPort" "DstAddr" "DstPort" right own.1 own.3 seen.1 seen.3 in
      tuple_pinned t w a.0 b.0 a.1 b.1 c.one_connection

  compatible-reverse :
      is_read pt ≡ true → plaintext_endpoints_compatible env wire pt ≡ true → w ≡ reverse_tuple t
  unfolding plaintext_endpoints_compatible
  compatible-reverse dir h =
      let own = flow_tuple-parts env pt t c.record_has in
      let seen = flow_tuple-parts env wire w c.wire_has in
      let (left, right) =
        and-true (side_compatible env wire pt "SrcAddr" "SrcPort" "DstAddr" "DstPort")
          (side_compatible env wire pt "DstAddr" "DstPort" "SrcAddr" "SrcPort") (rw dir at h) in
      let a = side_pins "SrcAddr" "SrcPort" "DstAddr" "DstPort" left own.0 own.2 seen.1 seen.3 in
      let b = side_pins "DstAddr" "DstPort" "SrcAddr" "SrcPort" right own.1 own.3 seen.0 seen.2 in
      tuple_pinned (reverse_tuple t) w b.0 a.0 b.1 a.1 (flip_connection t w c.one_connection)

-- The record's tuple as it travels: a read arrives at the local endpoint, which the record keeps first.
abbrev pub travelling : GenericMap → FlowTuple → FlowTuple
travelling pt t = if is_read pt then reverse_tuple t else t

module _ (env : Platform) (show : Display) (filters : CaptureFilters) where
  pub score-parts :
      (pkt : BufferedWirePacket) (pt : PendingPlaintext) {n : ℕ}
      → score_plaintext_wire_match env show pkt pt filters ≡ some n
      → (base : ℕ) × (match_guards env pkt pt ≡ true)
        × (match_base env pkt.generic_map pt.fields filters ≡ some base)
        × (apply_wire_payload_score_adjustments env show pkt pt
              (base + time_correlation_bonus pkt pt)
            ≡ some n)
  unfolding score_plaintext_wire_match
  score-parts pkt pt h =
      let (guards, scored) = guard_some-eq-some (match_guards env pkt pt) _ h in
      let (base, e, adjusted) =
        bind-eq-some (match_base env pkt.generic_map pt.fields filters) _ scored in
      (base, guards, e, adjusted)

  match_guards-compatible :
      (pkt : BufferedWirePacket) (pt : PendingPlaintext)
      → match_guards env pkt pt ≡ true
      → plaintext_endpoints_compatible env pkt.generic_map pt.fields ≡ true
  unfolding match_guards
  match_guards-compatible pkt pt h = ground arith

  match_base_whole :
      (wire pt : GenericMap) {n : ℕ}
      → plaintext_has_tuple env pt ≡ true
      → match_base env wire pt filters ≡ some n
      → SameConnection env wire pt
  unfolding match_base
  match_base_whole wire pt whole h = strict-SameConnection env wire pt (rw whole at h)

  travelling-tuple :
      (wire pt : GenericMap) (c : SameConnection env wire pt)
      → plaintext_endpoints_compatible env wire pt ≡ true
      → c.wire_tuple ≡ travelling pt c.record_tuple
  travelling-tuple wire pt c compatible = elim (Bool-cases (is_read pt)) [
    | inl r ↦ rw r (compatible-reverse env wire pt c r compatible)
    | inr r ↦ rw r (compatible-forward env wire pt c r compatible)
  ]

  -- A packet that scores at all for a record with a complete tuple belongs to the same connection, and
  -- travels in the record's direction: it has the record's own tuple, or the reverse of it for a read.
  -- So no bonus and no capture filter ever leads to a packet of another connection.
  pub score-same_connection :
      (pkt : BufferedWirePacket) (pt : PendingPlaintext) {n : ℕ}
      → plaintext_has_tuple env pt.fields ≡ true
      → score_plaintext_wire_match env show pkt pt filters ≡ some n
      → (t : FlowTuple) × (flow_tuple_from_map env pt.fields ≡ some t)
        × (flow_tuple_from_map env pkt.generic_map ≡ some (travelling pt.fields t))
  score-same_connection pkt pt whole h =
      let (base, guards, e, _) = score-parts pkt pt h in
      let c = match_base_whole pkt.generic_map pt.fields whole e in
      let compatible = match_guards-compatible pkt pt guards in
      (
        c.record_tuple,
        c.record_has,
        c.wire_has ∙ ap some (travelling-tuple pkt.generic_map pt.fields c compatible),
      )
