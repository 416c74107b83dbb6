-- ===== src/Endpoint/Laws.antt =====
-- What the tests on addresses and tuples decide.
use network_observability_cl.Base.{
  ℕ, String, true, Option, none, some, ◌≡◌, ◌↔◌, arith, str_eq_iff, is_some,
}
use network_observability_cl.Record.{GenericMap, at}
use network_observability_cl.Platform.{Platform}
use network_observability_cl.Endpoint.Port.{map_port_from_generic}
use network_observability_cl.Endpoint.{
  FlowTuple, flow_tuple_from_map, tuples_equal, tuples_reverse_equal, plaintext_has_tuple,
  valid_ip_string, has_text, has_number,
}

abbrev pub reverse_tuple : FlowTuple → FlowTuple
reverse_tuple t = record {
  src_ip = t.dst_ip;
  dst_ip = t.src_ip;
  src_port = t.dst_port;
  dst_port = t.src_port;
}

pub tuples_equal_iff : (a b : FlowTuple) → (tuples_equal a b ≡ true) ↔ (a ≡ b)
unfolding tuples_equal
tuples_equal_iff a b = ground (arith, str_eq_iff a.src_ip b.src_ip, str_eq_iff a.dst_ip b.dst_ip)

pub tuples_reverse_equal_iff :
    (a b : FlowTuple) → (tuples_reverse_equal a b ≡ true) ↔ (a ≡ reverse_tuple b)
unfolding tuples_reverse_equal
tuples_reverse_equal_iff a b =
    ground (arith, str_eq_iff a.src_ip b.dst_ip, str_eq_iff a.dst_ip b.src_ip)

pub has_text_iff : (o : Option String) (s : String) → (has_text o s ≡ true) ↔ (o ≡ some s)
has_text_iff none s = ground arith
has_text_iff (some t) s = ground (arith, str_eq_iff t s)

pub has_number_iff : (o : Option ℕ) (n : ℕ) → (has_number o n ≡ true) ↔ (o ≡ some n)
has_number_iff o n = ground arith

-- A record has a complete tuple exactly when flowTupleFromMap builds one.
pub plaintext_has_tuple_iff :
    (env : Platform) (m : GenericMap)
    → plaintext_has_tuple env m ≡ is_some (flow_tuple_from_map env m)
unfolding plaintext_has_tuple flow_tuple_from_map
plaintext_has_tuple_iff env m = ground arith

-- The four fields of a tuple are those of the record.
pub flow_tuple-parts :
    (env : Platform) (m : GenericMap) (t : FlowTuple)
    → flow_tuple_from_map env m ≡ some t
    → (valid_ip_string env (at m "SrcAddr") ≡ some t.src_ip)
      × (valid_ip_string env (at m "DstAddr") ≡ some t.dst_ip)
      × (map_port_from_generic m "SrcPort" ≡ some t.src_port)
      × (map_port_from_generic m "DstPort" ≡ some t.dst_port)
unfolding flow_tuple_from_map
flow_tuple-parts env m t h = ground arith
