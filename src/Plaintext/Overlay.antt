-- ===== src/Plaintext/Overlay.antt =====
-- What a matched record is exported with: the tuple of its packet
-- (overlayCorrelatedWireToPlaintext of cmd/packet_capture_wire_buffer.go).
use network_observability_cl.Base.{
  String, true, false, Option, none, some, [], ◌∷◌, ◌≡◌, refl, sym, ◌∙◌, ap, arith, str_eq,
  str_eq_iff, inl, inr, Bool-cases, ◌≢◌,
}
use network_observability_cl.Base.Strings.{has_prefix}
use network_observability_cl.Record.{GenericMap, Value, lookup, at, or_null, delete_where}
use network_observability_cl.Record.Laws.{lookup-put, lookup-delete_where}
use network_observability_cl.Platform.{Platform, PlatformLaws, Ip, ipv4_zero, ipv6_unspecified}
use network_observability_cl.Endpoint.{
  FlowTuple, is_unspecified, specified, valid_ip_string, flow_tuple_from_map,
}
use network_observability_cl.Endpoint.Port.{port_of_value}
use network_observability_cl.Endpoint.Laws.{flow_tuple-parts}
use network_observability_cl.Plaintext.{
  is_wire_k8s_enrichment_field, is_k8s_side_field, copy_wire_k8s_fields, set_plaintext_tuple,
  overlay_wire_tuple, overlay_correlated_wire,
}

-- Only enrichment fields are copied.
lookup-copy_wire_k8s_fields :
    (j : String) (wire pt : GenericMap)
    → is_wire_k8s_enrichment_field j ≡ false
    → lookup j (copy_wire_k8s_fields pt wire) ≡ lookup j pt
unfolding copy_wire_k8s_fields
lookup-copy_wire_k8s_fields j [] pt h = refl
lookup-copy_wire_k8s_fields j ((k, v) ∷ wire) pt h =
    lookup-copy_wire_k8s_fields j wire _ h ∙ ground (arith, lookup-put j k v pt, str_eq_iff k j)

unspecified_ipv4 : is_unspecified ipv4_zero ≡ true
unfolding is_unspecified
unspecified_ipv4 = refl

unspecified_ipv6 : is_unspecified ipv6_unspecified ≡ true
unfolding is_unspecified
unspecified_ipv6 = refl

some_eq {ℓ} : {A : Type ℓ} {a b : A} → Path (Option A) (some a) (some b) → a ≡ b
some_eq e = cc

stored_tuple :
    (pt : GenericMap) (t : FlowTuple)
    → (lookup "SrcAddr" (set_plaintext_tuple pt t) ≡ some (Value.text t.src_ip))
      × (lookup "DstAddr" (set_plaintext_tuple pt t) ≡ some (Value.text t.dst_ip))
      × (lookup "SrcPort" (set_plaintext_tuple pt t) ≡ some (Value.uint16 t.src_port))
      × (lookup "DstPort" (set_plaintext_tuple pt t) ≡ some (Value.uint16 t.dst_port))
unfolding set_plaintext_tuple
stored_tuple pt t = (
  rw (lookup-put, lookup-put, lookup-put, lookup-put, lookup-put) refl,
  rw (lookup-put, lookup-put, lookup-put, lookup-put) refl,
  rw (lookup-put, lookup-put, lookup-put) refl,
  rw (lookup-put, lookup-put) refl,
)

module _ (env : Platform) (laws : PlatformLaws env) where
  differs :
      (s t : String) (ip : Ip)
      → env.parse_ip s ≡ some ip
      → env.parse_ip t ≢ some ip
      → str_eq (env.ip_string ip) t ≡ false
  differs s t ip e ne = elim (Bool-cases (str_eq (env.ip_string ip) t)) [
    | inr other ↦ other
    | inl same ↦ absurd (
        ne (ap env.parse_ip (sym ((str_eq_iff (env.ip_string ip) t).0 same)) ∙ laws.reparse s ip e))
  ]

  -- The text that is printed for a specified address is valid, and stays as it is.
  valid_again :
      (s : String) (ip : Ip)
      → env.parse_ip s ≡ some ip
      → is_unspecified ip ≡ false
      → valid_ip_string env (Value.text (env.ip_string ip)) ≡ some (env.ip_string ip)
  unfolding valid_ip_string specified
  valid_again s ip e h =
      rw
        (
          differs s "" ip e (λ x. cc (x, laws.empty_text)),
          differs s "0.0.0.0" ip e (λ x. cc (some_eq (sym laws.any_ipv4 ∙ x), unspecified_ipv4, h)),
          differs s "::" ip e (λ x. cc (some_eq (sym laws.any_ipv6 ∙ x), unspecified_ipv6, h)),
          laws.reparse s ip e,
          h,
        )
        refl

  specified-valid :
      (s t : String) (o : Option Ip)
      → env.parse_ip s ≡ o
      → specified env o ≡ some t
      → valid_ip_string env (Value.text t) ≡ some t
  unfolding specified
  specified-valid s t none e h = cc
  specified-valid s t (some ip) e h = elim (Bool-cases (is_unspecified ip)) [
    | inl zero_ip ↦ cc (rw zero_ip at h)
    | inr other ↦
        let same : env.ip_string ip ≡ t = some_eq (rw other at h) in
        rw (sym same) (valid_again s ip e other)
  ]

  text_specified :
      (s t : String)
      → valid_ip_string env (Value.text s) ≡ some t
      → specified env (env.parse_ip s) ≡ some t
  unfolding valid_ip_string
  text_specified s t h = ground arith

  text-valid :
      (s t : String)
      → valid_ip_string env (Value.text s) ≡ some t
      → valid_ip_string env (Value.text t) ≡ some t
  text-valid s t h = specified-valid s t (env.parse_ip s) refl (text_specified s t h)

  valid_ip_string-valid :
      (v : Value) (t : String)
      → valid_ip_string env v ≡ some t
      → valid_ip_string env (Value.text t) ≡ some t
  unfolding valid_ip_string
  valid_ip_string-valid (Value.text s) t h = text-valid s t h
  valid_ip_string-valid _ t h = cc

  overlay_wire_tuple-known :
      (pt wire : GenericMap) (t : FlowTuple)
      → flow_tuple_from_map env wire ≡ some t
      → overlay_wire_tuple env pt wire ≡ set_plaintext_tuple pt t
  unfolding overlay_wire_tuple
  overlay_wire_tuple-known pt wire t e = rw (e, overlay_wire_tuple) refl

  -- What is stored under a key that is no enrichment field stays.
  stored :
      (j : String) (v : Value) (pt wire : GenericMap) (t : FlowTuple)
      → flow_tuple_from_map env wire ≡ some t
      → is_wire_k8s_enrichment_field j ≡ false
      → is_k8s_side_field j ≡ false
      → lookup j (set_plaintext_tuple pt t) ≡ some v
      → at (overlay_correlated_wire env pt wire) j ≡ v
  unfolding overlay_correlated_wire
  stored j v pt wire t e other side h =
      let kept : lookup j (delete_where is_k8s_side_field (overlay_wire_tuple env pt wire))
          ≡ lookup j (overlay_wire_tuple env pt wire) =
        lookup-delete_where j is_k8s_side_field (overlay_wire_tuple env pt wire) ∙ rw side refl in
      ap or_null (
        lookup-copy_wire_k8s_fields j wire _ other
        ∙ kept
        ∙ ap (lookup j) (overlay_wire_tuple-known pt wire t e)
        ∙ h)

  overlaid :
      (m : GenericMap) (t : FlowTuple)
      → at m "SrcAddr" ≡ Value.text t.src_ip
      → at m "DstAddr" ≡ Value.text t.dst_ip
      → at m "SrcPort" ≡ Value.uint16 t.src_port
      → at m "DstPort" ≡ Value.uint16 t.dst_port
      → valid_ip_string env (Value.text t.src_ip) ≡ some t.src_ip
      → valid_ip_string env (Value.text t.dst_ip) ≡ some t.dst_ip
      → flow_tuple_from_map env m ≡ some t
  unfolding flow_tuple_from_map port_of_value
  overlaid m t a b c d e f = rw (a, b, c, d, e, f) refl

  -- Under what package net documents, a record that is overlaid with a packet of a known tuple has
  -- exactly that tuple.
  pub overlay_correlated-tuple :
      (pt wire : GenericMap) (t : FlowTuple)
      → flow_tuple_from_map env wire ≡ some t
      → flow_tuple_from_map env (overlay_correlated_wire env pt wire) ≡ some t
  unfolding has_prefix
  overlay_correlated-tuple pt wire t e =
      let (src, dst, _, _) = flow_tuple-parts env wire t e in
      overlaid (overlay_correlated_wire env pt wire) t
        (stored "SrcAddr" (Value.text t.src_ip) pt wire t e refl refl (stored_tuple pt t).0)
        (stored "DstAddr" (Value.text t.dst_ip) pt wire t e refl refl (stored_tuple pt t).1)
        (stored "SrcPort" (Value.uint16 t.src_port) pt wire t e refl refl (stored_tuple pt t).2)
        (stored "DstPort" (Value.uint16 t.dst_port) pt wire t e refl refl (stored_tuple pt t).3)
        (valid_ip_string-valid _ t.src_ip src) (valid_ip_string-valid _ t.dst_ip dst)
