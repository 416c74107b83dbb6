-- ===== src/FlowDb/Decoded.antt =====
-- What insertFlowToDB of cmd/flow_db.go inserts for a flow that was decoded from JSON.
use network_observability_cl.Base.{
  ◌≡◌, refl, String, true, some, List, [], ◌∷◌, map, All, length, str_eq, if_both,
}
use network_observability_cl.Record.{
  Value, null, text, float, arr, obj, bool, uint16, uint64, int, int64, GenericMap, lookup, at,
  or_null,
}
use network_observability_cl.FlowDb.{differs_from_zero, insertion_of}

-- The values that encoding/json makes.
abbrev pub FromJson : Value → Type 0
FromJson (uint16 n) = ⊥
FromJson (uint64 n) = ⊥
FromJson (int i) = ⊥
FromJson (int64 i) = ⊥
FromJson _ = Unit

not-zero : (v : Value) → FromJson v → differs_from_zero v ≡ true
not-zero null h = refl
not-zero (text s) h = refl
not-zero (float f) h = refl
not-zero (arr vs) h = refl
not-zero (obj fs) h = refl
not-zero (bool b) h = refl
not-zero (uint16 n) h = refl
not-zero (uint64 n) h = refl
not-zero (int i) h = absurd h
not-zero (int64 i) h = refl

-- A map that encoding/json makes.
abbrev pub Decoded : GenericMap → Type 0
Decoded flow = All (λ entry. FromJson entry.1) flow

at-FromJson : (flow : GenericMap) (key : String) → Decoded flow → FromJson (at flow key)
unfolding lookup
at-FromJson [] key h = tt
at-FromJson ((k, v) ∷ flow) key h =
    if_both (λ o. FromJson (or_null o)) (str_eq k key) (some v) (lookup key flow) h.0
      (at-FromJson flow key h.1)

not_zero_at :
    (flow : GenericMap) (key : String) → Decoded flow → differs_from_zero (at flow key) ≡ true
not_zero_at flow key h = not-zero (at flow key) (at-FromJson flow key h)

-- The columns of the table, each with the key of a flow that its argument is read from.
abbrev pub inserted_columns : List (String × String)
inserted_columns =
    ("DnsErrno", "DNSErrno")
    ∷ ("Dscp", "Dscp")
    ∷ ("DstAddr", "DstAddr")
    ∷ ("DstPort", "DstPort")
    ∷ ("Interface", "Interface")
    ∷ ("Proto", "Proto")
    ∷ ("SrcAddr", "SrcAddr")
    ∷ ("SrcPort", "SrcPort")
    ∷ ("Bytes", "Bytes")
    ∷ ("Packets", "Packets")
    ∷ ("PktDropLatestDropCause", "PktDropLatestDropCause")
    ∷ ("PktDropBytes", "PktDropBytes")
    ∷ ("PktDropPackets", "PktDropPackets")
    ∷ ("DnsId", "DnsId")
    ∷ ("DnsName", "DnsName")
    ∷ ("DnsFlagsResponseCode", "DnsFlagsResponseCode")
    ∷ ("DnsLatencyMs", "DnsLatencyMs")
    ∷ ("TimeFlowRttNs", "TimeFlowRttNs")
    ∷ []

-- Every flow that was decoded from JSON, with or without drops and DNS data, is inserted with all
-- eighteen columns, eighteen question marks, and for each column the argument that stands in the flow
-- under the column's own name, or NULL; only DnsErrno is read from the key DNSErrno instead, and so is
-- NULL if the flow has no such key, whatever it has under DnsErrno.
pub insertion_of-Decoded :
    (flow : GenericMap)
    → Decoded flow
    → ((insertion_of flow).columns ≡ map (λ c. c.0) inserted_columns)
      × ((insertion_of flow).placeholders ≡ 18)
      × ((insertion_of flow).arguments ≡ map (λ c. at flow c.1) inserted_columns)
      × (length inserted_columns ≡ 18)
unfolding insertion_of
insertion_of-Decoded flow h =
    let dns : differs_from_zero (at flow "DnsId") ≡ true = not_zero_at flow "DnsId" h in
    let packets : differs_from_zero (at flow "PktDropPackets") ≡ true =
      not_zero_at flow "PktDropPackets" h in
    let cause : differs_from_zero (at flow "PktDropLatestDropCause") ≡ true =
      not_zero_at flow "PktDropLatestDropCause" h in
    rw (dns, packets, cause) (refl, refl, refl, refl)
