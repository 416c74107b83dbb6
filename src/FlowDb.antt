-- ===== src/FlowDb.antt =====
-- The rows of the flow database: insertFlowToDB of cmd/flow_db.go. The driver of SQLite is a
-- parameter.
pub mod Decoded
use network_observability_cl.Base.{
  ◌≡◌, refl, ap, arith, ℕ, ◌<◌, String, Bool, true, false, ◌&&◌, not, Option, none, some, List, [],
  ◌∷◌, ◌++◌, map, ℤ, pos, negsuc, All, length, zero, suc, if◌then◌else◌, str_eq,
}
use network_observability_cl.Record.{
  Value, null, text, float, arr, obj, bool, uint16, uint64, int, int64, GenericMap, lookup, at,
  or_null,
}

-- v != 0 on an interface{}: it is false only for an int that is 0.
abbrev pub differs_from_zero : Value → Bool
differs_from_zero (int (pos zero)) = false
differs_from_zero _ = true

-- The four statements, and the four lists of arguments.
pub data InsertCase : Type 0 where
  drops_and_dns : InsertCase
  drops : InsertCase
  dns : InsertCase
  neither : InsertCase

abbrev pub case_of : Bool → Bool → InsertCase
case_of true true = drops_and_dns
case_of true false = drops
case_of false true = dns
case_of false false = neither

-- The case of the first switch, and that of the second.
abbrev pub statement_case : GenericMap → InsertCase
statement_case flow =
    case_of (differs_from_zero (at flow "PktDropPackets")) (differs_from_zero (at flow "DnsId"))

abbrev pub arguments_case : GenericMap → InsertCase
arguments_case flow =
    case_of (differs_from_zero (at flow "PktDropLatestDropCause"))
      (differs_from_zero (at flow "DnsId"))

abbrev pub common_columns : List String
common_columns =
    "DnsErrno" ∷ "Dscp" ∷ "DstAddr" ∷ "DstPort" ∷ "Interface" ∷ "Proto" ∷ "SrcAddr" ∷ "SrcPort"
    ∷ "Bytes" ∷ "Packets" ∷ []

abbrev pub drop_columns : List String
drop_columns = "PktDropLatestDropCause" ∷ "PktDropBytes" ∷ "PktDropPackets" ∷ []

abbrev pub dns_columns : List String
dns_columns = "DnsId" ∷ "DnsName" ∷ "DnsFlagsResponseCode" ∷ "DnsLatencyMs" ∷ []

abbrev pub last_columns : List String
last_columns = "TimeFlowRttNs" ∷ []

abbrev pub columns_of : InsertCase → List String
columns_of drops_and_dns = common_columns ++ drop_columns ++ dns_columns ++ last_columns
columns_of drops = common_columns ++ drop_columns ++ last_columns
columns_of dns = common_columns ++ dns_columns ++ last_columns
columns_of neither = common_columns ++ last_columns

-- The question marks of the statement.
abbrev pub placeholders_of : InsertCase → ℕ
placeholders_of drops_and_dns = 18
placeholders_of drops = 14
placeholders_of dns = 15
placeholders_of neither = 11

-- The first argument is read from the key DNSErrno.
abbrev pub common_keys : List String
common_keys =
    "DNSErrno" ∷ "Dscp" ∷ "DstAddr" ∷ "DstPort" ∷ "Interface" ∷ "Proto" ∷ "SrcAddr" ∷ "SrcPort"
    ∷ "Bytes" ∷ "Packets" ∷ []

abbrev pub keys_of : InsertCase → List String
keys_of drops_and_dns = common_keys ++ drop_columns ++ dns_columns ++ last_columns
keys_of drops = common_keys ++ drop_columns ++ last_columns
keys_of dns = common_keys ++ dns_columns ++ last_columns
keys_of neither = common_keys ++ last_columns

pub data DbError : Type 0 where
  invalid_json : DbError
  prepare_failed : DbError
  insert_failed : DbError

-- What is inserted: columns, question marks and arguments.
pub record Insertion : Type 0 where
  pub columns : List String
  pub placeholders : ℕ
  pub arguments : List Value

unfoldable pub insertion_of : GenericMap → Insertion
insertion_of flow = record {
  columns = columns_of (statement_case flow);
  placeholders = placeholders_of (statement_case flow);
  arguments = map (at flow) (keys_of (arguments_case flow));
}

module _ (prepares : List String → Bool) (executes : Insertion → Bool) where
  abbrev pub insert_decoded : GenericMap → Option DbError
  insert_decoded flow =
      let row = insertion_of flow in
      if prepares row.columns
      then (if executes row then none else some insert_failed)
      else some prepare_failed

  -- none is success; the argument is none where the JSON does not decode.
  unfoldable pub insert_flow_to_db : Option GenericMap → Option DbError
  insert_flow_to_db none = some invalid_json
  insert_flow_to_db (some flow) = insert_decoded flow
