-- ===== src/Table/Buffers.antt =====
-- The entries that the table keeps: AppendFlow, appendToTimeSortedBuffer and packetCaptureFlowSnapshot
-- of cmd/flow_display.go. Each holds the mutex, so each is one step.
use network_observability_cl.Base.{
  ℕ, ◌+◌, ◌-◌, ◌%◌, ◌^◌, String, Bool, false, Option, some, List, [], ◌∷◌, ◌++◌, ℤ, pos, negsuc,
  ltb, length, last_of, is_some, if◌then◌else◌,
}
use network_observability_cl.Endpoint.{◌>>=◌}
use network_observability_cl.Record.{int, GenericMap, lookup, put}
use network_observability_cl.Collector.{is_plaintext_record, plaintext_capture_enabled}
use network_observability_cl.Table.Order.{Capture, packet, Host, sort_entries}

-- flowIndex is a 64-bit int, kept here as its two's complement.
pub record Table : Type 0 where
  pub flow_index : ℕ
  pub paused : Bool
  pub last_flows : List GenericMap
  pub last_wire_packets : List GenericMap
  pub last_plaintext_flows : List GenericMap

abbrev pub empty_table : Table
empty_table = record {
  flow_index = 0;
  paused = false;
  last_flows = [];
  last_wire_packets = [];
  last_plaintext_flows = [];
}

abbrev pub keep_count : ℕ
keep_count = 100

abbrev pub wire_packet_keep_count : ℕ
wire_packet_keep_count = 200

abbrev pub plaintext_keep_count : ℕ
plaintext_keep_count = 300

-- The int that a two's complement of 64 bits stands for.
abbrev pub signed_64 : ℕ → ℤ
signed_64 n = if ltb n (2 ^ 63) then pos n else negsuc (2 ^ 64 - 1 - n)

unfoldable pub is_wire_packet_record : GenericMap → Bool
is_wire_packet_record m = is_some (lookup "Data" m)

-- The three buffers.
pub data Buffer : Type 0 where
  flow_rows : Buffer
  wire_rows : Buffer
  plaintext_rows : Buffer

abbrev pub limit_of : Buffer → ℕ
limit_of flow_rows = keep_count
limit_of wire_rows = wire_packet_keep_count
limit_of plaintext_rows = plaintext_keep_count

abbrev pub rows_of : Buffer → Table → List GenericMap
rows_of flow_rows t = t.last_flows
rows_of wire_rows t = t.last_wire_packets
rows_of plaintext_rows t = t.last_plaintext_flows

-- One buffer is replaced, and the next index is given.
abbrev pub stored : Buffer → List GenericMap → Table → Table
stored buffer rows t = record {
  flow_index = (t.flow_index + 1) % 2 ^ 64;
  paused = t.paused;
  last_flows = elim buffer [ flow_rows ↦ rows | _ ↦ t.last_flows ];
  last_wire_packets = elim buffer [ wire_rows ↦ rows | _ ↦ t.last_wire_packets ];
  last_plaintext_flows = elim buffer [ plaintext_rows ↦ rows | _ ↦ t.last_plaintext_flows ];
}

abbrev pub buffer_of : Bool → GenericMap → Buffer
buffer_of split m =
    if split
    then (if is_plaintext_record m
        then plaintext_rows
        else (if is_wire_packet_record m then wire_rows else flow_rows))
    else flow_rows

-- genericMap["Index"] = flowIndex.
abbrev pub numbered : ℕ → GenericMap → GenericMap
numbered i m = put "Index" (int (signed_64 i)) m

module _ (host : Host) (kind : Capture) (options : String) where
  -- capture == Packet && plaintextCaptureEnabled().
  abbrev pub splits : Bool
  splits = elim kind [ packet ↦ plaintext_capture_enabled options | _ ↦ false ]

  unfoldable pub append_to_time_sorted_buffer :
      List GenericMap → GenericMap → ℕ → Option (List GenericMap)
  append_to_time_sorted_buffer buf m max_len = do
    sorted ← sort_entries host kind (buf ++ m ∷ [])
    some (if ltb max_len (length sorted) then last_of max_len sorted else sorted)

  abbrev pub append_to : Buffer → GenericMap → Table → Option Table
  append_to buffer m t = do
    rows ← append_to_time_sorted_buffer (rows_of buffer t) m (limit_of buffer)
    some (stored buffer rows t)

  -- none is a panic. The code without a split of the buffers is that of
  -- appendToTimeSortedBuffer, written out for lastFlows.
  unfoldable pub append_flow : GenericMap → Table → Option Table
  append_flow m t =
      if t.paused
      then some t
      else (let row = numbered t.flow_index m in append_to (buffer_of splits row) row t)

  unfoldable pub packet_capture_flow_snapshot : Table → Option (List GenericMap)
  packet_capture_flow_snapshot t =
      if splits
      then sort_entries host kind (t.last_wire_packets ++ t.last_plaintext_flows)
      else some t.last_flows

-- The buffers of packets when a capture of packets starts.
unfoldable pub clear_packet_capture_buffers : Table → Table
clear_packet_capture_buffers t = record t { last_wire_packets = []; last_plaintext_flows = [] }
