-- ===== src/Collector.antt =====
-- The packet collector: the loop of startPacketCollector over the flows that arrive, with
-- handlePlaintextRecord and handleWirePacket (cmd/packet_capture.go), the packet ids
-- (cmd/packet_capture_plaintext.go) and optionEnabled (cmd/root.go).
--
-- A flow stands for the object that json.Unmarshal gives for its bytes, none for an error, with their
-- number. AppendFlow, which feeds the table on the screen, changes nothing of this state.
pub mod Account
pub mod Log
use network_observability_cl.Base.{
  ℕ, ◌+◌, ◌%◌, ◌^◌, String, Bool, true, false, ◌&&◌, not, Option, none, some, List, [], ◌∷◌, ◌++◌,
  map, ltb, str_eq, if◌then◌else◌, Bytes,
}
use network_observability_cl.Base.Strings.{split, trim_space, trim_prefix, cut_before, cut_after}
use network_observability_cl.Record.{Value, GenericMap, at, lookup, put, is_text, as_text}
use network_observability_cl.Platform.{Platform}
use network_observability_cl.Endpoint.{◌>>=◌}
use network_observability_cl.Filters.{parse_capture_filters}
use network_observability_cl.Plaintext.{
  Display, enrich_plaintext_for_export, plaintext_tuple_verified, prepare_unmatched_plaintext,
}
use network_observability_cl.Packet.{correlation_window}
use network_observability_cl.Correlation.{mark_annotated}
use network_observability_cl.Buffer.{
  WirePacketBuffer, new_wire_packet_buffer, or_unchanged, enqueue, handle_plaintext, flush_expired,
  close,
}

-- val != "false", true where there is no "=".
abbrev pub value_enabled : Option String → Bool
value_enabled none = true
value_enabled (some v) = not (str_eq v "false")

-- The loop of optionEnabled: the first part with the name decides.
unfoldable pub enabled_in : String → List String → Bool
unfolding trim_space trim_prefix cut_before cut_after
enabled_in name [] = false
enabled_in name (p ∷ parts) =
    let rest = enabled_in name parts in
    let part = trim_prefix "--" (trim_space p) in
    if str_eq (cut_before b'=' part) name then value_enabled (cut_after b'=' part) else rest

-- optionEnabled, over the global `options`.
unfoldable pub option_enabled : String → String → Bool
unfolding enabled_in split
option_enabled options name = enabled_in name (split b'|' options)

abbrev pub plaintext_capture_enabled : String → Bool
plaintext_capture_enabled options = option_enabled options "enable_openssl"

abbrev pub is_plaintext_record : GenericMap → Bool
is_plaintext_record m = is_text "plaintext" (at m "RecordType")

-- The lines and packets that the collector writes itself stand beside those of the buffer. An id
-- stands beside the line of its record.
pub record Collector : Type 0 where
  pub buffer : Option WirePacketBuffer
  pub logging : Bool
  pub lines : List (ℕ × GenericMap)
  pub direct : List (GenericMap × Bytes)
  pub last_id : ℕ
  pub total_bytes : ℕ
  pub completed : Bool

-- What reaches the collector, each with the clock readings of its operation: a flow, with its size in
-- bytes, or a tick of the buffer's flush loop.
pub data Arrival : Type 0 where
  flow : ℕ → ℕ → ℕ → Option GenericMap → Arrival
  tick : ℕ → ℕ → Arrival

-- nextPlaintextPacketID: atomic.AddUint64.
abbrev pub next_packet_id : ℕ → ℕ
next_packet_id last = (last + 1) % 2 ^ 64

-- writePlaintextJSONL, where there is a log.
abbrev pub line : Bool → ℕ → GenericMap → List (ℕ × GenericMap)
line true id m = (id, m) ∷ []
line false id m = []

-- totalBytes, and the limit that ends the capture.
abbrev pub count_bytes : ℕ → ℕ → Collector → Collector
count_bytes max_bytes size c = record c {
  total_bytes = c.total_bytes + size;
  completed = ltb max_bytes (c.total_bytes + size);
}

module _ (env : Platform) (show : Display) where
  -- The collector as it is set up; `created` says whether the file for the plaintext log is there.
  unfoldable pub new_collector : String → Bool → Collector
  new_collector options created = record {
    buffer =
        if plaintext_capture_enabled options
        then some (new_wire_packet_buffer correlation_window (parse_capture_filters env options))
        else none;
    logging = plaintext_capture_enabled options && created;
    lines = [];
    direct = [];
    last_id = 0;
    total_bytes = 0;
    completed = false;
  }

  -- The end of handlePlaintextRecord, for a record that does not go to the buffer.
  unfoldable pub export_directly : ℕ → GenericMap → Collector → Collector
  export_directly id m c = record c {
    lines = c.lines ++ line c.logging id (mark_annotated false (prepare_unmatched_plaintext env m));
  }

  -- The test on the buffer and the tuple.
  unfoldable pub route_plaintext :
      ℕ → ℕ → ℕ → GenericMap → Option WirePacketBuffer → Collector → Collector
  route_plaintext now clock id m none c = export_directly id m c
  route_plaintext now clock id m (some b) c =
      if plaintext_tuple_verified env m
      then record c { buffer = some (handle_plaintext env show now clock m id b) }
      else export_directly id m c

  unfoldable pub handle_plaintext_record : ℕ → ℕ → GenericMap → Collector → Collector
  handle_plaintext_record now clock m c =
      let id = next_packet_id c.last_id in
      route_plaintext now clock id
        (enrich_plaintext_for_export show (put "PacketID" (Value.uint64 id) m)) c.buffer
        (record c { last_id = id })

  -- A packet without a buffer is written at once: writePacketData.
  abbrev pub write_directly : GenericMap → Option Bytes → Collector → Collector
  write_directly m none c = c
  write_directly m (some frame) c = record c { direct = c.direct ++ (m, frame) ∷ [] }

  -- The value under "Data" as a text; none where the assertion data.(string) panics.
  unfoldable pub route_text :
      ℕ → ℕ → GenericMap → Option String → Option WirePacketBuffer → Collector → Option Collector
  route_text now clock m none b c = none
  route_text now clock m (some encoded) none c =
      some (write_directly m (env.decode_base64 encoded) c)
  route_text now clock m (some encoded) (some b) c =
      some (record c { buffer = some (or_unchanged b (enqueue env show now clock m encoded b)) })

  -- A flow without "Data" is for the table only.
  unfoldable pub route_packet :
      ℕ → ℕ → GenericMap → Option Value → Option WirePacketBuffer → Collector → Option Collector
  route_packet now clock m none b c = some c
  route_packet now clock m (some v) b c = route_text now clock m (as_text v) b c

  unfoldable pub handle_wire_packet : ℕ → ℕ → GenericMap → Collector → Option Collector
  handle_wire_packet now clock m c = route_packet now clock m (lookup "Data" m) c.buffer c

  unfoldable pub handle_flow : ℕ → ℕ → GenericMap → Collector → Option Collector
  handle_flow now clock m c =
      if is_plaintext_record m
      then some (handle_plaintext_record now clock m c)
      else handle_wire_packet now clock m c

  abbrev pub flush_buffer : ℕ → ℕ → Option WirePacketBuffer → Option WirePacketBuffer
  flush_buffer now clock none = none
  flush_buffer now clock (some b) = some (flush_expired env show now clock b)

  -- One round of the loop; a flow that does not parse is skipped, its bytes included.
  unfoldable pub receive : ℕ → Arrival → Collector → Option Collector
  receive max_bytes (flow now clock size none) c = some c
  receive max_bytes (flow now clock size (some m)) c =
      handle_flow now clock m c >>= λ after. some (count_bytes max_bytes size after)
  receive max_bytes (tick now clock) c =
      some (record c { buffer = flush_buffer now clock c.buffer })

  -- The loop; none is a panic, and nothing is received once the capture is complete.
  unfoldable pub collect : ℕ → List Arrival → Collector → Option Collector
  collect max_bytes [] c = some c
  collect max_bytes (a ∷ arrivals) c =
      if c.completed
      then some c
      else (receive max_bytes a c >>= λ after. collect max_bytes arrivals after)

  abbrev pub close_buffer : ℕ → Option WirePacketBuffer → Option WirePacketBuffer
  close_buffer clock none = none
  close_buffer clock (some b) = some (close env show clock b)

  -- The deferred wireBuf.Close.
  unfoldable pub shut_down : ℕ → Collector → Collector
  shut_down clock c = record c { buffer = close_buffer clock c.buffer }

  -- The callback that the buffer exports a record with.
  abbrev pub finalized_lines : Bool → List (ℕ × GenericMap) → List (ℕ × GenericMap)
  finalized_lines true exported = map (λ e. (e.0, enrich_plaintext_for_export show e.1)) exported
  finalized_lines false exported = []

  abbrev pub buffer_lines : Bool → Option WirePacketBuffer → List (ℕ × GenericMap)
  buffer_lines logging none = []
  buffer_lines logging (some b) = finalized_lines logging b.exported

  -- The plaintext log, up to the order of its lines.
  abbrev pub plaintext_log : Collector → List (ℕ × GenericMap)
  plaintext_log c = c.lines ++ buffer_lines c.logging c.buffer
