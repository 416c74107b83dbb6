-- ===== src/Tests/Captures.antt =====
-- The theorems on the flow capture, the queries and the cells at concrete inputs.
use network_observability_cl.Base.{
  ◌≡◌, ◌≢◌, refl, ℕ, ◌*◌, ◌+◌, length, true, Bool-cases, inl, inr, str_eq, true, false, none, some,
  [], ◌∷◌, ◌++◌, List, String, Bytes, codes, take, drop, zero, suc, ap, leb, if_both, if◌then◌else◌,
}
use network_observability_cl.Record.{GenericMap, Value, integer, lookup}
use network_observability_cl.FlowCapture.{
  Settings, FlowArrival, new_flow_collector, collect_flows, receive_flow, write_flow, check_bytes,
  check_time, ended_session, should_exit,
}
use network_observability_cl.FlowCapture.Recorded.{Recorded}
use network_observability_cl.FlowCapture.Complete.{collect_flows-Recorded}
use network_observability_cl.Metrics.Times.{minute, query_range, range_back}
use network_observability_cl.Table.Controls.{new_screen}
use network_observability_cl.Columns.Names.{Runes, to_field_name, column_where}
use network_observability_cl.Columns.CellTexts.{Formats, to_col_value}
use network_observability_cl.Columns.Printed.{Fits}
use network_observability_cl.Columns.Comments.{WrittenPacket, write_packet_data_with_options}
use network_observability_cl.Columns.Rows.{WrittenAs, row-Printed}
use network_observability_cl.Base.{pos}
use network_observability_cl.Shutdown.{
  BufferedWrite, perform, perform_all, deferred_calls, shut_down_calls, on_sigterm,
  flush_active_packet_writer, sigterm_after,
}
use network_observability_cl.Shutdown.Saved.{
  KeepsBytes, started, at_end, AllWritten, SavedAfter, shut_down-Saved,
}
use network_observability_cl.Tests.{small_decoders}
use network_observability_cl.Tests.Screens.{two_columns}

abbrev foreground : Settings
foreground = record { is_background = false; has_app = true; max_bytes = 10; max_time = 100 }

abbrev flow_of : String → ℕ → FlowArrival
flow_of text time = record {
  value = codes text;
  stop_received = false;
  short_write = none;
  elapsed = time;
}

abbrev three_flows : List FlowArrival
three_flows = flow_of "{\"a\":1}" 5 ∷ flow_of "{}" 7 ∷ flow_of "[]" 9 ∷ []

-- The second record passes ten bytes, and the third is not received.
stops_at_limit :
    (collect_flows foreground three_flows new_flow_collector).file ≡ codes "{\"a\":1},\n{},\n"
unfolding collect_flows receive_flow write_flow check_bytes check_time ended_session should_exit
stops_at_limit = refl

collect_flows-Recorded_example :
    Recorded foreground three_flows (collect_flows foreground three_flows new_flow_collector)
collect_flows-Recorded_example = collect_flows-Recorded foreground three_flows

five_minutes :
    query_range (new_screen 60) (1000 * minute + 7)
    ≡ some (record { start = 995 * minute; end = 1000 * minute; range_step = 5_000_000_000 })
unfolding query_range range_back
five_minutes = refl

abbrev plain_formats : Formats
plain_formats = record {
  value_text = λ v. "v";
  map_text = λ m. "map";
  size_text = λ n. "5B";
  duration_text = λ n. "1s";
  clock_text = λ n. "00:00:00.000000";
  event_texts = λ m. [];
  runes_of = λ text. codes text;
  runes_of_bytes = λ bytes. bytes;
}

abbrev byte_runes : Runes
byte_runes = record { encode = λ r. r ∷ []; rune_count = length }

abbrev counted_row : GenericMap
counted_row = ("Proto", integer 6) ∷ ("Bytes", integer 5) ∷ []

counted_row-no_null : (key : String) → lookup key counted_row ≢ some Value.null
unfolding lookup
counted_row-no_null key h = elim (Bool-cases (str_eq "Proto" key)) [
  | inl first ↦ cc (rw first at h)
  | inr other ↦ elim (Bool-cases (str_eq "Bytes" key)) [
    | inl second ↦ cc (rw (other, second) at h)
    | inr neither ↦ cc (rw (other, neither) at h)
  ]
]

counted_row-Fits : Fits two_columns counted_row
unfolding lookup to_field_name column_where
counted_row-Fits = record {
  no_null = counted_row-no_null;
  flow_time = tt;
  packet_time = tt;
  bytes = tt;
  drop_bytes = tt;
  proto = tt;
  dscp = tt;
  dns_latency = tt;
  rtt = tt;
  direction = tt;
  directions = tt;
}

row-Printed_example :
    ((cell : Bytes) × (to_col_value plain_formats small_decoders byte_runes two_columns true
          counted_row "Proto" 6
        ≡ some cell))
    × ((w : WrittenPacket) × (write_packet_data_with_options plain_formats small_decoders byte_runes
            (λ name. codes name)
            (λ keys. keys)
            two_columns
            true
            (pos 7)
            counted_row
            (1 ∷ 2 ∷ [])
            (codes "note" ∷ [])
            (some 3)
          ≡ some w)
        × WrittenAs (1 ∷ 2 ∷ []) (codes "note" ∷ []) (some 3) w)
row-Printed_example =
    row-Printed plain_formats small_decoders byte_runes (λ name. codes name) (λ keys. keys)
      two_columns true counted_row counted_row-Fits "Proto" 6 (pos 7) (1 ∷ 2 ∷ [])
      (codes "note" ∷ []) (some 3)

-- A writer that holds four bytes and passes a full buffer on.
abbrev four_bytes : BufferedWrite
four_bytes held block =
    let bytes = held ++ block in
    if leb (length bytes) 4 then ([], bytes) else (take 4 bytes, drop 4 bytes)

take-drop : {A : Type 0} (n : ℕ) (xs : List A) → take n xs ++ drop n xs ≡ xs
take-drop zero xs = refl
take-drop (suc n) [] = refl
take-drop (suc n) (x ∷ xs) = ap (◌∷◌ x) (take-drop n xs)

four_bytes-KeepsBytes : KeepsBytes four_bytes
four_bytes-KeepsBytes held block =
    if_both {A = Bytes × Bytes} (λ parts. parts.0 ++ parts.1 ≡ held ++ block)
      (leb (length (held ++ block)) 4) ([], held ++ block)
      (take 4 (held ++ block), drop 4 (held ++ block)) refl (take-drop 4 (held ++ block))

shut_down-Saved_example :
    AllWritten true (codes "pp" ∷ []) (codes "bbb") (codes "d") (codes "l" ∷ []) true true (
      perform_all four_bytes
        (started true true true)
        (shut_down_calls (started true true true))
        (at_end true (codes "pp" ∷ []) (codes "bbb") (codes "d") (codes "l" ∷ []) true true))
    × SavedAfter four_bytes
        (started true true true)
        4
        (codes "pp" ∷ [])
        (codes "bbb")
        (codes "d")
        (at_end true (codes "pp" ∷ []) (codes "bbb") (codes "d") (codes "l" ∷ []) true true)
shut_down-Saved_example =
    shut_down-Saved true (codes "pp" ∷ []) (codes "bbb") (codes "d") (codes "l" ∷ []) four_bytes
      four_bytes-KeepsBytes true true 4

-- Between the clearing of the globals and the flush a signal loses the byte that the writer holds.
signal_in_gap :
    (sigterm_after four_bytes
      (started true true true)
      4
      (at_end true (codes "pp" ∷ []) (codes "bbb") (codes "d") (codes "l" ∷ []) true true)).disk
    ≡ codes "dbbbp"
unfolding sigterm_after on_sigterm flush_active_packet_writer deferred_calls perform_all perform
signal_in_gap = refl
