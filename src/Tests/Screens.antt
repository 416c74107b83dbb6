-- ===== src/Tests/Screens.antt =====
-- The table and its controls at concrete inputs.
use network_observability_cl.Base.{
  ◌≡◌, refl, arith, String, Bool, true, false, ◌&&◌, some, List, [], ◌∷◌, All, keep, last_of, pos,
  codes, ℕ,
}
use network_observability_cl.Base.Latest.{Latest}
use network_observability_cl.Base.Permutations.{Perm}
use network_observability_cl.Record.{GenericMap, integer, text, int, lookup, text_or_empty}
use network_observability_cl.Base.{◌+◌, ◌*◌}
use network_observability_cl.Metrics.Times.{Range, minute, query_range, Covers, query_range-Covers}
use network_observability_cl.Table.Order.{
  flow, packet, metric, Host, HostLaws, comes_before, to_float64, packet_flow_time_ms,
}
use network_observability_cl.Table.Buffers.{Table, empty_table}
use network_observability_cl.Table.Arrivals.{
  Event, arrives, pauses, Refines, Timed, run_table, observed, no_arrivals,
}
use network_observability_cl.Table.Refines.{table-Refines}
use network_observability_cl.Table.Rows.{get_flows, matches_all}
use network_observability_cl.Table.Screen.{screen-Latest, get_flows-last_of, buffered}
use network_observability_cl.Table.Columns.{ColumnConfig, contains_text}
use network_observability_cl.Table.Picker.{Distinct, presses, pressed_odd, xor, presses-pressed_odd}
use network_observability_cl.Table.Cells.{Printer, update_suggestions}
use network_observability_cl.Table.Suggestions.{IsText, update_suggestions-Distinct}
use mathlib.Core.Logic.{◌↔◌}
use network_observability_cl.Table.Controls.{
  Screen, Payloads, new_screen, on_tab, has_bytes, input_field, table, hex, wire, show_less,
  select_data,
}
use network_observability_cl.Table.Moves.{Visits, on_tab_tour}
use network_observability_cl.Table.Divisors.{Sound}
use network_observability_cl.Table.Reach.{Reachable, Press, Reachable-Sound}
use network_observability_cl.Tests.Sorting.{
  insertion_sort, insertion_sort-perm, insertion_sort-Ascending,
}

abbrev small_host : Host
small_host = record { times_thousand = λ f. f; sort = insertion_sort }

small_host_laws : HostLaws small_host
small_host_laws = record {
  sort-perm = insertion_sort-perm;
  sort-ascending = λ less xs o. insertion_sort-Ascending less o xs;
}

abbrev wire_row : ℕ → GenericMap
wire_row t = ("Time", integer t) ∷ ("Data", text "AA==") ∷ []

abbrev plaintext_row : ℕ → GenericMap
plaintext_row t = ("RecordType", text "plaintext") ∷ ("TimeFlowStartMs", integer t) ∷ []

abbrev some_events : List Event
some_events =
    arrives (wire_row 7)
    ∷ arrives (plaintext_row 5)
    ∷ pauses true
    ∷ arrives (wire_row 6)
    ∷ pauses false
    ∷ arrives (wire_row 3)
    ∷ []

some_events-Timed : All (Timed small_host packet "enable_openssl") some_events
unfolding packet_flow_time_ms to_float64 lookup
some_events-Timed = (refl, (refl, (tt, (refl, (tt, (refl, tt))))))

table-Refines_example :
    (after : Table) × (run_table small_host packet "enable_openssl" some_events empty_table
      ≡ some after)
    × Refines small_host packet "enable_openssl" after
        (observed small_host packet "enable_openssl" some_events no_arrivals)
table-Refines_example =
    table-Refines small_host packet "enable_openssl" small_host_laws some_events some_events-Timed

abbrev matches_any : String → GenericMap → Bool
matches_any r m = true

screen-Latest_example :
    (t : Table) × (entries : List GenericMap) × (rows : List GenericMap) × (run_table small_host
        packet "enable_openssl" some_events empty_table
      ≡ some t)
    × Perm entries (buffered small_host "enable_openssl" t)
    × (get_flows small_host packet "enable_openssl" matches_any ("10" ∷ []) 2 [] t ≡ some rows)
    × Latest
        (comes_before small_host packet)
        2
        (keep (matches_all matches_any ("10" ∷ [])) entries)
        rows
screen-Latest_example =
    screen-Latest small_host small_host_laws "enable_openssl" some_events matches_any ("10" ∷ []) 2
      [] some_events-Timed

abbrev indexed : ℕ → GenericMap
indexed i = ("Index", int (pos i)) ∷ []

abbrev full_table : Table
full_table = record {
  flow_index = 3;
  paused = false;
  last_flows = indexed 1 ∷ indexed 2 ∷ [];
  last_wire_packets = [];
  last_plaintext_flows = [];
}

get_flows-last_of_example :
    get_flows small_host flow "" matches_any [] 1 (indexed 0 ∷ []) full_table
    ≡ some (last_of 1 full_table.last_flows)
unfolding lookup
get_flows-last_of_example =
    get_flows-last_of small_host "" matches_any 1 (indexed 0 ∷ []) full_table
      ((pos 1, refl), ((pos 2, refl), tt)) ((pos 0, refl), tt) (omega arith)

abbrev pub column : String → ColumnConfig
column id = record {
  id = id;
  name = id;
  group = "";
  field = id;
  fields = [];
  calculated = "";
  tooltip = "";
  doc_url = "";
  filter = "";
  default = false;
  width = 6;
  feature = "";
}

abbrev pub two_columns : List ColumnConfig
two_columns = column "Bytes" ∷ column "Proto" ∷ []

presses-pressed_odd_example :
    Distinct (presses two_columns (0 ∷ 1 ∷ 0 ∷ []) [])
    × (contains_text (presses two_columns (0 ∷ 1 ∷ 0 ∷ []) []) "Proto"
        ≡ xor (pressed_odd two_columns "Proto" (0 ∷ 1 ∷ 0 ∷ [])) (contains_text [] "Proto"))
presses-pressed_odd_example = presses-pressed_odd two_columns (0 ∷ 1 ∷ 0 ∷ []) [] "Proto" tt

abbrev small_payloads : Payloads
small_payloads = record {
  decode = λ s. some (codes s);
  plaintext_raw_bytes = λ m. [];
  plaintext_binary_summary = λ m. "";
}

Reachable-Sound_example : Sound (on_tab (show_less metric (new_screen 6)))
Reachable-Sound_example =
    Reachable-Sound metric small_payloads two_columns 6 (on_tab (show_less metric (new_screen 6)))
      (omega arith)
      (Reachable.then_press (Reachable.then_press Reachable.here (Press.less (new_screen 6)))
        (Press.tab (show_less metric (new_screen 6))))

abbrev with_payload : Screen
with_payload = select_data (codes "GET /") wire (new_screen 30)

on_tab_tour_example :
    Visits input_field
      (on_tab with_payload).focus
      (on_tab (on_tab with_payload)).focus
      (on_tab (on_tab (on_tab with_payload))).focus
    × Visits table
        (on_tab with_payload).focus
        (on_tab (on_tab with_payload)).focus
        (on_tab (on_tab (on_tab with_payload))).focus
    × ((with_payload.paused && has_bytes with_payload.selected_data) ≡ true
        → Visits hex
            (on_tab with_payload).focus
            (on_tab (on_tab with_payload)).focus
            (on_tab (on_tab (on_tab with_payload))).focus)
on_tab_tour_example = on_tab_tour with_payload

abbrev small_printer : Printer
small_printer = record {
  col_name = λ id. id;
  col_value = λ m id. id;
  value_text = text_or_empty;
  to_lower = λ s. s;
}

update_suggestions-Distinct_example :
    Distinct (update_suggestions small_printer (wire_row 1 ∷ wire_row 2 ∷ []))
    × ((contains_text (update_suggestions small_printer (wire_row 1 ∷ wire_row 2 ∷ [])) "Data"
          ≡ true)
        ↔ IsText small_printer (wire_row 1 ∷ wire_row 2 ∷ []) "Data")
update_suggestions-Distinct_example =
    update_suggestions-Distinct small_printer (wire_row 1 ∷ wire_row 2 ∷ []) "Data"

query_range-Covers_example :
    (r : Range) × (query_range (new_screen 60) (1000 * minute + 7) ≡ some r)
    × Covers 60 (1000 * minute + 7) r
query_range-Covers_example =
    query_range-Covers (new_screen 60) (1000 * minute + 7)
      (Reachable-Sound metric small_payloads two_columns 60 (new_screen 60) (omega arith)
        Reachable.here)
      (omega arith) (omega arith) (omega arith)
