-- ===== src/Table/Controls.antt =====
-- The keys and buttons of the screen: cmd/display.go, the handlers of cmd/flow_display.go and the
-- time range of cmd/metric_display.go. What a handler only draws is left out.
use network_observability_cl.Base.{
  ℕ, ◌+◌, ◌-◌, String, Bool, true, false, ◌&&◌, Option, none, some, List, [], ◌∷◌, ◌++◌, ℤ, negsuc,
  Bytes, codes, str_eq, get_elem?, length, ltb, zero, suc, if◌then◌else◌,
}
use network_observability_cl.Endpoint.{◌>>=◌}
use network_observability_cl.Record.{GenericMap, Value, int, lookup, at, as_text}
use network_observability_cl.Collector.{is_plaintext_record}
use network_observability_cl.Options.{OptionList, display, enrichment}
use network_observability_cl.Table.Order.{Capture, metric}

-- The texts of focus.
pub data Focus : Type 0 where
  input_field : Focus
  table : Focus
  hex : Focus

pub data PayloadKind : Type 0 where
  no_payload : PayloadKind
  wire : PayloadKind
  plaintext : PayloadKind

pub record Screen : Type 0 where
  pub focus : Focus
  pub paused : Bool
  pub selected_data : Bytes
  pub selected_payload_kind : PayloadKind
  pub selected_flow_index : ℤ
  pub regexes : List String
  pub show_count : ℕ
  pub frames_per_second : ℕ
  pub selected_duration : ℕ
  pub selected_columns : List String
  pub display : OptionList
  pub enrichment : OptionList

-- The variables at the start, and showCount as the commands set it.
abbrev pub new_screen : ℕ → Screen
new_screen show_count = record {
  focus = input_field;
  paused = false;
  selected_data = [];
  selected_payload_kind = no_payload;
  selected_flow_index = negsuc 0;
  regexes = [];
  show_count = show_count;
  frames_per_second = 5;
  selected_duration = 0;
  selected_columns = [];
  display = display;
  enrichment = enrichment;
}

unfoldable pub pause : Bool → Screen → Screen
pause b s = record s { paused = b }

unfoldable pub select_data : Bytes → PayloadKind → Screen → Screen
unfolding pause
select_data bytes kind s =
    pause true (record s { selected_data = bytes; selected_payload_kind = kind })

unfoldable pub reset_selection : Screen → Screen
unfolding pause
reset_selection s = pause false (record s {
  selected_data = [];
  selected_payload_kind = no_payload;
  selected_flow_index = negsuc 0;
})

abbrev pub has_bytes : Bytes → Bool
has_bytes bytes = ltb 0 (length bytes)

abbrev pub focus_after : Focus → Bool → Focus
focus_after input_field selected = table
focus_after table selected = if selected then hex else input_field
focus_after hex selected = input_field

-- The Tab key.
unfoldable pub on_tab : Screen → Screen
on_tab s = record s { focus = focus_after s.focus (s.paused && has_bytes s.selected_data) }

-- The buttons of the count of rows or points, and of the frames per second.
unfoldable pub show_less : Capture → Screen → Screen
show_less kind s = record s {
  show_count =
      if ltb 5 s.show_count
      then s.show_count - (elim kind [ metric ↦ 5 | _ ↦ 1 ])
      else s.show_count;
}

unfoldable pub show_more : Capture → Screen → Screen
show_more kind s = record s { show_count = s.show_count + (elim kind [ metric ↦ 5 | _ ↦ 1 ]) }

unfoldable pub slower : Screen → Screen
slower s = record s {
  frames_per_second =
      if ltb 1 s.frames_per_second then s.frames_per_second - 1 else s.frames_per_second;
}

unfoldable pub faster : Screen → Screen
faster s = record s { frames_per_second = s.frames_per_second + 1 }

abbrev pub durations : List String
durations = "5m" ∷ "10m" ∷ "30m" ∷ "1h" ∷ "6h" ∷ []

-- metricCounts[d], 0 where it has no entry.
abbrev pub metric_counts : String → ℕ
metric_counts d =
    if str_eq d "5m"
    then 60
    else (if str_eq d "10m"
        then 70
        else (if str_eq d "30m"
            then 80
            else (if str_eq d "1h" then 90 else (if str_eq d "6h" then 100 else 0))))

-- Another time range; none is the panic on an index out of range.
unfoldable pub choose_duration : ℕ → Screen → Option Screen
choose_duration index s = do
  d ← get_elem? durations index
  some (record s { selected_duration = index; show_count = metric_counts d })

-- The filters: Enter adds the text of the field, Backspace in an empty field takes the last one
-- away, and a filter's own button the first that is equal.
unfoldable pub enter_filter : String → Screen → Screen
enter_filter text s = record s {
  regexes = if str_eq text "" then s.regexes else s.regexes ++ text ∷ [];
}

unfoldable pub drop_last : List String → List String
drop_last [] = []
drop_last (r ∷ []) = []
drop_last (r ∷ q ∷ rs) = r ∷ drop_last (q ∷ rs)

unfoldable pub on_backspace : String → Screen → Screen
on_backspace text s = record s {
  regexes = if str_eq text "" then drop_last s.regexes else s.regexes;
}

unfoldable pub delete_first : String → List String → List String
delete_first regex [] = []
delete_first regex (r ∷ rs) = if str_eq r regex then rs else r ∷ delete_first regex rs

unfoldable pub remove_filter : String → Screen → Screen
remove_filter regex s = record s { regexes = delete_first regex s.regexes }

-- The cursors of the display and the enrichment; none is a panic.
abbrev pub with_display : Option OptionList → Screen → Option Screen
with_display moved s = do opt ← moved; some (record s { display = opt })

abbrev pub with_enrichment : Option OptionList → Screen → Option Screen
with_enrichment moved s = do opt ← moved; some (record s { enrichment = opt })

-- The button that goes back from the custom columns.
unfoldable pub reset_columns : Screen → Screen
reset_columns s = record s { selected_columns = []; display = record s.display { current = 1 } }

-- The payload of a row: base64.StdEncoding.DecodeString, and plaintextRawBytes and
-- plaintextBinarySummary of cmd/plaintext_format.go.
pub record Payloads : Type 0 where
  pub decode : String → Option Bytes
  pub plaintext_raw_bytes : GenericMap → Bytes
  pub plaintext_binary_summary : GenericMap → String

abbrev pub noted_index : GenericMap → Screen → Screen
noted_index row s = record s {
  focus = table;
  selected_flow_index = elim (at row "Index") [ int i ↦ i | _ ↦ s.selected_flow_index ];
}

module _ (payloads : Payloads) where
  abbrev pub select_plaintext : GenericMap → Screen → Screen
  select_plaintext row s =
      let payload = payloads.plaintext_raw_bytes row in
      let summary = payloads.plaintext_binary_summary row in
      if has_bytes payload
      then select_data payload plaintext s
      else (if str_eq summary "" then s else select_data (codes summary) plaintext s)

  abbrev pub decoded : Option Bytes → Screen → Screen
  decoded none s = s
  decoded (some bytes) s = select_data bytes wire s

  -- data.(string) panics on another type: none.
  abbrev pub select_wire : Option Value → Screen → Option Screen
  select_wire none s = some s
  select_wire (some v) s = do text ← as_text v; some (decoded (payloads.decode text) s)

  abbrev pub select_row : Option GenericMap → Screen → Option Screen
  select_row none s = some (reset_selection (record s { focus = table }))
  select_row (some row) s =
      let noted = noted_index row s in
      if is_plaintext_record row
      then some (select_plaintext row noted)
      else select_wire (lookup "Data" row) noted

  -- Row 0 is the header.
  unfoldable pub on_selection_changed : List GenericMap → ℕ → Screen → Option Screen
  on_selection_changed rows zero s = select_row none s
  on_selection_changed rows (suc index) s = select_row (get_elem? rows index) s
