-- ===== src/Table/Cells.antt =====
-- The cells, the rows as text, the suggestions and the selected row of cmd/flow_display.go. What
-- cmd/map_format.go and fmt print is a parameter.
use network_observability_cl.Base.{
  ℕ, zero, suc, String, Bool, false, ◌||◌, Option, none, some, List, [], ◌∷◌, ◌++◌, map, ℤ, str_eq,
  get_elem?, length, leb, ltb_ℤ, pos, ◌==◌, if◌then◌else◌,
}
use network_observability_cl.Base.Strings.{concat, has_prefix}
use network_observability_cl.Record.{Value, GenericMap, int, at}
use network_observability_cl.Collector.{is_plaintext_record}
use network_observability_cl.Table.Columns.{append_new}
use network_observability_cl.Table.Rows.{eq_ℤ}

pub data Color : Type 0 where
  white : Color
  black : Color
  blue : Color
  yellow : Color
  light_green : Color

pub record Cell : Type 0 where
  pub cell_text : String
  pub text_color : Color
  pub background : Color

-- toColName(id, toColWidth(id)) and toColValue(flow, id, toColWidth(id)).
pub record Printer : Type 0 where
  pub col_name : String → String
  pub col_value : GenericMap → String → String
  -- fmt.Sprintf("%v", v) and strings.ToLower.
  pub value_text : Value → String
  pub to_lower : String → String

pub record TableData : Type 0 where
  pub cols : List String
  pub flows : List GenericMap

abbrev pub plain_cell : String → Cell
plain_cell s = record { cell_text = s; text_color = white; background = black }

module _ (printer : Printer) where
  abbrev pub header_cell : String → Cell
  header_cell id = record { cell_text = printer.col_name id; text_color = white; background = blue }

  abbrev pub column_color : ℕ → String → Color × Color
  column_color col id =
      if col == 0
      then (yellow, black)
      else (if str_eq id "EndTime" then (yellow, white) else (white, black))

  -- A row that left the table meanwhile is an empty cell.
  abbrev pub flow_cell : ℕ → String → Option GenericMap → Cell
  flow_cell col id none = plain_cell ""
  flow_cell col id (some flow) = record {
    cell_text = printer.col_value flow id;
    text_color = if is_plaintext_record flow then light_green else (column_color col id).0;
    background = (column_color col id).1;
  }

  abbrev pub cell_at : List GenericMap → ℕ → ℕ → Option String → Cell
  cell_at flows row col none = plain_cell "invalid col"
  cell_at flows zero col (some id) = header_cell id
  cell_at flows (suc index) col (some id) = flow_cell col id (get_elem? flows index)

  -- Rows and columns that are not negative; row 0 is the header.
  unfoldable pub get_cell : TableData → ℕ → ℕ → Cell
  get_cell d row col =
      if length d.cols == 0
      then plain_cell "Initializing..."
      else cell_at d.flows row col (get_elem? d.cols col)

  abbrev pub up_to : ℕ → ℕ → List ℕ
  up_to i zero = []
  up_to i (suc n) = i ∷ up_to (suc i) n

  abbrev pub joined_texts : List Cell → String
  joined_texts [] = ""
  joined_texts (cell ∷ cells) = concat cell.cell_text (joined_texts cells)

  abbrev pub row_text : TableData → ℕ → String
  row_text d row = joined_texts (map (get_cell d row) (up_to 0 (length d.cols)))

  unfoldable pub get_table_rows : TableData → List String
  get_table_rows d =
      if length d.cols == 0 || length d.flows == 0
      then []
      else map (row_text d) (up_to 0 (suc (length d.flows)))

  -- The keys and values of the shown flows, in order.
  abbrev pub flow_texts : GenericMap → List String
  flow_texts [] = []
  flow_texts ((k, v) ∷ flow) = k ∷ printer.value_text v ∷ flow_texts flow

  abbrev pub all_texts : List GenericMap → List String
  all_texts [] = []
  all_texts (flow ∷ flows) = flow_texts flow ++ all_texts flows

  -- if !slices.Contains(suggestions, s) { suggestions = append(suggestions, s) }, for each.
  unfoldable pub update_suggestions : List GenericMap → List String
  update_suggestions flows = append_new [] (all_texts flows)

  abbrev pub starting_with : String → List String → List String
  starting_with current [] = []
  starting_with current (word ∷ words) =
      if has_prefix (printer.to_lower word) (printer.to_lower current)
      then word ∷ starting_with current words
      else starting_with current words

  -- The entries of the autocompletion: none at all where there is only one.
  unfoldable pub autocomplete : String → List String → List String
  autocomplete current suggestions =
      let entries = starting_with current suggestions in
      if str_eq current "" || leb (length entries) 1 then [] else entries

abbrev pub has_index : ℤ → Value → Bool
has_index i (int j) = eq_ℤ j i
has_index i _ = false

-- The row that restoreTableSelection selects, counted with the header.
unfoldable pub restored_row : List GenericMap → ℤ → ℕ → Option ℕ
restored_row [] selected row = none
restored_row (flow ∷ flows) selected row =
    let later = restored_row flows selected (suc row) in
    if has_index selected (at flow "Index") then some row else later

unfoldable pub restore_table_selection : List GenericMap → ℤ → Option ℕ
restore_table_selection flows selected =
    if ltb_ℤ selected (pos 0) then none else restored_row flows selected 1
