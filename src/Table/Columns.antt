-- ===== src/Table/Columns.antt =====
-- The columns of the table: getCols, appendPlaintextColumns and getColumnsModal of
-- cmd/flow_display.go, and the column configuration of cmd/config.go. The configuration itself is
-- a parameter: it is read from an embedded YAML file.
use network_observability_cl.Base.{
  ℕ, String, Bool, false, ◌&&◌, ◌||◌, not, Option, none, some, List, [], ◌∷◌, ◌++◌, map, str_eq,
  get_elem?, keep, length, ◌==◌, if◌then◌else◌,
}
use network_observability_cl.Endpoint.{◌>>=◌}
use network_observability_cl.Options.{OptionItem, OptionList, get_current_item}
use network_observability_cl.Table.Order.{Capture, packet}
use network_observability_cl.Collector.{plaintext_capture_enabled}

pub record ColumnConfig : Type 0 where
  pub id : String
  pub name : String
  pub group : String
  pub field : String
  pub fields : List String
  pub calculated : String
  pub tooltip : String
  pub doc_url : String
  pub filter : String
  pub default : Bool
  pub width : ℕ
  pub feature : String

abbrev pub plaintext_capture_feature : String
plaintext_capture_feature = "plaintextCapture"

-- slices.Contains.
unfoldable pub contains_text : List String → String → Bool
contains_text [] s = false
contains_text (t ∷ ts) s = str_eq t s || contains_text ts s

-- capture == Packet && plaintextCaptureEnabled().
abbrev pub shows_plaintext : Capture → String → Bool
shows_plaintext kind options = elim kind [ packet ↦ plaintext_capture_enabled options | _ ↦ false ]

abbrev pub is_available : Capture → String → ColumnConfig → Bool
is_available kind options col =
    not (str_eq col.field "")
    && not (str_eq col.feature plaintext_capture_feature && not (shows_plaintext kind options))

unfoldable pub available_columns : Capture → String → List ColumnConfig → List ColumnConfig
available_columns kind options columns = keep (is_available kind options) columns

-- The first id that is found is removed; none where there is none.
unfoldable pub without : String → List String → Option (List String)
without id [] = none
without id (v ∷ vs) =
    let rest = without id vs in
    if str_eq v id then some vs else elim rest [ none ↦ none | some ws ↦ some (v ∷ ws) ]

unfoldable pub toggle : String → List String → List String
toggle id selected = elim (without id selected) [ some rest ↦ rest | none ↦ selected ++ id ∷ [] ]

abbrev pub toggle_at : Option ColumnConfig → List String → List String
toggle_at none selected = selected
toggle_at (some c) selected = toggle c.id selected

-- A press on a row of the picker; nothing on a row out of range.
unfoldable pub on_select : List ColumnConfig → ℕ → List String → List String
on_select available row selected = toggle_at (get_elem? available row) selected

unfoldable pub restore_defaults : List ColumnConfig → List String
restore_defaults available = map (λ c. c.id) (keep (λ c. c.default) available)

unfoldable pub plaintext_capture_column_ids : List ColumnConfig → List String
plaintext_capture_column_ids columns =
    map (λ c. c.id)
      (keep (λ c. str_eq c.feature plaintext_capture_feature && not (str_eq c.field "")) columns)

-- for _, id := range ids { if !slices.Contains(cols, id) { cols = append(cols, id) } }
unfoldable pub append_new : List String → List String → List String
append_new cols [] = cols
append_new cols (id ∷ ids) =
    append_new (if contains_text cols id then cols else cols ++ id ∷ []) ids

abbrev pub is_empty {ℓ} : {A : Type ℓ} → List A → Bool
is_empty xs = length xs == 0

unfoldable pub append_plaintext_columns :
    Capture → String → List ColumnConfig → List String → List String → List String
append_plaintext_columns kind options columns selected cols =
    if not (shows_plaintext kind options) || not (is_empty selected)
    then cols
    else append_new cols ("RecordType" ∷ plaintext_capture_column_ids columns)

abbrev pub enrichment_columns : OptionItem → List String
enrichment_columns item =
    if str_eq item.name "None" then "SrcAddr" ∷ "SrcPort" ∷ "DstAddr" ∷ "DstPort" ∷ [] else item.ids

abbrev pub feature_columns : List ColumnConfig → OptionItem → List String
feature_columns columns item =
    if str_eq item.name "Standard"
    then "FlowDirection" ∷ "Proto" ∷ "Dscp" ∷ "Bytes" ∷ "Packets" ∷ []
    else map (λ c. c.id)
        (keep (λ c. not (str_eq c.field "") && contains_text item.ids c.feature) columns)

abbrev pub columns_beside : List ColumnConfig → OptionItem → OptionItem → List String
columns_beside columns item side =
    ("EndTime" ∷ enrichment_columns side)
    ++ ("Interfaces" ∷ "IfDirections" ∷ [])
    ++ feature_columns columns item

-- none is the panic of a cursor that is out of range.
abbrev pub enriched_columns : List ColumnConfig → OptionList → OptionItem → Option (List String)
enriched_columns columns enrichment item = do
  side ← get_current_item enrichment
  some (columns_beside columns item side)

unfoldable pub display_columns : List ColumnConfig → OptionList → OptionList → Option (List String)
display_columns columns display enrichment = do
  item ← get_current_item display
  if str_eq item.name "Raw" then some ("Raw" ∷ []) else enriched_columns columns enrichment item

unfoldable pub get_cols :
    Capture
    → String
    → List ColumnConfig
    → OptionList
    → OptionList
    → List String
    → Option (List String)
get_cols kind options columns display enrichment selected = do
  cols ← if is_empty selected then display_columns columns display enrichment else some selected
  some (append_plaintext_columns kind options columns selected cols)
