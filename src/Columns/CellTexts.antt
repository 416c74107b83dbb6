-- ===== src/Columns/CellTexts.antt =====
-- The text of a cell: toCount, toDuration, toTimeString, toValue and toColValue of cmd/map_format.go.
-- none is a panic: of an assertion, and of reflect.TypeOf(nil).Kind() at a null.
use network_observability_cl.Base.{
  ℕ, ◌*◌, String, Bool, ◌&&◌, ◌||◌, Option, none, some, List, [], ◌∷◌, ℤ, pos, negsuc, ◌-◌, suc,
  str_eq, if◌then◌else◌, Bytes,
}
use network_observability_cl.Base.Strings.{concat}
use network_observability_cl.Record.{Value, Values, GenericMap, lookup, truncate_float}
use network_observability_cl.Endpoint.{◌>>=◌}
use network_observability_cl.Collector.{is_plaintext_record}
use network_observability_cl.Columns.{empty_text, as_float, to_direction, to_proto, to_dscp}
use network_observability_cl.Columns.Names.{Runes, to_field_name, ellipsize_and_pad}
use network_observability_cl.PayloadText.Layers.{Decoders}
use network_observability_cl.PayloadText.Summary.{plaintext_table_preview}
use network_observability_cl.Table.Columns.{ColumnConfig}

-- What is printed elsewhere: %v of a value and of a map, sizestr.ToString, time.Duration.String, the
-- clock time of time.UnixMilli, networkevents.MapToStrings, and the runes of a text and of its bytes.
pub record Formats : Type 0 where
  pub value_text : Value → String
  pub map_text : GenericMap → String
  pub size_text : ℤ → String
  pub duration_text : ℤ → String
  pub clock_text : ℤ → String
  pub event_texts : GenericMap → List String
  pub runes_of : String → List ℕ
  pub runes_of_bytes : Bytes → List ℕ

-- A whole number of a unit, in nanoseconds, for durations that an int64 holds.
abbrev pub times_unit : ℤ → ℕ → ℤ
times_unit (pos n) unit = pos (n * unit)
times_unit (negsuc n) unit = negsuc (suc n * unit - 1)

-- strings.Join.
unfoldable pub join_texts : String → List String → String
join_texts sep [] = ""
join_texts sep (text ∷ []) = text
join_texts sep (text ∷ next ∷ texts) = concat text (concat sep (join_texts sep (next ∷ texts)))

module _ (formats : Formats) where
  -- A cell made of the number under a field.
  unfoldable pub number_cell : (ℤ → String) → Option Value → Option String
  number_cell show none = some empty_text
  number_cell show (some v) = as_float v >>= λ f. some (show (truncate_float f))

  unfoldable pub to_count : GenericMap → String → Option String
  to_count m field = number_cell formats.size_text (lookup field m)

  unfoldable pub to_duration : GenericMap → String → ℕ → Option String
  to_duration m field unit =
      number_cell (λ n. formats.duration_text (times_unit n unit)) (lookup field m)

  unfoldable pub to_time_string : GenericMap → String → Option String
  to_time_string m field = number_cell formats.clock_text (lookup field m)

  abbrev pub entry_text : Value → String
  entry_text (Value.text t) = if str_eq t "" then "None" else t
  entry_text v = formats.value_text v

  unfoldable pub entry_texts : Values → List String
  entry_texts Values.nil = []
  entry_texts (Values.cons v vs) = entry_text v ∷ entry_texts vs

  abbrev pub value_cell : Option Value → Option String
  value_cell none = some empty_text
  value_cell (some Value.null) = none
  value_cell (some (Value.arr vs)) = some (join_texts "," (entry_texts vs))
  value_cell (some v) = some (formats.value_text v)

  unfoldable pub to_value : GenericMap → String → Option String
  to_value m field = value_cell (lookup field m)

  -- The cases of RecordType: a field, or else RecordType where its text is empty.
  abbrev pub type_cell : GenericMap → String → Option String
  type_cell m field =
      to_value m field >>= λ text. if str_eq text "" then to_value m "RecordType" else some text

  -- The cases that print a field, and the default.
  unfoldable pub field_cell : Bool → GenericMap → String → String → Option String
  field_cell is_flow m id field =
      if str_eq id "Raw"
      then some (formats.map_text m)
      else if str_eq id "StartTime" || str_eq id "EndTime"
      then to_time_string m (if is_flow then "TimeFlowEndMs" else "Time")
      else if str_eq id "FlowDirection" || str_eq id "IfDirections"
      then to_direction formats.value_text m field
      else if str_eq id "Proto"
      then to_proto formats.value_text m field
      else if str_eq id "Dscp"
      then to_dscp formats.value_text m field
      else if str_eq id "Bytes" || str_eq id "PktDropBytes"
      then to_count m id
      else if str_eq id "DNSLatency"
      then to_duration m field 1_000_000
      else if str_eq id "TimeFlowRttMs"
      then to_duration m field 1
      else if str_eq id "NetworkEvents"
      then some (join_texts ", " (formats.event_texts m))
      else if str_eq id "RecordType"
      then type_cell m (if is_plaintext_record m then "TLSSource" else field)
      else if str_eq id "Direction"
      then to_value m "Direction"
      else to_value m (if str_eq id "PlaintextPreview" then "PlaintextPreview" else field)

  module _ (decoders : Decoders) (runes : Runes) where
    abbrev pub preview_cell : GenericMap → ℕ → Bytes
    preview_cell m width =
        ellipsize_and_pad runes (formats.runes_of_bytes (plaintext_table_preview decoders m width))
          width

    abbrev pub padded_cell : Option String → ℕ → Option Bytes
    padded_cell none width = none
    padded_cell (some text) width = some (ellipsize_and_pad runes (formats.runes_of text) width)

    unfoldable pub to_col_value : List ColumnConfig → Bool → GenericMap → String → ℕ → Option Bytes
    to_col_value columns is_flow m id width =
        if str_eq id "PlaintextPreview" && is_plaintext_record m
        then some (preview_cell m width)
        else padded_cell (field_cell is_flow m id (to_field_name columns id)) width
