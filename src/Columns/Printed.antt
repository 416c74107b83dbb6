-- ===== src/Columns/Printed.antt =====
-- Which rows toColValue of cmd/map_format.go prints without a panic.
use network_observability_cl.Base.{
  ◌≡◌, ◌≢◌, refl, sym, subst, ℕ, ℤ, String, Bool, true, false, ◌&&◌, ◌||◌, Option, none, some, List,
  if◌then◌else◌, if_cases, if_both, Bytes, str_eq, str_eq_iff, Bool-cases, inl, inr,
}
use network_observability_cl.Record.{Value, Values, GenericMap, lookup, truncate_float}
use network_observability_cl.Collector.{is_plaintext_record}
use network_observability_cl.Base.Strings.{concat}
use network_observability_cl.Columns.{
  empty_text, as_float, name_of, named_cell, join_directions, direction_cell, direction_value,
  to_direction, to_proto, to_dscp,
}
use network_observability_cl.Columns.Names.{Runes, to_field_name}
use network_observability_cl.Columns.CellTexts.{
  Formats, number_cell, to_count, to_duration, to_time_string, value_cell, to_value, type_cell,
  join_texts, entry_texts, field_cell, to_col_value,
}
use network_observability_cl.PayloadText.Layers.{Decoders}
use network_observability_cl.Table.Columns.{ColumnConfig}

-- Nothing, or a number.
abbrev pub IsNumber : Option Value → Type 0
IsNumber none = Unit
IsNumber (some (Value.float v)) = Unit
IsNumber (some _) = ⊥

abbrev pub AreNumbers : Values → Type 0
AreNumbers Values.nil = Unit
AreNumbers (Values.cons (Value.float v) vs) = AreNumbers vs
AreNumbers (Values.cons _ vs) = ⊥

-- Nothing, a number or a list of numbers.
abbrev pub IsDirections : Option Value → Type 0
IsDirections none = Unit
IsDirections (some (Value.float v)) = Unit
IsDirections (some (Value.arr vs)) = AreNumbers vs
IsDirections (some _) = ⊥

-- A row as the columns expect it.
pub record Fits (columns : List ColumnConfig) (m : GenericMap) : Type 0 where
  pub no_null : (key : String) → lookup key m ≢ some Value.null
  pub flow_time : IsNumber (lookup "TimeFlowEndMs" m)
  pub packet_time : IsNumber (lookup "Time" m)
  pub bytes : IsNumber (lookup "Bytes" m)
  pub drop_bytes : IsNumber (lookup "PktDropBytes" m)
  pub proto : IsNumber (lookup (to_field_name columns "Proto") m)
  pub dscp : IsNumber (lookup (to_field_name columns "Dscp") m)
  pub dns_latency : IsNumber (lookup (to_field_name columns "DNSLatency") m)
  pub rtt : IsNumber (lookup (to_field_name columns "TimeFlowRttMs") m)
  pub direction : IsDirections (lookup (to_field_name columns "FlowDirection") m)
  pub directions : IsDirections (lookup (to_field_name columns "IfDirections") m)

abbrev Prints {ℓ} : {A : Type ℓ} → Option A → Type ℓ
Prints {A} cell = (text : A) × (cell ≡ some text)

as_float-Prints : (v : Value) → IsNumber (some v) → Prints (as_float v)
as_float-Prints (Value.float f) h = (f, refl)
as_float-Prints _ h = absurd h

module _ (formats : Formats) where
  number_cell-Prints :
      (show : ℤ → String) (v : Option Value) → IsNumber v → Prints (number_cell formats show v)
  unfolding number_cell
  number_cell-Prints show none h = (empty_text, refl)
  number_cell-Prints show (some v) h =
      let (f, e) = as_float-Prints v h in (show (truncate_float f), rw e refl)

  named_cell-Prints :
      (names : List (ℕ × String)) (v : Option Value)
      → IsNumber v
      → Prints (named_cell formats.value_text names v)
  unfolding named_cell
  named_cell-Prints names none h = (empty_text, refl)
  named_cell-Prints names (some v) h =
      let (f, e) = as_float-Prints v h in (name_of formats.value_text names f, rw e refl)

  join_directions-Prints :
      (vs : Values) → AreNumbers vs → Prints (join_directions formats.value_text vs)
  unfolding join_directions
  join_directions-Prints Values.nil h = ("", refl)
  join_directions-Prints (Values.cons (Value.float v) Values.nil) h =
      (direction_value formats.value_text v, refl)
  join_directions-Prints (Values.cons (Value.float v) (Values.cons w vs)) h =
      let (rest, e) = join_directions-Prints (Values.cons w vs) h in
      (concat (direction_value formats.value_text v) (concat "," rest), rw e refl)
  join_directions-Prints (Values.cons _ vs) h = absurd h

  direction_cell-Prints :
      (v : Option Value) → IsDirections v → Prints (direction_cell formats.value_text v)
  unfolding direction_cell
  direction_cell-Prints none h = (empty_text, refl)
  direction_cell-Prints (some (Value.float v)) h = (direction_value formats.value_text v, refl)
  direction_cell-Prints (some (Value.arr vs)) h = join_directions-Prints vs h
  direction_cell-Prints (some _) h = absurd h

  value_cell-Prints : (v : Option Value) → v ≢ some Value.null → Prints (value_cell formats v)
  value_cell-Prints none h = (empty_text, refl)
  value_cell-Prints (some Value.null) h = absurd (h refl)
  value_cell-Prints (some (Value.arr vs)) h = (join_texts "," (entry_texts formats vs), refl)
  value_cell-Prints (some v) h = (formats.value_text v, refl)

  module _ (columns : List ColumnConfig) (m : GenericMap) (fits : Fits columns m) where
    to_value-Prints : (field : String) → Prints (to_value formats m field)
    unfolding to_value
    to_value-Prints field = value_cell-Prints (lookup field m) (fits.no_null field)

    type_cell-Prints : (field : String) → Prints (type_cell formats m field)
    type_cell-Prints field =
        let (text, e) = to_value-Prints field in
        rw e (
          if_both Prints (str_eq text "") (to_value formats m "RecordType") (some text)
            (to_value-Prints "RecordType") (text, refl))

    -- The field of a column whose id is recognised.
    IsNumber-field :
        (id known : String)
        → str_eq id known ≡ true
        → IsNumber (lookup (to_field_name columns known) m)
        → IsNumber (lookup (to_field_name columns id) m)
    IsNumber-field id known same h =
        subst (λ i. IsNumber (lookup (to_field_name columns i) m))
          (sym ((str_eq_iff id known).0 same)) h

    IsDirections-field :
        (id : String)
        → (str_eq id "FlowDirection" || str_eq id "IfDirections") ≡ true
        → IsDirections (lookup (to_field_name columns id) m)
    IsDirections-field id same = elim (Bool-cases (str_eq id "FlowDirection")) [
      | inl first ↦
          subst (λ i. IsDirections (lookup (to_field_name columns i) m))
            (sym ((str_eq_iff id "FlowDirection").0 first)) fits.direction
      | inr other ↦
          subst (λ i. IsDirections (lookup (to_field_name columns i) m))
            (sym ((str_eq_iff id "IfDirections").0 (rw other at same))) fits.directions
    ]

    IsNumber-size :
        (id : String)
        → (str_eq id "Bytes" || str_eq id "PktDropBytes") ≡ true
        → IsNumber (lookup id m)
    IsNumber-size id same = elim (Bool-cases (str_eq id "Bytes")) [
      | inl first ↦
          subst (λ i. IsNumber (lookup i m)) (sym ((str_eq_iff id "Bytes").0 first)) fits.bytes
      | inr other ↦
          subst (λ i. IsNumber (lookup i m))
            (sym ((str_eq_iff id "PktDropBytes").0 (rw other at same))) fits.drop_bytes
    ]

    time-Prints :
        (is_flow : Bool)
        → Prints (to_time_string formats m (if is_flow then "TimeFlowEndMs" else "Time"))
    unfolding to_time_string
    time-Prints true = number_cell-Prints formats.clock_text _ fits.flow_time
    time-Prints false = number_cell-Prints formats.clock_text _ fits.packet_time

    -- The last cases: texts and values as they are.
    text_cell-Prints :
        (id field : String)
        → Prints (
            if str_eq id "NetworkEvents"
            then some (join_texts ", " (formats.event_texts m))
            else if str_eq id "RecordType"
            then type_cell formats m (if is_plaintext_record m then "TLSSource" else field)
            else if str_eq id "Direction"
            then to_value formats m "Direction"
            else to_value formats m
                (if str_eq id "PlaintextPreview" then "PlaintextPreview" else field))
    text_cell-Prints id field =
        if_both Prints (str_eq id "NetworkEvents") _ _ (_, refl)
          (if_both Prints (str_eq id "RecordType") _ _ (type_cell-Prints _) (
            if_both Prints (str_eq id "Direction") _ _ (to_value-Prints "Direction")
              (to_value-Prints _)))

    field_cell-Prints :
        (is_flow : Bool) (id : String)
        → Prints (field_cell formats is_flow m id (to_field_name columns id))
    unfolding field_cell to_direction to_proto to_dscp to_count to_duration
    field_cell-Prints is_flow id =
        let field = to_field_name columns id in
        if_both Prints (str_eq id "Raw") _ _ (formats.map_text m, refl)
          (if_both Prints (str_eq id "StartTime" || str_eq id "EndTime") _ _ (time-Prints is_flow) (
            if_cases Prints (str_eq id "FlowDirection" || str_eq id "IfDirections") _ _
              (λ same. direction_cell-Prints (lookup field m) (IsDirections-field id same))
              (λ _.
                if_cases Prints (str_eq id "Proto") _ _
                  (λ same. named_cell-Prints _ _ (IsNumber-field id "Proto" same fits.proto))
                  (λ _.
                    if_cases Prints (str_eq id "Dscp") _ _
                      (λ same. named_cell-Prints _ _ (IsNumber-field id "Dscp" same fits.dscp))
                      (λ _.
                        if_cases Prints (str_eq id "Bytes" || str_eq id "PktDropBytes") _ _
                          (λ same. number_cell-Prints _ _ (IsNumber-size id same))
                          (λ _.
                            if_cases Prints (str_eq id "DNSLatency") _ _
                              (λ same.
                                number_cell-Prints _ _
                                  (IsNumber-field id "DNSLatency" same fits.dns_latency))
                              (λ _.
                                if_cases Prints (str_eq id "TimeFlowRttMs") _ _
                                  (λ same.
                                    number_cell-Prints _ _
                                      (IsNumber-field id "TimeFlowRttMs" same fits.rtt))
                                  (λ _. text_cell-Prints id field))))))))

    -- Every column of such a row has a cell, at every width, in both captures.
    pub to_col_value-Prints :
        (decoders : Decoders) (runes : Runes) (is_flow : Bool) (id : String) (width : ℕ)
        → (cell : Bytes) × (to_col_value formats decoders runes columns is_flow m id width
            ≡ some cell)
    unfolding to_col_value
    to_col_value-Prints decoders runes is_flow id width =
        let (text, e) = field_cell-Prints is_flow id in
        if_both Prints (str_eq id "PlaintextPreview" && is_plaintext_record m) _ _ (_, refl)
          (rw e (_, refl))
