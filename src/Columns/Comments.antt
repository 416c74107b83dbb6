-- ===== src/Columns/Comments.antt =====
-- The comments and the time of a written packet: mapTimestamp and writePacketDataWithOptions of
-- cmd/packet_capture_wire_buffer.go. sort.Strings and the runes of a column's name are parameters.
use network_observability_cl.Base.{
  ℕ, String, Bool, ◌||◌, not, Option, none, some, List, [], ◌∷◌, ◌++◌, map, keep, ℤ, pos, str_eq,
  if◌then◌else◌, Bytes, codes,
}
use network_observability_cl.Base.Strings.{has_prefix}
use network_observability_cl.Record.{Value, GenericMap, at, truncate_float}
use network_observability_cl.Endpoint.{◌>>=◌}
use network_observability_cl.Plaintext.{stamp}
use network_observability_cl.Columns.Names.{Runes, to_col_id, to_col_name}
use network_observability_cl.Columns.CellTexts.{Formats, times_unit, to_col_value}
use network_observability_cl.PayloadText.Layers.{Decoders}
use network_observability_cl.Table.Columns.{ColumnConfig}

-- The second test of mapTimestamp, in nanoseconds: any number of seconds.
abbrev pub seconds_or : ℤ → Value → ℤ
seconds_or now (Value.float t) = times_unit (truncate_float t) 1_000_000_000
seconds_or now _ = now

abbrev pub stamp_or : ℤ → Option ℕ → ℤ
stamp_or other none = other
stamp_or other (some t) = pos t

unfoldable pub map_timestamp : ℤ → GenericMap → ℤ
unfolding stamp
map_timestamp now m =
    stamp_or (seconds_or now (at m "Time")) (stamp 1_000_000 (at m "TimeFlowStartMs"))

-- The three comments while they are written.
pub record Comments : Type 0 where
  pub source : Bytes
  pub destination : Bytes
  pub common : Bytes

abbrev pub new_comments : Comments
new_comments = record {
  source = codes "Source\n";
  destination = codes "Destination\n";
  common = codes "Common\n";
}

abbrev pub add_line : String → Bytes → Comments → Comments
add_line key line c =
    if has_prefix key "Src"
    then (record c { source = c.source ++ line })
    else if has_prefix key "Dst"
    then (record c { destination = c.destination ++ line })
    else (record c { common = c.common ++ line })

unfoldable pub commented_keys : (List String → List String) → GenericMap → List String
commented_keys sort m =
    sort (keep (λ k. not (str_eq k "Time" || str_eq k "Data")) (map (λ e. e.0) m))

-- What is handed to the pcapng writer.
pub record WrittenPacket : Type 0 where
  pub timestamp : ℤ
  pub frame : Bytes
  pub comments : List Bytes
  pub packet_id : Option ℕ

module _ (formats : Formats) (decoders : Decoders) (runes : Runes) (replace : String → List ℕ)
    (sort : List String → List String) (columns : List ColumnConfig) (is_flow : Bool) where
  -- The line of a key, by the column of its field; none is a panic.
  unfoldable pub key_line : GenericMap → String → Option Bytes
  key_line m key =
      let id = to_col_id columns key in
      to_col_value formats decoders runes columns is_flow m id 0 >>= λ cell.
      some (to_col_name runes replace columns id 0 ++ codes ": " ++ cell ++ codes "\n")

  unfoldable pub add_lines : GenericMap → List String → Comments → Option Comments
  add_lines m [] c = some c
  add_lines m (key ∷ keys) c = key_line m key >>= λ line. add_lines m keys (add_line key line c)

  unfoldable pub write_packet_data_with_options :
      ℤ → GenericMap → Bytes → List Bytes → Option ℕ → Option WrittenPacket
  write_packet_data_with_options now m frame extra packet_id =
      add_lines m (commented_keys sort m) new_comments >>= λ c. some (record {
        timestamp = map_timestamp now m;
        frame = frame;
        comments = c.source ∷ c.destination ∷ c.common ∷ extra;
        packet_id = packet_id;
      })
