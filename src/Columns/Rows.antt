-- ===== src/Columns/Rows.antt =====
-- What becomes of a row as the columns expect it, on the screen and in a packet's comments
-- (cmd/map_format.go, cmd/packet_capture_wire_buffer.go).
use network_observability_cl.Base.{
  ◌≡◌, refl, ℕ, String, Bool, Option, some, List, [], ◌∷◌, ◌++◌, ℤ, Bytes, codes,
}
use network_observability_cl.Record.{GenericMap}
use network_observability_cl.Columns.Names.{Runes, to_col_id, to_col_name}
use network_observability_cl.Columns.CellTexts.{Formats, to_col_value}
use network_observability_cl.Columns.Printed.{Fits, to_col_value-Prints}
use network_observability_cl.Columns.Comments.{
  Comments, new_comments, add_line, key_line, add_lines, commented_keys, map_timestamp,
  WrittenPacket, write_packet_data_with_options,
}
use network_observability_cl.PayloadText.Layers.{Decoders}
use network_observability_cl.Table.Columns.{ColumnConfig}

-- A packet written with its frame, its id, three comments of its own and those that were given.
pub record WrittenAs (frame : Bytes) (extra : List Bytes) (packet_id : Option ℕ) (w : WrittenPacket)
    : Type 0 where
  pub own : Comments
  pub frame_kept : w.frame ≡ frame
  pub all_comments : w.comments ≡ own.source ∷ own.destination ∷ own.common ∷ extra
  pub id_kept : w.packet_id ≡ packet_id

module _ (formats : Formats) (decoders : Decoders) (runes : Runes) (replace : String → List ℕ)
    (sort : List String → List String) (columns : List ColumnConfig) (is_flow : Bool)
    (m : GenericMap) (fits : Fits columns m) where
  key_line-Prints :
      (key : String)
      → (line : Bytes) × (key_line formats decoders runes replace sort columns is_flow m key
          ≡ some line)
  unfolding key_line
  key_line-Prints key =
      let id = to_col_id columns key in
      let (cell, e) = to_col_value-Prints formats columns m fits decoders runes is_flow id 0 in
      (to_col_name runes replace columns id 0 ++ codes ": " ++ cell ++ codes "\n", rw e refl)

  add_lines-Prints :
      (keys : List String) (c : Comments)
      → (after : Comments) × (add_lines formats decoders runes replace sort columns is_flow m keys c
          ≡ some after)
  unfolding add_lines
  add_lines-Prints [] c = (c, refl)
  add_lines-Prints (key ∷ keys) c =
      let (line, e) = key_line-Prints key in
      let (after, more) = add_lines-Prints keys (add_line key line c) in (after, rw e more)

  -- Such a row has a cell in every column, at every width, and a packet with its fields is written with
  -- its whole frame, its id, three comments and the comments given.
  pub row-Printed :
      (id : String) (width : ℕ) (now : ℤ) (frame : Bytes) (extra : List Bytes)
      (packet_id : Option ℕ)
      → ((cell : Bytes) × (to_col_value formats decoders runes columns is_flow m id width
            ≡ some cell))
        × ((w : WrittenPacket) × (write_packet_data_with_options formats decoders runes replace sort
                columns is_flow now m frame extra packet_id
              ≡ some w)
            × WrittenAs frame extra packet_id w)
  unfolding write_packet_data_with_options
  row-Printed id width now frame extra packet_id =
      let (own, e) = add_lines-Prints (commented_keys sort m) new_comments in
      (
        to_col_value-Prints formats columns m fits decoders runes is_flow id width,
        (
          record {
            timestamp = map_timestamp now m;
            frame = frame;
            comments = own.source ∷ own.destination ∷ own.common ∷ extra;
            packet_id = packet_id;
          },
          rw e refl,
          record { own = own; frame_kept = refl; all_comments = refl; id_kept = refl },
        ),
      )
