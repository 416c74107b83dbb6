-- ===== src/Table/Divisors.antt =====
-- What every handler of the screen of cmd/display.go and cmd/flow_display.go keeps.
use network_observability_cl.Base.{
  if_true, if_false, some_eq, if_both, codes, ◌≡◌, sym, subst, ◌∙◌, ℕ, ◌<◌, zero, suc, Option, none,
  some, List, inl, inr, Bytes, length, Bool-cases, Option-cases, str_eq, get_elem?, if◌then◌else◌,
}
use network_observability_cl.Record.{Value, GenericMap, lookup, as_text}
use network_observability_cl.Options.Cursor.{OnItem}
use network_observability_cl.Collector.{is_plaintext_record}
use network_observability_cl.Table.Controls.{
  PayloadKind, wire, plaintext, has_bytes, Screen, Payloads, pause, select_data, reset_selection,
  choose_duration, durations, on_selection_changed, select_row, select_wire, select_plaintext,
  decoded, noted_index,
}
use network_observability_cl.Table.Moves.{some_points}

-- The counts that are divided by, and the cursors.
pub record Sound (s : Screen) : Type 0 where
  pub shows : 0 < s.show_count
  pub draws : 0 < s.frames_per_second
  pub displays : OnItem s.display × (1 < length s.display.all)
  pub enriches : OnItem s.enrichment

module _ (payloads : Payloads) where
  Sound-noted : (row : GenericMap) (s : Screen) → Sound s → Sound (noted_index row s)
  Sound-noted row s h = record {
    shows = h.shows;
    draws = h.draws;
    displays = h.displays;
    enriches = h.enriches;
  }

  Sound-select_data :
      (bytes : Bytes) (k : PayloadKind) (s : Screen) → Sound s → Sound (select_data bytes k s)
  unfolding select_data pause
  Sound-select_data bytes k s h = record {
    shows = h.shows;
    draws = h.draws;
    displays = h.displays;
    enriches = h.enriches;
  }

  Sound-select_plaintext :
      (row : GenericMap) (s : Screen) → Sound s → Sound (select_plaintext payloads row s)
  Sound-select_plaintext row s h =
      let payload = payloads.plaintext_raw_bytes row in
      let summary = payloads.plaintext_binary_summary row in
      let summarised : Screen = select_data (codes summary) plaintext s in
      if_both Sound (has_bytes payload) (select_data payload plaintext s)
        (if str_eq summary "" then s else summarised) (Sound-select_data payload plaintext s h)
        (if_both Sound (str_eq summary "") s summarised h
          (Sound-select_data (codes summary) plaintext s h))

  Sound-decoded : (bytes : Option Bytes) (s : Screen) → Sound s → Sound (decoded payloads bytes s)
  Sound-decoded none s h = h
  Sound-decoded (some bytes) s h = Sound-select_data bytes wire s h

  Sound-select_wire :
      (v : Option Value) (s after : Screen)
      → select_wire payloads v s ≡ some after
      → Sound s
      → Sound after
  Sound-select_wire none s after e h = subst Sound (some_eq e) h
  Sound-select_wire (some v) s after e h = elim (Option-cases (as_text v)) [
    | inl other ↦ absurd (cc (rw other at e))
    | inr (text, t) ↦ subst Sound (some_eq (rw t at e)) (Sound-decoded (payloads.decode text) s h)
  ]

  Sound-select_row :
      (row : Option GenericMap) (s after : Screen)
      → select_row payloads row s ≡ some after
      → Sound s
      → Sound after
  unfolding reset_selection pause
  Sound-select_row none s after e h =
      subst Sound (some_eq e)
        (record { shows = h.shows; draws = h.draws; displays = h.displays; enriches = h.enriches })
  Sound-select_row (some row) s after e h =
      let noted = noted_index row s in
      let plain : Option Screen = some (select_plaintext payloads row noted) in
      let other : Option Screen = select_wire payloads (lookup "Data" row) noted in
      elim (Bool-cases (is_plaintext_record row)) [
        | inl text ↦
            subst Sound (some_eq (sym (if_true plain other text) ∙ e))
              (Sound-select_plaintext row noted (Sound-noted row s h))
        | inr bytes ↦
            Sound-select_wire (lookup "Data" row) noted after (sym (if_false plain other bytes) ∙ e)
              (Sound-noted row s h)
      ]

  pub Sound-on_selection_changed :
      (rows : List GenericMap) (row : ℕ) (s after : Screen)
      → on_selection_changed payloads rows row s ≡ some after
      → Sound s
      → Sound after
  unfolding on_selection_changed
  Sound-on_selection_changed rows zero s after e h = Sound-select_row none s after e h
  Sound-on_selection_changed rows (suc index) s after e h =
      Sound-select_row (get_elem? rows index) s after e h

  pub Sound-choose_duration :
      (index : ℕ) (s after : Screen) → choose_duration index s ≡ some after → Sound s → Sound after
  unfolding choose_duration
  Sound-choose_duration index s after e h = elim (Option-cases (get_elem? durations index)) [
    | inl beyond ↦ absurd (cc (rw beyond at e))
    | inr (d, at_index) ↦ subst Sound (some_eq (rw at_index at e)) (record {
      shows = some_points index d at_index;
      draws = h.draws;
      displays = h.displays;
      enriches = h.enriches;
    })
  ]
