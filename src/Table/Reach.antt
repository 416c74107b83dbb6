-- ===== src/Table/Reach.antt =====
-- Every screen that the keys, buttons and selections of cmd/display.go, cmd/flow_display.go and
-- cmd/metric_display.go reach.
use network_observability_cl.Base.{
  ◌≡◌, arith, ℕ, ◌<◌, String, true, false, some, List, [], ◌⊎◌, if◌then◌else◌,
}
use network_observability_cl.Record.{GenericMap}
use network_observability_cl.Options.{OptionList, next, prev}
use network_observability_cl.Table.Order.{Capture}
use network_observability_cl.Table.Columns.{ColumnConfig, on_select, restore_defaults}
use network_observability_cl.Table.Controls.{
  Screen, Payloads, pause, reset_selection, on_tab, show_less, show_more, slower, faster,
  choose_duration, enter_filter, on_backspace, remove_filter, reset_columns, on_selection_changed,
  new_screen,
}
use network_observability_cl.Table.Moves.{shows_less, moved_item}
use network_observability_cl.Table.Divisors.{
  Sound, Sound-on_selection_changed, Sound-choose_duration,
}

module _ (kind : Capture) (payloads : Payloads) (available : List ColumnConfig) where
  pub data Press : Screen → Screen → Type 0 where
    escape : (s : Screen) → Press s (reset_selection s)
    tab : (s : Screen) → Press s (on_tab s)
    space : (s : Screen) → Press s (pause (if s.paused then false else true) s)
    less : (s : Screen) → Press s (show_less kind s)
    more : (s : Screen) → Press s (show_more kind s)
    fewer_frames : (s : Screen) → Press s (slower s)
    more_frames : (s : Screen) → Press s (faster s)
    enter : (text : String) (s : Screen) → Press s (enter_filter text s)
    backspace : (text : String) (s : Screen) → Press s (on_backspace text s)
    filter_button : (regex : String) (s : Screen) → Press s (remove_filter regex s)
    display_moves :
        (opt : OptionList) (s : Screen)
        → (next s.display ≡ some opt) ⊎ (prev s.display ≡ some opt)
        → Press s (record s { display = opt })
    enrichment_moves :
        (opt : OptionList) (s : Screen)
        → (next s.enrichment ≡ some opt) ⊎ (prev s.enrichment ≡ some opt)
        → Press s (record s { enrichment = opt })
    back_to_default : (s : Screen) → Press s (reset_columns s)
    pick :
        (row : ℕ) (s : Screen)
        → Press s (record s { selected_columns = on_select available row s.selected_columns })
    pick_defaults :
        (s : Screen) → Press s (record s { selected_columns = restore_defaults available })
    pick_none : (s : Screen) → Press s (record s { selected_columns = [] })
    time_range :
        (index : ℕ) (s after : Screen) → choose_duration index s ≡ some after → Press s after
    row_selected :
        (rows : List GenericMap) (row : ℕ) (s after : Screen)
        → on_selection_changed payloads rows row s ≡ some after
        → Press s after

  pub data Reachable (start : Screen) : Screen → Type 0 where
    here : Reachable start start
    then_press : {s after : Screen} → Reachable start s → Press s after → Reachable start after

  Press-Sound : {s after : Screen} → Press s after → Sound s → Sound after
  unfolding pause reset_selection on_tab show_less show_more slower faster enter_filter on_backspace
      remove_filter reset_columns
  Press-Sound (escape s) h = record {
    shows = h.shows;
    draws = h.draws;
    displays = h.displays;
    enriches = h.enriches;
  }
  Press-Sound (tab s) h = record {
    shows = h.shows;
    draws = h.draws;
    displays = h.displays;
    enriches = h.enriches;
  }
  Press-Sound (space s) h = record {
    shows = h.shows;
    draws = h.draws;
    displays = h.displays;
    enriches = h.enriches;
  }
  Press-Sound (less s) h = record {
    shows = shows_less kind s.show_count h.shows;
    draws = h.draws;
    displays = h.displays;
    enriches = h.enriches;
  }
  Press-Sound (more s) h = record {
    shows = omega (arith, h.shows);
    draws = h.draws;
    displays = h.displays;
    enriches = h.enriches;
  }
  Press-Sound (fewer_frames s) h = record {
    shows = h.shows;
    draws = ground (arith, h.draws);
    displays = h.displays;
    enriches = h.enriches;
  }
  Press-Sound (more_frames s) h = record {
    shows = h.shows;
    draws = omega (arith, h.draws);
    displays = h.displays;
    enriches = h.enriches;
  }
  Press-Sound (enter text s) h = record {
    shows = h.shows;
    draws = h.draws;
    displays = h.displays;
    enriches = h.enriches;
  }
  Press-Sound (backspace text s) h = record {
    shows = h.shows;
    draws = h.draws;
    displays = h.displays;
    enriches = h.enriches;
  }
  Press-Sound (filter_button regex s) h = record {
    shows = h.shows;
    draws = h.draws;
    displays = h.displays;
    enriches = h.enriches;
  }
  Press-Sound (display_moves opt s m) h = record {
    shows = h.shows;
    draws = h.draws;
    displays = (
      (moved_item s.display opt m).0,
      ground (arith, (moved_item s.display opt m).1, h.displays.1),
    );
    enriches = h.enriches;
  }
  Press-Sound (enrichment_moves opt s m) h = record {
    shows = h.shows;
    draws = h.draws;
    displays = h.displays;
    enriches = (moved_item s.enrichment opt m).0;
  }
  Press-Sound (back_to_default s) h = record {
    shows = h.shows;
    draws = h.draws;
    displays = (h.displays.1, h.displays.1);
    enriches = h.enriches;
  }
  Press-Sound (pick row s) h = record {
    shows = h.shows;
    draws = h.draws;
    displays = h.displays;
    enriches = h.enriches;
  }
  Press-Sound (pick_defaults s) h = record {
    shows = h.shows;
    draws = h.draws;
    displays = h.displays;
    enriches = h.enriches;
  }
  Press-Sound (pick_none s) h = record {
    shows = h.shows;
    draws = h.draws;
    displays = h.displays;
    enriches = h.enriches;
  }
  Press-Sound (time_range index s after e) h = Sound-choose_duration payloads index s after e h
  Press-Sound (row_selected rows row s after e) h =
      Sound-on_selection_changed payloads rows row s after e h

  new_screen-Sound : (show_count : ℕ) → 0 < show_count → Sound (new_screen show_count)
  new_screen-Sound show_count h = record {
    shows = h;
    draws = omega arith;
    displays = (omega arith, omega arith);
    enriches = omega arith;
  }

  -- Every screen that is reached from the start with a positive showCount, by any keys, buttons,
  -- time ranges and selections that do not panic, has a positive showCount and a positive number
  -- of frames per second, so that the divisions by them do not panic, and its display and
  -- enrichment are each on one of their items.
  pub Reachable-Sound :
      (show_count : ℕ) (s : Screen) → 0 < show_count → Reachable (new_screen show_count) s → Sound s
  Reachable-Sound show_count s h here = new_screen-Sound show_count h
  Reachable-Sound show_count s h (then_press r p) = Press-Sound p (Reachable-Sound show_count _ h r)
