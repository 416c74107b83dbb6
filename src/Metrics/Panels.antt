-- ===== src/Metrics/Panels.antt =====
-- The panels of the metric screen: the buttons of getMetricTop and the picker of getMetricsModal
-- (cmd/metric_display.go). The panels are the queries that the graphs are made for.
use network_observability_cl.Base.{
  ℕ, String, Option, none, some, List, [], ◌∷◌, ◌++◌, get_elem?, length, ◌==◌, if◌then◌else◌,
}
use network_observability_cl.Endpoint.{◌>>=◌}
use network_observability_cl.Options.{OptionItem, OptionList, next, prev}
use network_observability_cl.Metrics.{Graph, update_graphs}
use network_observability_cl.Table.Columns.{without}

-- selectedPanels, panels and graphs.
pub record PanelScreen (V : Type 0) : Type 0 where
  pub selected_panels : List String
  pub panels : OptionList
  pub graphs : List (Graph V)

abbrev pub available_panels : List OptionItem → List String
available_panels [] = []
available_panels (item ∷ items) = item.ids ++ available_panels items

module _ {V : Type 0} where
  -- updatePanels and updateGraphs; none is a panic of the cursor.
  unfoldable pub update_panels : PanelScreen V → Option (PanelScreen V)
  update_panels s =
      update_graphs s.selected_panels s.panels >>= λ graphs. some (record s { graphs = graphs })

  abbrev pub at_panels : PanelScreen V → Option OptionList → Option (PanelScreen V)
  at_panels s none = none
  at_panels s (some panels) = update_panels (record s { panels = panels })

  -- The arrows, which are there without selected panels only.
  unfoldable pub next_panels : PanelScreen V → Option (PanelScreen V)
  next_panels s = if length s.selected_panels == 0 then at_panels s (next s.panels) else some s

  unfoldable pub prev_panels : PanelScreen V → Option (PanelScreen V)
  prev_panels s = if length s.selected_panels == 0 then at_panels s (prev s.panels) else some s

  -- The button back to the default panels.
  unfoldable pub reset_panels : PanelScreen V → Option (PanelScreen V)
  reset_panels s =
      update_panels (record s { selected_panels = []; panels = record s.panels { current = 0 } })

  -- A panel that is taken away leaves the graphs as they are until Save; a new one shows at once.
  abbrev pub select_at : PanelScreen V → Option String → Option (PanelScreen V)
  select_at s none = some s
  select_at s (some panel) = elim (without panel s.selected_panels) [
    | some rest ↦ some (record s { selected_panels = rest })
    | none ↦ update_panels (record s { selected_panels = s.selected_panels ++ panel ∷ [] })
  ]

  -- A press on a row of the picker; a row out of range does nothing.
  unfoldable pub select_panel : ℕ → PanelScreen V → Option (PanelScreen V)
  select_panel row s = select_at s (get_elem? (available_panels s.panels.all) row)

  -- The Reset button of the picker.
  unfoldable pub clear_panels : PanelScreen V → Option (PanelScreen V)
  clear_panels s = update_panels (record s { selected_panels = [] })
