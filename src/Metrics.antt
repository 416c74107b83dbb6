-- ===== src/Metrics.antt =====
-- The graphs of the metrics: cmd/metric_display.go, without the plots. A value of Prometheus and
-- the 0 that a new row is filled with are parameters, since a value may be NaN; so is sort.Strings.
pub mod Times
pub mod Panels
pub mod Shape
pub mod Aligned
use network_observability_cl.Base.{
  ℕ, ◌+◌, String, Bool, true, false, ◌||◌, not, Option, none, some, List, [], ◌∷◌, ◌++◌, map, ℤ,
  pos, length, set, get_elem?, ltb, leb, leb_ℤ, str_eq, ◌==◌, if◌then◌else◌, zero, suc,
}
use network_observability_cl.Endpoint.{◌>>=◌}
use network_observability_cl.Options.{OptionItem, OptionList, get_current_item}
use network_observability_cl.Table.Columns.{contains_text, toggle}

pub record Sample (V : Type 0) : Type 0 where
  pub timestamp : ℤ
  pub value : V

-- A series of the matrix; the order of its labels stands for the order of a range over the map.
pub record Series (V : Type 0) : Type 0 where
  pub metric : List (String × String)
  pub values : List (Sample V)

pub record Query : Type 0 where
  pub prom_ql : String
  pub start : ℤ
  pub end : ℤ
  pub query_step : ℕ

pub record Graph (V : Type 0) : Type 0 where
  pub query : Query
  pub labels : List String
  pub legends : List (List (String × String))
  pub graph_data : List (List V)

-- len(colors).
abbrev pub color_count : ℕ
color_count = 25

abbrev pub take {ℓ} : {A : Type ℓ} → ℕ → List A → List A
take zero xs = []
take (suc n) [] = []
take (suc n) (x ∷ xs) = x ∷ take n xs

unfoldable pub add_labels : List String → List (String × String) → List String
add_labels labels [] = labels
add_labels labels ((k, v) ∷ metric) =
    add_labels (if contains_text labels k then labels else labels ++ k ∷ []) metric

-- What the first loop gathers: maxValuesLen and the timestamps beside the labels.
pub record Bases : Type 0 where
  pub labels : List String
  pub max_values_len : ℕ
  pub timestamps : List ℤ

-- The timestamps of a longer series are appended to those that are there.
abbrev pub note_series : {V : Type 0} → Series V → Bases → Bases
note_series s b =
    let longer = ltb b.max_values_len (length s.values) in
    record {
      labels = add_labels b.labels s.metric;
      max_values_len = if longer then length s.values else b.max_values_len;
      timestamps = if longer then b.timestamps ++ map (λ v. v.timestamp) s.values else b.timestamps;
    }

unfoldable pub gather : {V : Type 0} → List (Series V) → Bases → Bases
gather [] b = b
gather (s ∷ matrix) b = gather matrix (note_series s b)

-- The first timestamp that is not before the first sample.
unfoldable pub first_from : ℤ → List ℤ → Option ℕ
first_from first [] = none
first_from first (t ∷ times) =
    let later = first_from first times in
    if leb_ℤ first t then some 0 else elim later [ none ↦ none | some j ↦ some (suc j) ]

-- start: 0 also where there is none.
abbrev pub start_index : Option ℕ → ℕ
start_index none = 0
start_index (some j) = j

-- The rows of series that are left without data.
abbrev pub left_out : {V : Type 0} → List (Series V) → List (List V)
left_out matrix = map (λ s. []) matrix

abbrev pub in_front : {V : Type 0} → List V → Option (List (List V)) → Option (List (List V))
in_front row none = none
in_front row (some rows) = some (row ∷ rows)

-- Where a shorter series starts; none is the panic on a series without samples.
abbrev pub start_of : {V : Type 0} → Bases → List (Sample V) → Option ℕ
start_of b [] = none
start_of b (v ∷ values) = some (start_index (first_from v.timestamp b.timestamps))

abbrev pub no_bases : Bases
no_bases = record { labels = []; max_values_len = 0; timestamps = [] }

module _ {V : Type 0} (zero_value : V) where
  unfoldable pub zeros : ℕ → List V
  zeros zero = []
  zeros (suc n) = zero_value ∷ zeros n

  -- The samples from an index on; what is beyond the row is dropped.
  unfoldable pub place_samples : ℕ → List (Sample V) → List V → List V
  place_samples start [] row = row
  place_samples start (v ∷ values) row = place_samples (suc start) values (set row start v.value)

  abbrev pub placed : ℕ → ℕ → Series V → List V
  placed max start s = place_samples start s.values (zeros max)

  -- The break leaves the loop over all the series.
  abbrev pub shorter_row :
      Bases → Series V → List (Series V) → Option (List (List V)) → ℕ → Option (List (List V))
  shorter_row b s matrix rest start =
      if start == 0
      then some (left_out (s ∷ matrix))
      else in_front (placed b.max_values_len start s) rest

  abbrev pub shorter :
      Bases → Series V → List (Series V) → Option (List (List V)) → Option (List (List V))
  shorter b s matrix rest = do start ← start_of b s.values; shorter_row b s matrix rest start

  -- The second loop.
  unfoldable pub align : Bases → List (Series V) → Option (List (List V))
  align b [] = some []
  align b (s ∷ matrix) =
      let rest = align b matrix in
      if ltb (length s.values) b.max_values_len
      then shorter b s matrix rest
      else in_front (placed b.max_values_len 0 s) rest

  unfoldable pub series_data : Bases → List (Series V) → Option (List (List V))
  series_data b matrix = if ltb 0 b.max_values_len then align b matrix else some (left_out matrix)

  module _ (sort_strings : List String → List String) where
    abbrev pub with_series : List (Series V) → Graph V → Option (Graph V)
    with_series matrix g = do
      rows ← series_data (gather matrix no_bases) matrix
      some (record g {
        labels = sort_strings (gather matrix no_bases).labels;
        legends = map (λ s. s.metric) matrix;
        graph_data = rows;
      })

    -- none is a panic.
    unfoldable pub update_data : List (Series V) → Graph V → Option (Graph V)
    update_data [] g = some (record g { graph_data = [] })
    update_data (s ∷ matrix) g = with_series (take color_count (s ∷ matrix)) g

    -- graphs[index] = …, where the index is in range.
    abbrev pub refreshed : Query → List (Series V) → Graph V → Option (Graph V)
    refreshed query matrix g = update_data matrix (record g { query = query })

    abbrev pub store_at : List (Graph V) → ℕ → Option (Graph V) → Option (List (Graph V))
    store_at graphs index none = none
    store_at graphs index (some g) = some (set graphs index g)

    abbrev pub append_at :
        List (Graph V) → ℕ → Query → List (Series V) → Option (Graph V) → Option (List (Graph V))
    append_at graphs index query matrix none = some graphs
    append_at graphs index query matrix (some g) =
        if str_eq g.query.prom_ql query.prom_ql
        then store_at graphs index (refreshed query matrix g)
        else some graphs

    -- A missing query or matrix is none.
    unfoldable pub append_metrics :
        Bool
        → Option Query
        → Option (List (Series V))
        → ℕ
        → List (Graph V)
        → Option (List (Graph V))
    append_metrics paused (some query) (some matrix) index graphs =
        if paused then some graphs else append_at graphs index query matrix (get_elem? graphs index)
    append_metrics paused none matrix index graphs = some graphs
    append_metrics paused (some query) none index graphs = some graphs

abbrev pub new_query : String → Query
new_query p = record { prom_ql = p; start = pos 0; end = pos 0; query_step = 0 }

-- The graphs of the selected panels, or of the current item; none is the panic of its cursor.
unfoldable pub update_graphs : {V : Type 0} → List String → OptionList → Option (List (Graph V))
update_graphs selected_panels panels = do
  queries ←
      if length selected_panels == 0
      then current_ids (get_current_item panels)
      else some selected_panels
  some (
      map (λ p. record { query = new_query p; labels = []; legends = []; graph_data = [] }) queries)
  where
    current_ids : Option OptionItem → Option (List String)
    current_ids none = none
    current_ids (some item) = some item.ids
