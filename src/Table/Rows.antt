-- ===== src/Table/Rows.antt =====
-- The rows on the screen: getFlows and trimFlowsToShowCount of cmd/flow_display.go.
use network_observability_cl.Base.{
  ℕ, ◌-◌, String, Bool, true, false, ◌&&◌, ◌||◌, Option, none, some, List, [], ◌∷◌, ◌++◌, ℤ,
  pos_part, neg_part, leb, ◌==◌, length, drop, keep, if◌then◌else◌,
}
use network_observability_cl.Endpoint.{◌>>=◌}
use network_observability_cl.Record.{Value, int, GenericMap, at}
use network_observability_cl.Table.Order.{Capture, packet, Host, sort_entries}
use network_observability_cl.Table.Buffers.{Table, packet_capture_flow_snapshot}

-- i == j on ints.
abbrev pub eq_ℤ : ℤ → ℤ → Bool
eq_ℤ i j = pos_part i == pos_part j && neg_part i == neg_part j

-- v.(int); none is the panic on another type.
abbrev pub asserted_int : Value → Option ℤ
asserted_int (int i) = some i
asserted_int _ = none

abbrev pub index_of : GenericMap → Option ℤ
index_of m = asserted_int (at m "Index")

unfoldable pub indexes_of : List GenericMap → Option (List ℤ)
indexes_of [] = some []
indexes_of (m ∷ ms) = do i ← index_of m; is ← indexes_of ms; some (i ∷ is)

-- slices.Contains.
unfoldable pub contains_index : List ℤ → ℤ → Bool
contains_index [] i = false
contains_index (j ∷ js) i = eq_ℤ j i || contains_index js i

abbrev pub unless_among : List ℤ → GenericMap → ℤ → List GenericMap → List GenericMap
unless_among indexes row i rows = if contains_index indexes i then rows else row ∷ rows

-- The shown rows that are no longer among the entries.
unfoldable pub missing_flows : List ℤ → List GenericMap → Option (List GenericMap)
missing_flows indexes [] = some []
missing_flows indexes (row ∷ rows) = do
  i ← index_of row
  rest ← missing_flows indexes rows
  some (unless_among indexes row i rest)

unfoldable pub with_missing : Capture → List GenericMap → List GenericMap → Option (List GenericMap)
with_missing packet shown entries = some entries
with_missing _ shown entries = do
  indexes ← indexes_of entries
  missing ← missing_flows indexes shown
  some (missing ++ entries)

-- Every regex matches: the loop over the copy of the regexes, left at the first that does not.
unfoldable pub matches_all : (String → GenericMap → Bool) → List String → GenericMap → Bool
matches_all matches [] m = true
matches_all matches (r ∷ rs) m = if matches r m then matches_all matches rs m else false

module _ (host : Host) (kind : Capture) where
  abbrev pub resorted : List GenericMap → Option (List GenericMap)
  resorted entries = elim kind [ packet ↦ sort_entries host packet entries | _ ↦ some entries ]

  abbrev pub trim_long : List GenericMap → ℕ → Option (List GenericMap)
  trim_long entries limit = do
    sorted ← resorted entries
    some (drop (length entries - limit) sorted)

  -- The limit is never negative: the buttons stop before.
  unfoldable pub trim_flows_to_show_count : List GenericMap → ℕ → Option (List GenericMap)
  trim_flows_to_show_count entries limit =
      if limit == 0
      then some []
      else (if leb (length entries) limit then some entries else trim_long entries limit)

  -- matches r m is regexp.MatchString(r, fmt.Sprintf("%v", m)), false on an error.
  unfoldable pub get_flows :
      String
      → (String → GenericMap → Bool)
      → List String
      → ℕ
      → List GenericMap
      → Table
      → Option (List GenericMap)
  get_flows options matches regexes show_count shown t = do
    entries ← packet_capture_flow_snapshot host kind options t
    candidates ← with_missing kind shown entries
    trim_flows_to_show_count (keep (matches_all matches regexes) candidates) show_count
