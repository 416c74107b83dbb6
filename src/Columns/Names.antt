-- ===== src/Columns/Names.antt =====
-- The names and widths of the columns, and the cut of a cell: toFieldName, toColWidth, toColID,
-- toColName, toMetricName and ellipsizeAndPad of cmd/map_format.go. The configured columns, the
-- replacer of the names and the encoding of runes are parameters.
use network_observability_cl.Base.{
  take, ◌≡◌, ℕ, ◌+◌, ◌-◌, ◌<◌, zero, suc, String, Bool, ◌&&◌, ◌||◌, not, Option, none, some, List,
  [], ◌∷◌, ◌++◌, Bytes, length, str_eq, ltb, ◌==◌, All, if◌then◌else◌,
}
use network_observability_cl.Base.Strings.{is_space, contains, concat}
use network_observability_cl.Table.Columns.{ColumnConfig}

-- slices.IndexFunc, and the column at the index.
unfoldable pub column_where : (ColumnConfig → Bool) → List ColumnConfig → Option ColumnConfig
column_where test [] = none
column_where test (c ∷ columns) =
    let later = column_where test columns in if test c then some c else later

unfoldable pub to_field_name : List ColumnConfig → String → String
to_field_name columns id = elim (column_where (λ c. str_eq c.id id) columns) [
  | none ↦ ""
  | some c ↦ c.field
]

unfoldable pub to_col_id : List ColumnConfig → String → String
to_col_id columns field_name = elim (column_where (λ c. str_eq c.field field_name) columns) [
  | none ↦ ""
  | some c ↦ c.id
]

unfoldable pub to_col_width : List ColumnConfig → ℕ → String → ℕ
to_col_width columns extra_width id =
    if str_eq id "Raw"
    then 0
    else extra_width
      + (elim (column_where (λ c. str_eq c.id id) columns) [ none ↦ 6 | some c ↦ c.width ])

-- Runes as their bytes, and the number of runes of a text.
pub record Runes : Type 0 where
  pub encode : ℕ → Bytes
  pub rune_count : Bytes → ℕ

-- What package unicode/utf8 documents, for one-byte runes around at most one other.
pub record RunesLaws (runes : Runes) : Type 0 where
  pub encode_ascii : (r : ℕ) → r < 128 → runes.encode r ≡ r ∷ []
  pub count_ascii : (text : Bytes) → All (λ b. b < 128) text → runes.rune_count text ≡ length text
  pub count_around :
      (front back : Bytes) (r : ℕ)
      → All (λ b. b < 128) front
      → All (λ b. b < 128) back
      → runes.rune_count (front ++ runes.encode r ++ back) ≡ length front + suc (length back)

abbrev pub spaces : ℕ → Bytes
spaces zero = []
spaces (suc n) = 32 ∷ spaces n

module _ (runes : Runes) where
  abbrev pub encode_all : List ℕ → Bytes
  encode_all [] = []
  encode_all (r ∷ text) = runes.encode r ++ encode_all text

  -- The loop, at byte i after current_len runes; none where the text fits.
  unfoldable pub cut_offset : ℕ → List ℕ → ℕ → ℕ → ℕ → Option ℕ
  cut_offset limit [] i current_len last_part = none
  cut_offset limit (r ∷ text) i current_len last_part =
      let after =
        cut_offset limit text (i + length (runes.encode r)) (suc current_len)
          (if is_space r || r == b'_' then i else last_part) in
      if ltb limit (suc current_len) then some last_part else after

  abbrev pub truncated : List ℕ → Option ℕ → Bytes
  truncated text none = encode_all text
  truncated text (some cut) = take cut (encode_all text) ++ runes.encode 0x2026

  -- fmt.Sprintf("%-*s", length, text).
  abbrev pub padded : ℕ → Bytes → Bytes
  padded limit text = text ++ spaces (limit - runes.rune_count text)

  unfoldable pub ellipsize_and_pad : List ℕ → ℕ → Bytes
  ellipsize_and_pad text zero = encode_all text
  ellipsize_and_pad text (suc n) =
      padded (suc n) (truncated text (cut_offset (suc n) text 0 0 (suc n)))

  -- The replacer maps a name to the runes that are shown.
  module _ (replace : String → List ℕ) where
    abbrev pub full_name : ColumnConfig → String
    full_name c =
        if not (str_eq c.group "") && not (contains c.name c.group)
        then concat c.group (concat " " c.name)
        else c.name

    unfoldable pub to_col_name : List ColumnConfig → String → ℕ → Bytes
    to_col_name columns id width =
        ellipsize_and_pad
          (replace (elim (column_where (λ c. str_eq c.id id) columns) [
            | none ↦ id
            | some c ↦ full_name c
          ]))
          width

    -- without is strings.ReplaceAll(name, part, "").
    unfoldable pub to_metric_name : (String → String → String) → String → ℕ → Bytes
    to_metric_name without query width =
        ellipsize_and_pad (replace (without (without query "on_demand_netobserv_") "[2m]")) width
