-- ===== src/Record.antt =====
-- config.GenericMap, the JSON object that the agent sends for a flow, a packet or a plaintext event:
-- map[string]interface{}, read and written throughout cmd/packet_capture*.go.
--
-- A map is an association list. Its order stands for the order in which a `range` visits the keys,
-- which Go leaves open: every theorem is about all lists, so about all orders.
pub mod Laws
use network_observability_cl.Base.{
  ℕ, ◌/◌, ◌^◌, String, Bool, true, false, not, Option, none, some, List, [], ◌∷◌, ℤ, pos, negsuc,
  zero, suc, str_eq, ltb, if◌then◌else◌,
}

-- A finite float64 is num / 2 ^ scale; JSON numbers are finite.
pub record Float64 : Type 0 where
  pub num : ℤ
  pub scale : ℕ

-- What an interface{} of the map holds. The CLI itself stores the last five kinds.
mutual
  pub data Value : Type 0 where
    null : Value
    text : String → Value
    float : Float64 → Value
    arr : Values → Value
    obj : Fields → Value
    bool : Bool → Value
    uint16 : ℕ → Value
    uint64 : ℕ → Value
    int : ℤ → Value
    int64 : ℤ → Value

  pub data Values : Type 0 where
    nil : Values
    cons : Value → Values → Values

  pub data Fields : Type 0 where
    end : Fields
    field : String → Value → Fields → Fields

abbrev pub GenericMap : Type 0
GenericMap = List (String × Value)

-- int64(v), which drops the fraction. The conversion is taken for the values that an int64 holds.
unfoldable pub truncate_ratio : ℤ → ℕ → ℤ
truncate_ratio (pos n) d = pos (n / d)
truncate_ratio (negsuc n) d = elim (suc n / d) [ zero ↦ pos 0 | suc k ↦ negsuc k ]

abbrev pub truncate_float : Float64 → ℤ
truncate_float f = truncate_ratio f.num (2 ^ f.scale)

-- v > 0.
abbrev pub is_positive : ℤ → Bool
is_positive (pos n) = ltb 0 n
is_positive (negsuc n) = false

-- v != 0.
abbrev pub is_nonzero : ℤ → Bool
is_nonzero (pos n) = ltb 0 n
is_nonzero (negsuc n) = true

abbrev pub integer : ℕ → Value
integer n = float (record { num = pos n; scale = 0 })

-- v, ok := m[key].
unfoldable pub lookup : String → GenericMap → Option Value
lookup k [] = none
lookup k ((j, v) ∷ m) = if str_eq j k then some v else lookup k m

abbrev pub or_null : Option Value → Value
or_null none = null
or_null (some v) = v

-- m[key], nil where the key is missing.
abbrev pub at : GenericMap → String → Value
at m k = or_null (lookup k m)

-- m[key] = v.
unfoldable pub put : String → Value → GenericMap → GenericMap
put k v [] = (k, v) ∷ []
put k v ((j, w) ∷ m) = if str_eq j k then (j, v) ∷ m else (j, w) ∷ put k v m

-- for key := range m { if drop(key) { delete(m, key) } }
unfoldable pub delete_where : (String → Bool) → GenericMap → GenericMap
delete_where drop [] = []
delete_where drop ((j, w) ∷ m) =
    if drop j then delete_where drop m else (j, w) ∷ delete_where drop m

-- s, ok := v.(string).
abbrev pub as_text : Value → Option String
as_text (text s) = some s
as_text _ = none

-- s, _ := v.(string).
abbrev pub text_or_empty : Value → String
text_or_empty (text s) = s
text_or_empty _ = ""

-- v == "s" on an interface{}.
abbrev pub is_text : String → Value → Bool
is_text s (text t) = str_eq t s
is_text s _ = false
