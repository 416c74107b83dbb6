-- ===== src/Table/Suggestions.antt =====
-- The suggestions of cmd/flow_display.go, and the texts of the flows they are taken from.
use network_observability_cl.Base.{
  ◌≡◌, ◌↔◌, ◌⊎◌, refl, sym, subst, ◌∙◌, arith, String, str_eq, str_eq_iff, true, ◌||◌, List, [],
  ◌∷◌, ◌++◌, Bool-cases, inl, inr,
}
use mathlib.Core.List.{Memᴰ}
use mathlib.Core.List.Memᴰ
use network_observability_cl.Record.{GenericMap, Value}
use network_observability_cl.Table.Columns.{contains_text, append_new}
use network_observability_cl.Table.Picker.{
  Distinct, contains_text-append, Distinct-append, same_text,
}
use network_observability_cl.Table.Cells.{Printer, flow_texts, all_texts, update_suggestions}

append_new-Distinct :
    (cols ids : List String) (j : String)
    → Distinct cols
    → Distinct (append_new cols ids)
      × (contains_text (append_new cols ids) j ≡ (contains_text cols j || contains_text ids j))
unfolding append_new contains_text
append_new-Distinct cols [] j h = (h, ground arith)
append_new-Distinct cols (id ∷ ids) j h = elim (Bool-cases (contains_text cols id)) [
  | inl there ↦
      let rest = append_new-Distinct cols ids j h in
      rw there (rest.0, ground (arith, rest.1, same_text id j cols, there))
  | inr fresh ↦
      let rest = append_new-Distinct (cols ++ id ∷ []) ids j (Distinct-append cols id h fresh) in
      rw fresh (rest.0, ground (arith, rest.1, contains_text-append cols id j))
]

-- The text is a key of one of the flows, or the printed value of one of its entries.
abbrev pub IsEntryText : Printer → GenericMap → String → Type 0
IsEntryText printer flow s =
    (key : String) × (v : Value) × Memᴰ (key, v) flow × ((s ≡ key) ⊎ (s ≡ printer.value_text v))

abbrev pub IsText : Printer → List GenericMap → String → Type 0
IsText printer flows s = (flow : GenericMap) × Memᴰ flow flows × IsEntryText printer flow s

contains_text-++ :
    (xs ys : List String) (s : String)
    → contains_text (xs ++ ys) s ≡ (contains_text xs s || contains_text ys s)
unfolding contains_text
contains_text-++ [] ys s = refl
contains_text-++ (x ∷ xs) ys s = ground (arith, contains_text-++ xs ys s)

entry_later :
    (printer : Printer) (flow : GenericMap) (entry : String × Value) (s : String)
    → IsEntryText printer flow s
    → IsEntryText printer (entry ∷ flow) s
entry_later printer flow entry s (key, v, there, t) = (key, v, Memᴰ.tail there, t)

flow_texts-found :
    (printer : Printer) (flow : GenericMap) (s : String)
    → contains_text (flow_texts printer flow) s ≡ true
    → IsEntryText printer flow s
unfolding contains_text
flow_texts-found printer [] s h = cc
flow_texts-found printer ((k, v) ∷ flow) s h = elim (Bool-cases (str_eq k s)) [
  | inl key ↦ (k, v, Memᴰ.head refl, inl (sym ((str_eq_iff k s).0 key)))
  | inr other ↦ elim (Bool-cases (str_eq (printer.value_text v) s)) [
    | inl value ↦ (k, v, Memᴰ.head refl, inr (sym ((str_eq_iff (printer.value_text v) s).0 value)))
    | inr neither ↦
        entry_later printer flow (k, v) s
          (flow_texts-found printer flow s (rw (other, neither) at h))
  ]
]

entry_text-holds :
    (printer : Printer) (flow : GenericMap) (s : String) (k : String) (v : Value)
    → (s ≡ k) ⊎ (s ≡ printer.value_text v)
    → contains_text (flow_texts printer ((k, v) ∷ flow)) s ≡ true
unfolding contains_text
entry_text-holds printer flow s k v (inl e) = ground (arith, (str_eq_iff k s).1 (sym e))
entry_text-holds printer flow s k v (inr e) =
    ground (arith, (str_eq_iff (printer.value_text v) s).1 (sym e))

flow_texts-holds :
    (printer : Printer) (flow : GenericMap) (s : String) (k : String) (v : Value)
    → Memᴰ (k, v) flow
    → (s ≡ k) ⊎ (s ≡ printer.value_text v)
    → contains_text (flow_texts printer flow) s ≡ true
unfolding contains_text
flow_texts-holds printer [] s k v there t = absurd (Memᴰ.not-nil there)
flow_texts-holds printer (entry ∷ flow) s k v (Memᴰ.head e) t =
    subst (λ x. contains_text (flow_texts printer (x ∷ flow)) s ≡ true) e
      (entry_text-holds printer flow s k v t)
flow_texts-holds printer (entry ∷ flow) s k v (Memᴰ.tail there) t =
    ground (arith, flow_texts-holds printer flow s k v there t)

all_texts-found :
    (printer : Printer) (flows : List GenericMap) (s : String)
    → contains_text (all_texts printer flows) s ≡ true
    → IsText printer flows s
unfolding contains_text
all_texts-found printer [] s h = cc
all_texts-found printer (flow ∷ flows) s h =
    elim (Bool-cases (contains_text (flow_texts printer flow) s)) [
      | inl here ↦ (flow, Memᴰ.head refl, flow_texts-found printer flow s here)
      | inr other ↦
          let (later, there, t) = all_texts-found printer flows s (
            ground (
              arith,
              other,
              h,
              contains_text-++ (flow_texts printer flow) (all_texts printer flows) s,
            )) in
          (later, Memᴰ.tail there, t)
    ]

all_texts-holds :
    (printer : Printer) (flows : List GenericMap) (s : String) (flow : GenericMap)
    → Memᴰ flow flows
    → contains_text (flow_texts printer flow) s ≡ true
    → contains_text (all_texts printer flows) s ≡ true
all_texts-holds printer [] s flow there h = absurd (Memᴰ.not-nil there)
all_texts-holds printer (f ∷ flows) s flow (Memᴰ.head e) h = ground (
  arith,
  contains_text-++ (flow_texts printer f) (all_texts printer flows) s,
  subst (λ g. contains_text (flow_texts printer g) s ≡ true) e h,
)
all_texts-holds printer (f ∷ flows) s flow (Memᴰ.tail there) h = ground (
  arith,
  contains_text-++ (flow_texts printer f) (all_texts printer flows) s,
  all_texts-holds printer flows s flow there h,
)

-- The suggestions for any shown flows hold no text twice, and a text is among them exactly if it is a
-- key of one of the flows, or what the value under one of its keys is printed as.
pub update_suggestions-Distinct :
    (printer : Printer) (flows : List GenericMap) (s : String)
    → Distinct (update_suggestions printer flows)
      × ((contains_text (update_suggestions printer flows) s ≡ true) ↔ IsText printer flows s)
unfolding update_suggestions contains_text
update_suggestions-Distinct printer flows s =
    let (distinct, same) = append_new-Distinct [] (all_texts printer flows) s tt in
    (
      distinct,
      (
        λ h. all_texts-found printer flows s (sym same ∙ h),
        λ (flow, there, (k, v, stands, t)).
            same
            ∙ all_texts-holds printer flows s flow there
                (flow_texts-holds printer flow s k v stands t),
      ),
    )
