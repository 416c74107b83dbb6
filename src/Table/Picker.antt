-- ===== src/Table/Picker.antt =====
-- The picker of columns of cmd/flow_display.go: what a sequence of presses selects.
use network_observability_cl.Base.{
  ◌≡◌, refl, sym, ap, ◌∙◌, arith, ℕ, String, Bool, true, false, not, ◌||◌, Option, none, some, List,
  [], ◌∷◌, ◌++◌, str_eq, str_eq_iff, get_elem?, if◌then◌else◌, Bool-cases, inl, inr,
}
use network_observability_cl.Table.Columns.{
  ColumnConfig, contains_text, without, toggle, toggle_at, on_select,
}

-- No text stands twice.
abbrev pub Distinct : List String → Type 0
Distinct [] = Unit
Distinct (v ∷ vs) = (contains_text vs v ≡ false) × Distinct vs

abbrev pub xor : Bool → Bool → Bool
xor true b = not b
xor false b = b

pub contains_text-append :
    (xs : List String) (y j : String)
    → contains_text (xs ++ y ∷ []) j ≡ (contains_text xs j || str_eq y j)
unfolding contains_text
contains_text-append [] y j = ground arith
contains_text-append (x ∷ xs) y j = ground (arith, contains_text-append xs y j)

removed : String → List String → List String
removed id [] = []
removed id (v ∷ vs) = if str_eq v id then vs else v ∷ removed id vs

without-removed :
    (id : String) (vs : List String)
    → without id vs ≡ (if contains_text vs id then some (removed id vs) else none)
unfolding contains_text without removed
without-removed id [] = refl
without-removed id (v ∷ vs) = elim (Bool-cases (str_eq v id)) [
  | inl hit ↦ rw hit refl
  | inr miss ↦ elim (Bool-cases (contains_text vs id)) [
    | inl in_tail ↦ rw (miss, without-removed id vs, in_tail) refl
    | inr nowhere ↦ rw (miss, without-removed id vs, nowhere) refl
  ]
]

toggle-removed :
    (id : String) (vs : List String)
    → toggle id vs ≡ (if contains_text vs id then removed id vs else vs ++ id ∷ [])
unfolding toggle
toggle-removed id vs = elim (Bool-cases (contains_text vs id)) [
  | inl there ↦ rw (toggle, without-removed id vs, there) refl
  | inr absent ↦ rw (toggle, without-removed id vs, absent) refl
]

contains_text-removed :
    (id j : String) (vs : List String)
    → Distinct vs
    → contains_text (removed id vs) j ≡ (if str_eq id j then false else contains_text vs j)
unfolding contains_text removed
contains_text-removed id j [] h = ground arith
contains_text-removed id j (v ∷ vs) h = ground (
  arith,
  h.0,
  str_eq_iff v id,
  str_eq_iff v j,
  str_eq_iff id j,
  contains_text-removed id j vs h.1,
)

pub same_text :
    (id j : String) (vs : List String)
    → str_eq id j ≡ true
    → contains_text vs j ≡ contains_text vs id
same_text id j vs e = ap (contains_text vs) (sym ((str_eq_iff id j).0 e))

-- A press changes the membership of its own id, and of no other.
contains_text-toggle :
    (id j : String) (vs : List String)
    → Distinct vs
    → contains_text (toggle id vs) j ≡ xor (str_eq id j) (contains_text vs j)
contains_text-toggle id j vs h = elim (Bool-cases (contains_text vs id)) [
  | inl there ↦
      rw (toggle-removed id vs, there)
        (ground (arith, contains_text-removed id j vs h, same_text id j vs, there))
  | inr absent ↦
      rw (toggle-removed id vs, absent)
        (ground (arith, contains_text-append vs id j, same_text id j vs, absent))
]

Distinct-removed : (id : String) (vs : List String) → Distinct vs → Distinct (removed id vs)
unfolding removed
Distinct-removed id [] h = tt
Distinct-removed id (v ∷ vs) h = elim (Bool-cases (str_eq v id)) [
  | inl hit ↦ rw hit h.1
  | inr miss ↦
      rw miss (ground (arith, contains_text-removed id v vs h.1, h.0), Distinct-removed id vs h.1)
]

pub Distinct-append :
    (vs : List String) (id : String)
    → Distinct vs
    → contains_text vs id ≡ false
    → Distinct (vs ++ id ∷ [])
unfolding contains_text
Distinct-append [] id h absent = (refl, tt)
Distinct-append (v ∷ vs) id h absent = (
  ground (arith, contains_text-append vs id v, h.0, str_eq_iff v id, str_eq_iff id v, absent),
  Distinct-append vs id h.1 (ground (arith, absent)),
)

Distinct-toggle : (id : String) (vs : List String) → Distinct vs → Distinct (toggle id vs)
Distinct-toggle id vs h = elim (Bool-cases (contains_text vs id)) [
  | inl there ↦ rw (toggle-removed id vs, there) (Distinct-removed id vs h)
  | inr absent ↦ rw (toggle-removed id vs, absent) (Distinct-append vs id h absent)
]

xor_assoc : (a b c : Bool) → xor b (xor a c) ≡ xor (xor a b) c
xor_assoc true true c = ground arith
xor_assoc true false c = refl
xor_assoc false b c = refl

module _ (available : List ColumnConfig) where
  -- Presses on rows of the picker, one after the other.
  abbrev pub presses : List ℕ → List String → List String
  presses [] selected = selected
  presses (row ∷ rows) selected = presses rows (on_select available row selected)

  abbrev has_id : String → Option ColumnConfig → Bool
  has_id id none = false
  has_id id (some c) = str_eq c.id id

  press-has_id :
      (c : Option ColumnConfig) (selected : List String) (id : String)
      → Distinct selected
      → Distinct (toggle_at c selected)
        × (contains_text (toggle_at c selected) id ≡ xor (has_id id c) (contains_text selected id))
  press-has_id none selected id h = (h, refl)
  press-has_id (some c) selected id h =
      (Distinct-toggle c.id selected h, contains_text-toggle c.id id selected h)

  -- Whether the presses on a column are odd in number.
  abbrev pub pressed_odd : String → List ℕ → Bool
  pressed_odd id [] = false
  pressed_odd id (row ∷ rows) = xor (has_id id (get_elem? available row)) (pressed_odd id rows)

  -- After any presses on rows of the picker, on a selection without repetitions, the selection has
  -- no repetition, and a column is selected exactly if it was and the presses on it are even in
  -- number, or it was not and they are odd.
  pub presses-pressed_odd :
      (rows : List ℕ) (selected : List String) (id : String)
      → Distinct selected
      → Distinct (presses rows selected)
        × (contains_text (presses rows selected) id
            ≡ xor (pressed_odd id rows) (contains_text selected id))
  unfolding on_select
  presses-pressed_odd [] selected id h = (h, refl)
  presses-pressed_odd (row ∷ rows) selected id h =
      let one = press-has_id (get_elem? available row) selected id h in
      let rest = presses-pressed_odd rows (on_select available row selected) id one.0 in
      (
        rest.0,
        rest.1
            ∙ ap (xor (pressed_odd id rows)) one.1
            ∙ xor_assoc (has_id id (get_elem? available row)) (pressed_odd id rows)
                (contains_text selected id),
      )
