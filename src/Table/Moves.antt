-- ===== src/Table/Moves.antt =====
-- Single moves of the screen of cmd/display.go: its counts, its cursors and its focus.
use native.Mathlib.Nat.{mod-lt}
use network_observability_cl.Base.{
  ◌&&◌, ltb, ◌-◌, ◌==◌, some_eq, ◌≡◌, refl, subst, arith, ℕ, ◌+◌, ◌<◌, zero, suc, String, Bool,
  true, false, some, ◌⊎◌, inl, inr, length, Bool-cases, get_elem?, if◌then◌else◌,
}
use network_observability_cl.Options.{OptionList, next, prev, moved_to}
use network_observability_cl.Options.Cursor.{OnItem}
use network_observability_cl.Table.Order.{Capture, flow, packet, metric}
use network_observability_cl.Table.Controls.{
  focus_after, has_bytes, Screen, Focus, input_field, table, hex, on_tab, metric_counts, durations,
}

-- A button leaves at least one row or point.
pub shows_less :
    (kind : Capture) (n : ℕ)
    → 0 < n
    → 0 < (if ltb 5 n then n - (elim kind [ metric ↦ 5 | _ ↦ 1 ]) else n)
shows_less flow n h = ground (arith, h)
shows_less packet n h = ground (arith, h)
shows_less metric n h = ground (arith, h)

-- A cursor that moved is on an item of the same list.
moved :
    (i : ℕ) (opt after : OptionList)
    → moved_to i opt ≡ some after
    → OnItem after × (length after.all ≡ length opt.all)
moved i opt after e = elim (Bool-cases (length opt.all == 0)) [
  | inl empty ↦ cc (rw empty at e)
  | inr other ↦
      subst (λ o. OnItem o × (length o.all ≡ length opt.all)) (some_eq (rw other at e))
        (mod-lt i (ground arith), refl)
]

pub moved_item :
    (opt after : OptionList)
    → (next opt ≡ some after) ⊎ (prev opt ≡ some after)
    → OnItem after × (length after.all ≡ length opt.all)
unfolding next prev
moved_item opt after (inl e) = moved (opt.current + 1) opt after e
moved_item opt after (inr e) = moved (opt.current + (length opt.all - 1)) opt after e

abbrev pub Visits : Focus → Focus → Focus → Focus → Type 0
Visits f a b c = (a ≡ f) ⊎ ((b ≡ f) ⊎ (c ≡ f))

-- Three presses of Tab visit the input field and the table, and the payload where one is shown.
tour :
    (f : Focus) (selected : Bool)
    → let a = focus_after f selected in
      let b = focus_after a selected in
      let c = focus_after b selected in
      Visits input_field a b c × Visits table a b c × (selected ≡ true → Visits hex a b c)
tour input_field true = (inr (inr refl), inl refl, λ e. inr (inl refl))
tour input_field false = (inr (inl refl), inl refl, λ e. cc)
tour table true = (inr (inl refl), inr (inr refl), λ e. inl refl)
tour table false = (inl refl, inr (inl refl), λ e. cc)
tour hex true = (inl refl, inr (inl refl), λ e. inr (inr refl))
tour hex false = (inl refl, inr (inl refl), λ e. cc)

-- From every screen, three presses of Tab put the focus on the input field at one time and on the
-- table at another, and on the payload as well if the table is paused with selected data.
pub on_tab_tour :
    (s : Screen)
    → let a = on_tab s in
      let b = on_tab a in
      let c = on_tab b in
      Visits input_field a.focus b.focus c.focus
      × Visits table a.focus b.focus c.focus
      × ((s.paused && has_bytes s.selected_data) ≡ true → Visits hex a.focus b.focus c.focus)
unfolding on_tab
on_tab_tour s = tour s.focus (s.paused && has_bytes s.selected_data)

-- Every time range has points.
pub some_points :
    (index : ℕ) (d : String) → get_elem? durations index ≡ some d → 0 < metric_counts d
some_points zero d e = subst (λ x. 0 < metric_counts x) (some_eq e) (omega arith)
some_points (suc zero) d e = subst (λ x. 0 < metric_counts x) (some_eq e) (omega arith)
some_points (suc (suc zero)) d e = subst (λ x. 0 < metric_counts x) (some_eq e) (omega arith)
some_points (suc (suc (suc zero))) d e = subst (λ x. 0 < metric_counts x) (some_eq e) (omega arith)
some_points (suc (suc (suc (suc zero)))) d e =
    subst (λ x. 0 < metric_counts x) (some_eq e) (omega arith)
some_points (suc (suc (suc (suc (suc n))))) d e = absurd (cc e)
