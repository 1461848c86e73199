-- ===== src/Client/Window.antt =====
-- The keys of the window on providers, in `Update` of internal/client/tui_model.go.
use krellin.Prelude.{
  ◌+◌, ◌-◌, true, false, not, ◌&&◌, Option, none, some, [], ◌∷◌, ltb, ◌==◌, if◌then◌else◌, length,
  get_elem?,
}
use krellin.Prelude.Text.{text_eq}
use krellin.Client.Widgets.{
  Widgets, Key, esc, tab, down, shift_tab, up, ctrl_s, enter, space, letter_a, letter_e, letter_d,
}
use krellin.Client.Model.{
  Model, Info, list_mode, send_set_active, send_delete, send_toggle, Outcome, done, panics,
}
use krellin.Client.Form.{set_add_field, open_agents_add, open_agents_edit, submit_add, in_field}

module _ (w : Widgets) where
  -- A key that the form's fields take.
  abbrev pub field_key : Key → Model w → Outcome w
  field_key k m = done (in_field w (w.press k) m) []

  -- The keys of the form.
  unfoldable pub add_key : Key → Model w → Outcome w
  add_key esc m = done (record m { agents_mode = list_mode }) []
  add_key tab m = done (set_add_field w (m.add_field_idx + 1) m) []
  add_key down m = done (set_add_field w (m.add_field_idx + 1) m) []
  add_key shift_tab m = done (set_add_field w (m.add_field_idx - 1) m) []
  add_key up m = done (set_add_field w (m.add_field_idx - 1) m) []
  add_key ctrl_s m = submit_add w m
  add_key enter m =
      if ltb m.add_field_idx (length m.add_fields)
      then done (set_add_field w (m.add_field_idx + 1) m) []
      else submit_add w m
  add_key space m =
      if m.add_field_idx == length m.add_fields
      then done (record m { add_enabled = not m.add_enabled }) []
      else field_key space m
  add_key k m = field_key k m

  abbrev pub disarmed : Model w → Model w
  disarmed m = record m { delete_pending = false; delete_name = [] }

  -- What is done with the selected provider, if there are any.
  abbrev pub with_selected : (Info → Outcome w) → Model w → Outcome w
  with_selected act m =
      if length m.agents_providers == 0
      then done m []
      else elim (get_elem? m.agents_providers m.agents_selected) [ none ↦ panics | some p ↦ act p ]

  -- The key d asks first, and deletes when it is pressed again.
  unfoldable pub delete_key : Model w → Info → Outcome w
  delete_key m p =
      if m.delete_pending && text_eq m.delete_name p.name
      then done (disarmed m) (send_delete p.name ∷ [])
      else done (record m { delete_pending = true; delete_name = p.name }) []

  -- The keys of the list; `none` for the others.
  unfoldable pub list_key : Key → Model w → Option (Outcome w)
  list_key esc m = some (done (record (disarmed m) { agents_open = false }) [])
  list_key up m = some (done (record (disarmed m) { agents_selected = m.agents_selected - 1 }) [])
  list_key down m = some (
      done
        (record (disarmed m) {
          agents_selected =
              if ltb (m.agents_selected + 1) (length m.agents_providers)
              then m.agents_selected + 1
              else m.agents_selected;
        })
        [])
  list_key enter m =
      some (with_selected (λ p. done (disarmed m) (send_set_active p.name ∷ [])) (disarmed m))
  list_key space m = some (
      with_selected (λ p. done (disarmed m) (send_toggle p.name (not p.enabled) ∷ [])) (disarmed m))
  list_key letter_a m = some (done (open_agents_add w (disarmed m)) [])
  list_key letter_e m =
      some (with_selected (λ p. done (open_agents_edit w p (disarmed m)) []) (disarmed m))
  list_key letter_d m = some (with_selected (delete_key m) m)
  list_key k m = none
