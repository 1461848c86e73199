-- ===== src/Client/Keys.antt =====
-- `Update` of internal/client/tui_model.go.
pub mod Safe
pub mod Deletes
use krellin.Prelude.{
  ℕ, zero, suc, ◌+◌, ◌-◌, ◌/◌, ◌%◌, Bool, true, false, not, ◌&&◌, ◌||◌, Option, none, some, List,
  [], ◌∷◌, ◌++◌, ltb, leb, ◌==◌, if◌then◌else◌, length, get_elem?,
}
use krellin.Prelude.Text.{Text, codes, text_eq, is_empty, trim_space}
use krellin.Prelude.Result.{Result, ok, err}
use krellin.Client.Widgets.{
  Widgets, Key, pgup, ctrl_u, pgdown, ctrl_d, shift_up, shift_down, home, to_end, esc, tab, down,
  shift_tab, up, ctrl_s, enter, return_key, space, letter_a, letter_e, letter_d, ctrl_c, typed,
}
use krellin.Client.Model.{
  Model, Info, Mode, unset, list_mode, add_mode, Effect, quit, think_tick, mouse_temp_reset,
  send_set_active, send_delete, send_toggle, Outcome, done, panics,
}
use krellin.Client.Timeline.{update_output, append_terminal, append_command_output}
use krellin.Client.Form.{set_add_field, open_agents_add, open_agents_edit, submit_add, in_field}
use krellin.Client.Incoming.{Incoming, apply_event}
use krellin.Client.Commands.{entered}
use krellin.Client.Window.{add_key, list_key}

-- The messages. A key comes with the time in nanoseconds, a mouse message with whether shift is held.
pub data Msg : Type 0 where
  window_size : ℕ → ℕ → Msg
  key : ℕ → Key → Msg
  mouse : Bool → Msg
  event : Option Text → Incoming → Msg
  failure paste : Text → Msg
  local_result : Result Text Text → Msg
  connected disconnected think_ticked mouse_temp_ended other_msg : Msg

abbrev max_int : ℕ → ℕ → ℕ
max_int a b = if ltb b a then a else b

-- The frames of the animation.
abbrev think_frames : ℕ
think_frames = 8

module _ (w : Widgets) where
  abbrev scrolled : (w.View → w.View) → Model w → Model w
  scrolled move m = record m {
    output_view = move m.output_view;
    auto_scroll = w.at_bottom (move m.output_view);
  }

  -- The keys that scroll while no window is open; `none` for the others.
  unfoldable pub scroll_key : Key → Model w → Option (Model w)
  scroll_key pgup m = some (scrolled (w.scroll_up (w.view_height m.output_view / 2)) m)
  scroll_key ctrl_u m = some (scrolled (w.scroll_up (w.view_height m.output_view / 2)) m)
  scroll_key pgdown m = some (scrolled (w.scroll_down (w.view_height m.output_view / 2)) m)
  scroll_key ctrl_d m = some (scrolled (w.scroll_down (w.view_height m.output_view / 2)) m)
  scroll_key shift_up m = some (scrolled (w.scroll_up 1) m)
  scroll_key shift_down m = some (scrolled (w.scroll_down 1) m)
  scroll_key home m =
      some (record m { output_view = w.goto_top m.output_view; auto_scroll = false })
  scroll_key to_end m =
      some (record m { output_view = w.goto_bottom m.output_view; auto_scroll = true })
  scroll_key k m = none

  -- Escape twice within half a second empties the input line.
  abbrev escape_after : ℕ → Option ℕ → Model w → Model w
  escape_after now none m = record m { last_esc = some now }
  escape_after now (some before) m =
      if ltb (now - before) 500000000
      then update_output w
          (record m { input = w.cursor_start (w.set_value [] m.input); last_esc = none })
      else record m { last_esc = some now }

  unfoldable pub escape : ℕ → Model w → Model w
  escape now m = escape_after now m.last_esc m

  -- The line of the history before the one that is shown.
  abbrev earlier : ℕ → Option ℕ → ℕ
  earlier len none = len - 1
  earlier len (some i) = i - 1

  unfoldable pub recall : Model w → Outcome w
  recall m =
      let i = earlier (length m.history) m.hist_idx in
      elim (get_elem? m.history i) [
        | none ↦ panics
        | some line ↦
            done
              (update_output w
                (record m { hist_idx = some i; input = w.cursor_end (w.set_value line m.input) }))
              []
      ]

  -- A key that goes to the input line.
  abbrev input_key : Key → Model w → Outcome w
  input_key k m = done (record m { input = w.press k m.input }) []

  -- The keys that come through to the input line.
  unfoldable pub main_key : ℕ → Key → Model w → Outcome w
  main_key now ctrl_c m = done m (quit ∷ [])
  main_key now esc m = done (escape now m) []
  main_key now up m =
      if w.position m.input == 0 && ltb 0 (length m.history) then recall m else input_key up m
  main_key now enter m =
      entered w (trim_space (w.value m.input)) (record m { input = w.reset m.input })
  main_key now return_key m =
      entered w (trim_space (w.value m.input)) (record m { input = w.reset m.input })
  main_key now k m = input_key k m

  abbrev or_main : ℕ → Key → Model w → Option (Outcome w) → Outcome w
  or_main now k m none = main_key now k m
  or_main now k m (some outcome) = outcome

  abbrev or_main_scroll : ℕ → Key → Model w → Option (Model w) → Outcome w
  or_main_scroll now k m none = main_key now k m
  or_main_scroll now k m (some after) = done after []

  -- A key while the window is open.
  abbrev window_key : Mode → ℕ → Key → Model w → Outcome w
  window_key add_mode now k m = add_key w k m
  window_key list_mode now k m = or_main now k m (list_key w k m)
  window_key unset now k m = or_main now k m (list_key w k m)

  unfoldable pub on_key : ℕ → Key → Model w → Outcome w
  on_key now k m =
      if m.agents_open
      then window_key m.agents_mode now k m
      else or_main_scroll now k m (scroll_key k m)

  -- `resize`, with the size already set
  unfoldable pub resize : Model w → Model w
  resize m =
      if m.width == 0 || m.height == 0
      then m
      else let width = if ltb 1 m.width then m.width - 1 else m.width in
        let height = if ltb 1 m.height then m.height - 1 else m.height in
        let output_height = max_int 3 (height - 4) in
        update_output w (record m {
          output_view =
              w.set_size (max_int 10 (width - 2)) (max_int 1 (output_height - 2)) m.output_view;
          input = w.widen (max_int 10 (width - 6)) m.input;
        })

  abbrev to_field : Text → w.Input → w.Input
  to_field text field = w.cursor_end (w.set_value (w.value field ++ text) field)

  abbrev pub in_form : Model w → Bool
  in_form m = elim m.agents_mode [ add_mode ↦ m.agents_open | _ ↦ false ]

  abbrev pub reported : Result Text Text → Model w → Model w
  reported (err e) m = append_command_output w (codes "[error] " ++ e) m
  reported (ok output) m = append_command_output w output m

  -- `Update`
  unfoldable pub update : Msg → Model w → Outcome w
  update (window_size width height) m =
      done (resize (record m { width = width; height = height })) []
  update (key now k) m = on_key now k m
  update (mouse shift) m =
      if m.agents_open || not m.mouse_enabled
      then done m []
      else if shift
      then done (record m { mouse_enabled = false; mouse_temp = true }) (mouse_temp_reset ∷ [])
      else done (scrolled w.wheel m) []
  update mouse_temp_ended m =
      if m.mouse_temp
      then done (record m { mouse_temp = false; mouse_enabled = true }) []
      else done m []
  update (event time incoming) m = done (apply_event w time incoming (record m { ready = true })) []
  update connected m = done (record m { ready = true }) []
  update (failure e) m = done (append_terminal w (codes "[error] " ++ e) m) []
  update (local_result result) m = done (reported result m) []
  update disconnected m =
      done (append_terminal w (codes "[disconnected] retrying...") (record m { ready = false })) []
  update think_ticked m =
      if m.thinking
      then done (update_output w (record m { think_frame = (m.think_frame + 1) % think_frames }))
          (think_tick ∷ [])
      else done m []
  update (paste text) m =
      if in_form m
      then done (in_field w (to_field text) m) []
      else done
          (update_output w
            (record m { input = w.cursor_end (w.set_value (w.value m.input ++ text) m.input) }))
          []
  update other_msg m = done (record m { input = w.tick m.input }) []
