-- ===== src/Client/Keys/Safe.antt =====
-- No run of the interface of internal/client/tui_model.go indexes a list out of range.
use krellin.Prelude.{
  ℕ, zero, suc, ◌+◌, ◌-◌, ◌<◌, ◌≡◌, refl, Bool, false, ◌&&◌, Option, none, some, List, [], ◌∷◌,
  arith, length, if_both, ltb, ◌==◌, get_elem?, if◌then◌else◌,
}
use krellin.Prelude.Text.{Text}
use krellin.Client.Widgets.{
  Widgets, Key, pgup, ctrl_u, pgdown, ctrl_d, shift_up, shift_down, home, to_end, esc, tab, down,
  shift_tab, up, ctrl_s, enter, return_key, space, letter_a, letter_e, letter_d, ctrl_c,
}
use krellin.Client.Model.{Model, Info, Mode, unset, list_mode, add_mode, Outcome}
use krellin.Client.Form.Kept.{
  set_add_field-IsValid, in_field-IsValid, submit_add-Fine, open_agents_add-IsValid,
  open_agents_edit-IsValid,
}
use krellin.Client.Commands.Kept.{entered-Fine}
use krellin.Client.Keys.{
  scroll_key, escape, escape_after, recall, earlier, main_key, or_main, or_main_scroll, window_key,
  on_key,
}
use krellin.Client.Window.{add_key, disarmed, with_selected, delete_key, list_key}
use krellin.Client.Valid.{IsValid, Fine, InHistory, update_output-IsValid}

module _ (w : Widgets) where
  moved :
      (m : Model w) (view : w.View) (on : Bool)
      → IsValid m
      → IsValid (record m { output_view = view; auto_scroll = on })
  moved m view on v = ground arith

  abbrev IfValid : Option (Model w) → Type 0
  IfValid none = Unit {0}
  IfValid (some m) = IsValid m

  scroll_key-IsValid : (k : Key) (m : Model w) → IsValid m → IfValid (scroll_key w k m)
  unfolding scroll_key
  scroll_key-IsValid pgup m v = moved m _ _ v
  scroll_key-IsValid ctrl_u m v = moved m _ _ v
  scroll_key-IsValid pgdown m v = moved m _ _ v
  scroll_key-IsValid ctrl_d m v = moved m _ _ v
  scroll_key-IsValid shift_up m v = moved m _ _ v
  scroll_key-IsValid shift_down m v = moved m _ _ v
  scroll_key-IsValid home m v = moved m _ _ v
  scroll_key-IsValid to_end m v = moved m _ _ v
  scroll_key-IsValid k m v = tt

  toggled : (m : Model w) (on : Bool) → IsValid m → IsValid (record m { add_enabled = on })
  toggled m on v = ground arith

  returned : (m : Model w) → IsValid m → IsValid (record m { agents_mode = list_mode })
  returned m v = ground arith

  add_key-Fine :
      (k : Key) (m : Model w) → m.agents_mode ≡ add_mode → IsValid m → Fine (add_key w k m)
  unfolding add_key
  add_key-Fine esc m mode v = returned m v
  add_key-Fine tab m mode v = set_add_field-IsValid w _ m v
  add_key-Fine down m mode v = set_add_field-IsValid w _ m v
  add_key-Fine shift_tab m mode v = set_add_field-IsValid w _ m v
  add_key-Fine up m mode v = set_add_field-IsValid w _ m v
  add_key-Fine ctrl_s m mode v = submit_add-Fine w m mode v
  add_key-Fine enter m mode v =
      if_both Fine (ltb m.add_field_idx (length m.add_fields)) _ _
        (λ e. set_add_field-IsValid w _ m v) (λ e. submit_add-Fine w m mode v)
  add_key-Fine space m mode v =
      if_both Fine (m.add_field_idx == length m.add_fields) _ _ (λ e. toggled m _ v)
        (λ e. in_field-IsValid w _ m v)
  add_key-Fine k m mode v = in_field-IsValid w (w.press k) m v

  disarmed-IsValid : (m : Model w) → IsValid m → IsValid (disarmed w m)
  disarmed-IsValid m v = ground arith

  get_elem?-some :
      {A : Type 0} (xs : List A) (i : ℕ) → i < length xs → (x : A) × (get_elem? xs i ≡ some x)
  get_elem?-some [] i h = elim h [ ]
  get_elem?-some (x ∷ xs) zero h = (x, refl)
  get_elem?-some (x ∷ xs) (suc i) h = get_elem?-some xs i (omega arith)

  -- The selected provider is there.
  with_selected-Fine :
      (act : Info → Outcome w) (m : Model w)
      → IsValid m
      → ((p : Info) → Fine (act p))
      → Fine (with_selected w act m)
  with_selected-Fine act m v fine =
      if_both Fine (length m.agents_providers == 0) _ _ (λ e. v)
        (λ e.
          let (p, at) = get_elem?-some m.agents_providers m.agents_selected (ground arith) in
          rw at (fine p))

  abbrev IfFine : Option (Outcome w) → Type 0
  IfFine none = Unit {0}
  IfFine (some outcome) = Fine outcome

  delete_key-Fine : (m : Model w) (p : Info) → IsValid m → Fine (delete_key w m p)
  unfolding delete_key
  delete_key-Fine m p v = ground arith

  climbed :
      (m : Model w) → IsValid m → IsValid (record m { agents_selected = m.agents_selected - 1 })
  climbed m v = ground arith

  descended :
      (m : Model w)
      → IsValid m
      → IsValid (record m {
        agents_selected =
            if ltb (m.agents_selected + 1) (length m.agents_providers)
            then m.agents_selected + 1
            else m.agents_selected;
      })
  descended m v = ground arith

  closed : (m : Model w) → IsValid m → IsValid (record m { agents_open = false })
  closed m v = ground arith

  list_key-Fine : (k : Key) (m : Model w) → IsValid m → IfFine (list_key w k m)
  unfolding list_key
  list_key-Fine esc m v = closed _ (disarmed-IsValid m v)
  list_key-Fine up m v = climbed _ (disarmed-IsValid m v)
  list_key-Fine down m v = descended _ (disarmed-IsValid m v)
  list_key-Fine enter m v = let d = disarmed-IsValid m v in with_selected-Fine _ _ d (λ p. d)
  list_key-Fine space m v = let d = disarmed-IsValid m v in with_selected-Fine _ _ d (λ p. d)
  list_key-Fine letter_a m v = open_agents_add-IsValid w _ (disarmed-IsValid m v)
  list_key-Fine letter_e m v =
      let d = disarmed-IsValid m v in
      with_selected-Fine _ _ d (λ p. open_agents_edit-IsValid w p _ d)
  list_key-Fine letter_d m v = with_selected-Fine _ _ v (λ p. delete_key-Fine m p v)
  list_key-Fine k m v = tt

  retyped : (m : Model w) (input : w.Input) → IsValid m → IsValid (record m { input = input })
  retyped m input v = ground arith

  escaped :
      (m : Model w) (time : Option ℕ) (input : w.Input)
      → IsValid m
      → IsValid (record m { input = input; last_esc = time })
  escaped m time input v = ground arith

  escape-IsValid : (now : ℕ) (m : Model w) → IsValid m → IsValid (escape w now m)
  unfolding escape
  escape-IsValid now m v = after m.last_esc
    where
      after : (time : Option ℕ) → IsValid (escape_after w now time m)
      after none = escaped m (some now) m.input v
      after (some before) =
          if_both IsValid (ltb (now - before) 500000000) _ _
            (λ _. update_output-IsValid w _ (escaped m none _ v))
            (λ _. escaped m (some now) m.input v)

  earlier-lt :
      (history : List Text) (at : Option ℕ)
      → 0 < length history
      → InHistory at history
      → earlier w (length history) at < length history
  earlier-lt history none h k = omega arith
  earlier-lt history (some i) h k = omega arith

  recalled_at :
      (m : Model w) (i : ℕ) (line : Text)
      → i < length m.history
      → IsValid m
      → IsValid (record m { hist_idx = some i; input = w.cursor_end (w.set_value line m.input) })
  recalled_at m i line h v = ground arith

  recall-Fine : (m : Model w) → 0 < length m.history → IsValid m → Fine (recall w m)
  unfolding recall
  recall-Fine m some_line v =
      let i = earlier w (length m.history) m.hist_idx in
      let below = earlier-lt m.history m.hist_idx some_line v.recalled in
      let (line, at) = get_elem?-some m.history i below in
      rw (at, recall) (update_output-IsValid w _ (recalled_at m i line below v))

  main_key-Fine : (now : ℕ) (k : Key) (m : Model w) → IsValid m → Fine (main_key w now k m)
  unfolding main_key
  main_key-Fine now ctrl_c m v = v
  main_key-Fine now esc m v = escape-IsValid now m v
  main_key-Fine now up m v =
      if_both Fine (w.position m.input == 0 && ltb 0 (length m.history)) _ _
        (λ e. recall-Fine m (ground arith) v) (λ e. retyped m _ v)
  main_key-Fine now enter m v = entered-Fine w _ _ (retyped m _ v)
  main_key-Fine now return_key m v = entered-Fine w _ _ (retyped m _ v)
  main_key-Fine now k m v = retyped m _ v

  or_main-Fine :
      (now : ℕ) (k : Key) (m : Model w) (o : Option (Outcome w))
      → IsValid m
      → IfFine o
      → Fine (or_main w now k m o)
  or_main-Fine now k m none v h = main_key-Fine now k m v
  or_main-Fine now k m (some outcome) v h = h

  or_main_scroll-Fine :
      (now : ℕ) (k : Key) (m : Model w) (o : Option (Model w))
      → IsValid m
      → IfValid o
      → Fine (or_main_scroll w now k m o)
  or_main_scroll-Fine now k m none v h = main_key-Fine now k m v
  or_main_scroll-Fine now k m (some after) v h = h

  window_key-Fine :
      (mode : Mode) (now : ℕ) (k : Key) (m : Model w)
      → m.agents_mode ≡ mode
      → IsValid m
      → Fine (window_key w mode now k m)
  window_key-Fine add_mode now k m e v = add_key-Fine k m e v
  window_key-Fine list_mode now k m e v =
      or_main-Fine now k m (list_key w k m) v (list_key-Fine k m v)
  window_key-Fine unset now k m e v = or_main-Fine now k m (list_key w k m) v (list_key-Fine k m v)

  pub on_key-Fine : (now : ℕ) (k : Key) (m : Model w) → IsValid m → Fine (on_key w now k m)
  unfolding on_key
  on_key-Fine now k m v =
      if_both Fine m.agents_open _ _ (λ e. window_key-Fine m.agents_mode now k m refl v)
        (λ e. or_main_scroll-Fine now k m (scroll_key w k m) v (scroll_key-IsValid k m v))
