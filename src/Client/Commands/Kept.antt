-- ===== src/Client/Commands/Kept.antt =====
-- The lines entered in internal/client/tui_model.go keep its model valid.
use krellin.Prelude.{
  inl, true, false, ◌||◌, none, List, [], ◌∷◌, ◌++◌, arith, if_both, if◌then◌else◌, ◌&&◌,
}
use krellin.Prelude.Text.{Text, codes, text_eq, is_empty, has_prefix}
use krellin.Client.Widgets.{Widgets}
use krellin.Client.Model.{Model, done}
use krellin.Client.Timeline.{append_terminal}
use krellin.Client.Commands.{
  is_agent_prompt, append_entries, show_log, set_mouse, without_logo, open_agents, ask, remembered,
  entered, format_diff,
}
use krellin.Client.Lines.{running, command_of, bang}
use krellin.Client.Valid.{
  IsValid, Fine, update_output-IsValid, append_terminal-IsValid, append_terminal_line-IsValid,
  append_chat-IsValid,
}

module _ (w : Widgets) where
  append_entries-IsValid :
      (entries : List Text) (m : Model w) → IsValid m → IsValid (append_entries w entries m)
  unfolding append_entries
  append_entries-IsValid [] m v = v
  append_entries-IsValid (entry ∷ entries) m v =
      append_entries-IsValid entries _ (append_terminal-IsValid w _ m v)

  show_log-IsValid :
      (entries : List Text) (m : Model w) → IsValid m → IsValid (show_log w entries m)
  show_log-IsValid [] m v = append_terminal-IsValid w _ m v
  show_log-IsValid (entry ∷ entries) m v =
      append_entries-IsValid (entry ∷ entries) _ (append_terminal-IsValid w _ m v)

  set_mouse-IsValid : (line : Text) (m : Model w) → IsValid m → IsValid (set_mouse w line m)
  unfolding set_mouse
  set_mouse-IsValid line m v = append_terminal_line-IsValid w _ _ (ground arith)

  -- No lines.
  cleared : (m : Model w) → IsValid m → IsValid (record m { terminal = []; show_logo = false })
  cleared m v = record {
    selected = v.selected;
    recalled = v.recalled;
    formed = v.formed;
    placed = v.placed;
    bounded = inl (omega arith);
    logged = v.logged;
    waiting = v.waiting;
  }

  without_logo-IsValid : (m : Model w) → IsValid m → IsValid (without_logo w m)
  unfolding without_logo
  without_logo-IsValid m v =
      if_both IsValid m.show_logo _ m (λ e. update_output-IsValid w _ (cleared m v)) (λ e. v)

  ask-Fine : (line : Text) (m : Model w) → IsValid m → Fine (ask w line m)
  unfolding ask
  ask-Fine line m v =
      if_both Fine (is_agent_prompt line) _ _
        (λ e. update_output-IsValid w _ (waits (append_chat-IsValid w (codes "you") line m v)))
        (λ e. v)
    where
      waits :
          {n : Model w} → IsValid n → IsValid (record n { thinking = true; pending_agent = true })
      waits k = ground arith

  opened : (m : Model w) → IsValid m → IsValid (open_agents w m)
  opened m v = ground arith

  -- The line noted, with nothing recalled.
  noted :
      (line : Text) (m : Model w)
      → IsValid m
      → IsValid (record m { hist_idx = none; history = m.history ++ line ∷ [] })
  noted line m v = ground arith

  readied : (m : Model w) → IsValid m → IsValid (record m { ready = true })
  readied m v = ground arith

  unrecalled : (m : Model w) → IsValid m → IsValid (record m { hist_idx = none })
  unrecalled m v = ground arith

  remembered-Fine :
      (line : Text) (m : Model w)
      → IsValid m
      → Fine (remembered w line (record m { hist_idx = none }))
  unfolding remembered
  remembered-Fine line m v =
      let kept = without_logo-IsValid _ (noted line m v) in
      if_both Fine (text_eq line (codes "/agents")) _ _ (λ e. opened _ kept)
        (λ e. ask-Fine line _ (readied _ kept))

  shown_diff-Fine :
      (m : Model w)
      → IsValid m
      → Fine (
          if is_empty m.last_diff
          then done (append_terminal w (codes "[diff] no diff available") m) []
          else done (append_terminal w (format_diff w m.last_diff) m) [])
  shown_diff-Fine m v =
      if_both Fine (is_empty m.last_diff) _ _ (λ e. append_terminal-IsValid w _ m v)
        (λ e. append_terminal-IsValid w _ m v)

  pub entered-Fine : (line : Text) (m : Model w) → IsValid m → Fine (entered w line m)
  unfolding entered
  entered-Fine line before v =
      let u = unrecalled before v in
      if_both Fine (is_empty line) _ _ (λ _. v)
        (λ _.
          if_both Fine (text_eq line (codes "/exit") || text_eq line (codes "/quit")) _ _ (λ _. u)
            (λ _.
              if_both Fine (text_eq line (codes "/clear") || text_eq line (codes "clear")) _ _
                (λ _. update_output-IsValid w _ (cleared _ u))
                (λ _.
                  if_both Fine (text_eq line (codes "/log")) _ _
                    (λ _. show_log-IsValid before.action_log _ u)
                    (λ _.
                      if_both Fine (text_eq line (codes "/diff")) _ _ (λ _. shown_diff-Fine _ u)
                        (λ _.
                          if_both Fine (has_prefix line (codes "/mouse")) _ _
                            (λ _. set_mouse-IsValid line _ u)
                            (λ _. remembered-Fine line before v))))))

  pub running-IsValid : (line : Text) (m : Model w) → IsValid m → IsValid (running w line m)
  unfolding running
  running-IsValid line m v =
      if_both IsValid (has_prefix line bang && is_empty (command_of line)) m _ (λ e. v)
        (λ e. echoed (append_terminal_line-IsValid w _ m v))
    where
      echoed :
          {n : Model w}
          → IsValid n
          → IsValid (record n { last_cmd_echo = command_of line; suppress_echo = true })
      echoed k = ground arith
