-- ===== src/Client/Incoming/Kept.antt =====
-- The events that reach internal/client/tui_model.go keep its model valid.
use krellin.Prelude.{Bool, true, false, Option, none, some, List, arith, if_both}
use krellin.Prelude.Text.{Text, codes, text_eq}
use krellin.Client.Widgets.{Widgets}
use krellin.Client.Model.{Model, Info}
use krellin.Client.Timeline.{filter_terminal_output}
use krellin.Client.Incoming.{
  Incoming, terminal_output, error_event, agent_message, action_started, action_finished,
  agents_list, diff_ready, other_event, answered, listed, apply_event,
}
use krellin.Client.Valid.{
  IsValid, append_terminal-IsValid, append_chat-IsValid, append_action_log-IsValid,
}

module _ (w : Widgets) where
  answered-IsValid : (m : Model w) → IsValid m → IsValid (answered w m)
  unfolding answered
  answered-IsValid m v = ground arith

  listed-IsValid :
      (providers : List Info) (active : Text) (m : Model w)
      → IsValid m
      → IsValid (listed w providers active m)
  unfolding listed
  listed-IsValid providers active m v = record {
    selected = ground arith;
    recalled = v.recalled;
    formed = v.formed;
    placed = v.placed;
    bounded = v.bounded;
    logged = v.logged;
    waiting = v.waiting;
  }

  filter-IsValid :
      (text : Text) (m : Model w) → IsValid m → IsValid (filter_terminal_output w text m).1
  unfolding filter_terminal_output
  filter-IsValid text m v = ground arith

  indented : (m : Model w) (on : Bool) → IsValid m → IsValid (record m { indent_terminal = on })
  indented m on v = ground arith

  pub apply_event-IsValid :
      (time : Option Text) (incoming : Incoming) (m : Model w)
      → IsValid m
      → IsValid (apply_event w time incoming m)
  unfolding apply_event
  apply_event-IsValid time (terminal_output none) m v = v
  apply_event-IsValid time (terminal_output (some text)) m v =
      append_terminal-IsValid w _ _ (filter-IsValid text m v)
  apply_event-IsValid time (error_event none) m v = answered-IsValid m v
  apply_event-IsValid time (error_event (some message)) m v =
      answered-IsValid _ (append_terminal-IsValid w _ m v)
  apply_event-IsValid time (action_started none) m v = v
  apply_event-IsValid time (action_started (some p)) m v =
      let logged = append_action_log-IsValid w _ m v in
      if_both IsValid (text_eq p.kind (codes "run_command")) _ _ (λ e. indented _ true logged)
        (λ e. logged)
  apply_event-IsValid time (action_finished none) m v = answered-IsValid _ (indented m false v)
  apply_event-IsValid time (action_finished (some p)) m v =
      let logged = append_action_log-IsValid w _ m v in
      answered-IsValid _ (
        indented _ false (
          if_both IsValid (text_eq p.status (codes "failure")) _ _
            (λ e. append_terminal-IsValid w _ _ logged) (λ e. logged)))
  apply_event-IsValid time (agent_message none) m v = answered-IsValid m v
  apply_event-IsValid time (agent_message (some content)) m v =
      answered-IsValid _ (append_chat-IsValid w _ content m v)
  apply_event-IsValid time (agents_list none) m v = v
  apply_event-IsValid time (agents_list (some (providers, active))) m v =
      listed-IsValid providers active m v
  apply_event-IsValid time (diff_ready none) m v = v
  apply_event-IsValid time (diff_ready (some (patch, files))) m v =
      append_action_log-IsValid w _ _ (ground arith)
  apply_event-IsValid time other_event m v = v
