-- ===== src/Client/Incoming.antt =====
-- `applyEvent` of internal/client/tui_model.go. An event comes with its payload decoded; `none` is a payload that
-- cannot be.
pub mod Kept
use krellin.Prelude.{
  ℕ, ◌-◌, Bool, true, false, Option, none, some, List, ◌++◌, leb, if◌then◌else◌, length,
}
use krellin.Prelude.Text.{Text, codes, text_eq, is_empty}
use krellin.Tools.Output.{itoa}
use krellin.Client.Widgets.{Widgets}
use krellin.Client.Model.{Model, Info}
use krellin.Client.Timeline.{
  append_terminal, append_chat, append_action_log, filter_terminal_output,
}

pub record Started : Type 0 where
  pub action_id : Text
  pub kind : Text

pub record Finished : Type 0 where
  pub action_id : Text
  pub status : Text
  pub error : Text

-- The event of a diff counts its files.
pub data Incoming : Type 0 where
  terminal_output error_event agent_message : Option Text → Incoming
  action_started : Option Started → Incoming
  action_finished : Option Finished → Incoming
  agents_list : Option (List Info × Text) → Incoming
  diff_ready : Option (Text × ℕ) → Incoming
  other_event : Incoming

-- `formatEventTime`; `none` is the zero time, and the time of day is formatted outside.
abbrev stamped : Option Text → Text → Text
stamped none entry = codes "--:--:-- " ++ entry
stamped (some clock) entry = clock ++ (codes " " ++ entry)

module _ (w : Widgets) where
  -- What ends the wait for an agent.
  unfoldable pub answered : Model w → Model w
  answered m = if m.pending_agent then record m { thinking = false; pending_agent = false } else m

  abbrev started : Option Text → Started → Model w → Model w
  started time p m =
      let logged =
        append_action_log w
          (stamped time
            (codes "started " ++ (p.action_id ++ (codes " (" ++ (p.kind ++ codes ")")))))
          m in
      if text_eq p.kind (codes "run_command")
      then record logged { indent_terminal = true }
      else logged

  abbrev finished : Option Text → Finished → Model w → Model w
  finished time p m =
      let logged =
        append_action_log w
          (stamped time
            (codes "finished " ++ (p.action_id ++ (codes " (" ++ (p.status ++ codes ")")))))
          m in
      if text_eq p.status (codes "failure")
      then append_terminal w (codes "[error] action failed: " ++ p.error) logged
      else logged

  -- The list of providers is replaced, and the selection kept in it.
  unfoldable pub listed : List Info → Text → Model w → Model w
  listed providers active m = record m {
    agents_providers = providers;
    agents_active = active;
    agents_loading = false;
    agents_selected =
        if leb (length providers) m.agents_selected
        then length providers - 1
        else m.agents_selected;
  }

  -- `applyEvent`
  unfoldable pub apply_event : Option Text → Incoming → Model w → Model w
  apply_event time (terminal_output none) m = m
  apply_event time (terminal_output (some text)) m =
      append_terminal w (filter_terminal_output w text m).0 (filter_terminal_output w text m).1
  apply_event time (error_event none) m = answered m
  apply_event time (error_event (some message)) m =
      answered (append_terminal w (codes "[error] " ++ message) m)
  apply_event time (action_started none) m = m
  apply_event time (action_started (some p)) m = started time p m
  apply_event time (action_finished none) m = answered (record m { indent_terminal = false })
  apply_event time (action_finished (some p)) m =
      answered (record (finished time p m) { indent_terminal = false })
  apply_event time (agent_message none) m = answered m
  apply_event time (agent_message (some content)) m =
      answered (append_chat w (codes "agent") content m)
  apply_event time (agents_list none) m = m
  apply_event time (agents_list (some (providers, active))) m = listed providers active m
  apply_event time (diff_ready none) m = m
  apply_event time (diff_ready (some (patch, files))) m =
      append_action_log w (stamped time (codes "diff ready (" ++ (itoa files ++ codes " files)")))
        (record m { last_diff = patch })
  apply_event time other_event m = m
