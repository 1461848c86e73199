-- ===== src/Client/Commands.antt =====
-- The lines that are entered in internal/client/tui_model.go, and the commands that they lead to.
pub mod Kept
use krellin.Prelude.{Bool, true, false, not, ◌&&◌, ◌||◌, none, List, [], ◌∷◌, ◌++◌, if◌then◌else◌}
use krellin.Prelude.Text.{
  Text, codes, text_eq, is_empty, has_prefix, trim_prefix, trim_space, trim_right,
}
use krellin.Client.Widgets.{Widgets}
use krellin.Client.Model.{
  Model, list_mode, Effect, quit, think_tick, send_agents_list, send_action, run_local,
  send_agent_prompt, Outcome, done,
}
use krellin.Client.Timeline.{
  newline, update_output, append_terminal, append_terminal_line, append_chat,
}

-- `isAgentPrompt`
unfoldable pub is_agent_prompt : Text → Bool
is_agent_prompt line = not (has_prefix line (codes "/")) && not (has_prefix line (codes "!"))

-- `isLocalGitCommand`
unfoldable pub is_local_git_command : Text → Bool
is_local_git_command line =
    if not (has_prefix line (codes "!"))
    then false
    else let cmd = trim_space (trim_prefix line (codes "!")) in
      text_eq cmd (codes "git") || has_prefix cmd (codes "git ")

-- `dispatchInputCmd`
unfoldable pub dispatch_input : Text → List Effect
dispatch_input line =
    if has_prefix line (codes "/")
    then []
    else if has_prefix line (codes "!")
    then (if is_local_git_command line then run_local line ∷ [] else send_action line ∷ [])
    else send_agent_prompt line ∷ []

module _ (w : Widgets) where
  -- `formatDiff`; the lines are coloured outside.
  unfoldable pub format_diff : Text → Text
  format_diff diff =
      if is_empty (trim_right newline diff)
      then codes "[diff] no diff available"
      else w.painted (trim_right newline diff)

  append_entries : List Text → Model w → Model w
  append_entries [] m = m
  append_entries (entry ∷ entries) m =
      append_entries entries (append_terminal w (codes "  " ++ entry) m)

  abbrev show_log : List Text → Model w → Model w
  show_log [] m = append_terminal w (codes "[log] no actions yet") m
  show_log (entry ∷ entries) m =
      append_entries (entry ∷ entries) (append_terminal w (codes "[log] recent actions") m)

  abbrev switched : Text → Bool → Bool
  switched arg on =
      if text_eq arg (codes "on") then true else if text_eq arg (codes "off") then false else not on

  abbrev mouse_line : Bool → Text
  mouse_line on =
      0xe2 ∷ 0x80 ∷ 0xa2 ∷ codes " mouse wheel "
      ++ ((if on then codes "enabled" else codes "disabled") ++ codes " (use /mouse on|off)")

  -- /mouse
  set_mouse : Text → Model w → Model w
  set_mouse line m =
      let on = switched (trim_space (trim_prefix line (codes "/mouse"))) m.mouse_enabled in
      append_terminal_line w (mouse_line on) (record m { mouse_enabled = on })

  -- The first line that is neither of these takes the logo away.
  without_logo : Model w → Model w
  without_logo m =
      if m.show_logo then update_output w (record m { terminal = []; show_logo = false }) else m

  -- /agents
  abbrev open_agents : Model w → Model w
  open_agents m = record m {
    agents_open = true;
    agents_loading = true;
    agents_selected = 0;
    agents_mode = list_mode;
  }

  -- A line for an agent, or a command.
  ask : Text → Model w → Outcome w
  ask line m =
      if is_agent_prompt line
      then done
          (update_output w
            (record (append_chat w (codes "you") line m) { thinking = true; pending_agent = true }))
          (dispatch_input line ++ think_tick ∷ [])
      else done m (dispatch_input line)

  -- What follows the lines that the interface answers by itself.
  remembered : Text → Model w → Outcome w
  unfolding without_logo ask
  remembered line m =
      let noted = without_logo (record m { history = m.history ++ line ∷ [] }) in
      if text_eq line (codes "/agents")
      then done (open_agents noted) (send_agents_list ∷ [])
      else ask line (record noted { ready = true })

  -- The case of the key enter, on the line without the space round it.
  unfoldable pub entered : Text → Model w → Outcome w
  unfolding append_entries set_mouse remembered
  entered line before =
      let m = record before { hist_idx = none } in
      if is_empty line
      then done before []
      else if text_eq line (codes "/exit") || text_eq line (codes "/quit")
      then done m (quit ∷ [])
      else if text_eq line (codes "/clear") || text_eq line (codes "clear")
      then done (update_output w (record m { terminal = []; show_logo = false })) []
      else if text_eq line (codes "/log")
      then done (show_log m.action_log m) []
      else if text_eq line (codes "/diff")
      then (if is_empty m.last_diff
          then done (append_terminal w (codes "[diff] no diff available") m) []
          else done (append_terminal w (format_diff m.last_diff) m) [])
      else if has_prefix line (codes "/mouse")
      then done (set_mouse line m) []
      else remembered line m
