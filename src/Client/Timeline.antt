-- ===== src/Client/Timeline.antt =====
-- The lines of the terminal pane in internal/client/tui_model.go. Texts are valid UTF-8, in which the bytes below 32
-- and 127 are whole runes.
use krellin.Prelude.{
  ℕ, ◌-◌, Bool, true, false, not, ◌&&◌, ◌||◌, List, [], ◌∷◌, ◌++◌, map, ltb, ◌==◌, if◌then◌else◌,
  length, drop,
}
use krellin.Prelude.Text.{
  Text, codes, text_eq, is_empty, has_prefix, trim_space, trim_right, split, join,
}
use krellin.Client.Controls.{clamp_lines}
use krellin.Client.Widgets.{Widgets}
use krellin.Client.Model.{Model}

abbrev pub newline : ℕ
newline = 10

-- The marks of chat lines and of a running command, in UTF-8.
abbrev agent_mark : Text
agent_mark = 0xe2 ∷ 0x97 ∷ 0x86 ∷ 32 ∷ []

abbrev you_mark : Text
you_mark = 0xe2 ∷ 0x80 ∷ 0xba ∷ 32 ∷ []

abbrev system_mark : Text
system_mark = 0xe2 ∷ 0x80 ∷ 0xa2 ∷ 32 ∷ []

abbrev running_mark : Text
running_mark = 0xe2 ∷ 0x97 ∷ 0x8c ∷ codes " Running:"

-- `sanitizeTerminal`: a carriage return ends a line, other control characters are dropped.
abbrev printable : ℕ → Bool
printable c = c == newline || c == 9 || not (ltb c 32 || c == 127)

unfoldable pub sanitize : Text → Text
sanitize [] = []
sanitize (c ∷ s) =
    let r = if c == 13 then newline else c in
    let rest = sanitize s in if printable r then r ∷ rest else rest

-- `strings.TrimLeft(s, "\n")`
trim_newlines : Text → Text
trim_newlines [] = []
trim_newlines (c ∷ s) = let rest = trim_newlines s in if c == newline then rest else c ∷ s

unfoldable pub last_line : List Text → Text
last_line [] = []
last_line (line ∷ []) = line
last_line (line ∷ next ∷ lines) = last_line (next ∷ lines)

abbrev no_lines : List Text → Bool
no_lines [] = true
no_lines (line ∷ lines) = false

-- The last line continued; a first line where there is none.
unfoldable pub extend_last : Text → List Text → List Text
extend_last part [] = part ∷ []
extend_last part (line ∷ []) = (line ++ part) ∷ []
extend_last part (line ∷ next ∷ lines) = line ∷ extend_last part (next ∷ lines)

-- `maybeIndent`
unfoldable pub maybe_indent : Bool → Text → Text
maybe_indent indent line = if not indent || is_empty line then line else codes "  " ++ line

-- `filterTerminalOutput`: the lines that repeat the last command are dropped.
without_echo : Text → List Text → List Text
without_echo echo [] = []
without_echo echo (line ∷ lines) =
    let rest = without_echo echo lines in
    if text_eq (trim_space line) (trim_space echo) then rest else line ∷ rest

-- The further lines of a chat message, indented.
followed : List Text → Text
followed [] = []
followed (line ∷ lines) = newline ∷ (codes "  " ++ (line ++ followed lines))

module _ (w : Widgets) where
  -- `isChatLine`
  unfoldable pub is_chat_line : Text → Bool
  is_chat_line line =
      has_prefix (w.strip line) agent_mark
      || has_prefix (w.strip line) you_mark
      || has_prefix (w.strip line) system_mark

  -- `updateOutput`, as far as the view of the output goes
  unfoldable pub update_output : Model w → Model w
  update_output m =
      let lines =
        if m.thinking then m.terminal ++ [] ∷ w.waiting m.think_frame ∷ [] else m.terminal in
      let shown = w.set_content (join newline lines) m.output_view in
      if w.view_width m.output_view == 0
      then m
      else record m { output_view = if m.auto_scroll then w.goto_bottom shown else shown }

  -- The text with the line breaks that `appendTerminal` puts before it.
  unfoldable pub broken : Bool → List Text → Text → Text
  unfolding trim_newlines
  broken indent terminal text =
      let first =
        if has_prefix (trim_newlines text) (codes "[tool ") && not (is_empty (last_line terminal))
        then newline ∷ text
        else text in
      let second =
        if not (is_empty (last_line terminal))
          && (is_chat_line (last_line terminal) && not (has_prefix first (newline ∷ [])))
        then newline ∷ first
        else first in
      if indent
        && (not (no_lines terminal)
            && (has_prefix (w.strip (last_line terminal)) running_mark
                && not (has_prefix second (newline ∷ []))))
      then newline ∷ second
      else second

  -- The lines with a text appended.
  unfoldable pub appended : Bool → Text → List Text → List Text
  appended indent text terminal = elim (split newline (broken indent terminal text)) [
    | [] ↦ terminal
    | part ∷ parts ↦
        extend_last (maybe_indent indent part) terminal ++ map (maybe_indent indent) parts
  ]

  -- `appendTerminal`
  unfoldable pub append_terminal : Text → Model w → Model w
  append_terminal text m =
      if is_empty text
      then m
      else update_output (record m {
        terminal = clamp_lines (appended m.indent_terminal (sanitize text) m.terminal) 1000;
      })

  -- `appendTerminalLine`
  unfoldable pub append_terminal_line : Text → Model w → Model w
  append_terminal_line line m =
      if is_empty line
      then m
      else update_output (record m { terminal = clamp_lines (m.terminal ++ line ∷ []) 1000 })

  -- The lines with an empty one at the end, if there is any and the last is not empty.
  unfoldable pub parted : List Text → List Text
  parted terminal = if is_empty (last_line terminal) then terminal else terminal ++ [] ∷ []

  -- `formatChat`
  unfoldable pub format_chat : Text → Text → Text
  unfolding followed
  format_chat role content =
      if is_empty (trim_space content) then [] else elim (split newline content) [
        | [] ↦ []
        | line ∷ lines ↦ w.label role ++ 32 ∷ (line ++ followed lines)
      ]

  -- `appendChat`
  unfoldable pub append_chat : Text → Text → Model w → Model w
  append_chat role content m =
      append_terminal_line (format_chat role content) (record m { terminal = parted m.terminal })

  abbrev output_line : Text → Text
  output_line line = codes "  " ++ line

  -- `appendCommandOutput`
  unfoldable pub append_command_output : Text → Model w → Model w
  append_command_output output m =
      let lines =
        if is_empty (trim_space output)
        then []
        else map output_line (split newline (trim_right newline output)) in
      update_output (record m { terminal = clamp_lines (parted m.terminal ++ lines) 1000 })

  -- `appendActionLog`
  unfoldable pub append_action_log : Text → Model w → Model w
  append_action_log entry m =
      let log = m.action_log ++ entry ∷ [] in
      record m { action_log = if ltb 50 (length log) then drop (length log - 50) log else log }

  -- `filterTerminalOutput`
  unfoldable pub filter_terminal_output : Text → Model w → Text × Model w
  unfolding without_echo
  filter_terminal_output text m =
      if not m.suppress_echo
      then (text, m)
      else let kept = without_echo m.last_cmd_echo (split newline text) in
        (join newline kept, if no_lines kept then m else record m { suppress_echo = false })
