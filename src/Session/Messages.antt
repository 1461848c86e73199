-- ===== src/Session/Messages.antt =====
-- The texts on plans and tools in internal/session/agent_tools.go: `formatPlanSteps`, `formatStepResult`,
-- `formatToolBlock`, `toolHeader` and `writePreview`. The reading of JSON arguments, `%q` and `strings.ToUpper` are
-- parameters.
pub mod Block
pub mod Preview
use krellin.Prelude.Int.{is_zero}
use krellin.Prelude.{
  ℕ, zero, suc, ◌+◌, Bool, true, false, not, ◌&&◌, ◌||◌, Option, none, some, List, [], ◌∷◌, ◌++◌,
  ltb, ◌==◌, if◌then◌else◌, length, take, reverse,
}
use krellin.Prelude.Text.{Text, codes, text_eq, is_empty, has_suffix, trim_space, trim_right}
use krellin.Prelude.Dict.{Dict, lookup}
use krellin.Tools.Output.{itoa, itoa_ℤ}
use krellin.Session.{ToolCall, ToolResult}
use krellin.Session.Toolbox.{ShellArgs}

-- The arguments that a text holds, `none` where it is not JSON of that shape: the command and the directory of a shell
-- call, also with its environment; the strings in an object of any kind; a path; a pattern and a path; a path
-- and a content.
pub record Labels : Type 0 where
  pub command : Text → Option (Text × Text)
  pub shell : Text → Option ShellArgs
  pub fields : Text → Option (Dict (Option Text))
  pub path : Text → Option Text
  pub search : Text → Option (Text × Text)
  pub written : Text → Option (Text × Text)
  pub quoted : Text → Text
  pub upper : Text → Text

abbrev pub newline : ℕ
newline = 10

-- `v, ok := args[key].(string); ok && v != ""`
abbrev text_at : Option (Option Text) → Text
text_at none = []
text_at (some none) = []
text_at (some (some t)) = t

abbrev field : Text → Dict (Option Text) → Text
field key args = text_at (lookup key args)

-- The tool with its arguments as they came.
abbrev raw_label : ToolCall → Text
raw_label step =
    if is_empty step.args then step.tool else step.tool ++ (codes ": " ++ trim_space step.args)

abbrev shell_label : ToolCall → Option (Text × Text) → Text
shell_label step none = raw_label step
shell_label step (some (command, cwd)) =
    if is_empty (trim_space command)
    then raw_label step
    else if is_empty (trim_space cwd)
    then codes "shell: " ++ trim_space command
    else codes "shell: "
      ++ (trim_space command ++ (codes " (cwd " ++ (trim_space cwd ++ codes ")")))

abbrev with_path : Text → Text → Text → Text
with_path verb path default = if is_empty path then default else verb ++ path

abbrev search_label : Text → Text → Text → Text
search_label tool pattern path =
    if not (is_empty path)
    then codes "search " ++ (pattern ++ (codes " in " ++ path))
    else if not (is_empty pattern)
    then codes "search " ++ pattern
    else tool

abbrev is_file_tool : Text → Bool
is_file_tool tool =
    text_eq tool (codes "read_file")
    || (text_eq tool (codes "write_file")
        || (text_eq tool (codes "list_files")
            || (text_eq tool (codes "search") || text_eq tool (codes "apply_patch"))))

abbrev file_label : ToolCall → Option (Dict (Option Text)) → Text
file_label step none = raw_label step
file_label step (some args) =
    if text_eq step.tool (codes "read_file")
    then with_path (codes "read ") (field (codes "path") args) step.tool
    else if text_eq step.tool (codes "write_file")
    then with_path (codes "write ") (field (codes "path") args) step.tool
    else if text_eq step.tool (codes "list_files")
    then with_path (codes "list ") (field (codes "path") args) (codes "list files")
    else if text_eq step.tool (codes "search")
    then search_label step.tool (field (codes "pattern") args) (field (codes "path") args)
    else codes "apply patch"

-- A list of texts, one after the other.
unfoldable pub concat : List Text → Text
concat [] = []
concat (t ∷ ts) = t ++ concat ts

-- Lines, each with its end.
unfoldable pub unlines : List Text → Text
unlines [] = []
unlines (t ∷ ts) = t ++ newline ∷ unlines ts

module _ (labels : Labels) where
  -- The label of a step.
  unfoldable pub plan_label : ToolCall → Text
  unfolding lookup
  plan_label step =
      if text_eq step.tool (codes "shell")
      then shell_label step (labels.command step.args)
      else if is_file_tool step.tool
      then file_label step (labels.fields step.args)
      else raw_label step

  unfoldable plan_lines : ℕ → List ToolCall → List Text
  plan_lines i [] = []
  plan_lines i (step ∷ steps) =
      (codes "  " ++ (itoa (i + 1) ++ (codes ") " ++ plan_label step))) ∷ plan_lines (suc i) steps

  abbrev planned_text : List ToolCall → Text
  planned_text [] = []
  planned_text (step ∷ steps) =
      trim_right newline (unlines (codes "Planned steps:" ∷ plan_lines 0 (step ∷ steps)))

  -- `formatPlanSteps`
  unfoldable pub format_plan_steps : List ToolCall → Text
  unfolding plan_lines unlines
  format_plan_steps steps = planned_text steps

  abbrev command_label : Text → Option (Text × Text) → Text
  command_label tool none = tool
  command_label tool (some (command, cwd)) =
      if is_empty (trim_space command) then tool else trim_space command

  abbrev path_label : Text → Option (Dict (Option Text)) → Text
  path_label tool none = tool
  path_label tool (some args) = with_path (tool ++ codes " ") (field (codes "path") args) tool

  unfoldable step_label : ToolCall → Text
  unfolding lookup
  step_label step =
      if text_eq step.tool (codes "shell")
      then command_label step.tool (labels.command step.args)
      else if is_file_tool step.tool
      then path_label step.tool (labels.fields step.args)
      else step.tool

  abbrev failure_text : ToolResult → Text
  failure_text res =
      if not (is_empty res.error)
      then newline ∷ (codes "  error: " ++ res.error)
      else if not (is_zero res.exit_code)
      then newline ∷ (codes "  exit_code: " ++ itoa_ℤ res.exit_code)
      else []

  -- `formatStepResult`; the bytes are those of a dash
  unfoldable pub format_step_result : ℕ → ℕ → ToolCall → ToolResult → Text → Text
  unfolding step_label
  format_step_result index total step res status = concat (
      codes "Step "
      ∷ itoa (index + 1)
      ∷ codes "/"
      ∷ itoa total
      ∷ codes " "
      ∷ (0xe2 ∷ 0x80 ∷ 0x94 ∷ [])
      ∷ codes " "
      ∷ labels.upper status
      ∷ codes ": "
      ∷ step_label step
      ∷ failure_text res
      ∷ [])
