-- ===== src/Session/Toolbox.antt =====
-- `executeTool`: the tool calls of an agent, as commands in the capsule. The reading of JSON arguments, base64
-- and the capsule itself are parameters.
pub mod Scripts
pub mod Executed
pub mod Commands
use krellin.Prelude.{
  ℕ, zero, suc, Bool, true, false, not, Option, none, some, List, [], ◌∷◌, ◌++◌, ltb, if◌then◌else◌,
  length, take,
}
use krellin.Prelude.Text.{Text, codes, text_eq, is_empty, split, trim_space}
use krellin.Prelude.Int.{ℤ, pos, negsuc}
use krellin.Prelude.Result.{Result, ok, err}
use krellin.Prelude.Dict.{Dict}
use krellin.FilePath.{clean}
use krellin.FilePath.Dir.{dir_of}
use krellin.Tools.Workspace.{workspace, workspace_path}
use krellin.Tools.Shell.{shell_quote}
use krellin.Tools.Output.{itoa, truncate_output, pick_delimiter, itoa_ℤ}
use krellin.Session.{ToolCall, ToolResult}
use krellin.Session.Context.{Context, is_blank, add_tool_result}
use krellin.Session.Toolbox.Scripts.{patch_head, patch_tail, write_command}

pub record ShellArgs : Type 0 where
  pub command : Text
  pub cwd : Text
  pub env : Dict Text

pub record ListArgs : Type 0 where
  pub path : Text
  pub recursive : Bool
  pub max_depth : ℤ

pub record SearchArgs : Type 0 where
  pub pattern : Text
  pub path : Text
  pub max_results : ℤ

-- The arguments in a JSON text, `none` where it is not one of that shape; and base64.
pub record Codec : Type 0 where
  pub shell_args : Text → Option ShellArgs
  pub read_args : Text → Option Text
  pub write_args : Text → Option (Text × Text)
  pub list_args : Text → Option ListArgs
  pub search_args : Text → Option SearchArgs
  pub patch_args : Text → Option Text
  pub base64 : Text → Text

-- What is run in the capsule.
pub record Command : Type 0 where
  pub text : Text
  pub cwd : Text
  pub env : Dict Text

abbrev in_workspace : Text → Command
in_workspace text = record { text = text; cwd = workspace; env = [] }

abbrev path_error : Text
path_error = codes "path must be within /workspace"

-- The command on a path of the workspace.
abbrev pub on_path : Text → (Text → Text) → Result Text Command
on_path path text = elim (workspace_path path) [
  | none ↦ err path_error
  | some target ↦ ok (in_workspace (text target))
]

abbrev positive_or : ℕ → ℤ → ℕ
positive_or default (pos zero) = default
positive_or default (pos (suc n)) = suc n
positive_or default (negsuc n) = default

abbrev or_workspace : Option Text → Text
or_workspace none = workspace
or_workspace (some path) = path

abbrev pub shell_command : Option ShellArgs → Result Text Command
shell_command none = err (codes "invalid shell args")
shell_command (some args) =
    if is_blank args.command
    then err (codes "invalid shell args")
    else ok (record {
      text = args.command;
      cwd = or_workspace (workspace_path args.cwd);
      env = args.env;
    })

abbrev pub read_command : Option Text → Result Text Command
read_command none = err (codes "invalid read_file args")
read_command (some path) =
    if is_empty path
    then err (codes "invalid read_file args")
    else on_path path (λ target. codes "cat " ++ shell_quote target)

abbrev write_text : (Text → Text) → Text → Text → Text
write_text base64 content target =
    write_command (shell_quote (dir_of target)) (shell_quote (base64 content)) (shell_quote target)
      (shell_quote content)

abbrev pub write_file_command : (Text → Text) → Option (Text × Text) → Result Text Command
write_file_command base64 none = err (codes "invalid write_file args")
write_file_command base64 (some (path, content)) =
    if is_empty path
    then err (codes "invalid write_file args")
    else on_path path (write_text base64 content)

abbrev list_text : ListArgs → Text → Text
list_text args target =
    if args.recursive
    then codes "find "
      ++ shell_quote target
      ++ codes " -maxdepth "
      ++ itoa (positive_or 4 args.max_depth)
      ++ codes " -print"
    else codes "ls -a " ++ shell_quote target

abbrev pub list_command : Option ListArgs → Result Text Command
list_command none = err (codes "invalid list_files args")
list_command (some args) = on_path args.path (list_text args)

abbrev search_text : SearchArgs → Text → Text
search_text args target =
    let limit = itoa (positive_or 200 args.max_results) in
    let words = codes " " ++ shell_quote args.pattern ++ codes " " ++ shell_quote target in
    codes "if command -v rg >/dev/null 2>&1; then rg --line-number --max-count "
    ++ limit
    ++ words
    ++ codes "; else grep -R -n -m "
    ++ limit
    ++ words
    ++ codes "; fi"

abbrev pub search_command : Option SearchArgs → Result Text Command
search_command none = err (codes "invalid search args")
search_command (some args) =
    if is_empty args.pattern
    then err (codes "invalid search args")
    else on_path args.path (search_text args)

abbrev pub patch_command : Option Text → Result Text Command
patch_command none = err (codes "invalid apply_patch args")
patch_command (some patch) =
    if is_blank patch
    then err (codes "invalid apply_patch args")
    else ok (
        in_workspace (
          patch_head
          ++ pick_delimiter patch
          ++ codes "'"
          ++ 10 ∷ patch
          ++ 10 ∷ pick_delimiter patch
          ++ patch_tail))

-- The command of a tool call, or the error that keeps it from being run.
unfoldable pub command_of : Codec → ToolCall → Result Text Command
command_of codec call =
    if text_eq call.tool (codes "shell")
    then shell_command (codec.shell_args call.args)
    else if text_eq call.tool (codes "read_file")
    then read_command (codec.read_args call.args)
    else if text_eq call.tool (codes "write_file")
    then write_file_command codec.base64 (codec.write_args call.args)
    else if text_eq call.tool (codes "list_files")
    then list_command (codec.list_args call.args)
    else if text_eq call.tool (codes "search")
    then search_command (codec.search_args call.args)
    else if text_eq call.tool (codes "apply_patch")
    then patch_command (codec.patch_args call.args)
    else err (codes "unsupported tool")

abbrev cut_at : ℕ → Text → Text
cut_at limit text =
    if ltb limit (length text) then take limit text ++ 226 ∷ 128 ∷ 166 ∷ [] else text

-- `toolResultSummary`
unfoldable pub tool_result_summary : ToolResult → Text
tool_result_summary res =
    let out = cut_at 200 res.output in
    let error = cut_at 200 res.error in
    let head = res.tool ++ codes " exit=" ++ itoa_ℤ res.exit_code in
    if not (is_empty error)
    then head ++ codes " error=" ++ error
    else if not (is_blank out)
    then head ++ codes " output=" ++ trim_space out
    else head
