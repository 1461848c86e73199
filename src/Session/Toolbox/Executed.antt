-- ===== src/Session/Toolbox/Executed.antt =====
-- `executeTool`, `recordToolResult` and `emitToolOutput` of agent_tools.go: a tool call is run in the capsule.
use krellin.Prelude.Int.{ℤ, pos}
use krellin.Prelude.{Option, none, some, List, [], ◌∷◌, ◌++◌}
use krellin.Prelude.Text.{Text, codes}
use krellin.Prelude.Result.{Result, ok, err}
use krellin.Tools.Output.{truncate_output}
use krellin.Session.{ToolCall, ToolResult}
use krellin.Session.Context.{Context, add_tool_result}
use krellin.Session.Toolbox.{Codec, Command, command_of, tool_result_summary}

-- The capsule's answer: the output, the exit code, and the error of the call, if there is one.
pub record Executed : Type 0 where
  pub output : Text
  pub exit_code : ℤ
  pub error : Option Text

-- A session: the capsule's state, the conversation, and the tool results that were shown.
pub record Session (S : Type 0) : Type 0 where
  pub capsule : S
  pub context : Context
  pub shown : List ToolResult

-- `recordToolResult` and `emitToolOutput`
abbrev note_result : {S : Type 0} → ToolResult → Session S → Session S
note_result res s = record s {
  context = add_tool_result (tool_result_summary res) s.context;
  shown = s.shown ++ res ∷ [];
}

abbrev error_text : Option Text → Text
error_text none = []
error_text (some e) = e

module _ {S : Type 0} (codec : Codec) (exec : Option (Command → S → Executed × S)) where
  abbrev result : ToolCall → Text → ToolResult
  result call error = record {
    tool = call.tool;
    args = call.args;
    output = [];
    exit_code = pos 0;
    error = error;
  }

  abbrev executed : ToolCall → Executed → ToolResult
  executed call r = record {
    tool = call.tool;
    args = call.args;
    output = truncate_output r.output;
    exit_code = r.exit_code;
    error = error_text r.error;
  }

  abbrev pub run_in :
      (Command → S → Executed × S)
      → ToolCall
      → Result Text Command
      → Session S
      → ToolResult × Session S
  run_in run call (err e) s = (result call e, s)
  run_in run call (ok command) s =
      let (r, after) = run command s.capsule in
      let res = executed call r in (res, note_result res (record s { capsule = after }))

  -- `executeTool`; `none` is a session without a capsule.
  unfoldable pub execute_tool : ToolCall → Session S → ToolResult × Session S
  execute_tool call s = elim exec [
    | none ↦ let res = result call (codes "capsule not configured") in (res, note_result res s)
    | some run ↦ run_in run call (command_of codec call) s
  ]
