-- ===== src/Session/Rounds.antt =====
-- `runAgentWithTools`: the rounds of prompts and tool calls. The agent, the tools, the reading of answers and
-- the messages to the user are an interface, so that the rounds are those of any of them.
pub mod Bounded
pub mod Enforced
pub mod Gate
use krellin.Prelude.Int.{pos}
use krellin.Prelude.{
  ℕ, zero, suc, Bool, true, false, not, ◌&&◌, ◌||◌, Option, none, some, List, [], ◌∷◌, ◌++◌, ltb,
  if◌then◌else◌, length,
}
use krellin.Prelude.Text.{Text, codes, text_eq, is_empty}
use krellin.Prelude.Result.{Result, ok, err}
use krellin.Session.{ToolCall, ToolResult}
use krellin.Session.Prompts.{build_tool_prompt}

abbrev pub tool_max_rounds : ℕ
tool_max_rounds = 8

abbrev pub writes_file : Text → Bool
writes_file tool = text_eq tool (codes "write_file") || text_eq tool (codes "apply_patch")

-- `hasWriteResult`
unfoldable pub has_write_result : List ToolResult → Bool
has_write_result [] = false
has_write_result (res ∷ results) = writes_file res.tool || has_write_result results

-- `hasReadResult`
unfoldable pub has_read_result : List ToolResult → Bool
has_read_result [] = false
has_read_result (res ∷ results) = text_eq res.tool (codes "read_file") || has_read_result results

-- `hasAnyToolResult`
abbrev pub has_any_tool_result : List ToolResult → Bool
has_any_tool_result results = ltb 0 (length results)

-- `lastTool`
unfoldable pub last_tool : List ToolResult → Text
last_tool [] = []
last_tool (res ∷ []) = res.tool
last_tool (res ∷ more ∷ results) = last_tool (more ∷ results)

-- What the answer of an agent asks for: tool calls, a final answer, and whether it could be read.
pub record Reply : Type 0 where
  pub calls : List ToolCall
  pub final : Text
  pub readable : Bool

-- What a request must have done before a final answer counts.
pub record Enforce : Type 0 where
  pub tools : Bool
  pub write : Bool
  pub multi : Bool

pub data Outcome : Type 0 where
  agent_failed : Outcome
  answered : Text → Outcome
  plain : Text → Outcome
  limit_reached : Outcome

abbrev limit_message : Text
limit_message = codes "Agent exceeded tool call limit."

-- The string that is returned.
abbrev pub text_of : Outcome → Text
text_of agent_failed = []
text_of (answered final) = final
text_of (plain resp) = resp
text_of limit_reached = limit_message

abbrev tools_reminder : Text
tools_reminder = 10 ∷ 10 ∷ codes "Reminder: You must use tools for this request before responding."

abbrev steps_reminder : Text
steps_reminder =
    10
    ∷ 10
    ∷ codes
        "Reminder: The user asked for multiple steps. Complete all steps (use tools as needed) before responding."

abbrev write_reminder : Text
write_reminder =
    10
    ∷ 10
    ∷ codes
        "Reminder: The user asked for file changes. You must write the updated content via write_file before responding."

abbrev json_reminder : Text
json_reminder =
    10
    ∷ 10
    ∷ codes "Reminder: You must use tools for file or system changes. Respond with JSON tool calls."

abbrev read_reminder : Text
read_reminder =
    10
    ∷ 10
    ∷ codes
        "Reminder: You already read the file. Do not read again. Write the updated content now via write_file."

-- The reminder that keeps a final answer back, if any.
unfoldable pub held_back : Enforce → List ToolResult → Option Text
held_back e results =
    if e.tools && not (has_any_tool_result results)
    then some tools_reminder
    else if e.multi && ltb (length results) 2
    then some steps_reminder
    else if e.write && not (has_write_result results)
    then some write_reminder
    else none

-- A file has been read for a change and is not written yet.
abbrev pub write_due : Enforce → List ToolResult → Bool
write_due e results = e.write && has_read_result results && not (has_write_result results)

abbrev pub refused : ToolCall → ToolResult
refused call = record {
  tool = call.tool;
  args = call.args;
  output = [];
  exit_code = pos 0;
  error = codes "file already read; next step must be write_file or apply_patch";
}

-- The agent, the tools and the user of a session in the state `S`.
pub record Hands (S : Type 0) : Type 0 where
  -- `agentsRunner.Prompt`
  pub ask : Text → S → Result Text Text × S
  -- `executeTool`
  pub execute : ToolCall → S → ToolResult × S
  -- `emitAgentMessage`
  pub say : Text → S → S
  -- `parseToolResponse`
  pub read_reply : Text → Reply

pub data Next (S : Type 0) : Type 0 where
  stops : Outcome → S → Next S
  goes_on : Text → List ToolResult → S → Next S

module _ {S : Type 0} (hands : Hands S) where
  -- The loop over the tool calls of one answer.
  unfoldable pub run_calls : Enforce → List ToolCall → List ToolResult → S → List ToolResult × S
  run_calls e [] results s = (results, s)
  run_calls e (call ∷ calls) results s = elim (write_due e results && not (writes_file call.tool)) [
    | true ↦ run_calls e calls (results ++ refused call ∷ []) s
    | false ↦
        let (res, after) = hands.execute call s in run_calls e calls (results ++ res ∷ []) after
  ]

  -- The request of the next round, after the tool calls of this one.
  abbrev next_content : Enforce → Text → Text → List ToolResult → Text
  next_content e base content results =
      if write_due e results && text_eq (last_tool results) (codes "read_file")
      then base ++ read_reminder
      else content

  abbrev pub on_final : Enforce → Text → Text → List ToolResult → S → Next S
  on_final e base final results s = elim (held_back e results) [
    | some reminder ↦ goes_on (base ++ reminder) results s
    | none ↦ stops (answered final) (hands.say final s)
  ]

  abbrev on_calls : Enforce → Text → Text → List ToolCall → List ToolResult → S → Next S
  on_calls e base content calls results s =
      let (now, after) = run_calls e calls results s in
      goes_on (next_content e base content now) now after

  abbrev pub on_reply : Enforce → Text → Text → List ToolResult → Text → Reply → S → Next S
  on_reply e base content results resp reply s =
      if not (is_empty reply.final)
      then on_final e base reply.final results s
      else if not reply.readable || not (ltb 0 (length reply.calls))
      then if e.tools
        then goes_on (base ++ json_reminder) results s
        else stops (plain resp) (hands.say resp s)
      else on_calls e base content reply.calls results s

  abbrev pub on_answer : Enforce → Text → Text → List ToolResult → Result Text Text × S → Next S
  on_answer e base content results (err x, s) =
      stops agent_failed (hands.say (codes "Agent error: " ++ x) s)
  on_answer e base content results (ok resp, s) =
      on_reply e base content results resp (hands.read_reply resp) s

  -- One round of the loop.
  unfoldable pub one_round : Enforce → Text → Text → List ToolResult → S → Next S
  one_round e base content results s =
      on_answer e base content results (hands.ask (build_tool_prompt content results) s)

  -- The loop, with the rounds that are left; the results at the end are kept beside the outcome.
  unfoldable pub rounds :
      ℕ → Enforce → Text → Text → List ToolResult → S → Outcome × List ToolResult × S
  rounds zero e base content results s = (limit_reached, results, hands.say limit_message s)
  rounds (suc left) e base content results s = elim (one_round e base content results s) [
    | stops outcome after ↦ (outcome, results, after)
    | goes_on next now after ↦ rounds left e base next now after
  ]

  -- `runAgentWithTools`, after the planned execution has not answered.
  unfoldable pub run_rounds : Enforce → Text → S → Outcome × List ToolResult × S
  run_rounds e base s = rounds tool_max_rounds e base base [] s
